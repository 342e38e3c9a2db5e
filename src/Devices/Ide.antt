-- ===== src/Devices/Ide.antt =====
-- sys/ide.c and include/sys/ide.h: the registers of the two channels, the polling of a drive and the codes
-- of its errors. The drives are a parameter, `Drives`; every access to a port is an `Event`.
pub mod Access
pub mod Writes
pub mod Address
pub mod Quiet
pub mod Outcome
pub mod Sectors
pub mod Ready
pub mod Return
pub mod Setup
pub mod Numbered
use Prim.Native.Nat.{bit_or}
use osproject.Prelude.{
  ℕ, zero, suc, ◌+◌, ◌-◌, ◌*◌, ◌/◌, ◌%◌, ◌^◌, ◌≡◌, Bool, true, false, Option, none, some, List, [],
  ◌∷◌, ltb, ◌==◌, if◌then◌else◌,
}
use osproject.Prelude.State.{Op, pure, ◌>>=◌, ◌>>◌, for_op, when}
use osproject.Devices.Disk.{bit}

-- `IDEChannelRegisters`.
pub record Channel : Type 0 where
  pub base : ℕ
  pub ctrl : ℕ
  pub bmide : ℕ
  pub n_ien : ℕ

-- `ide_device`; its serial numbers are not used.
pub record IdeDevice : Type 0 where
  pub reserved : ℕ
  pub channel : ℕ
  pub drive : ℕ
  pub kind : ℕ
  pub signature : ℕ
  pub capabilities : ℕ
  pub command_sets : ℕ
  pub size : ℕ
  pub model : List ℕ

-- A byte to a port, a byte from a port, and a block of bytes from a port to an address or back.
pub data Event : Type 0 where
  outb : ℕ → ℕ → Event
  inb : ℕ → Event
  ins : ℕ → ℕ → ℕ → Event
  outs : ℕ → List ℕ → Event

-- What the drives answer to what was done so far, the latest event first: the byte of a port, the byte at
-- an index of a block from a port, and whether an interrupt arrives in a round of a wait.
pub record Drives : Type 0 where
  pub answer : List Event → ℕ → ℕ
  pub block : List Event → ℕ → ℕ → ℕ
  pub interrupt : List Event → ℕ → Bool

-- The variables of ide.c, the memory, and what was done at the ports.
pub record Ide : Type 0 where
  pub ide_devices : ℕ → IdeDevice
  pub channels : ℕ → Channel
  pub ide_buf : ℕ → ℕ
  pub package_0 : ℕ
  pub ide_irq_invoked : ℕ
  pub memory : ℕ → ℕ
  pub events : List Event

-- The port of a register: the four groups of `ide_write` and `ide_read`.
unfoldable pub port_of : Channel → ℕ → Option ℕ
port_of c reg =
    if ltb reg 0x08
    then some ((c.base + reg) % 65536)
    else if ltb reg 0x0C
    then some ((c.base + reg - 0x06) % 65536)
    else if ltb reg 0x0E
    then some ((c.ctrl + reg - 0x0A) % 65536)
    else if ltb reg 0x16
    then some ((c.bmide + reg - 0x0E) % 65536)
    else none

abbrev pub out_port : Option ℕ → ℕ → List Event → List Event
out_port none val es = es
out_port (some p) val es = outb p val ∷ es

-- Registers 8 to 11 are written, and read, between two writes of the control register.
abbrev pub high : ℕ → Bool
high reg = if ltb 0x07 reg then ltb reg 0x0C else false

abbrev pub control : Channel → ℕ → List Event → List Event
control c val es = out_port (port_of c 0x0C) val es

-- `ide_write`, on the events.
unfoldable pub write_reg : Channel → ℕ → ℕ → List Event → List Event
write_reg c reg val es =
    if high reg
    then control c c.n_ien (out_port (port_of c reg) val (control c (bit_or 0x80 c.n_ien) es))
    else out_port (port_of c reg) val es

unfoldable pub ide_write : ℕ → ℕ → ℕ → Op Ide (Unit {0})
ide_write channel reg val s =
    some (tt, record s { events = write_reg (s.channels channel) reg val s.events })

-- The byte that is read, 'A' for no register.
abbrev pub in_port : Drives → Option ℕ → List Event → ℕ × List Event
in_port hw none es = (b'A', es)
in_port hw (some p) es = (hw.answer es p, inb p ∷ es)

unfoldable pub read_reg : Drives → Channel → ℕ → List Event → ℕ × List Event
read_reg hw c reg es =
    if high reg
    then (let r = in_port hw (port_of c reg) (control c (bit_or 0x80 c.n_ien) es) in
        (r.0, control c c.n_ien r.1))
    else in_port hw (port_of c reg) es

unfoldable pub ide_read : Drives → ℕ → ℕ → Op Ide ℕ
ide_read hw channel reg s =
    let r = read_reg hw (s.channels channel) reg s.events in some (r.0, record s { events = r.1 })

-- The block of `insl`, `count` bytes long, over what a buffer held.
abbrev pub fill : (ℕ → ℕ) → ℕ → ℕ → (ℕ → ℕ) → ℕ → ℕ
fill bytes addr count old k =
    if ltb k addr then old k else if ltb k (addr + count) then bytes (k - addr) else old k

-- The block that `insl` puts into `ide_buf`.
abbrev pub insl : Drives → Option ℕ → ℕ → Ide → Ide
insl hw none count s = s
insl hw (some p) count s = record s {
  events = ins p 0 count ∷ s.events;
  ide_buf = fill (hw.block s.events p) 0 count s.ide_buf;
}

abbrev pub guard_write : Bool → Channel → ℕ → Ide → Ide
guard_write test c val s = if test then record s { events = control c val s.events } else s

-- `ide_read_buffer` with `ide_buf` for its buffer, which is the only one it is called with.
unfoldable pub ide_read_buffer : Drives → ℕ → ℕ → ℕ → Op Ide (Unit {0})
ide_read_buffer hw channel reg quads s =
    let c = s.channels channel in
    let s1 = guard_write (high reg) c (bit_or 0x80 c.n_ien) s in
    some (tt, guard_write (high reg) c c.n_ien (insl hw (port_of c reg) (4 * quads) s1))

-- `while (ide_read(channel, ATA_REG_STATUS) & mask);` where `busy` is the test of a status, for `fuel`
-- rounds; `none` goes on waiting.
unfoldable pub wait_while : ℕ → Drives → (ℕ → Bool) → ℕ → Op Ide ℕ
wait_while zero hw busy channel = λ s. none
wait_while (suc fuel) hw busy channel = do
  status ← ide_read hw channel 0x07
  elim (busy status) [ false ↦ pure status | true ↦ wait_while fuel hw busy channel ]

-- The codes of `ide_polling` for a status, in the order of its tests.
unfoldable pub status_code : ℕ → ℕ
status_code state =
    if bit 0 state then 2 else if bit 5 state then 1 else if bit 3 state then 0 else 3

abbrev pub ignore_status : Drives → ℕ → ℕ → Op Ide (Unit {0})
ignore_status hw channel k = do _ ← ide_read hw channel 0x0C; pure tt

-- `ide_polling`.
unfoldable pub ide_polling : ℕ → Drives → ℕ → ℕ → Op Ide ℕ
ide_polling fuel hw channel advanced_check = do
  for_op 4 0 (ignore_status hw channel)
  _ ← wait_while fuel hw (bit 7) channel
  elim (advanced_check == 0) [
    | true ↦ pure 0
    | false ↦ (do state ← ide_read hw channel 0x07; pure (status_code state))
  ]

-- The last test that holds decides.
unfoldable pub error_code : ℕ → ℕ
error_code st =
    if bit 7 st
    then 13
    else if bit 6 st
    then 22
    else if bit 5 st
    then 3
    else if bit 4 st
    then 21
    else if bit 3 st
    then 3
    else if bit 2 st
    then 20
    else if bit 1 st
    then 3
    else if bit 0 st
    then 7
    else 2

-- `ide_print_error`, without what it prints.
unfoldable pub ide_print_error : Drives → ℕ → ℕ → Op Ide ℕ
ide_print_error hw drive err s =
    if err == 1
    then pure 19 s
    else if err == 2
    then (do st ← ide_read hw (s.ide_devices drive).channel 0x01; pure (error_code st)) s
    else if err == 3
    then pure 23 s
    else if err == 4
    then pure 8 s
    else pure err s

-- `ide_irq`, and `ide_wait_irq` for `fuel` rounds from round `n` on.
unfoldable pub ide_irq : Ide → Ide
ide_irq s = record s { ide_irq_invoked = 1 }

unfoldable pub wait_irq : ℕ → ℕ → Drives → Op Ide (Unit {0})
wait_irq zero n hw s = none
wait_irq (suc fuel) n hw s =
    let seen = if hw.interrupt s.events n then ide_irq s else s in
    elim (seen.ide_irq_invoked == 0) [
      | true ↦ wait_irq fuel (n + 1) hw seen
      | false ↦ some (tt, record seen { ide_irq_invoked = 0 })
    ]
