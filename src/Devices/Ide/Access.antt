-- ===== src/Devices/Ide/Access.antt =====
-- sys/ide.c, lines 342-510: `ide_ata_access`, `ide_read_sectors` and `ide_write_sectors`.
use Prim.Native.Nat.{bit_or}
use osproject.Prelude.{
  ℕ, zero, suc, ◌+◌, ◌-◌, ◌*◌, ◌/◌, ◌%◌, Bool, true, false, ◌&&◌, ◌||◌, some, List, [], ◌∷◌, ltb,
  leb, ◌==◌, if◌then◌else◌,
}
use osproject.Prelude.State.{Op, pure, ◌>>=◌, ◌>>◌, when}
use osproject.Devices.Disk.{bit}
use osproject.Devices.Ide.{
  Drives, Ide, fill, ins, outs, ide_write, wait_while, ide_polling, ide_print_error,
}

-- What `ide_ata_access` works out from a sector's number: `lba_mode` is 0 for CHS, 1 for LBA28 and 2 for
-- LBA48.
pub record Address : Type 0 where
  pub lba_mode : ℕ
  pub io0 : ℕ
  pub io1 : ℕ
  pub io2 : ℕ
  pub io3 : ℕ
  pub io4 : ℕ
  pub io5 : ℕ
  pub head : ℕ

abbrev pub lba48 : ℕ → Address
lba48 lba = record {
  lba_mode = 2;
  io0 = lba % 256;
  io1 = lba / 256 % 256;
  io2 = lba / 65536 % 256;
  io3 = lba / 16777216 % 256;
  io4 = 0;
  io5 = 0;
  head = 0;
}

abbrev pub lba28 : ℕ → Address
lba28 lba = record {
  lba_mode = 1;
  io0 = lba % 256;
  io1 = lba / 256 % 256;
  io2 = lba / 65536 % 256;
  io3 = 0;
  io4 = 0;
  io5 = 0;
  head = lba / 16777216 % 16;
}

-- 63 sectors a track, 16 heads; `cyl` has 16 bits.
abbrev pub chs : ℕ → Address
chs lba =
    let sect = lba % 63 + 1 in
    let cyl = (lba + 1 - sect) / 1008 % 65536 in
    record {
      lba_mode = 0;
      io0 = sect;
      io1 = cyl % 256;
      io2 = cyl / 256 % 256;
      io3 = 0;
      io4 = 0;
      io5 = 0;
      head = (lba + 1 - sect) % 1008 / 63;
    }

unfoldable pub address_of : ℕ → ℕ → Address
address_of capabilities lba =
    if leb 0x10000000 lba then lba48 lba else if bit 9 capabilities then lba28 lba else chs lba

-- `cmd`, without DMA; `direction` is 0 or 1.
unfoldable pub command_of : ℕ → ℕ → ℕ
command_of lba_mode direction =
    if direction == 0
    then if lba_mode == 2 then 0x24 else 0x20
    else if lba_mode == 2
    then 0x34
    else 0x30

-- The drive, with its head, in `ATA_REG_HDDEVSEL`.
unfoldable pub select_of : ℕ → ℕ → ℕ → ℕ
select_of lba_mode slavebit head =
    bit_or (bit_or (if lba_mode == 0 then 0xA0 else 0xE0) (slavebit * 16)) head % 256

-- Steps (IV) and (V): the drive is selected, the parameters are written, and the command.
unfoldable pub write_high : ℕ → Address → Op Ide (Unit {0})
write_high channel a = do
  ide_write channel 0x08 0
  ide_write channel 0x09 a.io3
  ide_write channel 0x0A a.io4
  ide_write channel 0x0B a.io5

unfoldable pub send_command : ℕ → ℕ → ℕ → Address → ℕ → Op Ide (Unit {0})
send_command direction channel slavebit a numsects = do
  ide_write channel 0x06 (select_of a.lba_mode slavebit a.head)
  when (a.lba_mode == 2) (write_high channel a)
  ide_write channel 0x02 numsects
  ide_write channel 0x03 a.io0
  ide_write channel 0x04 a.io1
  ide_write channel 0x05 a.io2
  ide_write channel 0x07 (command_of a.lba_mode direction)

-- `rep insw` of a sector to an address, and `rep outsw` of a sector from it.
unfoldable pub insw_sector : Drives → ℕ → ℕ → Op Ide (Unit {0})
insw_sector hw bus addr s = some (
  tt,
  record s {
    events = ins bus addr 512 ∷ s.events;
    memory = fill (hw.block s.events bus) addr 512 s.memory;
  },
)

unfoldable pub bytes_at : ℕ → ℕ → (ℕ → ℕ) → List ℕ
bytes_at zero addr memory = []
bytes_at (suc n) addr memory = memory addr ∷ bytes_at n (addr + 1) memory

unfoldable pub outsw_sector : ℕ → ℕ → Op Ide (Unit {0})
outsw_sector bus addr s =
    some (tt, record s { events = outs bus (bytes_at 512 addr s.memory) ∷ s.events })

-- The two loops over the sectors, from sector `i` on.
unfoldable pub read_loop : ℕ → Drives → ℕ → ℕ → ℕ → ℕ → ℕ → Op Ide ℕ
read_loop fuel hw channel bus buf zero i = pure 0
read_loop fuel hw channel bus buf (suc n) i = do
  err ← ide_polling fuel hw channel 1
  elim (err == 0) [
    | false ↦ pure err
    | true ↦ insw_sector hw bus (buf + i * 512) >> read_loop fuel hw channel bus buf n (i + 1)
  ]

unfoldable pub write_loop : ℕ → Drives → ℕ → ℕ → ℕ → ℕ → ℕ → Op Ide (Unit {0})
write_loop fuel hw channel bus buf zero i = pure tt
write_loop fuel hw channel bus buf (suc n) i = do
  _ ← ide_polling fuel hw channel 0
  outsw_sector bus (buf + i * 512)
  write_loop fuel hw channel bus buf n (i + 1)

-- `CACHE_FLUSH` for the mode.
abbrev pub flush_of : ℕ → ℕ
flush_of lba_mode = if lba_mode == 2 then 0xEA else 0xE7

unfoldable pub transfer : ℕ → Drives → ℕ → ℕ → ℕ → ℕ → ℕ → ℕ → Op Ide ℕ
transfer fuel hw direction channel bus buf numsects lba_mode = elim (direction == 0) [
  | true ↦ read_loop fuel hw channel bus buf numsects 0
  | false ↦ (do
    write_loop fuel hw channel bus buf numsects 0
    ide_write channel 0x07 (flush_of lba_mode)
    _ ← ide_polling fuel hw channel 0
    pure 0)
]

-- Interrupts off: `nIEN` is set, and with it the control register.
unfoldable pub disable_irqs : ℕ → Op Ide (Unit {0})
disable_irqs channel s =
    let c = s.channels channel in
    ide_write channel 0x0C 2 (record s {
      ide_irq_invoked = 0;
      channels = λ k. if k == channel then record c { n_ien = 2 } else s.channels k;
    })

-- `ide_ata_access`; `direction` is 0 for a read and 1 for a write.
unfoldable pub ide_ata_access : ℕ → Drives → ℕ → ℕ → ℕ → ℕ → ℕ → Op Ide ℕ
ide_ata_access fuel hw direction drive lba numsects buf s =
    let d = s.ide_devices drive in
    let bus = (s.channels d.channel).base in
    let a = address_of d.capabilities lba in
    (do
      disable_irqs d.channel
      _ ← wait_while fuel hw (bit 7) d.channel
      send_command direction d.channel d.drive a numsects
      transfer fuel hw direction d.channel bus buf numsects a.lba_mode)
      s

abbrev pub set_package : ℕ → Op Ide (Unit {0})
set_package code s = some (tt, record s { package_0 = code })

-- The tests of `ide_read_sectors` and `ide_write_sectors`: `lba + numsects` has 32 bits.
abbrev pub missing : ℕ → Ide → Bool
missing drive s = ltb 3 drive || ((s.ide_devices drive).reserved == 0)

abbrev pub beyond : ℕ → ℕ → ℕ → Ide → Bool
beyond drive numsects lba s =
    ltb (s.ide_devices drive).size ((lba + numsects) % 4294967296)
    && ((s.ide_devices drive).kind == 0)

-- The part of both for a drive that is there and sectors that it has.
abbrev pub run_sectors : ℕ → Drives → ℕ → ℕ → ℕ → ℕ → ℕ → ℕ → Op Ide (Unit {0})
run_sectors fuel hw direction protected drive numsects lba buf s =
    let d = s.ide_devices drive in
    (do
      err ← elim (d.kind == 0) [
        | true ↦ ide_ata_access fuel hw direction drive lba numsects buf
        | false ↦ pure (if d.kind == 1 then protected else 0)
      ]
      code ← ide_print_error hw drive err
      set_package code)
      s

unfoldable pub ide_read_sectors : ℕ → Drives → ℕ → ℕ → ℕ → ℕ → Op Ide (Unit {0})
ide_read_sectors fuel hw drive numsects lba buf s =
    if missing drive s
    then set_package 1 s
    else if beyond drive numsects lba s
    then set_package 2 s
    else run_sectors fuel hw 0 0 drive numsects lba buf s

unfoldable pub ide_write_sectors : ℕ → Drives → ℕ → ℕ → ℕ → ℕ → Op Ide (Unit {0})
ide_write_sectors fuel hw drive numsects lba buf s =
    if missing drive s
    then set_package 1 s
    else if beyond drive numsects lba s
    then set_package 2 s
    else run_sectors fuel hw 1 4 drive numsects lba buf s
