-- ===== src/Devices/Ide/Writes.antt =====
-- The writes that a command of sys/ide.c is sent with, lines 398-428 with `ide_write`.
use Prim.Native.Nat.{bit_or}
use osproject.Prelude.{
  ℕ, zero, suc, ◌+◌, ◌-◌, ◌*◌, ◌%◌, ◌≤◌, ◌<◌, ◌≡◌, refl, ◌∙◌, ap, ◌⊎◌, inl, inr, Bool, Option, some,
  List, ◌∷◌, ◌==◌, if◌then◌else◌, Bool-cases, not, none, arith,
}
use osproject.Prelude.Loops.{first_from, first_from-none}
use osproject.Prelude.State.{Op, ◌>>=◌, ◌>>◌, when}
use osproject.Devices.Ide.{Channel, Ide, Event, outb, port_of, write_reg, ide_write}
use osproject.Devices.Ide.Access.{Address, command_of, select_of, write_high, send_command}

-- The ports of a channel's registers are its own, and those of its control register are elsewhere.
pub record IsPlaced (c : Channel) : Type 0 where
  pub fits : c.base + 7 < 65536
  pub apart : (c.ctrl + 2 < c.base) ⊎ (c.base + 7 < c.ctrl + 2)
  pub ctrl_fits : c.ctrl + 2 < 65536

-- The two ways that the parameters are written.
abbrev pub short_writes : ℕ → ℕ → ℕ → Address → ℕ → List Event → List Event
short_writes base direction slavebit a n es =
    outb (base + 7) (command_of a.lba_mode direction)
    ∷ outb (base + 5) a.io2
    ∷ outb (base + 4) a.io1
    ∷ outb (base + 3) a.io0
    ∷ outb (base + 2) n
    ∷ es

abbrev pub high_write : ℕ → ℕ → ℕ → ℕ → List Event → List Event
high_write ctl n_ien p v es = outb ctl n_ien ∷ outb p v ∷ outb ctl (bit_or 0x80 n_ien) ∷ es

write_reg-low :
    (c : Channel) (reg v : ℕ) (es : List Event)
    → IsPlaced c
    → reg < 8
    → write_reg c reg v es ≡ outb (c.base + reg) v ∷ es
unfolding write_reg port_of
write_reg-low c reg v es placed low = ground (arith, placed.fits)

write_reg-high :
    (c : Channel) (reg v : ℕ) (es : List Event)
    → IsPlaced c
    → 8 ≤ reg
    → reg < 12
    → write_reg c reg v es ≡ high_write (c.ctrl + 2) c.n_ien (c.base + (reg - 6)) v es
unfolding write_reg port_of
write_reg-high c reg v es placed low h = ground (arith, placed.fits, placed.ctrl_fits)

-- The select register is a sum: no drive and head with another value.
abbrev misfit : ℕ → ℕ → ℕ → Bool
misfit mode slavebit head =
    not (bit_or (bit_or mode (slavebit * 16)) head % 256 == mode + slavebit * 16 + head)

no_misfit :
    (slavebit : ℕ)
    → slavebit < 2
    → (first_from 16 0 (misfit 0xA0 slavebit) ≡ none)
      × (first_from 16 0 (misfit 0xE0 slavebit) ≡ none)
unfolding first_from
no_misfit zero h = (refl, refl)
no_misfit (suc zero) h = (refl, refl)
no_misfit (suc (suc k)) h = absurd (omega arith)

fits_lem :
    (mode slavebit head : ℕ)
    → first_from 16 0 (misfit mode slavebit) ≡ none
    → head < 16
    → bit_or (bit_or mode (slavebit * 16)) head % 256 ≡ mode + slavebit * 16 + head
fits_lem mode slavebit head found small =
    ground
      (arith, first_from-none 16 0 (misfit mode slavebit) found head (omega arith) (omega arith))

pub select-sum :
    (mode slavebit head : ℕ)
    → slavebit < 2
    → head < 16
    → select_of mode slavebit head ≡ (if mode == 0 then 0xA0 else 0xE0) + slavebit * 16 + head
unfolding select_of
select-sum mode slavebit head h1 h2 = elim (Bool-cases (mode == 0)) [
  | inl e ↦ rw e (fits_lem 0xA0 slavebit head (no_misfit slavebit h1).0 h2)
  | inr e ↦ rw e (fits_lem 0xE0 slavebit head (no_misfit slavebit h1).1 h2)
]

abbrev pub sent : Ide → List Event → Option (Unit {0} × Ide)
sent s es = some (tt, record s { events = es })

abbrev pub wide_writes : Channel → Address → List Event → List Event
wide_writes c a es = high_write (c.ctrl + 2) c.n_ien (c.base + 5) a.io5 (
    high_write (c.ctrl + 2) c.n_ien (c.base + 4) a.io4 (
      high_write (c.ctrl + 2) c.n_ien (c.base + 3) a.io3
        (high_write (c.ctrl + 2) c.n_ien (c.base + 2) 0 es)))

ide_write-low :
    (channel reg v : ℕ) (s : Ide)
    → IsPlaced (s.channels channel)
    → reg < 8
    → ide_write channel reg v s ≡ sent s (outb ((s.channels channel).base + reg) v ∷ s.events)
unfolding ide_write
ide_write-low channel reg v s placed low =
    ap (sent s) (write_reg-low (s.channels channel) reg v s.events placed low)

ide_write-high :
    (channel reg v : ℕ) (s : Ide)
    → IsPlaced (s.channels channel)
    → 8 ≤ reg
    → reg < 12
    → ide_write channel reg v s
      ≡ sent s (
          high_write
            ((s.channels channel).ctrl + 2)
            (s.channels channel).n_ien
            ((s.channels channel).base + (reg - 6))
            v
            s.events)
unfolding ide_write
ide_write-high channel reg v s placed low h =
    ap (sent s) (write_reg-high (s.channels channel) reg v s.events placed low h)

abbrev pub with_events : Ide → List Event → Ide
with_events s es = record s { events = es }

-- A step that only adds events, and what follows it.
sent-then :
    (m k : Op Ide (Unit {0})) (s : Ide) (es : List Event)
    → m s ≡ sent s es
    → (m >> k) s ≡ k (with_events s es)
sent-then m k s es e = rw (e, ◌>>=◌) refl

low-then :
    (channel reg v : ℕ) (k : Op Ide (Unit {0})) (s : Ide)
    → IsPlaced (s.channels channel)
    → reg < 8
    → (ide_write channel reg v >> k) s
      ≡ k (with_events s (outb ((s.channels channel).base + reg) v ∷ s.events))
low-then channel reg v k s placed low =
    sent-then (ide_write channel reg v) k s _ (ide_write-low channel reg v s placed low)

high-then :
    (channel reg v : ℕ) (k : Op Ide (Unit {0})) (s : Ide)
    → IsPlaced (s.channels channel)
    → 8 ≤ reg
    → reg < 12
    → (ide_write channel reg v >> k) s
      ≡ k (
          with_events s (
            high_write
              ((s.channels channel).ctrl + 2)
              (s.channels channel).n_ien
              ((s.channels channel).base + (reg - 6))
              v
              s.events))
high-then channel reg v k s placed low h =
    sent-then (ide_write channel reg v) k s _ (ide_write-high channel reg v s placed low h)

write_high-events :
    (channel : ℕ) (a : Address) (s : Ide)
    → IsPlaced (s.channels channel)
    → write_high channel a s ≡ sent s (wide_writes (s.channels channel) a s.events)
unfolding write_high
write_high-events channel a s placed =
    let c = s.channels channel in
    let one = high_write (c.ctrl + 2) c.n_ien in
    let e1 = one (c.base + 2) 0 s.events in
    let e2 = one (c.base + 3) a.io3 e1 in
    let e3 = one (c.base + 4) a.io4 e2 in
    high-then channel 8 0 _ s placed (omega arith) (omega arith)
    ∙ high-then channel 9 a.io3 _ (with_events s e1) placed (omega arith) (omega arith)
    ∙ high-then channel 10 a.io4 _ (with_events s e2) placed (omega arith) (omega arith)
    ∙ ide_write-high channel 11 a.io5 (with_events s e3) placed (omega arith) (omega arith)

-- The writes before the parameters' low bytes.
abbrev pub first_writes : Channel → ℕ → Address → List Event → List Event
first_writes c slavebit a es =
    let selected = outb (c.base + 6) (select_of a.lba_mode slavebit a.head) ∷ es in
    if a.lba_mode == 2 then wide_writes c a selected else selected

when-high :
    (channel : ℕ) (a : Address) (s : Ide)
    → IsPlaced (s.channels channel)
    → when (a.lba_mode == 2) (write_high channel a) s
      ≡ sent s (if a.lba_mode == 2 then wide_writes (s.channels channel) a s.events else s.events)
when-high channel a s placed = elim (Bool-cases (a.lba_mode == 2)) [
  | inl e ↦ rw e (write_high-events channel a s placed)
  | inr e ↦ rw e refl
]

pub send_command-events :
    (direction channel slavebit : ℕ) (a : Address) (n : ℕ) (s : Ide)
    → IsPlaced (s.channels channel)
    → send_command direction channel slavebit a n s
      ≡ sent s (
          short_writes
            (s.channels channel).base
            direction
            slavebit
            a
            n
            (first_writes (s.channels channel) slavebit a s.events))
unfolding send_command
send_command-events direction channel slavebit a n s placed =
    let c = s.channels channel in
    let sel = select_of a.lba_mode slavebit a.head in
    let e1 = outb (c.base + 6) sel ∷ s.events in
    let e2 = first_writes c slavebit a s.events in
    let e3 = outb (c.base + 2) n ∷ e2 in
    let e4 = outb (c.base + 3) a.io0 ∷ e3 in
    let e5 = outb (c.base + 4) a.io1 ∷ e4 in
    let e6 = outb (c.base + 5) a.io2 ∷ e5 in
    low-then channel 6 sel _ s placed (omega arith)
    ∙ sent-then (when (a.lba_mode == 2) (write_high channel a)) _ (with_events s e1) e2
        (when-high channel a (with_events s e1) placed)
    ∙ low-then channel 2 n _ (with_events s e2) placed (omega arith)
    ∙ low-then channel 3 a.io0 _ (with_events s e3) placed (omega arith)
    ∙ low-then channel 4 a.io1 _ (with_events s e4) placed (omega arith)
    ∙ low-then channel 5 a.io2 _ (with_events s e5) placed (omega arith)
    ∙ ide_write-low channel 7 (command_of a.lba_mode direction) (with_events s e6) placed
        (omega arith)
