-- ===== src/Devices/Ide/Address.antt =====
-- What a drive takes from its registers when `ide_ata_access` of sys/ide.c sends it a command.
use osproject.Prelude.{
  ℕ, ◌+◌, ◌-◌, ◌*◌, ◌/◌, ◌%◌, ◌≤◌, ◌<◌, ◌≡◌, refl, ◌∙◌, ◌⊎◌, inl, inr, Bool, true, false, ◌||◌,
  List, [], ◌∷◌, leb, ◌==◌, if◌then◌else◌, Bool-cases, arith,
}
use osproject.Devices.Disk.{bit}
use osproject.Devices.Ide.{Channel, Ide, Event, outb, inb, ins, outs}
use osproject.Devices.Ide.Access.{
  Address, lba48, lba28, chs, address_of, command_of, select_of, send_command,
}
use osproject.Devices.Ide.Writes.{
  IsPlaced, sent, short_writes, first_writes, send_command-events, select-sum,
}

-- A register of a drive keeps the last byte written to it and the one before.
abbrev pub current : ℕ → List Event → ℕ
current p [] = 0
current p (outb q v ∷ es) = if q == p then v else current p es
current p (inb _ ∷ es) = current p es
current p (ins _ _ _ ∷ es) = current p es
current p (outs _ _ ∷ es) = current p es

abbrev pub previous : ℕ → List Event → ℕ
previous p [] = 0
previous p (outb q v ∷ es) = if q == p then current p es else previous p es
previous p (inb _ ∷ es) = previous p es
previous p (ins _ _ _ ∷ es) = previous p es
previous p (outs _ _ ∷ es) = previous p es

-- The sector that a drive goes to: 48 bits for the two commands with a wide address, else 28 bits where
-- bit 6 of the select register is set, else cylinder, head and sector.
abbrev pub wide : ℕ → Bool
wide cmd = (cmd == 0x24) || (cmd == 0x34)

unfoldable pub sector_of : (cmd select b3 b4 b5 h3 h4 h5 : ℕ) → ℕ
sector_of cmd select b3 b4 b5 h3 h4 h5 =
    if wide cmd
    then b3 + 256 * b4 + 65536 * b5 + 16777216 * (h3 + 256 * h4 + 65536 * h5)
    else if bit 6 select
    then b3 + 256 * b4 + 65536 * b5 + 16777216 * (select % 16)
    else ((b4 + 256 * b5) * 16 + select % 16) * 63 + b3 - 1

unfoldable pub drive_lba : ℕ → List Event → ℕ
drive_lba base es =
    sector_of (current (base + 7) es) (current (base + 6) es) (current (base + 3) es)
      (current (base + 4) es) (current (base + 5) es) (previous (base + 3) es)
      (previous (base + 4) es) (previous (base + 5) es)

-- A write to a port, as its register and the others see it.
current_self : (p v : ℕ) (es : List Event) → current p (outb p v ∷ es) ≡ v
current_self p v es = ground arith

current_other :
    (p q v : ℕ) (es : List Event) → (q < p) ⊎ (p < q) → current p (outb q v ∷ es) ≡ current p es
current_other p q v es apart = ground arith

short-current :
    (base direction slavebit : ℕ) (a : Address) (n : ℕ) (es : List Event)
    → (current (base + 7) (short_writes base direction slavebit a n es)
        ≡ command_of a.lba_mode direction)
      × (current (base + 5) (short_writes base direction slavebit a n es) ≡ a.io2)
      × (current (base + 4) (short_writes base direction slavebit a n es) ≡ a.io1)
      × (current (base + 3) (short_writes base direction slavebit a n es) ≡ a.io0)
      × (current (base + 2) (short_writes base direction slavebit a n es) ≡ n)
      × (current (base + 6) (short_writes base direction slavebit a n es) ≡ current (base + 6) es)
short-current base direction slavebit a n es = ground arith

first-select :
    (c : Channel) (slavebit : ℕ) (a : Address) (es : List Event)
    → IsPlaced c
    → current (c.base + 6) (first_writes c slavebit a es) ≡ select_of a.lba_mode slavebit a.head
first-select c slavebit a es placed = ground (arith, placed.apart)

short-previous :
    (base direction slavebit : ℕ) (a : Address) (n : ℕ) (es : List Event)
    → (previous (base + 5) (short_writes base direction slavebit a n es) ≡ current (base + 5) es)
      × (previous (base + 4) (short_writes base direction slavebit a n es) ≡ current (base + 4) es)
      × (previous (base + 3) (short_writes base direction slavebit a n es) ≡ current (base + 3) es)
short-previous base direction slavebit a n es = ground arith

first-high :
    (c : Channel) (slavebit : ℕ) (a : Address) (es : List Event)
    → IsPlaced c
    → (a.lba_mode == 2) ≡ true
    → (current (c.base + 5) (first_writes c slavebit a es) ≡ a.io5)
      × (current (c.base + 4) (first_writes c slavebit a es) ≡ a.io4)
      × (current (c.base + 3) (first_writes c slavebit a es) ≡ a.io3)
first-high c slavebit a es placed e = ground (arith, placed.apart, e)

-- The sectors that a drive can be sent to: all of 32 bits with LBA, else 65536 cylinders.
abbrev pub IsInReach : ℕ → ℕ → Type 0
IsInReach capabilities lba =
    (lba < 4294967296) × (((bit 9 capabilities ≡ true) ⊎ (0x10000000 ≤ lba)) ⊎ (lba < 66060288))

-- What the drive is told.
pub record Told (c : Channel) (slavebit lba n : ℕ) (es : List Event) : Type 0 where
  pub sector : drive_lba c.base es ≡ lba
  pub drive : current (c.base + 6) es / 16 % 2 ≡ slavebit
  pub count : current (c.base + 2) es ≡ n

address-cases :
    (capabilities lba : ℕ)
    → IsInReach capabilities lba
    → (address_of capabilities lba ≡ lba48 lba)
      ⊎ ((lba < 0x10000000) × (address_of capabilities lba ≡ lba28 lba))
      ⊎ ((lba < 66060288) × (address_of capabilities lba ≡ chs lba))
unfolding address_of
address-cases capabilities lba (fits, reach) = elim (Bool-cases (leb 0x10000000 lba)) [
  | inl e ↦ inl (rw e refl)
  | inr e ↦ inr (elim (Bool-cases (bit 9 capabilities)) [
    | inl e' ↦ inl (ground arith, rw (e, e') refl)
    | inr e' ↦ inr (ground arith, rw (e, e') refl)
  ])
]

drive_lba-sector_of :
    (base : ℕ) (es : List Event) (cmd select b3 b4 b5 h3 h4 h5 : ℕ)
    → current (base + 7) es ≡ cmd
    → current (base + 6) es ≡ select
    → current (base + 3) es ≡ b3
    → current (base + 4) es ≡ b4
    → current (base + 5) es ≡ b5
    → previous (base + 3) es ≡ h3
    → previous (base + 4) es ≡ h4
    → previous (base + 5) es ≡ h5
    → drive_lba base es ≡ sector_of cmd select b3 b4 b5 h3 h4 h5
unfolding drive_lba
drive_lba-sector_of base es cmd select b3 b4 b5 h3 h4 h5 e7 e6 e3 e4 e5 f3 f4 f5 =
    rw (e7, e6, e3, e4, e5, f3, f4, f5) refl

-- The three forms of an address, read back.
short-sector_of :
    (direction slavebit : ℕ) (a : Address) (h3 h4 h5 : ℕ)
    → slavebit < 2
    → a.head < 16
    → (a.lba_mode == 2) ≡ false
    → sector_of
        (command_of a.lba_mode direction)
        ((if a.lba_mode == 0 then 0xA0 else 0xE0) + slavebit * 16 + a.head)
        a.io0
        a.io1
        a.io2
        h3
        h4
        h5
      ≡ (if a.lba_mode == 0
          then ((a.io1 + 256 * a.io2) * 16 + a.head) * 63 + a.io0 - 1
          else a.io0 + 256 * a.io1 + 65536 * a.io2 + 16777216 * a.head)
unfolding sector_of command_of
short-sector_of direction slavebit a h3 h4 h5 slave head mode = ground (arith, mode)

wide-sector_of :
    (direction select : ℕ) (a : Address)
    → (a.lba_mode == 2) ≡ true
    → sector_of (command_of a.lba_mode direction) select a.io0 a.io1 a.io2 a.io3 a.io4 a.io5
      ≡ a.io0 + 256 * a.io1 + 65536 * a.io2 + 16777216 * (a.io3 + 256 * a.io4 + 65536 * a.io5)
unfolding sector_of command_of
wide-sector_of direction select a mode = ground (arith, mode)

-- The registers after a command.
told-select :
    (c : Channel) (direction slavebit : ℕ) (a : Address) (n : ℕ) (es : List Event)
    → IsPlaced c
    → slavebit < 2
    → a.head < 16
    → current
        (c.base + 6)
        (short_writes c.base direction slavebit a n (first_writes c slavebit a es))
      ≡ (if a.lba_mode == 0 then 0xA0 else 0xE0) + slavebit * 16 + a.head
told-select c direction slavebit a n es placed slave head =
    (short-current c.base direction slavebit a n (first_writes c slavebit a es)).5
    ∙ first-select c slavebit a es placed
    ∙ select-sum a.lba_mode slavebit a.head slave head

told-drive_lba :
    (c : Channel) (direction slavebit : ℕ) (a : Address) (n : ℕ) (es : List Event)
    → IsPlaced c
    → slavebit < 2
    → a.head < 16
    → drive_lba c.base (short_writes c.base direction slavebit a n (first_writes c slavebit a es))
      ≡ (if a.lba_mode == 2
          then a.io0
            + 256 * a.io1
            + 65536 * a.io2
            + 16777216 * (a.io3 + 256 * a.io4 + 65536 * a.io5)
          else if a.lba_mode == 0
          then ((a.io1 + 256 * a.io2) * 16 + a.head) * 63 + a.io0 - 1
          else a.io0 + 256 * a.io1 + 65536 * a.io2 + 16777216 * a.head)
told-drive_lba c direction slavebit a n es placed slave head =
    let before = first_writes c slavebit a es in
    let (c7, c5, c4, c3, c2, c6) = short-current c.base direction slavebit a n before in
    let (f5, f4, f3) = short-previous c.base direction slavebit a n before in
    let sel = told-select c direction slavebit a n es placed slave head in
    elim (Bool-cases (a.lba_mode == 2)) [
      | inl e ↦
          let (h5, h4, h3) = first-high c slavebit a es placed e in
          drive_lba-sector_of c.base _ _ _ _ _ _ _ _ _ c7 sel c3 c4 c5 (f3 ∙ h3) (f4 ∙ h4) (f5 ∙ h5)
          ∙ wide-sector_of direction _ a e
          ∙ rw e refl
      | inr e ↦
          drive_lba-sector_of c.base _ _ _ _ _ _ _ _ _ c7 sel c3 c4 c5 f3 f4 f5
          ∙ short-sector_of direction slavebit a _ _ _ slave head e
          ∙ rw e refl
    ]

select-drive :
    (mode slavebit head select : ℕ)
    → slavebit < 2
    → head < 16
    → select ≡ (if mode == 0 then 0xA0 else 0xE0) + slavebit * 16 + head
    → select / 16 % 2 ≡ slavebit
select-drive mode slavebit head select slave small e = ground arith

-- The number that an address stands for.
abbrev value_of : Address → ℕ
value_of a =
    if a.lba_mode == 2
    then a.io0 + 256 * a.io1 + 65536 * a.io2 + 16777216 * (a.io3 + 256 * a.io4 + 65536 * a.io5)
    else if a.lba_mode == 0
    then ((a.io1 + 256 * a.io2) * 16 + a.head) * 63 + a.io0 - 1
    else a.io0 + 256 * a.io1 + 65536 * a.io2 + 16777216 * a.head

address_of-value :
    (capabilities lba : ℕ)
    → IsInReach capabilities lba
    → (value_of (address_of capabilities lba) ≡ lba) × ((address_of capabilities lba).head < 16)
address_of-value capabilities lba reach = elim (address-cases capabilities lba reach) [
  | inl e ↦ rw e (omega (arith, reach.0), omega arith)
  | inr (inl (small, e)) ↦ rw e (omega arith, omega arith)
  | inr (inr (small, e)) ↦ rw e (omega arith, omega arith)
]

-- The command that `ide_ata_access` sends for a sector that the drive can be sent to, over a channel whose
-- ports are its own: after its writes the drive has the sector's number in its registers, whichever of the
-- three forms of an address was used, and the drive's bit and the count of sectors that were asked for.
pub send_command-Told :
    (direction channel slavebit capabilities lba n : ℕ) (s : Ide)
    → IsPlaced (s.channels channel)
    → slavebit < 2
    → IsInReach capabilities lba
    → (es : List Event) × (send_command direction channel slavebit (address_of capabilities lba) n s
        ≡ sent s es)
      × Told (s.channels channel) slavebit lba n es
send_command-Told direction channel slavebit capabilities lba n s placed slave reach =
    let c = s.channels channel in
    let a = address_of capabilities lba in
    let (value, head) = address_of-value capabilities lba reach in
    (
      _,
      send_command-events direction channel slavebit a n s placed,
      record {
        sector = told-drive_lba c direction slavebit a n s.events placed slave head ∙ value;
        drive =
            select-drive a.lba_mode slavebit a.head _ slave head
              (told-select c direction slavebit a n s.events placed slave head);
        count =
            (short-current c.base direction slavebit a n (first_writes c slavebit a s.events)).4;
      },
    )
