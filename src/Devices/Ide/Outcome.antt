-- ===== src/Devices/Ide/Outcome.antt =====
-- How `ide_ata_access` of sys/ide.c comes back.
use mathlib.Core.Path.{subst}
use osproject.Prelude.{
  ℕ, zero, suc, ◌+◌, ◌*◌, ◌≡◌, ◌≢◌, refl, sym, ◌∙◌, ap, inl, inr, Bool, Option, true, false, some,
  List, ◌∷◌, ◌==◌, Bool-cases, arith,
}
use osproject.Prelude.State.{Op, ◌>>=◌, ◌>>◌, when, >>=-eq-some}
use osproject.Devices.Disk.{bit}
use osproject.Devices.Ide.{Ide, Drives, ide_write, wait_while, ide_polling}
use osproject.Devices.Ide.Access.{
  Address, address_of, write_high, send_command, insw_sector, outsw_sector, bytes_at, read_loop,
  write_loop, transfer, flush_of, disable_irqs, ide_ata_access,
}
use osproject.Devices.Ide.Quiet.{
  received, sent_blocks, Same, Quiet, Same-trans, bind-Quiet, pure-Quiet, ide_write-Quiet,
  wait_while-Quiet, ide_polling-Quiet, returned-value, returned-state,
}

-- The places of `n` sectors from sector `i` on, and what the memory holds there, the latest first.
abbrev pub places : ℕ → ℕ → ℕ → List ℕ → List ℕ
places buf zero i acc = acc
places buf (suc n) i acc = places buf n (i + 1) ((buf + i * 512) ∷ acc)

abbrev pub images : (ℕ → ℕ) → ℕ → ℕ → ℕ → List (List ℕ) → List (List ℕ)
images memory buf zero i acc = acc
images memory buf (suc n) i acc =
    images memory buf n (i + 1) (bytes_at 512 (buf + i * 512) memory ∷ acc)

write_high-Quiet : (channel : ℕ) (a : Address) → Quiet (write_high channel a)
unfolding write_high
write_high-Quiet channel a =
    bind-Quiet (ide_write channel 0x08 0) _ (ide_write-Quiet channel 0x08 0) (λ _.
      bind-Quiet (ide_write channel 0x09 a.io3) _ (ide_write-Quiet channel 0x09 a.io3) (λ _.
        bind-Quiet (ide_write channel 0x0A a.io4) _ (ide_write-Quiet channel 0x0A a.io4)
          (λ _. ide_write-Quiet channel 0x0B a.io5)))

when-Quiet : (test : Bool) (m : Op Ide (Unit {0})) → Quiet m → Quiet (when test m)
when-Quiet true m h = h
when-Quiet false m h = pure-Quiet tt

-- A write to a register, and what follows it.
low-Quiet :
    (channel reg v : ℕ) (k : Op Ide (Unit {0})) → Quiet k → Quiet (ide_write channel reg v >> k)
low-Quiet channel reg v k h =
    bind-Quiet (ide_write channel reg v) (λ _. k) (ide_write-Quiet channel reg v) (λ _. h)

send_command-Quiet :
    (direction channel slavebit : ℕ) (a : Address) (n : ℕ)
    → Quiet (send_command direction channel slavebit a n)
unfolding send_command
send_command-Quiet direction channel slavebit a n = low-Quiet channel 0x06 _ _ (
    bind-Quiet (when (a.lba_mode == 2) (write_high channel a)) _
      (when-Quiet (a.lba_mode == 2) (write_high channel a) (write_high-Quiet channel a))
      (λ _. low-Quiet channel 0x02 _ _ (
        low-Quiet channel 0x03 _ _ (
          low-Quiet channel 0x04 _ _
            (low-Quiet channel 0x05 _ _ (ide_write-Quiet channel 0x07 _))))))

disable_irqs-Quiet : (channel : ℕ) → Quiet (disable_irqs channel)
unfolding disable_irqs
disable_irqs-Quiet channel s s' a e =
    let h = ide_write-Quiet channel 0x0C 2 _ s' a e in
    record {
      blocks_in = h.blocks_in;
      blocks_out = h.blocks_out;
      memory = h.memory;
      devices = h.devices;
    }

nonzero : (err : ℕ) → err ≡ 0 → (err == 0) ≢ false
nonzero err e bad = ground arith

read_loop-zero :
    (fuel : ℕ) (hw : Drives) (channel bus buf n i : ℕ) (s s' : Ide)
    → read_loop fuel hw channel bus buf n i s ≡ some (0, s')
    → (received s'.events ≡ places buf n i (received s.events)) × (s'.ide_devices ≡ s.ide_devices)
unfolding read_loop insw_sector
read_loop-zero fuel hw channel bus buf zero i s s' e =
    subst (λ t. (received t.events ≡ received s.events) × (t.ide_devices ≡ s.ide_devices))
      (returned-state 0 0 s s' e) (refl, refl)
read_loop-zero fuel hw channel bus buf (suc n) i s s' e =
    let (err, t, went, rest) = >>=-eq-some (ide_polling fuel hw channel 1) _ s s' 0 e in
    let quiet = ide_polling-Quiet fuel hw channel 1 s t err went in
    elim (Bool-cases (err == 0)) [
      | inl fine ↦
          let (h1, h2) = read_loop-zero fuel hw channel bus buf n (i + 1) _ s' (rw fine at rest) in
          (
            h1 ∙ ap (λ r. places buf n (i + 1) ((buf + i * 512) ∷ r)) quiet.blocks_in,
            h2 ∙ quiet.devices,
          )
      | inr bad ↦ absurd (nonzero err (returned-value err 0 t s' (rw bad at rest)) bad)
    ]

-- The writing loop comes back only with all sectors sent.
write_loop-sends :
    (fuel : ℕ) (hw : Drives) (channel bus buf n i : ℕ) (s s' : Ide) (u : Unit {0})
    → ◌≡◌ {A = Option (Unit {0} × Ide)} (write_loop fuel hw channel bus buf n i s) (some (u, s'))
    → (sent_blocks s'.events ≡ images s.memory buf n i (sent_blocks s.events))
      × (s'.ide_devices ≡ s.ide_devices)
unfolding write_loop outsw_sector
write_loop-sends fuel hw channel bus buf zero i s s' u e =
    subst (λ t. (sent_blocks t.events ≡ sent_blocks s.events) × (t.ide_devices ≡ s.ide_devices))
      (returned-state tt u s s' e) (refl, refl)
write_loop-sends fuel hw channel bus buf (suc n) i s s' u e =
    let (err, t, went, rest) = >>=-eq-some (ide_polling fuel hw channel 0) _ s s' u e in
    let quiet = ide_polling-Quiet fuel hw channel 0 s t err went in
    let (h1, h2) = write_loop-sends fuel hw channel bus buf n (i + 1) _ s' u rest in
    (h1 ∙ rw (quiet.blocks_out, quiet.memory) refl, h2 ∙ quiet.devices)

pub run_quietly :
    {A B : Type 0} (m : Op Ide A) (f : A → Op Ide B) (s s' : Ide) (b : B)
    → Quiet m
    → ◌≡◌ {A = Option (B × Ide)} ((m >>= f) s) (some (b, s'))
    → (a : A) × (t : Ide) × Same s t × (◌≡◌ {A = Option (B × Ide)} (f a t) (some (b, s')))
run_quietly m f s s' b quiet e =
    let (a, t, went, rest) = >>=-eq-some m f s s' b e in (a, t, quiet s t a went, rest)

-- Every run of `ide_ata_access` comes to its transfer with nothing moved.
ata_access-transfer :
    (fuel : ℕ) (hw : Drives) (direction drive lba n buf : ℕ) (s s' : Ide) (err : ℕ)
    → ide_ata_access fuel hw direction drive lba n buf s ≡ some (err, s')
    → (channel bus mode : ℕ) × (t : Ide) × Same s t
      × (transfer fuel hw direction channel bus buf n mode t ≡ some (err, s'))
unfolding ide_ata_access
ata_access-transfer fuel hw direction drive lba n buf s s' err e =
    let d = s.ide_devices drive in
    let a = address_of d.capabilities lba in
    let (_, t1, same1, e1) =
      run_quietly (disable_irqs d.channel) _ s s' err (disable_irqs-Quiet d.channel) e in
    let (_, t2, same2, e2) =
      run_quietly (wait_while fuel hw (bit 7) d.channel) _ t1 s' err
        (wait_while-Quiet fuel hw (bit 7) d.channel) e1 in
    let (_, t3, same3, e3) =
      run_quietly (send_command direction d.channel d.drive a n) _ t2 s' err
        (send_command-Quiet direction d.channel d.drive a n) e2 in
    (
      d.channel,
      (s.channels d.channel).base,
      a.lba_mode,
      t3,
      Same-trans s t1 t3 same1 (Same-trans t1 t2 t3 same2 same3),
      e3,
    )

pub access_read-zero :
    (fuel : ℕ) (hw : Drives) (drive lba n buf : ℕ) (s s' : Ide)
    → ide_ata_access fuel hw 0 drive lba n buf s ≡ some (0, s')
    → received s'.events ≡ places buf n 0 (received s.events)
unfolding transfer
access_read-zero fuel hw drive lba n buf s s' e =
    let (channel, bus, mode, t, same, moved) =
      ata_access-transfer fuel hw 0 drive lba n buf s s' 0 e in
    (read_loop-zero fuel hw channel bus buf n 0 t s' moved).0 ∙ ap (places buf n 0) same.blocks_in

pub access_write-sends :
    (fuel : ℕ) (hw : Drives) (drive lba n buf : ℕ) (s s' : Ide) (err : ℕ)
    → ide_ata_access fuel hw 1 drive lba n buf s ≡ some (err, s')
    → (sent_blocks s'.events ≡ images s.memory buf n 0 (sent_blocks s.events)) × (err ≡ 0)
unfolding transfer
access_write-sends fuel hw drive lba n buf s s' err e =
    let (channel, bus, mode, t, same, moved) =
      ata_access-transfer fuel hw 1 drive lba n buf s s' err e in
    let (u, t1, went1, e1) =
      >>=-eq-some (write_loop fuel hw channel bus buf n 0) _ t s' err moved in
    let (_, t2, same2, e2) =
      run_quietly (ide_write channel 0x07 (flush_of mode)) _ t1 s' err
        (ide_write-Quiet channel 0x07 (flush_of mode)) e1 in
    let (_, t3, same3, e3) =
      run_quietly (ide_polling fuel hw channel 0) _ t2 s' err (ide_polling-Quiet fuel hw channel 0)
        e2 in
    (
      ap (λ t. sent_blocks t.events) (sym (returned-state 0 err t3 s' e3))
          ∙ same3.blocks_out
          ∙ same2.blocks_out
          ∙ (write_loop-sends fuel hw channel bus buf n 0 t t1 u went1).0
          ∙ rw (same.blocks_out, same.memory) refl,
      sym (returned-value 0 err t3 s' e3),
    )
