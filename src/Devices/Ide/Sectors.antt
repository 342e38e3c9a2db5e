-- ===== src/Devices/Ide/Sectors.antt =====
-- What `ide_read_sectors` and `ide_write_sectors` of sys/ide.c report, in `package[0]`.
use osproject.Prelude.{
  ℕ, ◌+◌, ◌%◌, ◌≤◌, ◌≡◌, ◌≢◌, sym, ◌∙◌, ap, inl, inr, Option, false, some, ◌==◌, if◌then◌else◌,
  Bool-cases, arith,
}
use mathlib.Core.Path.{subst}
use osproject.Prelude.State.{Op, >>=-eq-some}
use osproject.Devices.Ide.{Ide, Drives, ide_read, ide_print_error, error_code}
use osproject.Devices.Ide.Access.{
  ide_ata_access, missing, beyond, run_sectors, ide_read_sectors, ide_write_sectors, set_package,
}
use osproject.Devices.Ide.Quiet.{
  received, sent_blocks, Same, Same-refl, ide_read-Quiet, returned-value, returned-state,
}
use osproject.Devices.Ide.Outcome.{
  places, images, run_quietly, access_read-zero, access_write-sends,
}

error_code-positive : (st : ℕ) → error_code st ≢ 0
unfolding error_code
error_code-positive st e = ground arith

-- The error 0, and no other, is given back as 0, and no block moves.
abbrev Reported : ℕ → ℕ → Ide → Ide → Type 0
Reported err a s s' = (a ≡ 0 → err ≡ 0) × (err ≡ 0 → a ≡ 0) × Same s s'

plain-Reported :
    (err code a : ℕ) (s s' : Ide)
    → (code ≡ 0 → err ≡ 0)
    → (err ≡ 0 → code ≡ 0)
    → ◌≡◌ {A = Option (ℕ × Ide)} (some (code, s)) (some (a, s'))
    → Reported err a s s'
plain-Reported err code a s s' h h' e = (
  λ z. h (returned-value code a s s' e ∙ z),
  λ z. sym (returned-value code a s s' e) ∙ h' z,
  subst (Same s) (returned-state code a s s' e) (Same-refl s),
)

print_error-Reported :
    (hw : Drives) (drive err a : ℕ) (s s' : Ide)
    → ide_print_error hw drive err s ≡ some (a, s')
    → Reported err a s s'
unfolding ide_print_error
print_error-Reported hw drive err a s s' e = elim (Bool-cases (err == 1)) [
  | inl e1 ↦
      plain-Reported err 19 a s s' (λ z. absurd (omega arith)) (λ z. absurd (ground (arith, z, e1)))
        (rw e1 at e)
  | inr n1 ↦ elim (Bool-cases (err == 2)) [
    | inl e2 ↦
        let (st, t, same, rest) =
          run_quietly (ide_read hw (s.ide_devices drive).channel 0x01) _ s s' a
            (ide_read-Quiet hw (s.ide_devices drive).channel 0x01) (rw (n1, e2) at e) in
        (
          λ z. absurd (error_code-positive st (returned-value _ a t s' rest ∙ z)),
          λ z. absurd (ground (arith, z, e2)),
          subst (Same s) (returned-state _ a t s' rest) same,
        )
    | inr n2 ↦ elim (Bool-cases (err == 3)) [
      | inl e3 ↦
          plain-Reported err 23 a s s' (λ z. absurd (omega arith))
            (λ z. absurd (ground (arith, z, e3))) (rw (n1, n2, e3) at e)
      | inr n3 ↦ elim (Bool-cases (err == 4)) [
        | inl e4 ↦
            plain-Reported err 8 a s s' (λ z. absurd (omega arith))
              (λ z. absurd (ground (arith, z, e4))) (rw (n1, n2, n3, e4) at e)
        | inr n4 ↦ plain-Reported err err a s s' (λ z. z) (λ z. z) (rw (n1, n2, n3, n4) at e)
      ]
    ]
  ]
]

-- A run for a drive of type ATA: the access, and what is reported of it.
ata-Reported :
    (fuel : ℕ) (hw : Drives) (direction protected drive n lba buf : ℕ) (s s' : Ide) (u : Unit {0})
    → (s.ide_devices drive).kind ≡ 0
    → ◌≡◌ {A = Option (Unit {0} × Ide)}
        (run_sectors fuel hw direction protected drive n lba buf s)
        (some (u, s'))
    → (err : ℕ) × (t : Ide) × (ide_ata_access fuel hw direction drive lba n buf s ≡ some (err, t))
      × (s'.package_0 ≡ 0 → err ≡ 0)
      × (received s'.events ≡ received t.events)
      × (sent_blocks s'.events ≡ sent_blocks t.events)
      × (err ≡ 0 → s'.package_0 ≡ 0)
ata-Reported fuel hw direction protected drive n lba buf s s' u ata e =
    let (err, t, went, rest) =
      >>=-eq-some (ide_ata_access fuel hw direction drive lba n buf) _ s s' u (rw ata at e) in
    let (code, t1, went1, rest1) = >>=-eq-some (ide_print_error hw drive err) _ t s' u rest in
    let (h1, h2, same) = print_error-Reported hw drive err code t t1 went1 in
    let last = returned-state tt u (record t1 { package_0 = code }) s' rest1 in
    let code_is = ap (λ x. x.package_0) last in
    (
      err,
      t,
      went,
      λ z. h1 (code_is ∙ z),
      ap (λ x. received x.events) (sym last) ∙ same.blocks_in,
      ap (λ x. sent_blocks x.events) (sym last) ∙ same.blocks_out,
      λ z. sym code_is ∙ h2 z,
    )

-- A run of either operation that reports 0 is for a drive that is there and for sectors that it has.
checked :
    (drive n lba : ℕ) (run : Op Ide (Unit {0})) (s s' : Ide) (u : Unit {0})
    → (s.ide_devices drive).kind ≡ 0
    → ◌≡◌ {A = Option (Unit {0} × Ide)}
        (if missing drive s
          then set_package 1 s
          else if beyond drive n lba s
          then set_package 2 s
          else run s)
        (some (u, s'))
    → s'.package_0 ≡ 0
    → (drive ≤ 3)
      × ((s.ide_devices drive).reserved ≢ 0)
      × ((lba + n) % 4294967296 ≤ (s.ide_devices drive).size)
      × (◌≡◌ {A = Option (Unit {0} × Ide)} (run s) (some (u, s')))
checked drive n lba run s s' u ata e ok = elim (Bool-cases (missing drive s)) [
  | inl absent ↦ absurd (
      ground (
        arith,
        ok,
        ap (λ x. x.package_0)
            (returned-state tt u (record s { package_0 = 1 }) s' (rw absent at e)),
      ))
  | inr here ↦ elim (Bool-cases (beyond drive n lba s)) [
    | inl far ↦ absurd (
        ground (
          arith,
          ok,
          ap (λ x. x.package_0)
              (returned-state tt u (record s { package_0 = 2 }) s' (rw (here, far) at e)),
        ))
    | inr near ↦ (
      ground (arith, here),
      ground (arith, here),
      ground (arith, near, ata),
      rw (here, near) at e,
    )
  ]
]

-- `ide_read_sectors` for a drive of type ATA, whatever the drive answers: when it comes back with 0 in
-- `package[0]`, the drive is there, the sectors up to `lba + numsects`, as a number of 32 bits, are no more
-- than it has, and `numsects` blocks were received, one after the other from `buf` on.
pub ide_read_sectors-places :
    (fuel : ℕ) (hw : Drives) (drive n lba buf : ℕ) (s s' : Ide)
    → (s.ide_devices drive).kind ≡ 0
    → ide_read_sectors fuel hw drive n lba buf s ≡ some (tt, s')
    → s'.package_0 ≡ 0
    → (drive ≤ 3)
      × ((s.ide_devices drive).reserved ≢ 0)
      × ((lba + n) % 4294967296 ≤ (s.ide_devices drive).size)
      × (received s'.events ≡ places buf n 0 (received s.events))
unfolding ide_read_sectors
ide_read_sectors-places fuel hw drive n lba buf s s' ata e ok =
    let (h1, h2, h3, ran) =
      checked drive n lba (run_sectors fuel hw 0 0 drive n lba buf) s s' tt ata e ok in
    let (err, t, went, back, ins_same, _, _) =
      ata-Reported fuel hw 0 0 drive n lba buf s s' tt ata ran in
    (
      h1,
      h2,
      h3,
      ins_same
          ∙ access_read-zero fuel hw drive lba n buf s t (
              subst (λ x. ide_ata_access fuel hw 0 drive lba n buf s ≡ some (x, t)) (back ok) went),
    )

-- `ide_write_sectors` for a drive of type ATA that is there and has the sectors, whatever the drive
-- answers, errors too: when it comes back, `package[0]` is 0 and the `numsects` blocks of the memory from
-- `buf` on were sent, in their order.
pub ide_write_sectors-images :
    (fuel : ℕ) (hw : Drives) (drive n lba buf : ℕ) (s s' : Ide)
    → (s.ide_devices drive).kind ≡ 0
    → missing drive s ≡ false
    → beyond drive n lba s ≡ false
    → ide_write_sectors fuel hw drive n lba buf s ≡ some (tt, s')
    → (s'.package_0 ≡ 0) × (sent_blocks s'.events ≡ images s.memory buf n 0 (sent_blocks s.events))
unfolding ide_write_sectors
ide_write_sectors-images fuel hw drive n lba buf s s' ata here near e =
    let (err, t, went, _, _, out_same, fine) =
      ata-Reported fuel hw 1 4 drive n lba buf s s' tt ata (rw (here, near) at e) in
    let (moved, none_seen) = access_write-sends fuel hw drive lba n buf s t err went in
    (fine none_seen, out_same ∙ moved)
