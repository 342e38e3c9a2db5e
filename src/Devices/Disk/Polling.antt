-- ===== src/Devices/Disk/Polling.antt =====
-- The waits of `readorwrite` of sys/ahci.c.
use osproject.Prelude.{
  ℕ, zero, suc, ◌+◌, ◌≤◌, ◌<◌, ◌≡◌, refl, sym, Bool, true, false, ◌||◌, some, ◌==◌, Bool-cases, inl,
  inr, arith,
}
use mathlib.Core.Path.{subst}
use native.Mathlib.Decide.{ℕ_discrete}
use osproject.Devices.Disk.{
  Port, Controller, bit, find_cmdslot, disk_command, spin_from, complete, issued, readorwrite,
}

-- The port is busy at the n-th reading.
abbrev pub busy : Controller → ℕ → Bool
busy hba n = bit 7 (hba.tfd n) || bit 3 (hba.tfd n)

-- The wait ends no later than a reading at which the port is not busy.
spin_from-bound :
    (n spin : ℕ) (hba : Controller) (p : ℕ)
    → spin ≤ p
    → p < spin + n
    → busy hba p ≡ false
    → spin_from n spin hba ≤ p
unfolding spin_from
spin_from-bound zero spin hba p low high idle = absurd (omega arith)
spin_from-bound (suc n) spin hba p low high idle = elim (Bool-cases (busy hba spin)) [
  | inr now ↦ rw (now, spin_from) low
  | inl later ↦ elim (ℕ_discrete spin p) [
    | yes same ↦ absurd (cc)
    | no other ↦
        rw (later, spin_from) (spin_from-bound n (spin + 1) hba p (omega arith) (omega arith) idle)
  ]
]

-- The command is done at round `d`: the slot's bit is clear there, for the first time, and no round up to
-- it shows an error.
pub record DoneAt (slot : ℕ) (hba : Controller) (d : ℕ) : Type 0 where
  pub clear : bit slot (hba.ci d) ≡ false
  pub waiting : (n : ℕ) → n < d → bit slot (hba.ci n) ≡ true
  pub no_error : (n : ℕ) → n ≤ d → bit 30 (hba.is_rwc n) ≡ false

complete_clear :
    (fuel n slot : ℕ) (hba : Controller)
    → bit slot (hba.ci n) ≡ false
    → bit 30 (hba.is_rwc n) ≡ false
    → complete (suc fuel) n slot hba ≡ some true
unfolding complete
complete_clear fuel n slot hba clear ok = rw (clear, complete) (rw ok refl)

complete-DoneAt :
    (fuel n slot : ℕ) (hba : Controller) (d : ℕ)
    → n ≤ d
    → d < n + fuel
    → DoneAt slot hba d
    → complete fuel n slot hba ≡ some true
unfolding complete
complete-DoneAt zero n slot hba d low high done = absurd (omega arith)
complete-DoneAt (suc fuel) n slot hba d low high done = elim (ℕ_discrete n d) [
  | yes same ↦
      subst (λ x. complete (suc fuel) x slot hba ≡ some true) (sym same)
        (complete_clear fuel d slot hba done.clear (done.no_error d (omega arith)))
  | no other ↦
      rw (done.waiting n (omega arith), complete)
        (rw (done.no_error n (omega arith))
          (complete-DoneAt fuel (n + 1) slot hba d (omega arith) (omega arith) done))
]

not_hung :
    (m : ℕ) (hba : Controller) (p : ℕ)
    → p < m
    → busy hba p ≡ false
    → (spin_from m 0 hba == m) ≡ false
not_hung m hba p lt idle =
    below (spin_from m 0 hba) m
      (omega (arith, spin_from-bound m 0 hba p (omega arith) (omega arith) idle))
  where
    below : (n m : ℕ) → n < m → (n == m) ≡ false
    below n m lt = ground arith

-- When `find_cmdslot` finds a slot, the port is not busy at one of the first million readings, and the
-- command is done at round `d` without an error, `readorwrite` has issued the command in that slot and
-- returns TRUE after at most `d + 1` rounds of its last loop.
pub readorwrite_done :
    (fuel : ℕ) (port : Port) (hba : Controller) (startl starth count buf mode slot p d : ℕ)
    → find_cmdslot port ≡ some slot
    → p < 1000000
    → busy hba p ≡ false
    → DoneAt slot hba d
    → d < fuel
    → readorwrite fuel port hba startl starth count buf mode
      ≡ some (issued slot (disk_command startl starth count buf mode) true)
unfolding readorwrite
readorwrite_done fuel port hba startl starth count buf mode slot p d found soon idle done enough =
    rw (found, readorwrite)
      (rw
        (
          not_hung 1000000 hba p soon idle,
          complete-DoneAt fuel 0 slot hba d (omega arith) (omega arith) done,
        )
        refl)
