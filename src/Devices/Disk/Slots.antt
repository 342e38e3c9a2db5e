-- ===== src/Devices/Disk/Slots.antt =====
-- `find_cmdslot` of sys/ahci.c.
use osproject.Prelude.{
  ℕ, zero, suc, ◌+◌, ◌/◌, ◌%◌, ◌^◌, ◌<◌, ◌≡◌, refl, sym, ap, ◌∙◌, Bool, true, false, ◌&&◌, ◌||◌,
  not, Option, none, some, ◌==◌, if◌then◌else◌, Option-cases, inl, inr, arith,
}
use mathlib.Core.Path.{subst}
use native.Mathlib.Nat.{div-div-eq-div-mul, pow-suc}
use osproject.Prelude.Loops.{first_from, first_from-some, first_from-none}
use osproject.Devices.Disk.{Port, bit, find_slot, find_cmdslot}

-- What `find_cmdslot` finds: the least of the 32 slots that neither register marks, or -1 when all are taken.
pub data FreeSlot (port : Port) : Option ℕ → Type 0 where
  free_at :
      (i : ℕ)
      → i < 32
      → (bit i port.sact || bit i port.ci) ≡ false
      → ((j : ℕ) → j < i → (bit j port.sact || bit j port.ci) ≡ true)
      → FreeSlot port (some i)
  all_taken : ((j : ℕ) → j < 32 → (bit j port.sact || bit j port.ci) ≡ true) → FreeSlot port none

even : (s c : ℕ) → ((s % 2 == 0) && (c % 2 == 0)) ≡ not ((s % 2 == 1) || (c % 2 == 1))
even s c = ground arith

pub half : (i w : ℕ) → w / 2 ^ i / 2 ≡ w / 2 ^ (i + 1)
half i w =
    div-div-eq-div-mul w (2 ^ i) 2 ∙ ap (λ d. w / d) (sym (pow-suc 2 i) ∙ ap (λ e. 2 ^ e) next)
  where
    next : suc i ≡ i + 1
    next = omega arith

find_slot-first_from :
    (n i sact ci : ℕ)
    → find_slot n i (sact / 2 ^ i) (ci / 2 ^ i) ≡ first_from n i (λ j. not (bit j sact || bit j ci))
unfolding find_slot first_from
find_slot-first_from zero i sact ci = refl
find_slot-first_from (suc n) i sact ci =
    ap (λ test. if test then some i else find_slot n (i + 1) (sact / 2 ^ i / 2) (ci / 2 ^ i / 2))
      (even (sact / 2 ^ i) (ci / 2 ^ i))
    ∙ ap (λ rest. if not (bit i sact || bit i ci) then some i else rest)
        (rw (half i sact, half i ci) (find_slot-first_from n (i + 1) sact ci))

-- The test that `first_from` makes.
abbrev free_in : Port → ℕ → Bool
free_in port j = not (bit j port.sact || bit j port.ci)

whole : (w : ℕ) → w ≡ w / 2 ^ 0
whole w = omega arith

find_cmdslot_lem : (port : Port) → find_cmdslot port ≡ first_from 32 0 (free_in port)
unfolding find_cmdslot
find_cmdslot_lem port =
    ap (λ x. find_slot 32 0 x port.ci) (whole port.sact)
    ∙ ap (λ x. find_slot 32 0 (port.sact / 2 ^ 0) x) (whole port.ci)
    ∙ find_slot-first_from 32 0 port.sact port.ci

not-true : (b : Bool) → not b ≡ true → b ≡ false
not-true b e = ground arith

not-false : (b : Bool) → not b ≡ false → b ≡ true
not-false b e = ground arith

-- `find_cmdslot` returns the least of the 32 slots that is marked neither in SACT nor in CI, and -1 exactly
-- when every slot is marked.
pub find_cmdslot-FreeSlot : (port : Port) → FreeSlot port (find_cmdslot port)
find_cmdslot-FreeSlot port = elim (Option-cases (first_from 32 0 (free_in port))) [
  | inl e ↦ subst (FreeSlot port) (sym (find_cmdslot_lem port ∙ e)) (
      all_taken λ j lt.
        not-false (bit j port.sact || bit j port.ci)
          (first_from-none 32 0 (free_in port) e j (omega arith) lt))
  | inr (i, e) ↦
      let (_, lt, hit, miss) = first_from-some 32 0 (free_in port) {k = i} e in
      subst (FreeSlot port) (sym (find_cmdslot_lem port ∙ e)) (
        free_at i lt (not-true (bit i port.sact || bit i port.ci) hit)
          λ j below. not-false (bit j port.sact || bit j port.ci) (miss j (omega arith) below))
]
