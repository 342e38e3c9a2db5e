-- ===== src/Prelude/Loops.antt =====
-- Counted loops and updates of a table that is read by index.
use Prim.Native.Nat.{ℕ, zero, suc, ◌+◌, ◌<◌, ◌≤◌}
use mathlib.Core.Path.{◌≡◌, refl}
use mathlib.Core.Logic.{◌≢◌, inl, inr}
use native.Mathlib.Decide.{dec_lt}
use mathlib.Core.Bool.{Bool, true, false}
use mathlib.Core.Option.{Option, none, some}
use native.Mathlib.Omega.{arith}
use osproject.Prelude.Tests.{◌==◌, if◌then◌else◌, Bool-cases, ==_iff}

-- An array write; the other entries stay.
abbrev pub update {ℓ} : {A : Type ℓ} → (ℕ → A) → ℕ → A → ℕ → A
update f i a j = if i == j then a else f j

-- A counted loop: so many rounds, the counter of the first, what a round makes of the loop's state.
unfoldable pub for_range {ℓ} : {S : Type ℓ} → ℕ → ℕ → (ℕ → S → S) → S → S
for_range zero from round state = state
for_range (suc rounds) from round state = for_range rounds (from + 1) round (round from state)

-- The first index from `i` on, among `n`, that passes the test.
unfoldable pub first_from : ℕ → ℕ → (ℕ → Bool) → Option ℕ
first_from zero i test = none
first_from (suc n) i test = let rest = first_from n (i + 1) test in if test i then some i else rest

-- It is the least such index.
pub first_from-some :
    (n i : ℕ) (test : ℕ → Bool) {k : ℕ}
    → first_from n i test ≡ some k
    → (i ≤ k) × (k < i + n) × (test k ≡ true) × ((j : ℕ) → i ≤ j → j < k → test j ≡ false)
unfolding first_from
first_from-some zero i test e = cc
first_from-some (suc n) i test {k} e = elim (Bool-cases (test i)) [
  | inl h ↦
      let here : i ≡ k = ground arith in
      (omega arith, omega arith, rw (← here) h, λ j p q. absurd (omega arith))
  | inr h ↦
      let (low, high, hit, miss) = first_from-some n (i + 1) test {k = k} (ground arith) in
      (
        omega arith,
        omega arith,
        hit,
        λ j p q. elim (dec_lt i j) [
          | yes lt ↦ miss j (omega arith) q
          | no ge ↦ let here : j ≡ i = omega arith in rw here h
        ],
      )
]

pub first_from-none :
    (n i : ℕ) (test : ℕ → Bool)
    → first_from n i test ≡ none
    → (j : ℕ) → i ≤ j
    → j < i + n
    → test j ≡ false
unfolding first_from
first_from-none zero i test e j p q = absurd (omega arith)
first_from-none (suc n) i test e j p q = elim (Bool-cases (test i)) [
  | inl h ↦ absurd (ground arith)
  | inr h ↦ elim (dec_lt i j) [
    | yes lt ↦ first_from-none n (i + 1) test (ground arith) j (omega arith) (omega arith)
    | no ge ↦ let here : j ≡ i = omega arith in rw here h
  ]
]

module _ {ℓ} {A : Type ℓ} where
  pub update_self : (f : ℕ → A) (i : ℕ) (a : A) → update f i a i ≡ a
  update_self f i a = rw ((==_iff i i).1 refl)

  pub update_other : (f : ℕ → A) (i : ℕ) (a : A) (j : ℕ) → i ≢ j → update f i a j ≡ f j
  update_other f i a j h = elim (Bool-cases (i == j)) [
    | inl e ↦ absurd (h ((==_iff i j).0 e))
    | inr e ↦ rw e
  ]
