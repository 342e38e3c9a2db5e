-- ===== src/Prelude/State.antt =====
-- A state that operations pass along, and operations that may never come back: `none` is a kernel
-- that spins for ever (`while(1);`) or that goes through a null pointer.
use mathlib.Core.Path.{◌≡◌}
use mathlib.Core.Logic.{inl, inr}
use mathlib.Core.Option.{Option, none, some}
use mathlib.Core.Bool.{Bool}
use Prim.Native.Nat.{ℕ, zero, suc, ◌+◌}
use osproject.Prelude.Tests.{if◌then◌else◌, Option-cases}

abbrev pub Op : Type 0 → Type 0 → Type 0
Op S A = S → Option (A × S)

abbrev pub pure : {S A : Type 0} → A → Op S A
pure a s = some (a, s)

infixl 5 ◌>>=◌ ◌>>◌
abbrev pub ◌>>=◌ : {S A B : Type 0} → Op S A → (A → Op S B) → Op S B
◌>>=◌ m f s = elim (m s) [ none ↦ none | some (a, s') ↦ f a s' ]

abbrev pub ◌>>◌ : {S B : Type 0} → Op S (Unit {0}) → Op S B → Op S B
m >> k = m >>= λ _. k

-- for (k = i; k < i + n; k++) body k, where each round may change the state or not come back.
unfoldable pub for_op : {S : Type 0} → ℕ → ℕ → (ℕ → Op S (Unit {0})) → Op S (Unit {0})
for_op zero i body = pure tt
for_op (suc n) i body = body i >> for_op n (i + 1) body

-- `if (test) body`.
abbrev pub when : {S : Type 0} → Bool → Op S (Unit {0}) → Op S (Unit {0})
when test body = if test then body else pure tt

-- A chain that comes back has come back from its first step.
pub >>=-eq-some :
    {S A B : Type 0} (m : Op S A) (f : A → Op S B) (s s'' : S) (b : B)
    → ◌≡◌ {A = Option (B × S)} ((m >>= f) s) (some (b, s''))
    → (a : A) × (s' : S) × (◌≡◌ {A = Option (A × S)} (m s) (some (a, s')))
      × (◌≡◌ {A = Option (B × S)} (f a s') (some (b, s'')))
>>=-eq-some m f s s'' b e = elim (Option-cases (m s)) [
  | inl stuck ↦ absurd (cc (rw (stuck, ◌>>=◌) at e))
  | inr ((a, s'), went) ↦ (a, s', went, rw (went, ◌>>=◌) at e)
]
