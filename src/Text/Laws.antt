-- ===== src/Text/Laws.antt =====
-- What the C string routines do to texts that are terminated.
use osproject.Prelude.{
  suc, ◌≤◌, ◌<◌, ◌≡◌, ◌↔◌, refl, true, false, [], ◌∷◌, ◌++◌, none, some, length, drop, ◌==◌,
  Bool-cases, inl, inr, arith,
}
use osproject.Prelude.Int.{ℤ, pos}
use osproject.Text.{Bytes, strcmp, strcpy, strlen, strcat, no_nul, holds, AreBytes, char_diff}

pub strlen-holds : (s rest : Bytes) → no_nul s ≡ true → strlen (holds s rest) ≡ some (length s)
unfolding strlen no_nul
strlen-holds [] rest h = refl
strlen-holds (c ∷ s) rest h = ground (arith, strlen-holds s rest)

-- If the destination has room for the terminated text, `strcpy` copies it and leaves the bytes behind it.
pub strcpy-holds :
    (dst s rest : Bytes)
    → no_nul s ≡ true
    → length s < length dst
    → strcpy dst (holds s rest) ≡ some (holds s (drop (suc (length s)) dst))
unfolding strcpy no_nul
strcpy-holds [] s rest h lt = absurd (omega arith)
strcpy-holds (d ∷ dst) [] rest h lt = refl
strcpy-holds (d ∷ dst) (c ∷ s) rest h lt = ground (arith, strcpy-holds dst s rest)

-- If the destination has no room for the terminated text, `strcpy` writes past its end.
pub strcpy_overflow :
    (dst s rest : Bytes)
    → no_nul s ≡ true
    → length dst ≤ length s
    → strcpy dst (holds s rest) ≡ none
unfolding strcpy no_nul
strcpy_overflow [] [] rest h le = refl
strcpy_overflow [] (c ∷ s) rest h le = refl
strcpy_overflow (d ∷ dst) [] rest h le = absurd (omega arith)
strcpy_overflow (d ∷ dst) (c ∷ s) rest h le = ground (arith, strcpy_overflow dst s rest)

-- If there is room for the second text behind the first, `strcat` leaves the first, the second and a
-- terminator, and keeps the bytes behind them.
pub strcat-holds :
    (s t room rest : Bytes)
    → no_nul s ≡ true
    → no_nul t ≡ true
    → length t ≤ length room
    → strcat (holds s room) (holds t rest) ≡ some (holds (s ++ t) (drop (length t) room))
unfolding strcat no_nul
strcat-holds [] t room rest h k le = strcpy-holds (0 ∷ room) t rest k (omega arith)
strcat-holds (c ∷ s) t room rest h k le = ground (arith, strcat-holds s t room rest)

-- On two terminated texts of bytes `strcmp` is 0 exactly when the texts are the same, whatever lies behind
-- their terminators.
pub strcmp-holds :
    (s t rest rest' : Bytes)
    → no_nul s ≡ true
    → no_nul t ≡ true
    → AreBytes s
    → AreBytes t
    → (strcmp (holds s rest) (holds t rest') ≡ some (pos 0)) ↔ (s ≡ t)
unfolding strcmp no_nul
strcmp-holds [] [] rest rest' h k p q = (λ _. refl, λ _. refl)
strcmp-holds [] (d ∷ t) rest rest' h k p q = (λ e. ground arith, λ e. cc)
strcmp-holds (c ∷ s) [] rest rest' h k p q = (λ e. ground arith, λ e. cc)
strcmp-holds (c ∷ s) (d ∷ t) rest rest' h k p q =
    let ih = strcmp-holds s t rest rest' in (λ e. ground (arith, ih), λ e. ground (arith, ih))

-- On texts that are terminated `strcmp` stays within both.
pub strcmp-some :
    (s t rest rest' : Bytes)
    → no_nul s ≡ true
    → no_nul t ≡ true
    → (z : ℤ) × (strcmp (holds s rest) (holds t rest') ≡ some z)
unfolding strcmp no_nul
strcmp-some [] [] rest rest' h k = (pos 0, refl)
strcmp-some [] (d ∷ t) rest rest' h k = (char_diff 0 d, ground arith)
strcmp-some (c ∷ s) [] rest rest' h k = (char_diff c 0, ground arith)
strcmp-some (c ∷ s) (d ∷ t) rest rest' h k = elim (Bool-cases (c == d)) [
  | inl same ↦
      let (z, e) = strcmp-some s t rest rest' (ground arith) (ground arith) in
      let more : (c == 0) ≡ false = ground arith in (z, rw (same, more) e)
  | inr differ ↦ (char_diff c d, rw differ)
]
