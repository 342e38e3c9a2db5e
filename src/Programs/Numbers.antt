-- ===== src/Programs/Numbers.antt =====
-- A number that `printf` of the C library prints is read back by `kill` and `sleep`.
use osproject.Prelude.{
  ℕ, zero, suc, ◌+◌, ◌*◌, ◌/◌, ◌%◌, ◌<◌, ◌≡◌, refl, ap, ◌∙◌, some, [], ◌∷◌, ◌==◌, Bool-cases, inl,
  inr, arith,
}
use osproject.Prelude.Int.{pos, signed32}
use osproject.Text.{Bytes}
use osproject.Screen.Numbers.{libc_int_loop, libc_int_text}
use osproject.Programs.{kill_call, sleep, char_word, to_int, str_to_int, kill_main, sleep_main}

-- The numbers of at most `n` digits.
abbrev pow10 : ℕ → ℕ
pow10 zero = 1
pow10 (suc n) = 10 * pow10 n

digit_step :
    (dec d : ℕ)
    → d < 10
    → dec * 10 + d < 4294967296
    → (dec * 10 + (char_word (b'0' + d) + 4294967248)) % 4294967296 ≡ dec * 10 + d
digit_step dec d small fits = ground arith

to_int-libc_int_loop :
    (fuel num : ℕ) (out : Bytes)
    → num < pow10 fuel
    → num < 4294967296
    → to_int 0 (libc_int_loop fuel num out) ≡ to_int num out
unfolding to_int libc_int_loop
to_int-libc_int_loop zero num out short fits =
    let none_left : 0 ≡ num = omega arith in ap (λ n. to_int n out) none_left
to_int-libc_int_loop (suc fuel) num out short fits = elim (Bool-cases (num / 10 == 0)) [
  | inl last ↦
      let e : num % 10 ≡ num = ground arith in
      rw last
        (ap (λ n. to_int n out) (digit_step 0 (num % 10) (omega arith) (omega arith) ∙ omega arith))
  | inr more ↦ rw more (
      to_int-libc_int_loop fuel (num / 10) ((b'0' + num % 10) ∷ out) (omega arith) (omega arith)
      ∙ ap (λ n. to_int n out)
          (digit_step (num / 10) (num % 10) (omega arith) (omega arith) ∙ omega arith))
]

str_to_int-libc_int_text : (n : ℕ) → n < 2147483648 → str_to_int (libc_int_text n) ≡ pos n
unfolding str_to_int libc_int_text to_int
str_to_int-libc_int_text n fits =
    ap signed32 (to_int-libc_int_loop 11 n [] (omega arith) (omega arith)) ∙ ground arith

-- A number below 2^31, as `printf` of the C library prints it with %d: `kill` with it as its second argument
-- kills the process of that number and prints nothing, and `sleep` with it as its first sleeps that long.
pub programs-libc_int_text :
    (n : ℕ) (name flag : Bytes)
    → n < 2147483648
    → (kill_main (name ∷ flag ∷ libc_int_text n ∷ []) ≡ some (kill_call (pos n) ∷ []))
      × (sleep_main (name ∷ libc_int_text n ∷ []) ≡ some (sleep (pos n) ∷ []))
unfolding kill_main sleep_main
programs-libc_int_text n name flag fits = (
  rw (str_to_int-libc_int_text n fits, kill_main) (ground arith),
  rw (str_to_int-libc_int_text n fits, sleep_main) refl,
)
