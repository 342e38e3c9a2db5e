-- ===== src/Screen/Numbers.antt =====
-- `print_int`, `print_pointer` and `print_hex` of sys/kprintf.c, and their kin in libc/printf.c, as the
-- characters that they emit in order.
pub mod Value
use mathlib.Core.List.{reverse}
use osproject.Prelude.{
  ℕ, zero, suc, ◌+◌, ◌-◌, ◌*◌, ◌/◌, ◌%◌, Bool, true, false, ◌&&◌, List, [], ◌∷◌, ◌++◌, ltb, ◌==◌,
  if◌then◌else◌,
}
use osproject.Prelude.Int.{ℤ, pos, negsuc}
use osproject.Text.{Bytes}

-- The `while (j != 0)` loop of the kernel's `print_int`.
unfoldable pub int_loop : ℕ → ℕ → Bool → ℕ → Bytes
int_loop zero j lead_zero i = []
int_loop (suc fuel) j lead_zero i =
    let skip = int_loop fuel (j / 10) lead_zero i in
    let digit = (b'0' + i / j) ∷ int_loop fuel (j / 10) false (i % j) in
    if j == 0 then [] else if lead_zero && (i / j == 0) then skip else digit

-- `print_int` of the kernel: `j` begins at 1000000000 and is 0 after ten rounds. `i * -1` is taken for an
-- `int` other than -2^31, of which it has no meaning.
unfoldable pub int_text : ℤ → Bytes
unfolding int_loop
int_text (pos n) = (if n == 0 then b'0' ∷ [] else []) ++ int_loop 11 1000000000 true n
int_text (negsuc n) = b'-' ∷ int_loop 11 1000000000 true (suc n)

-- `k < 10 ? '0' + k : 'A' + (k - 10)`.
abbrev pub hex_digit : ℕ → ℕ
hex_digit k = if ltb k 10 then b'0' + k else b'A' + (k - 10)

-- The loop that fills `a`, the last digit first. A 64-bit number has sixteen digits at most.
unfoldable pub hex_loop : ℕ → ℕ → Bytes
hex_loop zero i = []
hex_loop (suc fuel) i =
    let rest = hex_digit (i % 16) ∷ hex_loop fuel (i / 16) in if i == 0 then [] else rest

-- `print_pointer` of the kernel prints `a` from its end.
unfoldable pub pointer_text : ℕ → Bytes
unfolding hex_loop
pointer_text i = reverse (hex_loop 17 i)

-- `print_pointer` of libc/printf.c hands `a` itself to `puts`.
unfoldable pub libc_pointer_text : ℕ → Bytes
unfolding hex_loop
libc_pointer_text i = hex_loop 17 i

-- `print_hex` of the kernel takes an `int`: of a negative one the remainders are negative, and the
-- characters lie below '0'.
unfoldable pub hex_loop_negative : ℕ → ℕ → Bytes
hex_loop_negative zero i = []
hex_loop_negative (suc fuel) i =
    let rest = (b'0' - i % 16) ∷ hex_loop_negative fuel (i / 16) in if i == 0 then [] else rest

unfoldable pub hex_text : ℤ → Bytes
unfolding hex_loop hex_loop_negative
hex_text (pos n) = reverse (hex_loop 9 n)
hex_text (negsuc n) = reverse (hex_loop_negative 9 (suc n))

-- The first loop of libc's `print_int` counts the digits, the second writes them from the end; both run
-- at least once.
unfoldable pub libc_int_loop : ℕ → ℕ → Bytes → Bytes
libc_int_loop zero num out = out
libc_int_loop (suc fuel) num out =
    let more = libc_int_loop fuel (num / 10) ((b'0' + num % 10) ∷ out) in
    if num / 10 == 0 then (b'0' + num % 10) ∷ out else more

-- `print_int` of libc/printf.c on a number that is not negative.
unfoldable pub libc_int_text : ℕ → Bytes
unfolding libc_int_loop
libc_int_text num = libc_int_loop 11 num []
