-- ===== src/Printf.antt =====
-- `printf` and `string_split` of libc/printf.c: a format is cut into the rows of an array, and the rows are
-- printed one by one. What the stack held in the arrays before is part of the first state.
pub mod Rows
pub mod Steps
pub mod Pieces
pub mod Printed
use mathlib.Core.Option
use mathlib.Core.List.{reverse}
use osproject.Prelude.{
  ℕ, zero, suc, ◌+◌, ◌-◌, ◌/◌, ◌%◌, ◌^◌, ◌≡◌, Bool, true, false, ◌&&◌, ◌||◌, Option, none, some,
  List, [], ◌∷◌, ◌++◌, ltb, leb, ◌==◌, if◌then◌else◌,
}
use osproject.Prelude.Int.{ℤ, pos, negsuc, signed32}
use osproject.Prelude.Loops.{update}
use osproject.Text.{Bytes}
use osproject.Screen.Format.{VaList}
use osproject.Screen.Numbers.{libc_int_text, libc_pointer_text, hex_loop, hex_loop_negative}

-- The variables of `string_split`: `temp` byte by byte, and the text in each row of `s`.
pub record Split : Type 0 where
  pub i : ℕ
  pub j : ℕ
  pub temp : ℕ → ℕ
  pub s : ℕ → Bytes

-- The text in `temp` from `k` on, with `n` bytes left to its end.
unfoldable pub temp_text : ℕ → (ℕ → ℕ) → ℕ → Option Bytes
temp_text zero temp k = none
temp_text (suc n) temp k = elim (temp k == 0) [
  | true ↦ some []
  | false ↦ elim (temp_text n temp (k + 1)) [ none ↦ none | some t ↦ some (temp k ∷ t) ]
]

-- `strcpy(s[i], temp)`, for the 100 rows.
unfoldable pub copy_row : Split → Option Split
copy_row st = elim (temp_text 50 st.temp 0) [
  | none ↦ none
  | some t ↦ if ltb st.i 100 then some (record st { s = update st.s st.i t }) else none
]

abbrev pub next_i : Split → Split
next_i st = record st { i = st.i + 1 }

-- The loop that clears `temp` up to `j`.
abbrev pub clear_temp : Split → Split
clear_temp st = record st { temp = λ k. if leb k st.j then 0 else st.temp k }

-- `strcmp(temp, "\0") != 0`.
abbrev pub is_pending : Split → Bool
is_pending st = if st.temp 0 == 0 then false else true

abbrev pub then_do : Option Split → (Split → Option Split) → Option Split
then_do none f = none
then_do (some st) f = f st

-- The text in front of a conversion becomes a row.
unfoldable pub close_text : Split → Option Split
close_text st = elim (is_pending st) [
  | false ↦ some st
  | true ↦ then_do (copy_row st) (λ t. some (clear_temp (next_i t)))
]

abbrev pub set_temp : ℕ → ℕ → Split → Split
set_temp k c st = record st { temp = update st.temp k c }

-- A conversion `%c`.
unfoldable pub conversion : ℕ → Split → Option Split
conversion c st = then_do (close_text st) (λ t.
    then_do (copy_row (set_temp 1 c (set_temp 0 b'%' t)))
      (λ u. some (record (set_temp 1 0 (set_temp 0 0 (next_i u))) { j = 0 })))

-- A newline or a tab; the row in front of it is counted whether there is a text or not.
unfoldable pub newline : ℕ → Split → Option Split
newline c st =
    then_do (elim (is_pending st) [ false ↦ some st | true ↦ copy_row st ])
      (λ t.
        then_do (copy_row (set_temp 0 c (clear_temp (next_i t))))
          (λ u. some (record (set_temp 0 0 (next_i u)) { j = 0 })))

-- Any other character; `temp` has 50 bytes.
unfoldable pub ordinary : ℕ → Split → Option Split
ordinary c st =
    if ltb st.j 50 then some (record st { temp = update st.temp st.j c; j = st.j + 1 }) else none

-- What a character that is no `%` does.
unfoldable pub plain : ℕ → Split → Option Split
plain c st = elim ((c == b'\n') || (c == b'\t')) [ true ↦ newline c st | false ↦ ordinary c st ]

-- The loop of `string_split`; `percent` is behind a `%`, where the end of the format is passed by.
unfoldable pub split_loop : Bool → Bytes → Split → Option Split
split_loop true [] st = none
split_loop true (c ∷ str) st = then_do (conversion c st) (split_loop false str)
split_loop false [] st = copy_row st
split_loop false (c ∷ str) st = elim (c == b'%') [
  | true ↦ split_loop true str st
  | false ↦ then_do (plain c st) (split_loop false str)
]

unfoldable pub string_split : Bytes → (ℕ → ℕ) → (ℕ → Bytes) → Option (ℕ → Bytes)
string_split str temp s =
    Option.map (λ st. Split.s st)
      (split_loop false str (record { i = 0; j = 0; temp = temp; s = s }))

-- What the stack holds in the call for row `i` where it was not written: the text behind the digits of
-- `print_hex`, which are not terminated, and the byte `d` places in front of `nums` in `print_int`.
pub record Stack : Type 0 where
  pub after : ℕ → Bytes
  pub in_front : ℕ → ℕ → ℕ

-- A text up to its first NUL.
abbrev pub to_nul : Bytes → Bytes
to_nul [] = []
to_nul (c ∷ t) = if c == 0 then [] else c ∷ to_nul t

-- `nums[num % 10]` for a negative `num`, by its last digit.
abbrev pub negative_digit : (ℕ → ℕ) → ℕ → ℕ
negative_digit front d = if d == 0 then b'0' else front d

-- The loops of `print_int` for a number that is negative: its digits index `nums` from the front.
unfoldable pub negative_loop : (ℕ → ℕ) → ℕ → ℕ → Bytes → Bytes
negative_loop front zero num out = out
negative_loop front (suc fuel) num out =
    let digit = negative_digit front (num % 10) in
    let more = negative_loop front fuel (num / 10) (digit ∷ out) in
    if num / 10 == 0 then digit ∷ out else more

-- `print_int`.
unfoldable pub print_int : (ℕ → ℕ) → ℤ → Bytes
unfolding negative_loop libc_int_text
print_int front (pos n) = libc_int_text n
print_int front (negsuc n) = to_nul (negative_loop front 11 (suc n) [])

-- `print_hex`: each suffix of the digits, down from the last digit, with what stands behind them.
abbrev pub suffixes : Bytes → Bytes → Bytes
suffixes [] after = []
suffixes (d ∷ digits) after = suffixes digits after ++ (d ∷ digits) ++ after

unfoldable pub libc_hex_text : ℤ → Bytes → Bytes
libc_hex_text (pos n) after = suffixes (hex_loop 9 n) after
libc_hex_text (negsuc n) after = suffixes (hex_loop_negative 9 (suc n)) after

-- `strcmp` with `%` and a letter.
abbrev pub is_conversion : ℕ → Bytes → Bool
is_conversion d (c ∷ e ∷ []) = (c == b'%') && (e == d)
is_conversion d [] = false
is_conversion d (c ∷ []) = false
is_conversion d (c ∷ e ∷ f ∷ row) = false

-- The body of the loop of `printf`: what row `i` prints, and the words of the arguments that are then read, of
-- which there were `k`. `string_at` is the text at an address.
unfoldable pub print_row : (ℕ → Bytes) → Stack → VaList → ℕ → ℕ → Bytes → Bytes × ℕ
unfolding print_int libc_hex_text libc_pointer_text
print_row string_at stack list i k row =
    if is_conversion b'd' row
    then (print_int (stack.in_front i) (signed32 (list k % 2 ^ 32)), k + 1)
    else if is_conversion b's' row
    then (string_at (list k), k + 1)
    else if is_conversion b'x' row
    then (libc_hex_text (signed32 (list k % 2 ^ 32)) (stack.after i), k + 1)
    else if is_conversion b'p' row
    then (b'0' ∷ b'x' ∷ libc_pointer_text (list k), k + 1)
    else (row, k)

-- The loop of `printf` from row `i` on, up to the first empty row.
unfoldable pub print_rows : (ℕ → Bytes) → Stack → VaList → ℕ → ℕ → ℕ → (ℕ → Bytes) → Bytes
print_rows string_at stack list zero i k s = []
print_rows string_at stack list (suc n) i k s =
    let r = print_row string_at stack list i k (s i) in
    let rest = print_rows string_at stack list n (i + 1) r.1 s in
    elim (s i) [ [] ↦ [] | c ∷ row ↦ r.0 ++ rest ]

-- `printf`: what it puts out, for what the stack held in `temp` and in `s` before and in the calls of each
-- row.
unfoldable pub printf : (ℕ → ℕ) → (ℕ → Bytes) → (ℕ → Bytes) → Stack → Bytes → VaList → Option Bytes
printf temp s string_at stack str list =
    Option.map (λ rows. print_rows string_at stack list 100 0 0 rows) (string_split str temp s)
