-- ===== src/Examples/Formats.antt =====
-- Formats of `printf` of libc/printf.c.
use osproject.Prelude.{ℕ, ◌+◌, ◌≡◌, ◌<◌, ◌≤◌, refl, false, some, [], ◌∷◌, length, arith}
use osproject.Prelude.Int.{negsuc}
use osproject.Text.{Bytes}
use osproject.Screen.Numbers.{libc_int_text, libc_int_loop}
use osproject.Printf.{
  temp_text, copy_row, close_text, conversion, newline, ordinary, plain, split_loop, string_split,
  Stack, negative_loop, print_int, print_row, print_rows, printf,
}
use osproject.Printf.Rows.{pieces, row_at}
use osproject.Printf.Pieces.{string_split-pieces}

-- "x=%d\n".
abbrev format : Bytes
format = b'x' ∷ b'=' ∷ b'%' ∷ b'd' ∷ b'\n' ∷ []

string_split-pieces_example :
    (rows : ℕ → Bytes) × (string_split format (λ k. 0) (λ k. []) ≡ some rows)
    × ((m : ℕ) → m < length (pieces false [] format) → rows m ≡ row_at (pieces false [] format) m)
    × ((k : ℕ) → length (pieces false [] format) ≤ k → rows k ≡ [])
unfolding pieces
string_split-pieces_example = string_split-pieces format refl (omega arith)

-- What the stack holds is not seen but by `print_hex` and negative numbers.
abbrev stack : Stack
stack = record { after = λ i. []; in_front = λ i d. b'?' }

-- The newline behind the conversion is lost: the row in front of it is empty.
lost_newline_example :
    printf (λ k. 0) (λ k. []) (λ a. []) stack format (λ k. 5) ≡ some (b'x' ∷ b'=' ∷ b'5' ∷ [])
unfolding printf string_split split_loop plain newline ordinary conversion close_text copy_row
    temp_text print_rows print_row print_int libc_int_text libc_int_loop
lost_newline_example = refl

-- A negative number is printed as bytes in front of `nums`.
negative_example : print_int (λ d. b'a' + d) (negsuc 41) ≡ b'e' ∷ b'c' ∷ []
unfolding print_int negative_loop
negative_example = refl

-- What the stack held in the row is printed instead.
stale_row_example :
    printf (λ k. 0) (λ k. b'?' ∷ []) (λ a. b'a' ∷ []) stack (b'%' ∷ b's' ∷ b'\n' ∷ []) (λ k. 0)
    ≡ some (b'a' ∷ b'?' ∷ b'\n' ∷ [])
unfolding printf string_split split_loop plain newline ordinary conversion close_text copy_row
    temp_text print_rows print_row
stale_row_example = refl
