-- ===== src/Printf/Printed.antt =====
-- What `printf` of libc/printf.c puts out.
use osproject.Prelude.{ℕ, ◌+◌, ◌%◌, ◌^◌, ◌≡◌, false, List, [], ◌∷◌, ◌++◌}
use osproject.Prelude.Int.{signed32}
use osproject.Text.{Bytes}
use osproject.Screen.Format.{VaList}
use osproject.Screen.Numbers.{libc_pointer_text}
use osproject.Printf.{Stack, print_int, libc_hex_text, is_conversion}

-- A row of a format: a text, or a conversion.
pub data Row : Type 0 where
  text : Bytes → Row
  number string hexadecimal pointer : Row

abbrev pub written : Row → Bytes
written (text t) = t
written number = b'%' ∷ b'd' ∷ []
written string = b'%' ∷ b's' ∷ []
written hexadecimal = b'%' ∷ b'x' ∷ []
written pointer = b'%' ∷ b'p' ∷ []

abbrev pub written_rows : List Row → List Bytes
written_rows [] = []
written_rows (r ∷ rs) = written r ∷ written_rows rs

-- A text is none of the four conversions.
abbrev pub IsRows : List Row → Type 0
IsRows [] = Unit {0}
IsRows (text t ∷ rs) =
    (is_conversion b'd' t ≡ false)
    × (is_conversion b's' t ≡ false)
    × (is_conversion b'x' t ≡ false)
    × (is_conversion b'p' t ≡ false)
    × IsRows rs
IsRows (_ ∷ rs) = IsRows rs

-- The output of rows from row `i` on, with `k` words read: up to the first empty text, each text as it is, and for
-- a conversion the next word as a number, the text at an address, a hexadecimal number or a pointer.
unfoldable pub shown : (ℕ → Bytes) → Stack → VaList → ℕ → ℕ → List Row → Bytes
shown string_at stack list i k [] = []
shown string_at stack list i k (text [] ∷ rs) = []
shown string_at stack list i k (text (c ∷ t) ∷ rs) =
    (c ∷ t) ++ shown string_at stack list (i + 1) k rs
shown string_at stack list i k (number ∷ rs) =
    print_int (stack.in_front i) (signed32 (list k % 2 ^ 32))
    ++ shown string_at stack list (i + 1) (k + 1) rs
shown string_at stack list i k (string ∷ rs) =
    string_at (list k) ++ shown string_at stack list (i + 1) (k + 1) rs
shown string_at stack list i k (hexadecimal ∷ rs) =
    libc_hex_text (signed32 (list k % 2 ^ 32)) (stack.after i)
    ++ shown string_at stack list (i + 1) (k + 1) rs
shown string_at stack list i k (pointer ∷ rs) =
    (b'0' ∷ b'x' ∷ libc_pointer_text (list k)) ++ shown string_at stack list (i + 1) (k + 1) rs
