-- ===== src/Screen/Format.antt =====
-- `kprintf` and `parse_str` of sys/kprintf.c: the format language.
use osproject.Prelude.{
  ℕ, ◌+◌, ◌%◌, ◌^◌, ◌≢◌, ◌||◌, List, [], ◌∷◌, ◌++◌, Option, none, some, ◌==◌, if◌then◌else◌,
}
use osproject.Prelude.Int.{signed32}
use osproject.Text.{Bytes}
use osproject.Screen.{Screen, put_to_screen, put_text}
use osproject.Screen.Numbers.{int_text, hex_text, pointer_text}

-- The variadic arguments, `list`: each is a word of eight bytes, and behind the last one given stands
-- whatever the caller's stack holds. `string_at` is the text at an address, up to its NUL.
abbrev pub VaList : Type 0
VaList = ℕ → ℕ

-- What a conversion prints of the next word, which `va_arg` reads as an `int`, a pointer or an `unsigned long`;
-- `none` for a letter that is no conversion.
unfoldable pub convert : (ℕ → Bytes) → ℕ → ℕ → Option Bytes
convert string_at c word =
    if c == b'd'
    then some (int_text (signed32 (word % 2 ^ 32)))
    else if c == b'c'
    then some (word % 256 ∷ [])
    else if c == b's'
    then some (string_at word)
    else if c == b'x'
    then some (hex_text (signed32 (word % 2 ^ 32)))
    else if c == b'p'
    then some (b'0' ∷ b'x' ∷ pointer_text word)
    else none

-- The character after a `\`.
unfoldable pub escape : ℕ → Option Bytes
escape c = if c == b'n' then some (b'\n' ∷ []) else if c == b'r' then some (b'\r' ∷ []) else none

-- The loop of `parse_str`: the text is printed as it is read. Where no case of a `switch` fits, `s` does
-- not move and the loop never ends: `none`. So too behind the last character, where `s[1]` is NUL.
unfoldable pub print_some : Option Bytes → (Screen → Option Screen) → Screen → Option Screen
print_some none rest s = none
print_some (some t) rest s = rest (put_text t s)

-- `k` words of the arguments are read.
unfoldable pub parse_str : (ℕ → Bytes) → VaList → ℕ → Bytes → Screen → Option Screen
unfolding print_some convert escape
parse_str string_at list k [] s = some s
parse_str string_at list k (c ∷ []) s =
    if (c == b'%') || (c == b'\\') then none else some (put_to_screen c s)
parse_str string_at list k (c ∷ d ∷ cs) s =
    let converted =
      print_some (convert string_at d (list k)) (parse_str string_at list (k + 1) cs) s in
    let after_escape = print_some (escape d) (parse_str string_at list k cs) s in
    let plain = parse_str string_at list k (d ∷ cs) (put_to_screen c s) in
    if c == b'%' then converted else if c == b'\\' then after_escape else plain

-- What a format says, piece by piece.
pub data Piece : Type 0 where
  plain : ℕ → Piece
  newline carriage_return number character string hexadecimal pointer : Piece

-- How it is written.
abbrev pub written : List Piece → Bytes
written [] = []
written (plain c ∷ ps) = c ∷ written ps
written (newline ∷ ps) = b'\\' ∷ b'n' ∷ written ps
written (carriage_return ∷ ps) = b'\\' ∷ b'r' ∷ written ps
written (number ∷ ps) = b'%' ∷ b'd' ∷ written ps
written (character ∷ ps) = b'%' ∷ b'c' ∷ written ps
written (string ∷ ps) = b'%' ∷ b's' ∷ written ps
written (hexadecimal ∷ ps) = b'%' ∷ b'x' ∷ written ps
written (pointer ∷ ps) = b'%' ∷ b'p' ∷ written ps

-- A plain character is neither `%` nor `\`.
abbrev pub IsWritten : List Piece → Type 0
IsWritten [] = Unit {0}
IsWritten (plain c ∷ ps) = (c ≢ b'%') × (c ≢ b'\\') × IsWritten ps
IsWritten (_ ∷ ps) = IsWritten ps

-- The text it stands for, from word `k` of the arguments on.
unfoldable pub stands_for : (ℕ → Bytes) → VaList → ℕ → List Piece → Bytes
stands_for string_at list k [] = []
stands_for string_at list k (plain c ∷ ps) = c ∷ stands_for string_at list k ps
stands_for string_at list k (newline ∷ ps) = b'\n' ∷ stands_for string_at list k ps
stands_for string_at list k (carriage_return ∷ ps) = b'\r' ∷ stands_for string_at list k ps
stands_for string_at list k (number ∷ ps) =
    int_text (signed32 (list k % 2 ^ 32)) ++ stands_for string_at list (k + 1) ps
stands_for string_at list k (character ∷ ps) = list k % 256 ∷ stands_for string_at list (k + 1) ps
stands_for string_at list k (string ∷ ps) =
    string_at (list k) ++ stands_for string_at list (k + 1) ps
stands_for string_at list k (hexadecimal ∷ ps) =
    hex_text (signed32 (list k % 2 ^ 32)) ++ stands_for string_at list (k + 1) ps
stands_for string_at list k (pointer ∷ ps) =
    b'0' ∷ b'x' ∷ (pointer_text (list k) ++ stands_for string_at list (k + 1) ps)
