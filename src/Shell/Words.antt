-- ===== src/Shell/Words.antt =====
-- `setStringTokens` of bin/sbush/sbush.c takes a line apart into the words that it is made of.
use osproject.Prelude.{
  ℕ, ◌+◌, ◌-◌, ◌<◌, ◌≡◌, ◌≢◌, refl, sym, ap, ◌∙◌, true, false, ◌||◌, Option, some, List, [], ◌∷◌,
  ◌++◌, ltb, ◌==◌, if◌then◌else◌, length, length-append, arith,
}
use mathlib.Core.List.{append-nil, append_assoc}
use osproject.Text.{Bytes}
use osproject.Shell.{
  Row, text, null, Tokens, is_ampersand, is_empty, next_row, next_rows, end_row, last_row,
  token_step, tokens,
}

-- No character of `w` ends a row or the text.
abbrev pub Plain : ℕ → Bytes → Type 0
Plain delimiter [] = Unit {0}
Plain delimiter (c ∷ w) = (c ≢ delimiter) × (c ≢ 0) × (c ≢ b'\n') × Plain delimiter w

step-Plain :
    (cols rows delimiter : ℕ) (row : Bytes) (c : ℕ) (rest : Option Tokens)
    → delimiter ≢ b'='
    → c ≢ delimiter
    → c ≢ 0
    → c ≢ b'\n'
    → length row < cols
    → token_step cols rows false delimiter row c rest ≡ rest
unfolding token_step
step-Plain cols rows delimiter row c rest ne other inside same_line fits = ground arith

next-Plain :
    (delimiter : ℕ) (row : Bytes) (c : ℕ)
    → delimiter ≢ b'='
    → c ≢ delimiter
    → next_row false delimiter row c ≡ row ++ c ∷ []
unfolding next_row
next-Plain delimiter row c ne other = ground arith

pub tokens-Plain :
    (cols rows delimiter : ℕ) (row w rest : Bytes)
    → delimiter ≢ b'='
    → Plain delimiter w
    → length row + length w < cols
    → tokens cols rows false delimiter row (w ++ rest)
      ≡ tokens cols rows false delimiter (row ++ w) rest
unfolding tokens next_rows
tokens-Plain cols rows delimiter row [] rest ne plain fits =
    ap (λ x. tokens cols rows false delimiter x rest) (sym (append-nil row))
tokens-Plain cols rows delimiter row (c ∷ w) rest ne plain fits =
    step-Plain cols rows delimiter row c _ ne plain.0 plain.1 plain.2 (omega arith)
    ∙ ap (λ n. tokens cols n false delimiter (next_row false delimiter row c) (w ++ rest))
        (rows_kept c plain.0)
    ∙ ap (λ x. tokens cols rows false delimiter x (w ++ rest))
        (next-Plain delimiter row c ne plain.0)
    ∙ tokens-Plain cols rows delimiter (row ++ c ∷ []) w rest ne plain.3
        (omega (arith, length-append row (c ∷ [])))
    ∙ ap (λ x. tokens cols rows false delimiter x rest) (append_assoc row (c ∷ []) w)
  where
    rows_kept : (c : ℕ) → c ≢ delimiter → (if c == delimiter then rows - 1 else rows) ≡ rows
    rows_kept c other = ground arith

-- The blank in front of the first character alone is passed over.
pub tokens-first :
    (cols rows delimiter : ℕ) (row : Bytes) (c : ℕ) (str : Bytes)
    → c ≢ b' '
    → tokens cols rows true delimiter row (c ∷ str) ≡ tokens cols rows false delimiter row (c ∷ str)
unfolding tokens token_step next_row next_rows
tokens-first cols rows delimiter row c str ne =
    let black : (c == b' ') ≡ false = ground arith in rw black refl

-- The text's end.
pub tokens-end :
    (cols rows delimiter : ℕ) (row rest : Bytes)
    → length row < cols
    → 1 < rows
    → tokens cols rows false delimiter row (0 ∷ rest) ≡ some (last_row row)
unfolding tokens token_step
tokens-end cols rows delimiter row rest fits room =
    let short : ltb (length row) cols ≡ true = ground arith in
    let more : ltb 1 rows ≡ true = ground arith in
    let end : ((0 == delimiter) || (0 == 0)) ≡ true = ground arith in rw end (rw (short, more) refl)

-- The end of a word that is not the last.
tokens-blank :
    (cols rows : ℕ) (row str : Bytes)
    → length row < cols
    → 1 < rows
    → tokens cols rows false b' ' row (b' ' ∷ str)
      ≡ end_row row (tokens cols (rows - 1) false b' ' [] str)
unfolding tokens token_step next_row next_rows
tokens-blank cols rows row str fits room =
    let short : ltb (length row) cols ≡ true = ground arith in
    let more : ltb 1 rows ≡ true = ground arith in rw (short, more) refl

-- The words with single blanks between them, and what `strs` holds for them.
abbrev pub words : Bytes → List Bytes → Bytes
words w [] = w
words w (v ∷ ws) = w ++ b' ' ∷ words v ws

abbrev pub rows_of : Bytes → List Bytes → List Row
rows_of w [] = text w ∷ null ∷ []
rows_of w (v ∷ ws) = text w ∷ rows_of v ws

-- A word: not empty, not "&", without blanks, and short enough for its row.
pub record IsWord (w : Bytes) : Type 0 where
  pub plain : Plain b' ' w
  pub some_letter : is_empty w ≡ false
  pub no_ampersand : is_ampersand w ≡ false
  pub short : length w < 1000

abbrev pub AreWords : List Bytes → Type 0
AreWords [] = Unit {0}
AreWords (w ∷ ws) = IsWord w × AreWords ws

last_row-word :
    (w : Bytes) → IsWord w → last_row w ≡ record { strs = rows_of w []; background = false }
unfolding last_row
last_row-word w h = rw (h.no_ampersand, h.some_letter) refl

end_row-word :
    (w : Bytes) (strs : List Row)
    → IsWord w
    → end_row w (some (record { strs = strs; background = false }))
      ≡ some (record { strs = text w ∷ strs; background = false })
unfolding end_row
end_row-word w strs h = rw (h.no_ampersand) refl

pub tokens-words :
    (rows : ℕ) (w : Bytes) (ws : List Bytes) (rest : Bytes)
    → IsWord w
    → AreWords ws
    → length ws + 1 < rows
    → tokens 1000 rows false b' ' [] (words w ws ++ 0 ∷ rest)
      ≡ some (record { strs = rows_of w ws; background = false })
tokens-words rows w [] rest h hs room =
    tokens-Plain 1000 rows b' ' [] w (0 ∷ rest) (omega arith) h.plain (omega (arith, h.short))
    ∙ tokens-end 1000 rows b' ' w rest h.short (omega arith)
    ∙ ap (λ x. some x) (last_row-word w h)
tokens-words rows w (v ∷ ws) rest h hs room =
    ap (λ x. tokens 1000 rows false b' ' [] x) (append_assoc w (b' ' ∷ words v ws) (0 ∷ rest))
    ∙ tokens-Plain 1000 rows b' ' [] w (b' ' ∷ words v ws ++ 0 ∷ rest) (omega arith) h.plain
        (omega (arith, h.short))
    ∙ tokens-blank 1000 rows w (words v ws ++ 0 ∷ rest) h.short (omega arith)
    ∙ ap (end_row w) (tokens-words (rows - 1) v ws rest hs.0 hs.1 (omega arith))
    ∙ end_row-word w (rows_of v ws) h
