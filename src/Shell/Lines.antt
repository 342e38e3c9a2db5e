-- ===== src/Shell/Lines.antt =====
-- `parseInput` of bin/sbush/sbush.c on a line of words.
use osproject.Prelude.{
  ℕ, ◌+◌, ◌<◌, ◌≤◌, ◌≡◌, refl, ap, ◌∙◌, Bool, true, false, ◌||◌, not, some, List, [], ◌∷◌, ◌++◌,
  length, length-append, arith,
}
use osproject.Text.{Bytes}
use osproject.Shell.{
  Tokens, is_ampersand, is_empty, last_row, tokens, set_string_tokens, Shell, run, arguments,
  same_text, cd_text, export_text, clear_text, pwd_text, exec_command, note_background, parse_input,
}
use osproject.Shell.Words.{
  Plain, words, rows_of, IsWord, AreWords, tokens-Plain, tokens-first, tokens-end, tokens-words,
}

-- No pipe in any of the words.
abbrev pub NoPipes : List Bytes → Type 0
NoPipes [] = Unit {0}
NoPipes (w ∷ ws) = Plain b'|' w × NoPipes ws

append-Plain : (d : ℕ) (s t : Bytes) → Plain d s → Plain d t → Plain d (s ++ t)
append-Plain d [] t hs ht = ht
append-Plain d (c ∷ s) t hs ht = (hs.0, hs.1, hs.2, append-Plain d s t hs.3 ht)

pub words-Plain : (w : Bytes) (ws : List Bytes) → NoPipes (w ∷ ws) → Plain b'|' (words w ws)
words-Plain w [] h = h.0
words-Plain w (v ∷ ws) h =
    append-Plain b'|' w (b' ' ∷ words v ws) h.0
      (omega arith, omega arith, omega arith, words-Plain v ws h.1)

length-words : (w : Bytes) (ws : List Bytes) → length ws + length w ≤ length (words w ws)
length-words w [] = omega arith
length-words w (v ∷ ws) = omega (arith, length-words v ws, length-append w (b' ' ∷ words v ws))

some_length : (w : Bytes) → is_empty w ≡ false → 0 < length w
some_length [] h = absurd (cc)
some_length (c ∷ w) h = omega arith

arguments-rows_of : (w : Bytes) (ws : List Bytes) → arguments (rows_of w ws) ≡ w ∷ ws
arguments-rows_of w [] = refl
arguments-rows_of w (v ∷ ws) = ap (λ x. w ∷ x) (arguments-rows_of v ws)

-- A line of words is no "&".
words-ampersand : (w : Bytes) (ws : List Bytes) → IsWord w → is_ampersand (words w ws) ≡ false
words-ampersand w [] h = h.no_ampersand
words-ampersand [] (v ∷ ws) h = absurd (cc (h.some_letter))
words-ampersand (c ∷ []) (v ∷ ws) h = refl
words-ampersand (c ∷ d ∷ w) (v ∷ ws) h = refl

-- A line does not begin with a blank.
tokens-line :
    (delimiter : ℕ) (w : Bytes) (ws : List Bytes) (rest : Bytes)
    → IsWord w
    → tokens 1000 1000 true delimiter [] (words w ws ++ 0 ∷ rest)
      ≡ tokens 1000 1000 false delimiter [] (words w ws ++ 0 ∷ rest)
tokens-line delimiter [] ws rest h = absurd (cc (h.some_letter))
tokens-line delimiter (c ∷ w) [] rest h =
    tokens-first 1000 1000 delimiter [] c (w ++ 0 ∷ rest) h.plain.0
tokens-line delimiter (c ∷ w) (v ∷ ws) rest h =
    tokens-first 1000 1000 delimiter [] c ((w ++ b' ' ∷ words v ws) ++ 0 ∷ rest) h.plain.0

split_pipes :
    (w : Bytes) (ws : List Bytes) (rest : Bytes)
    → IsWord w
    → NoPipes (w ∷ ws)
    → length (words w ws) < 1000
    → set_string_tokens 1000 1000 (words w ws ++ 0 ∷ rest) b'|' ≡ some (last_row (words w ws))
unfolding set_string_tokens
split_pipes w ws rest h pipes short =
    tokens-line b'|' w ws rest h
    ∙ tokens-Plain 1000 1000 b'|' [] (words w ws) (0 ∷ rest) (omega arith) (words-Plain w ws pipes)
        (omega (arith, short))
    ∙ tokens-end 1000 1000 b'|' (words w ws) rest short (omega arith)

split_blanks :
    (w : Bytes) (ws : List Bytes) (rest : Bytes)
    → IsWord w
    → AreWords ws
    → length (words w ws) < 1000
    → set_string_tokens 1000 1000 (words w ws ++ 0 ∷ rest) b' '
      ≡ some (record { strs = rows_of w ws; background = false })
unfolding set_string_tokens
split_blanks w ws rest h hs short =
    tokens-line b' ' w ws rest h
    ∙ tokens-words 1000 w ws rest h hs
        (omega (arith, length-words w ws, some_length w h.some_letter))

-- None of the shell's own commands.
pub record IsForeign (w : Bytes) : Type 0 where
  pub no_cd : same_text w cd_text ≡ false
  pub no_export : same_text w export_text ≡ false
  pub no_clear : same_text w clear_text ≡ false
  pub no_pwd : same_text w pwd_text ≡ false

exec_command-foreign :
    (w : Bytes) (ws : List Bytes) (sh : Shell)
    → IsForeign w
    → exec_command (rows_of w ws) sh ≡ some (run w (w ∷ ws) (not sh.is_background), sh)
unfolding exec_command
exec_command-foreign w [] sh f = rw (f.no_cd, f.no_export, f.no_clear, f.no_pwd) refl
exec_command-foreign w (v ∷ ws) sh f =
    rw (f.no_cd, f.no_export, f.no_clear, f.no_pwd)
      (ap (λ x. some (run w (w ∷ x) (not sh.is_background), sh)) (arguments-rows_of v ws))

same_shell : (t : Tokens) (sh : Shell) → t.background ≡ false → note_background t sh ≡ sh
same_shell t sh e =
    ap (λ b. record sh { is_background = b })
      (ap (λ b. sh.is_background || b) e ∙ right_false sh.is_background)
  where
    right_false : (b : Bool) → b || false ≡ b
    right_false b = ground arith

-- A line of words with single blanks between them, of fewer than 1000 characters and without a pipe, whose
-- first word is none of the shell's own commands and none of whose words is "&", makes the shell run the
-- program of that name with exactly these words as its arguments, and wait for it unless an earlier line
-- has set `isBackground`; the shell's variables stay.
pub parse_input-run :
    (w : Bytes) (ws : List Bytes) (rest : Bytes) (sh : Shell)
    → IsWord w
    → AreWords ws
    → NoPipes (w ∷ ws)
    → IsForeign w
    → length (words w ws) < 1000
    → parse_input (words w ws ++ 0 ∷ rest) sh ≡ some (run w (w ∷ ws) (not sh.is_background), sh)
unfolding parse_input last_row
parse_input-run w ws rest sh h hs pipes f short =
    let quiet : (last_row (words w ws)).background ≡ false = words-ampersand w ws h in
    rw (split_pipes w ws rest h pipes short, parse_input)
      (rw (split_blanks w ws rest h hs short) (
        ap
          (λ x.
            exec_command (rows_of w ws)
              (note_background (record { strs = rows_of w ws; background = false }) x))
          (same_shell (last_row (words w ws)) sh quiet)
        ∙ ap (exec_command (rows_of w ws))
            (same_shell (record { strs = rows_of w ws; background = false }) sh refl)
        ∙ exec_command-foreign w ws sh f))
