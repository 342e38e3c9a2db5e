-- ===== src/Shell/Script/Lines.antt =====
-- A script of lines of words, each ended by a newline.
use mathlib.Core.Path.{subst}
use mathlib.Core.List.{append-nil, append_assoc}
use osproject.Prelude.{
  ℕ, ◌+◌, ◌-◌, ◌<◌, ◌≡◌, ◌≢◌, refl, sym, ap, ◌∙◌, Bool, true, false, not, Option, none, some, List,
  [], ◌∷◌, ◌++◌, ltb, ◌==◌, length, length-append, arith,
}
use osproject.Text.{Bytes}
use osproject.Shell.{Shell, Action, run}
use osproject.Shell.Words.{Plain, words, IsWord, AreWords}
use osproject.Shell.Lines.{NoPipes, IsForeign, parse_input-run, words-Plain}
use osproject.Shell.Script.{line_step, script_lines, run_lines, run_script}

-- No byte is a newline.
abbrev pub IsOneLine : Bytes → Type 0
IsOneLine [] = Unit {0}
IsOneLine (c ∷ s) = (c ≢ b'\n') × IsOneLine s

below_true : (a b : ℕ) → a < b → ltb a b ≡ true
below_true a b h = ground arith

other_false : (c : ℕ) → c ≢ b'\n' → (c == b'\n') ≡ false
other_false c h = ground arith

line_step-other :
    (c : ℕ) (row : Bytes) (lines : Option (List Bytes)) → c ≢ b'\n' → line_step c row lines ≡ lines
line_step-other c row none h = refl
line_step-other c row (some lines) h = rw (other_false c h) refl

script_lines-row :
    (rows : ℕ) (row s rest : Bytes)
    → 0 < rows
    → IsOneLine s
    → length row + length s < 100
    → script_lines rows row (s ++ rest) ≡ script_lines rows (row ++ s) rest
unfolding script_lines
script_lines-row rows row [] rest room one short =
    ap (λ x. script_lines rows x rest) (sym (append-nil row))
script_lines-row rows row (c ∷ s) rest room one short =
    rw (below_true 0 rows room, below_true (length row) 100 (omega arith), other_false c one.0)
      (line_step-other c row (script_lines rows (row ++ c ∷ []) (s ++ rest)) one.0)
    ∙ script_lines-row rows (row ++ c ∷ []) s rest room one.1
        (omega (arith, length-append row (c ∷ [])))
    ∙ ap (λ x. script_lines rows x rest) (append_assoc row (c ∷ []) s)

script_lines-newline :
    (rows : ℕ) (row rest : Bytes) (lines : List Bytes)
    → 0 < rows
    → length row < 100
    → script_lines (rows - 1) [] rest ≡ some lines
    → script_lines rows row (b'\n' ∷ rest) ≡ some (row ∷ lines)
unfolding script_lines
script_lines-newline rows row rest lines room short e =
    rw (below_true 0 rows room, below_true (length row) 100 short) (rw e refl)

-- What stands behind the last newline.
script_lines-rest :
    (rows : ℕ) (rest : Bytes)
    → 0 < rows
    → IsOneLine rest
    → length rest < 100
    → script_lines rows [] rest ≡ some []
unfolding script_lines
script_lines-rest rows rest room one short =
    subst (λ x. script_lines rows [] x ≡ some []) (append-nil rest)
      (script_lines-row rows [] rest [] room one (omega (arith, short)))

-- A line of words that the shell can run.
pub record IsCommand (line : Bytes × List Bytes) : Type 0 where
  pub first : IsWord line.0
  pub others : AreWords line.1
  pub no_pipes : NoPipes (line.0 ∷ line.1)
  pub foreign : IsForeign line.0
  pub short : length (words line.0 line.1) < 100

abbrev pub AreCommands : List (Bytes × List Bytes) → Type 0
AreCommands [] = Unit {0}
AreCommands (line ∷ lines) = IsCommand line × AreCommands lines

-- The text of a script, and the actions of its lines.
unfoldable pub script_text : List (Bytes × List Bytes) → Bytes → Bytes
script_text [] rest = rest
script_text (line ∷ lines) rest = words line.0 line.1 ++ b'\n' ∷ script_text lines rest

abbrev pub texts : List (Bytes × List Bytes) → List Bytes
texts [] = []
texts (line ∷ lines) = words line.0 line.1 ∷ texts lines

abbrev pub runs : Bool → List (Bytes × List Bytes) → List Action
runs wait [] = []
runs wait (line ∷ lines) = run line.0 (line.0 ∷ line.1) wait ∷ runs wait lines

Plain-IsOneLine : (d : ℕ) (w : Bytes) → Plain d w → IsOneLine w
Plain-IsOneLine d [] h = tt
Plain-IsOneLine d (c ∷ w) h = (h.2, Plain-IsOneLine d w h.3)

script_lines-texts :
    (rows : ℕ) (lines : List (Bytes × List Bytes)) (rest : Bytes)
    → length lines < rows
    → AreCommands lines
    → IsOneLine rest
    → length rest < 100
    → script_lines rows [] (script_text lines rest) ≡ some (texts lines)
unfolding script_text
script_lines-texts rows [] rest room hs one short =
    script_lines-rest rows rest (omega arith) one short
script_lines-texts rows (line ∷ lines) rest room (h, hs) one short =
    let w = words line.0 line.1 in
    script_lines-row rows [] w (b'\n' ∷ script_text lines rest) (omega arith)
      (Plain-IsOneLine b'|' w (words-Plain line.0 line.1 h.no_pipes)) (omega (arith, h.short))
    ∙ script_lines-newline rows w (script_text lines rest) (texts lines) (omega arith) h.short
        (script_lines-texts (rows - 1) lines rest (omega arith) hs one short)

run_lines-texts :
    (lines : List (Bytes × List Bytes)) (sh : Shell)
    → AreCommands lines
    → run_lines (texts lines) sh ≡ some (runs (not sh.is_background) lines, sh)
unfolding run_lines
run_lines-texts [] sh hs = refl
run_lines-texts (line ∷ lines) sh (h, hs) =
    rw
      (
        parse_input-run line.0 line.1 [] sh h.first h.others h.no_pipes h.foreign
            (omega (arith, h.short)),
        run_lines,
      )
      (rw (run_lines-texts lines sh hs) refl)

-- A script of fewer than 20 lines, each of at most 99 characters and made of words with single blanks
-- between them, without a pipe, whose first word is none of the shell's own commands and none of whose
-- words is "&", each ended by a newline: the shell runs the program of each line in their order, with
-- exactly the words of the line as its arguments. Up to 99 characters behind the last newline are passed over.
pub run_script-runs :
    (lines : List (Bytes × List Bytes)) (rest : Bytes) (sh : Shell)
    → length lines < 20
    → AreCommands lines
    → IsOneLine rest
    → length rest < 100
    → run_script (script_text lines rest) sh ≡ some (runs (not sh.is_background) lines, sh)
unfolding run_script
run_script-runs lines rest sh room hs one short =
    rw (script_lines-texts 20 lines rest room hs one short, run_script)
      (run_lines-texts lines sh hs)
