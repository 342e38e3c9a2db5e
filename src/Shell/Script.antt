-- ===== src/Shell/Script.antt =====
-- `main` of bin/sbush/sbush.c: the lines of a script, and the rounds at the prompt.
pub mod Lines
use osproject.Prelude.{
  ℕ, zero, suc, ◌+◌, ◌-◌, Bool, true, false, ◌&&◌, ◌||◌, Option, none, some, List, [], ◌∷◌, ◌++◌,
  ltb, ◌==◌, if◌then◌else◌, length,
}
use osproject.Text.{Bytes}
use osproject.Shell.{Shell, Action, parse_input, same_text}

-- What the character `c` of `buf` makes of the lines that the rest gives; `row` is `cm[c]` up to `l`.
abbrev pub line_step : ℕ → Bytes → Option (List Bytes) → Option (List Bytes)
line_step c row none = none
line_step c row (some lines) = if c == b'\n' then some (row ∷ lines) else some lines

-- The loop over `buf`, with `rows` rows of `cm` left: the lines that a newline has ended. `none` is a write
-- past a row of 100 bytes or past the rows.
unfoldable pub script_lines : ℕ → Bytes → Bytes → Option (List Bytes)
script_lines rows row [] = some []
script_lines rows row (c ∷ buf) =
    let rest =
      script_lines (if c == b'\n' then rows - 1 else rows)
        (if c == b'\n' then [] else row ++ c ∷ []) buf in
    if ltb 0 rows && ltb (length row) 100 then line_step c row rest else none

-- The loop that runs the lines, each copied to `in`.
unfoldable pub run_lines : List Bytes → Shell → Option (List Action × Shell)
run_lines [] sh = some ([], sh)
run_lines (line ∷ lines) sh = elim (parse_input (line ++ 0 ∷ []) sh) [
  | none ↦ none
  | some (action, sh1) ↦ elim (run_lines lines sh1) [
    | none ↦ none
    | some (actions, sh2) ↦ some (action ∷ actions, sh2)
  ]
]

-- A script whose text, up to its terminator, is `buf`.
unfoldable pub run_script : Bytes → Shell → Option (List Action × Shell)
run_script buf sh = elim (script_lines 20 [] buf) [ none ↦ none | some lines ↦ run_lines lines sh ]

abbrev pub exit_text : Bytes
exit_text = b'e' ∷ b'x' ∷ b'i' ∷ b't' ∷ []

abbrev pub quit_text : Bytes
quit_text = b'q' ∷ b'u' ∷ b'i' ∷ b't' ∷ []

-- How a round at the prompt ends.
pub data PromptRound : Type 0 where
  again leave : PromptRound
  act : Action → Shell → PromptRound

-- A round at the prompt, for the line that `readInput` has read.
unfoldable pub round_of : Bytes → Shell → Option PromptRound
round_of [] sh = some again
round_of (c ∷ line) sh =
    if same_text (c ∷ line) exit_text || same_text (c ∷ line) quit_text
    then some leave
    else elim (parse_input ((c ∷ line) ++ 0 ∷ []) sh) [
      | none ↦ none
      | some (action, sh1) ↦ some (act action sh1)
    ]

-- The rounds for the lines that are typed: the actions, and whether the shell has ended.
unfoldable pub rounds : List Bytes → Shell → Option (List Action × Bool)
rounds [] sh = some ([], false)
rounds (line ∷ typed) sh = elim (round_of line sh) [
  | none ↦ none
  | some again ↦ rounds typed sh
  | some leave ↦ some ([], true)
  | some (act action sh1) ↦ elim (rounds typed sh1) [
    | none ↦ none
    | some (actions, ended) ↦ some (action ∷ actions, ended)
  ]
]
