-- ===== src/Shell.antt =====
-- bin/sbush/sbush.c: how the shell splits a line and what it does with it.
pub mod Words
pub mod Lines
pub mod Script
use osproject.Prelude.{
  ℕ, zero, suc, ◌+◌, ◌-◌, Bool, true, false, ◌&&◌, ◌||◌, not, Option, none, some, List, [], ◌∷◌,
  ◌++◌, ltb, ◌==◌, if◌then◌else◌, length, get_elem?,
}
use osproject.Text.{Bytes, strcpy}

-- An entry of `strs`: a text, NULL, or a row that a newline has left without its terminator.
pub data Row : Type 0 where
  text : Bytes → Row
  null : Row
  unended : Bytes → Row

-- What `setStringTokens` leaves: the entries, and whether it has set `isBackground`.
pub record Tokens : Type 0 where
  pub strs : List Row
  pub background : Bool

-- `strcmp(strs[i], "&") == 0`.
abbrev pub is_ampersand : Bytes → Bool
is_ampersand [] = false
is_ampersand (c ∷ []) = c == b'&'
is_ampersand (c ∷ d ∷ row) = false

-- `j == 0`.
abbrev pub is_empty : Bytes → Bool
is_empty [] = true
is_empty (c ∷ row) = false

-- The row after `c`.
unfoldable pub next_row : Bool → ℕ → Bytes → ℕ → Bytes
next_row first delimiter row c =
    if first && (c == b' ')
    then row
    else if c == delimiter
    then []
    else if (c == b'"') && (delimiter == b'=')
    then row
    else row ++ c ∷ []

-- The rows that are left after `c`.
unfoldable pub next_rows : Bool → ℕ → ℕ → ℕ → ℕ
next_rows first delimiter rows c =
    if first && (c == b' ') then rows else if c == delimiter then rows - 1 else rows

-- A row that a delimiter ends, in front of the others.
unfoldable pub end_row : Bytes → Option Tokens → Option Tokens
end_row row none = none
end_row row (some t) = some (record {
  strs = (if is_ampersand row then null else text row) ∷ t.strs;
  background = is_ampersand row || t.background;
})

-- The row that the text's end ends, and the NULL behind it.
unfoldable pub last_row : Bytes → Tokens
last_row row = record {
  strs = (if is_ampersand row || is_empty row then null else text row) ∷ null ∷ [];
  background = is_ampersand row;
}

-- What the character `c` makes of what the rest of the text gives.
unfoldable pub token_step : ℕ → ℕ → Bool → ℕ → Bytes → ℕ → Option Tokens → Option Tokens
unfolding end_row last_row
token_step cols rows first delimiter row c rest =
    if c == b'\n'
    then some (record { strs = unended row ∷ []; background = false })
    else if first && (c == b' ')
    then rest
    else if (c == delimiter) || (c == 0)
    then (if ltb (length row) cols && ltb 1 rows
        then (if c == 0 then some (last_row row) else end_row row rest)
        else none)
    else if (c == b'"') && (delimiter == b'=')
    then rest
    else if ltb (length row) cols
    then rest
    else none

-- The loop of `setStringTokens` on rows of `cols` bytes, of which `rows` are left; `first` is `k == 0`. `none`
-- is a write past a row or the rows, or a text that does not end.
unfoldable pub tokens : ℕ → ℕ → Bool → ℕ → Bytes → Bytes → Option Tokens
unfolding next_row next_rows token_step
tokens cols rows first delimiter row [] = none
tokens cols rows first delimiter row (c ∷ str) = token_step cols rows first delimiter row c (
    tokens cols (next_rows first delimiter rows c) false delimiter (next_row first delimiter row c)
      str)

-- `setStringTokens`.
unfoldable pub set_string_tokens : ℕ → ℕ → Bytes → ℕ → Option Tokens
unfolding tokens
set_string_tokens cols rows str delimiter = tokens cols rows true delimiter [] str

-- The shell's variables that outlive a command.
pub record Shell : Type 0 where
  pub is_background : Bool
  pub prompt : Bytes

-- What the shell asks of the system.
pub data Action : Type 0 where
  change_dir : Option Bytes → Action
  clear print_dir nothing : Action
  run : Bytes → List Bytes → Bool → Action

-- The texts in front of the first NULL, as `execvp` reads them.
abbrev pub arguments : List Row → List Bytes
arguments [] = []
arguments (text t ∷ strs) = t ∷ arguments strs
arguments (null ∷ strs) = []
arguments (unended t ∷ strs) = t ∷ arguments strs

-- `strcmp(command, name) == 0`, for texts without their terminators.
abbrev pub same_text : Bytes → Bytes → Bool
same_text [] [] = true
same_text [] (d ∷ t) = false
same_text (c ∷ s) [] = false
same_text (c ∷ s) (d ∷ t) = (c == d) && same_text s t

abbrev pub cd_text : Bytes
cd_text = b'c' ∷ b'd' ∷ []

abbrev pub export_text : Bytes
export_text = b'e' ∷ b'x' ∷ b'p' ∷ b'o' ∷ b'r' ∷ b't' ∷ []

abbrev pub clear_text : Bytes
clear_text = b'c' ∷ b'l' ∷ b'e' ∷ b'a' ∷ b'r' ∷ []

abbrev pub pwd_text : Bytes
pwd_text = b'p' ∷ b'w' ∷ b'd' ∷ []

abbrev pub ps1_text : Bytes
ps1_text = b'P' ∷ b'S' ∷ b'1' ∷ []

-- `setvar` on the pieces of its argument: a new prompt of at most 99 characters.
unfoldable pub set_prompt : List Row → Shell → Option Shell
set_prompt (text a ∷ text b ∷ strs) sh =
    if same_text ps1_text a
    then (if ltb (length b) 100 then some (record sh { prompt = b }) else none)
    else some sh
set_prompt (text a ∷ strs) sh = if same_text ps1_text a then none else some sh
set_prompt strs sh = none

unfoldable pub setvar : List Row → Shell → Option Shell
unfolding set_string_tokens set_prompt
setvar (command ∷ text a ∷ strs) sh = elim (set_string_tokens 1000 3 (a ++ 0 ∷ []) b'=') [
  | none ↦ none
  | some t ↦ set_prompt t.strs (record sh { is_background = sh.is_background || t.background })
]
setvar strs sh = none

-- The second of the arguments.
abbrev pub second : List Bytes → Option Bytes
second args = get_elem? args 1

-- `execCommand`; a command that is NULL is a fault.
unfoldable pub exec_command : List Row → Shell → Option (Action × Shell)
unfolding setvar
exec_command (text command ∷ strs) sh =
    if same_text command cd_text
    then some (change_dir (second (arguments (text command ∷ strs))), sh)
    else if same_text command export_text
    then elim (setvar (text command ∷ strs) sh) [ none ↦ none | some sh' ↦ some (nothing, sh') ]
    else if same_text command clear_text
    then some (clear, sh)
    else if same_text command pwd_text
    then some (print_dir, sh)
    else some (run command (arguments (text command ∷ strs)) (not sh.is_background), sh)
exec_command strs sh = none

-- `args[1] == NULL`.
abbrev pub one_command : List Row → Bool
one_command (first ∷ null ∷ strs) = true
one_command strs = false

-- `isBackground = 1` is never undone.
abbrev pub note_background : Tokens → Shell → Shell
note_background t sh = record sh { is_background = sh.is_background || t.background }

-- `parseInput`: a line with a `|` is passed over.
unfoldable pub parse_input : Bytes → Shell → Option (Action × Shell)
unfolding set_string_tokens exec_command
parse_input input sh = elim (set_string_tokens 1000 1000 input b'|') [
  | none ↦ none
  | some t ↦
      let split : Option (Action × Shell) = elim (set_string_tokens 1000 1000 input b' ') [
        | none ↦ none
        | some u ↦ exec_command u.strs (note_background u (note_background t sh))
      ] in
      if one_command t.strs then split else some (nothing, note_background t sh)
]
