-- ===== src/Exec/Command.antt =====
-- The first half of `execvpe` of sys/process.c: which program a path stands for, and its arguments.
use mathlib.Core.Option
use osproject.Prelude.{
  ℕ, zero, suc, ◌+◌, ◌-◌, Bool, false, ◌&&◌, List, [], ◌∷◌, Option, none, some, ltb, ◌==◌,
  if◌then◌else◌, length, drop, replicate,
}
use osproject.Text.{Bytes, strcpy, strcat}
use osproject.Tarfs.{Header, get_file_address, data_address}

-- The program's address in memory, and `args`.
pub record Command : Type 0 where
  pub f_a : ℕ
  pub args : List Bytes

-- `char file[50]` and `ex[50]`, `args[10][80]`.
abbrev pub file_room : Bytes
file_room = replicate 50 0

abbrev pub arg_room : Bytes
arg_room = replicate 80 0

-- "bin/", "bin/sbush".
abbrev pub bin_text : Bytes
bin_text = b'b' ∷ b'i' ∷ b'n' ∷ b'/' ∷ 0 ∷ []

abbrev pub sbush_text : Bytes
sbush_text = b'b' ∷ b'i' ∷ b'n' ∷ b'/' ∷ b's' ∷ b'b' ∷ b'u' ∷ b's' ∷ b'h' ∷ 0 ∷ []

-- `get_file_address(file) + 512`.
unfoldable pub find_program : List Header → Bytes → Option ℕ
unfolding get_file_address data_address
find_program headers file = Option.map data_address (get_file_address file headers)

-- `strcpy(args[argc], argv[argc]); argc++`, until argv ends; there are ten rows of 80 bytes.
unfoldable pub copy_args : ℕ → List Bytes → Option (List Bytes)
unfolding strcpy
copy_args n [] = some []
copy_args zero (a ∷ argv) = none
copy_args (suc n) (a ∷ argv) = elim (strcpy arg_room a) [
  | none ↦ none
  | some b ↦ elim (copy_args n argv) [ none ↦ none | some rest ↦ some (b ∷ rest) ]
]

-- The two arguments of a script: `argv[0]` and the path behind "./".
unfoldable pub script_args : List Bytes → Bytes → Option (List Bytes)
unfolding strcpy
script_args [] path = none
script_args (a ∷ argv) path = elim (strcpy arg_room a) [
  | none ↦ none
  | some b ↦ elim (strcpy arg_room (drop 2 path)) [ none ↦ none | some c ↦ some (b ∷ c ∷ []) ]
]

-- The loop over the first line of a script: its characters without blanks, at most 49 of them. `none` is a
-- line without an end before the archive's, or too long a name.
unfoldable pub interpreter : ℕ → ℕ → (ℕ → ℕ) → Option Bytes
interpreter zero y byte = none
interpreter (suc n) y byte =
    let rest = interpreter n (y + 1) byte in
    let longer : Option Bytes = elim rest [
      | none ↦ none
      | some ex ↦ if ltb (length ex) 50 then some (byte y ∷ ex) else none
    ] in
    if byte y == b'\n' then some (0 ∷ []) else if byte y == b' ' then rest else longer

-- `if (strlen(ex) == 0) strcpy(ex, "bin/sbush")`.
unfoldable pub or_sbush : Bytes → Bytes
or_sbush [] = sbush_text
or_sbush (c ∷ ex) = if c == 0 then sbush_text else c ∷ ex

-- The program that runs the script at `y`: the test reads a `!` and then a `#`.
unfoldable pub script_program : List Header → (ℕ → ℕ) → ℕ → ℕ → Option ℕ
unfolding find_program interpreter or_sbush
script_program headers byte tar_end y =
    let named : Option ℕ = elim (interpreter (tar_end - (y + 2)) (y + 2) byte) [
      | none ↦ none
      | some ex ↦ find_program headers (or_sbush ex)
    ] in
    if (byte y == b'!') && (byte (y + 1) == b'#') then named else find_program headers sbush_text

-- Whether a path begins with "./".
unfoldable pub is_local : Bytes → Bool
is_local [] = false
is_local (c ∷ []) = false
is_local (c ∷ d ∷ path) = (c == b'.') && (d == b'/')

unfoldable pub with_args : Option ℕ → Option (List Bytes) → Option Command
with_args none args = none
with_args (some f_a) none = none
with_args (some f_a) (some args) = some (record { f_a = f_a; args = args })

-- A path "./…" is a script in the current directory. The outer `none` is a fault, the inner one -1.
unfoldable pub script_command :
    List Header → (ℕ → ℕ) → ℕ → Bytes → List Bytes → ℕ → Option (Option Command)
unfolding script_program script_args with_args
script_command headers byte tar_end path argv y =
    if ltb y 512
    then some none
    else Option.map some (with_args (script_program headers byte tar_end y) (script_args argv path))

unfoldable pub local_command :
    List Header → (ℕ → ℕ) → ℕ → Bytes → Bytes → List Bytes → Option (Option Command)
unfolding strcpy strcat find_program script_command
local_command headers byte tar_end curr_dir path argv = elim (strcpy file_room (drop 1 curr_dir)) [
  | none ↦ none
  | some dir ↦ elim (strcat dir (drop 2 path)) [
    | none ↦ none
    | some file ↦ elim (find_program headers file) [
      | none ↦ none
      | some y ↦ script_command headers byte tar_end path argv y
    ]
  ]
]

-- Every other path is a program in "bin/".
unfoldable pub bin_file : Bytes → Option Bytes
unfolding strcpy strcat
bin_file path = elim (strcpy file_room bin_text) [ none ↦ none | some dir ↦ strcat dir path ]

unfoldable pub bin_command : List Header → Bytes → List Bytes → Option (Option Command)
unfolding find_program copy_args with_args
bin_command headers file argv = elim (find_program headers file) [
  | none ↦ none
  | some f_a ↦
      if ltb f_a 512 then some none else Option.map some (with_args (some f_a) (copy_args 10 argv))
]
