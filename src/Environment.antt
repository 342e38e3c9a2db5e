-- ===== src/Environment.antt =====
-- libc/env.c: the environment of a user program, as the rows of `env_var` that are in use.
pub mod Setenv
use mathlib.Core.Option
use osproject.Prelude.{
  ℕ, zero, suc, ◌+◌, Bool, List, [], ◌∷◌, ◌++◌, Option, none, some, ◌==◌, if◌then◌else◌, length,
  drop,
}
use osproject.Prelude.Int.{ℤ, pos}
use osproject.Text.{Bytes, strcmp, strcpy, strlen}

-- The loop of `getvar`, which copies up to `=` into `temp`; `room` is what is left of its 50 bytes. The copy
-- stands here without its terminator.
unfoldable pub getvar_loop : ℕ → Bytes → Option Bytes
getvar_loop zero name = none
getvar_loop (suc room) [] = none
getvar_loop (suc room) (c ∷ name) =
    let rest = Option.map (λ t. c ∷ t) (getvar_loop room name) in
    if c == b'=' then some [] else rest

-- `getvar`: what is in `temp` afterwards.
unfoldable pub getvar : Bytes → Option Bytes
unfolding getvar_loop
getvar name = Option.map (λ (t : Bytes). t ++ 0 ∷ []) (getvar_loop 50 name)

-- `strcpy(&row[k], value)`.
unfoldable pub copy_at : ℕ → Bytes → Bytes → Option Bytes
unfolding strcpy
copy_at zero row value = strcpy row value
copy_at (suc k) [] value = none
copy_at (suc k) (c ∷ row) value = Option.map (λ r. c ∷ r) (copy_at k row value)

-- `int k = strlen(&temp[0]); strcpy(&env_var[i][k+1], value)`.
unfoldable pub set_value_of : Bytes → Bytes → Bytes → Option Bytes
unfolding copy_at strlen
set_value_of temp row value = elim (strlen temp) [
  | none ↦ none
  | some k ↦ copy_at (k + 1) row value
]

-- A row in front of what the loop makes of the others.
unfoldable pub keep_row : Bytes → Option (ℕ × List Bytes) → Option (ℕ × List Bytes)
keep_row row none = none
keep_row row (some (r, rows)) = some (r, row ∷ rows)

-- The row whose name is compared, and the others.
unfoldable pub set_or_keep :
    Option ℤ
    → Bytes
    → Bytes
    → Bytes
    → List Bytes
    → Option (ℕ × List Bytes)
    → Option (ℕ × List Bytes)
unfolding set_value_of keep_row
set_or_keep none temp row value rows rest = none
set_or_keep (some z) temp row value rows rest =
    let set = Option.map (λ (r : Bytes). (1, r ∷ rows)) (set_value_of temp row value) in
    elim z [ pos zero ↦ set | _ ↦ keep_row row rest ]

-- `setenv`: 1 and the new rows, or 0.
unfoldable pub setenv : Bytes → Bytes → List Bytes → Option (ℕ × List Bytes)
unfolding getvar set_or_keep strcmp
setenv name value [] = some (0, [])
setenv name value (row ∷ rows) =
    let rest = setenv name value rows in
    elim (getvar row) [
      | none ↦ none
      | some temp ↦ set_or_keep (strcmp name temp) temp row value rows rest
    ]

-- `getenv`, whatever the name: the text from the `=` of the first row on. The outer `none` is a fault, the
-- inner one NULL.
unfoldable pub getenv : Bytes → List Bytes → Option (Option Bytes)
unfolding getvar strlen
getenv name [] = some none
getenv name (row ∷ rows) = elim (getvar row) [
  | none ↦ none
  | some temp ↦ Option.map (λ k. some (drop k row)) (strlen temp)
]

-- `pushenvs`, into the 1000 rows that there are: the rows that are then in use.
unfoldable pub pushenvs : List Bytes → List Bytes → Option (List Bytes)
unfolding strcpy
pushenvs [] rows = some []
pushenvs (e ∷ envp) [] = none
pushenvs (e ∷ envp) (row ∷ rows) =
    let rest = pushenvs envp rows in
    elim (strcpy row e) [ none ↦ none | some r ↦ Option.map (λ rs. r ∷ rs) rest ]
