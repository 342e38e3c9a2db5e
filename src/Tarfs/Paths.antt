-- ===== src/Tarfs/Paths.antt =====
-- Paths in sys/tarfs.c: `setTruePath`, `starts_with` and `substring`, and `chdir` and `getcwd` of
-- sys/process.c.
pub mod Plain
use mathlib.Core.Option
use osproject.Prelude.{
  ℕ, zero, suc, ◌+◌, ◌-◌, ◌<◌, Bool, true, false, ◌&&◌, not, List, [], ◌∷◌, ◌++◌, Option, none,
  some, ltb, ◌==◌, if◌then◌else◌, replicate, drop, set?,
}
use osproject.Prelude.Loops.{update}
use osproject.Prelude.Int.{ℤ, pos, sub_ℕ}
use osproject.Text.{Bytes, strcmp, strcpy, strlen, strcat}
use osproject.Tarfs.{common}

-- The buffer `abs_path` as a function: index 0 is the byte before the buffer, `a + 1` is `abs_path[a]`.
-- The loop that goes back to a `/`: it ends at one, or behind the byte before the buffer, where C reads
-- that byte once.
unfoldable pub back : ℕ → (ℕ → ℕ) → ℕ × (ℕ → ℕ)
back zero b = (zero, b)
back (suc n) b =
    let rest = back n (update b (suc n) 0) in if b (suc n) == b'/' then (suc n, b) else rest

-- `a--` and the loop; from the byte before the buffer it would go further back, where the model stops.
unfoldable pub go_up : ℕ → (ℕ → ℕ) → Option (ℕ × (ℕ → ℕ))
unfolding back
go_up zero b = none
go_up (suc n) b = some (back n (update b n 0))

-- The loop of `setTruePath` over the bytes of `file_path`; `n` is `a + 1`. A text without an end runs out
-- of its array.
unfoldable pub resolve : Bytes → ℕ → (ℕ → ℕ) → Option (ℕ → ℕ)
unfolding go_up
resolve [] n b = none
resolve (c ∷ []) n b = if c == 0 then some (update (update b n 0) (n + 1) 0) else none
resolve (c ∷ d ∷ cs) n b =
    let parent : Option (ℕ → ℕ) = elim (go_up n b) [
      | none ↦ none
      | some (m, b') ↦ resolve cs m b'
    ] in
    let plain = resolve (d ∷ cs) (n + 1) (update b n c) in
    if c == 0
    then some (update (update b n 0) (n + 1) 0)
    else if (c == b'.') && (d == b'.')
    then parent
    else plain

-- The text that begins at index `i`, with its terminator, within so many bytes.
unfoldable pub text_from : ℕ → ℕ → (ℕ → ℕ) → Bytes
text_from zero i b = []
text_from (suc n) i b = let rest = text_from n (i + 1) b in if b i == 0 then 0 ∷ [] else b i ∷ rest

-- The length of `file_path`.
abbrev path_bytes : ℕ
path_bytes = 50

-- What `setTruePath` puts into `file_path`, whose bytes are `room` before; `curr_dir` is "/" or begins
-- with it.
unfoldable pub file_path : Bytes → Bytes → Bytes → Option Bytes
unfolding strcpy strcat
file_path curr_dir [] room = none
file_path curr_dir (c ∷ path) room =
    let relative : Option Bytes = elim (strcpy room (drop 1 curr_dir)) [
      | none ↦ none
      | some f ↦ strcat f (c ∷ path)
    ] in
    if c == b'/' then strcpy room path else relative

-- `setTruePath`: the text that `abs_path` holds afterwards; `before` are the bytes that it held.
unfoldable pub set_true_path : Bytes → Bytes → (ℕ → ℕ) → Option Bytes
unfolding file_path resolve text_from
set_true_path curr_dir path before = elim (file_path curr_dir path (replicate path_bytes 0)) [
  | none ↦ none
  | some f ↦ Option.map (text_from (path_bytes + 1) 1) (resolve f 1 (update before 1 0))
]

-- `starts_with`: one less than the length of the common beginning.
unfoldable pub starts_with : Bytes → Bytes → Option ℤ
unfolding common
starts_with string1 string2 = Option.map (λ count. sub_ℕ count 1) (common string1 string2)

-- `substring`, over `index + 1`: the text behind so many characters, or its end.
unfoldable pub substring : Bytes → ℕ → Bytes
substring string zero = string
substring [] (suc n) = []
substring (c ∷ string) (suc n) =
    let rest = substring string n in if c == 0 then c ∷ string else rest

-- `getcwd`, on the text of `curr_dir`: the last character is cut off, if it is not the only one.
unfoldable pub getcwd : Bytes → Bytes → Option Bytes
unfolding strcpy strlen
getcwd buf curr_dir = elim (strcpy buf curr_dir) [
  | none ↦ none
  | some out ↦ elim (strlen out) [
    | none ↦ none
    | some zero ↦ none
    | some (suc zero) ↦ some out
    | some (suc (suc l)) ↦ set? out (suc l) 0
  ]
]
