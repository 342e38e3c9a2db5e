-- ===== src/Tarfs/Directories.antt =====
-- `readdir_tarfs` of sys/tarfs.c and `chdir` of sys/process.c.
use osproject.Prelude.{
  ℕ, zero, suc, ◌+◌, Bool, false, ◌||◌, List, [], ◌∷◌, Option, none, some, ◌==◌, if◌then◌else◌,
  replicate,
}
use osproject.Prelude.Int.{ℤ, pos, negsuc}
use osproject.Prelude.State.{Op, pure, ◌>>=◌, ◌>>◌}
use osproject.Text.{Bytes, strcmp, strcpy, strcat}
use osproject.Process.{Kernel, current, put}
use osproject.Process.Life.{is_positive, is_zero}
use osproject.Process.Fork.{or_fault, get}
use osproject.Tarfs.{Header}
use osproject.Tarfs.Paths.{set_true_path, starts_with, substring}
use osproject.Tarfs.Files.{searched, fi_bytes, is_valid_directory, put_file}

-- The texts "/", "../" and "".
abbrev slash : Bytes
slash = b'/' ∷ 0 ∷ []

abbrev up_dir : Bytes
up_dir = b'.' ∷ b'.' ∷ b'/' ∷ 0 ∷ []

-- `index + 1`, where `index` is -1 at least.
abbrev past : ℤ → ℕ
past (pos n) = n + 1
past (negsuc n) = 0

-- How a name stands to the directory: `starts_with` and the comparison with "/".
unfoldable pub matches : Bytes → Bytes → Option (Bool × ℕ)
unfolding starts_with
matches name dir_name = elim (starts_with name dir_name) [
  | none ↦ none
  | some index ↦ elim (strcmp dir_name slash) [
    | none ↦ none
    | some k ↦ some (is_positive index || is_zero k, past index)
  ]
]

-- The loop of `readdir_tarfs`: `count` names have matched, and `entry` is the next one to return; the
-- first is the directory itself. What comes back is `entry` afterwards, and the name, if there is one.
unfoldable pub readdir_loop : ℕ → ℕ → ℕ → List Header → Bytes → Option (ℕ × Option Bytes)
unfolding matches substring
readdir_loop zero count entry hs dir_name = some (entry, none)
readdir_loop (suc n) count entry [] dir_name = some (entry, none)
readdir_loop (suc n) count entry (h ∷ hs) dir_name =
    let first = readdir_loop n 1 (if entry == 0 then 1 else entry) hs dir_name in
    let next = readdir_loop n (count + 1) entry hs dir_name in
    let skipped = readdir_loop n count entry hs dir_name in
    elim (matches h.name dir_name) [
      | none ↦ none
      | some (fits, skip) ↦
          if fits
          then (if count == 0
              then first
              else if count == entry
              then some (entry + 1, some (substring h.name skip))
              else next)
          else skipped
    ]

-- `readdir_tarfs`: the object of `buf` afterwards, and the number returned.
unfoldable pub readdir_end : Bytes → Option Bytes → Op Kernel (Bytes × ℕ)
readdir_end buf none = pure (buf, 0)
readdir_end buf (some name) = do out ← or_fault (strcpy buf name); pure (out, 1)

unfoldable pub readdir_tarfs : List Header → ℕ → Bytes → Op Kernel (Bytes × ℕ)
unfolding readdir_loop readdir_end put_file
readdir_tarfs headers fd buf = do
  k ← get
  found ←
      or_fault
        (readdir_loop searched 0 ((current k).fd fd).entry headers ((current k).fd fd).file_name)
  put_file fd (record ((current k).fd fd) { entry = found.0 })
  readdir_end buf found.1

-- `strcpy(r->curr_dir, …)`.
unfoldable pub set_curr_dir : Bytes → Op Kernel (Unit {0})
set_curr_dir text = do
  k ← get
  dir ← or_fault (strcpy (current k).curr_dir text)
  λ k'. some (tt, put k'.r (record (current k') { curr_dir = dir }) k')

module _ (headers : List Header) (before : ℕ → ℕ) where
  -- The path without its `..`, in an array of 100 bytes.
  unfoldable pub true_path : Bytes → Op Kernel Bytes
  true_path path = do
    k ← get
    copy ← or_fault (strcpy (replicate fi_bytes 0) path)
    or_fault (set_true_path (current k).curr_dir copy before)

  -- The test whether "../" leads to the root.
  unfoldable pub goes_to_root : Bytes → Op Kernel Bool
  unfolding true_path
  goes_to_root path = do
    d ← or_fault (strcmp up_dir path)
    if is_zero d
        then (do t ← true_path path; e ← or_fault (strcmp t (0 ∷ [])); pure (is_zero e))
        else pure false

  unfoldable pub enter_dir : Option ℕ → Bytes → Op Kernel (Option ℕ)
  unfolding true_path set_curr_dir
  enter_dir none path = pure none
  enter_dir (some n) path = do
    t ← true_path path
    l ← or_fault (strcat (b'/' ∷ replicate 99 0) t)
    set_curr_dir l
    pure (some 0)

  -- `chdir`; `none` for -1.
  unfoldable pub chdir : Bytes → Op Kernel (Option ℕ)
  unfolding goes_to_root enter_dir set_curr_dir is_valid_directory
  chdir path = do
    root ← goes_to_root path
    if root
        then (do set_curr_dir slash; pure (some 0))
        else (do n ← is_valid_directory headers before path; enter_dir n path)
