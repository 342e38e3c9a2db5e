-- ===== src/Tarfs/Files.antt =====
-- Open files and directories of sys/tarfs.c, and `chdir` of sys/process.c.
pub mod Read
pub mod Find
use mathlib.Core.Option
use osproject.Prelude.{
  ℕ, zero, suc, ◌+◌, ◌-◌, ◌%◌, ◌^◌, Bool, true, false, ◌&&◌, ◌||◌, not, List, [], ◌∷◌, Option, none,
  some, ltb, ◌==◌, if◌then◌else◌, replicate, get_elem?, set?, ◌++◌,
}
use osproject.Prelude.Int.{ℤ, pos, negsuc, signed32}
use osproject.Prelude.Loops.{update}
use osproject.Prelude.State.{Op, pure, ◌>>=◌, ◌>>◌, when}
use osproject.Text.{Bytes, strcmp, strcpy, strlen, strcat}
use osproject.Process.{File, Task, Kernel, current, put}
use osproject.Process.Fork.{or_fault, get}
use osproject.Tarfs.{Header, octal_to_binary}
use osproject.Tarfs.Paths.{set_true_path, starts_with, substring}

-- The number of headers that the searches look at, though `headers` holds 200.
abbrev pub searched : ℕ
searched = 32

-- The loop of `isfileexists` from index `i` on: the first header of that name.
unfoldable pub find_from : ℕ → ℕ → List Header → Bytes → Option (Option ℕ)
find_from zero i hs abs_path = some none
find_from (suc n) i [] abs_path = some none
find_from (suc n) i (h ∷ hs) abs_path =
    let rest = find_from n (i + 1) hs abs_path in
    elim (strcmp h.name abs_path) [ none ↦ none | some (pos zero) ↦ some (some i) | some _ ↦ rest ]

-- `char fi[100]`.
abbrev pub fi_bytes : ℕ
fi_bytes = 100

-- The character before the end of a name; an empty name has none.
unfoldable pub last_char : Bytes → Option ℕ
last_char name = elim (strlen name) [
  | none ↦ none
  | some zero ↦ none
  | some (suc l) ↦ get_elem? name l
]

-- `r->fd`, an array of 25 files.
unfoldable pub put_file : ℕ → File → Op Kernel (Unit {0})
put_file fdc f k =
    if ltb fdc 25
    then some (tt, put k.r (record (current k) { fd = update (current k).fd fdc f }) k)
    else none

-- `int fdc = r->fd_c + 3; r->fd_c++`.
unfoldable pub next_fd : Op Kernel ℕ
next_fd k =
    some ((current k).fd_c + 3, put k.r (record (current k) { fd_c = (current k).fd_c + 1 }) k)

-- The root directory has no header.
unfoldable pub open_root : Op Kernel (Option ℕ)
unfolding next_fd put_file
open_root = do
  fdc ← next_fd
  k ← get
  name ← or_fault (strcpy ((current k).fd fdc).file_name (b'/' ∷ 0 ∷ []))
  put_file fdc (record ((current k).fd fdc) { entry = 0; file_name = name })
  pure (some fdc)

-- The archive, and the bytes that a function finds in its arrays before it writes them.
module _ (headers : List Header) (before : ℕ → ℕ) where
  -- `isfileexists`: the index of the file, `none` for -1.
  unfoldable pub isfileexists : Bytes → Op Kernel (Option ℕ)
  unfolding find_from
  isfileexists path = do
    k ← get
    fi ← or_fault (strcpy (replicate fi_bytes 0) path)
    abs_path ← or_fault (set_true_path (current k).curr_dir fi before)
    or_fault (find_from searched 0 headers abs_path)

  unfoldable pub directory_at : Option ℕ → Op Kernel (Option ℕ)
  unfolding last_char
  directory_at none = pure none
  directory_at (some n) = do
    h ← or_fault (get_elem? headers n)
    c ← or_fault (last_char h.name)
    pure (if c == b'/' then some n else none)

  -- `isValidDirectory`.
  unfoldable pub is_valid_directory : Bytes → Op Kernel (Option ℕ)
  unfolding isfileexists directory_at
  is_valid_directory path = do n ← isfileexists path; directory_at n

  -- What `open_dir` and `open_tarfs` enter for header `n`; a directory keeps its flags.
  unfoldable pub open_at : Option ℕ → ℕ → Op Kernel ℕ
  unfolding next_fd put_file
  open_at flags n = do
    h ← or_fault (get_elem? headers n)
    fdc ← next_fd
    k ← get
    name ← or_fault (strcpy ((current k).fd fdc).file_name h.name)
    size ← or_fault (octal_to_binary (size_text 12 0 h.size))
    put_file fdc (record ((current k).fd fdc) {
      file_name = name;
      flags = elim flags [ none ↦ ((current k).fd fdc).flags | some f ↦ f ];
      entry = 0;
      aval = 1;
      size = size;
      address = h.address;
      fd = fdc;
    })
    pure fdc
    where
      size_text : ℕ → ℕ → (ℕ → ℕ) → Bytes
      size_text zero i size = []
      size_text (suc m) i size = size i ∷ size_text m (i + 1) size

  unfoldable pub opened : Option ℕ → Option ℕ → Op Kernel (Option ℕ)
  unfolding open_at
  opened flags none = pure none
  opened flags (some n) = do fdc ← open_at flags n; pure (some fdc)

  -- `open_tarfs`; `none` for -1.
  unfoldable pub open_tarfs : Bytes → ℕ → Op Kernel (Option ℕ)
  unfolding isfileexists opened
  open_tarfs path flags = do n ← isfileexists path; opened (some flags) n

  -- `open_dir`.
  unfoldable pub open_dir : Bytes → Op Kernel (Option ℕ)
  unfolding is_valid_directory opened open_root
  open_dir path = do
    d ← or_fault (strcmp path (b'/' ∷ 0 ∷ []))
    elim d [ pos zero ↦ open_root | _ ↦ (do n ← is_valid_directory path; opened none n) ]

-- `buf[i] = *(start_address + i)` for `i` from 0 on.
unfoldable pub copy_out : ℕ → ℕ → (ℕ → ℕ) → Bytes
copy_out zero from byte = []
copy_out (suc n) from byte = byte from ∷ copy_out n (from + 1) byte

-- An `int` beside an `uint64_t`.
abbrev pub unsigned64 : ℤ → ℕ
unsigned64 (pos n) = n
unsigned64 (negsuc n) = 2 ^ 64 - 1 - n

-- `if (f->size < count) count = f->size;`.
unfoldable pub clipped : ℕ → ℤ → ℤ
clipped size count = if ltb size (unsigned64 count) then signed32 (size % 2 ^ 32) else count

-- How `read_tarfs` ends: with -1; with 0 and nothing written; with the bytes that are written to `buf`, the
-- NUL behind them, and the number returned; or, for a negative number `n`, with a NUL in
-- front of `buf` at `buf[n]`.
pub data Reading : Type 0 where
  closed nothing : Reading
  filled : Bytes → ℕ → Reading
  in_front : ℤ → Reading

unfoldable pub fill_buf : (ℕ → ℕ) → ℕ → ℤ → Reading
unfolding copy_out
fill_buf byte start (pos n) = filled (copy_out n start byte ++ 0 ∷ []) n
fill_buf byte start (negsuc n) = in_front (negsuc n)

abbrev pub is_zero : ℤ → Bool
is_zero (pos n) = n == 0
is_zero (negsuc n) = false

-- `read_tarfs`; `byte` is the memory of the archive.
unfoldable pub read_tarfs : (ℕ → ℕ) → Task → ℕ → ℤ → Reading
unfolding fill_buf clipped
read_tarfs byte r fd count =
    let f = r.fd fd in
    if f.aval == 0
    then closed
    else if is_zero count
    then nothing
    else fill_buf byte (f.address + 512) (clipped f.size count)

-- `close_tarfs`: it clears a copy, and returns the number of the file.
unfoldable pub close_tarfs : ℕ → Op Kernel ℕ
close_tarfs fp k = some (((current k).fd fp).fd, k)
