-- ===== src/Tarfs.antt =====
-- sys/tarfs.c: the tar archive that serves as file system.
pub mod Archive
pub mod Lookup
pub mod Paths
pub mod Files
pub mod Directories
use mathlib.Core.Option
use osproject.Prelude.{
  ℕ, zero, suc, ◌+◌, ◌-◌, ◌*◌, ◌/◌, ◌%◌, ◌^◌, Bool, ◌&&◌, not, List, [], ◌∷◌, Option, none, some,
  ltb, ◌==◌, if◌then◌else◌,
}
use osproject.Prelude.Int.{ℤ, pos}
use osproject.Text.{Bytes, strcmp}

-- The fields of `struct posix_header_ustar` that are used, with the address of the struct.
pub record Header : Type 0 where
  pub address : ℕ
  pub name : Bytes
  pub size : ℕ → ℕ

-- A `char` as an unsigned 32-bit operand.
abbrev pub widen : ℕ → ℕ
widen c = if ltb c 128 then c else c + 2 ^ 32 - 256

-- `getsize`: the loop from the last digit to the first, in unsigned 32-bit arithmetic.
unfoldable pub getsize_loop : ℕ → ℕ → ℕ → (ℕ → ℕ) → ℕ
getsize_loop zero size count input = size
getsize_loop (suc j) size count input =
    getsize_loop j ((size + (widen (input j) + 2 ^ 32 - b'0') * count) % 2 ^ 32)
      (count * 8 % 2 ^ 32) input

unfoldable pub getsize : (ℕ → ℕ) → ℕ
unfolding getsize_loop
getsize input = getsize_loop 11 0 1 input

-- From one header of the archive to the next; `size` is an `unsigned int`, and so is what is added for it.
abbrev pub next_header : ℕ → ℕ → ℕ
next_header address size =
    let skip = address + (size / 512 + 1) * 512 % 2 ^ 32 in
    if size % 512 == 0 then skip else skip + 512

-- The length of `headers`.
abbrev pub max_headers : ℕ
max_headers = 200

-- `getsize(header->size)` for the header at an address; `byte` is the memory of the archive.
unfoldable pub size_at : (ℕ → ℕ) → ℕ → ℕ
unfolding getsize
size_at byte address = getsize (λ i. byte (address + 124 + i))

-- The loop of `init_tarfs`; `fc` headers are known. A 201st is written past the end of `headers`. `none` is
-- that, or more than `fuel` rounds.
unfoldable pub init_loop : ℕ → (ℕ → ℕ) → ℕ → ℕ → ℕ → Option (List ℕ)
unfolding size_at
init_loop zero byte fc address end = none
init_loop (suc fuel) byte fc address end =
    let rest = init_loop fuel byte (fc + 1) (next_header address (size_at byte address)) end in
    if ltb address end
    then (if ltb fc max_headers
        then elim rest [ none ↦ none | some hs ↦ some (address ∷ hs) ]
        else none)
    else some []

-- `init_tarfs` between the two ends of the archive; a round goes on by 512 bytes at
-- least, but for a size from 2^32 - 512 on.
unfoldable pub init_tarfs : (ℕ → ℕ) → ℕ → ℕ → Option (List ℕ)
unfolding init_loop
init_tarfs byte start end = init_loop ((end - start) / 512 + 2) byte 0 start end

-- `get_file_address`: the first header of that name; -1, as an unsigned number, if there is none.
unfoldable pub get_file_address : Bytes → List Header → Option ℕ
unfolding strcmp
get_file_address filename [] = some (2 ^ 64 - 1)
get_file_address filename (h ∷ hs) =
    let rest = get_file_address filename hs in
    elim (strcmp filename h.name) [ none ↦ none | some (pos zero) ↦ some h.address | some _ ↦ rest ]

-- Where the file's data begins, and the test that `create_process` and `execvpe` make on it.
unfoldable pub data_address : ℕ → ℕ
data_address a = (a + 512) % 2 ^ 64

-- `octal_dict`; the missing eighth entry is 0.
abbrev octal_dict : ℕ → ℕ
octal_dict d =
    if d == 1
    then 1
    else if d == 2
    then 10
    else if d == 3
    then 11
    else if d == 4
    then 100
    else if d == 5
    then 101
    else if d == 6
    then 111
    else 0

-- The first loop of `octal_to_binary`: the text as a decimal number. A number past an `int` has no
-- meaning in C.
unfoldable pub read_decimal : ℕ → Bytes → Option ℕ
read_decimal oct [] = none
read_decimal oct (c ∷ cs) =
    let rest = read_decimal (c - b'0' + oct * 10) cs in
    if c == 0 then (if ltb oct (2 ^ 31) then some oct else none) else rest

-- A 32-bit `int` as a 64-bit operand.
abbrev widen_int : ℕ → ℕ
widen_int w = if ltb w (2 ^ 31) then w else w + 2 ^ 64 - 2 ^ 32

-- The second loop, a digit a round; the `int` arithmetic wraps, as the machine's does.
unfoldable pub binary_loop : ℕ → ℕ → ℕ → ℕ → ℕ
binary_loop zero oct i bin = bin
binary_loop (suc fuel) oct i bin =
    let rest =
      binary_loop fuel (oct / 10) (i * 1000 % 2 ^ 32)
        ((bin + widen_int (octal_dict (oct % 10) * i % 2 ^ 32)) % 2 ^ 64) in
    if oct == 0 then bin else rest

-- `octal_to_binary` on digits; an `int` has ten digits at most.
unfoldable pub octal_to_binary : Bytes → Option ℕ
unfolding read_decimal binary_loop
octal_to_binary octal = Option.map (λ oct. binary_loop 11 oct 1 0) (read_decimal 0 octal)

-- `starts_with`: the length of the common beginning, less one; `none` past an object's end, and zero
-- stands for -1.
unfoldable pub common : Bytes → Bytes → Option ℕ
common [] t = none
common (c ∷ s) [] = none
common (c ∷ s) (d ∷ t) =
    let rest = Option.map suc (common s t) in if (c == d) && not (c == 0) then rest else some 0
