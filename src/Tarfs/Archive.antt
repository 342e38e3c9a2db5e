-- ===== src/Tarfs/Archive.antt =====
-- `getsize` and `init_tarfs` of sys/tarfs.c on an archive that is laid out as tar lays it out.
use osproject.Prelude.{
  ℕ, zero, suc, ◌+◌, ◌-◌, ◌*◌, ◌/◌, ◌%◌, ◌^◌, ◌≤◌, ◌<◌, ◌≡◌, ap, ◌∙◌, List, [], ◌∷◌, arith,
}
use osproject.Tarfs.{getsize, getsize_loop, widen, size_at}

-- The number that the first `n` octal digits stand for.
abbrev pub octal_value : ℕ → (ℕ → ℕ) → ℕ
octal_value zero input = 0
octal_value (suc n) input = 8 * octal_value n input + (input n - b'0')

-- One digit's share, with the count that the loop has reached.
digit_share :
    (c size count : ℕ)
    → b'0' ≤ c
    → c ≤ b'7'
    → (size + (widen c + 2 ^ 32 - b'0') * count) % 2 ^ 32 ≡ (size + (c - b'0') * count) % 2 ^ 32
digit_share c size count lo hi =
    let plain : widen c + 2 ^ 32 - b'0' ≡ (c - b'0') + 2 ^ 32 = ground arith in
    rw plain (omega arith)

getsize_loop-octal_value :
    (n size count : ℕ) (input : ℕ → ℕ)
    → ((i : ℕ) → i < n → (b'0' ≤ input i) × (input i ≤ b'7'))
    → getsize_loop n size count input % 2 ^ 32 ≡ (size + count * octal_value n input) % 2 ^ 32
unfolding getsize_loop
getsize_loop-octal_value zero size count input h = omega arith
getsize_loop-octal_value (suc n) size count input h =
    let v = octal_value n input in
    let (lo, hi) = h n (omega arith) in
    let next = (size + (widen (input n) + 2 ^ 32 - b'0') * count) % 2 ^ 32 in
    let wrapped : count * 8 % 2 ^ 32 + 2 ^ 32 * (count * 8 / 2 ^ 32) ≡ count * 8 = omega arith in
    let scaled = ap (λ (t : ℕ). t * v) wrapped in
    getsize_loop-octal_value n next (count * 8 % 2 ^ 32) input (λ i lt. h i (omega arith))
    ∙ omega (arith, digit_share (input n) size count lo hi, scaled)

getsize_loop-lt :
    (n size count : ℕ) (input : ℕ → ℕ) → size < 2 ^ 32 → getsize_loop n size count input < 2 ^ 32
unfolding getsize_loop
getsize_loop-lt zero size count input h = h
getsize_loop-lt (suc n) size count input h = getsize_loop-lt n _ _ input (omega arith)

-- If the size field has eleven octal digits, `getsize` returns the number that they stand for, modulo 2^32.
pub getsize-octal_value :
    (input : ℕ → ℕ)
    → ((i : ℕ) → i < 11 → (b'0' ≤ input i) × (input i ≤ b'7'))
    → getsize input ≡ octal_value 11 input % 2 ^ 32
unfolding getsize
getsize-octal_value input h =
    omega
      (arith, getsize_loop-octal_value 11 0 1 input h, getsize_loop-lt 11 0 1 input (omega arith))

-- Files of the given sizes from `address` on, each behind its header and padded to whole blocks.
abbrev pub place_after : ℕ → ℕ → ℕ
place_after address size = address + 512 + (size + 511) / 512 * 512

abbrev pub places : ℕ → List ℕ → List ℕ
places address [] = []
places address (size ∷ sizes) = address ∷ places (place_after address size) sizes

abbrev pub end_of : ℕ → List ℕ → ℕ
end_of address [] = address
end_of address (size ∷ sizes) = end_of (place_after address size) sizes

-- The size fields of the headers give these sizes, for which `unsigned int` does not wrap.
abbrev pub Holds : (ℕ → ℕ) → ℕ → List ℕ → Type 0
Holds byte address [] = Unit {0}
Holds byte address (size ∷ sizes) =
    (size_at byte address ≡ size)
    × (size < 4294966784)
    × Holds byte (place_after address size) sizes
