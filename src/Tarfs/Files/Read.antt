-- ===== src/Tarfs/Files/Read.antt =====
-- What `read_tarfs` of sys/tarfs.c gives back.
use osproject.Prelude.{
  ℕ, zero, suc, ◌+◌, ◌-◌, ◌%◌, ◌^◌, ◌<◌, ◌≡◌, refl, ap, ◌∙◌, true, false, Bool-cases, inl, inr, [],
  ◌∷◌, ◌++◌, some, ltb, ◌==◌, if◌then◌else◌, get_elem?, length, length-append, arith,
}
use osproject.Text.{Bytes}
use osproject.Process.{Task}
use osproject.Prelude.Int.{ℤ, pos, negsuc, signed32}
use osproject.Tarfs.Files.{copy_out, clipped, fill_buf, is_zero, filled, read_tarfs}

length-copy_out : (n from : ℕ) (byte : ℕ → ℕ) → length (copy_out n from byte) ≡ n
unfolding copy_out
length-copy_out zero from byte = refl
length-copy_out (suc n) from byte = omega (arith, length-copy_out n (from + 1) byte)

copy_out-get :
    (n from i : ℕ) (byte : ℕ → ℕ) (tail : Bytes)
    → i < n
    → get_elem? (copy_out n from byte ++ tail) i ≡ some (byte (from + i))
unfolding copy_out
copy_out-get zero from i byte tail lt = absurd (omega arith)
copy_out-get (suc n) from zero byte tail lt = ap (λ x. some (byte x)) (omega arith)
copy_out-get (suc n) from (suc i) byte tail lt =
    copy_out-get n (from + 1) i byte tail (omega arith) ∙ ap (λ x. some (byte x)) (omega arith)

-- The smaller of the file's size and the count that is asked for; the size for a negative count.
abbrev pub amount : ℕ → ℤ → ℕ
amount size (pos n) = if ltb size n then size else n
amount size (negsuc n) = size

-- What an `int` holds.
abbrev pub IsInt : ℤ → Type 0
IsInt (pos n) = n < 2147483648
IsInt (negsuc n) = n < 2147483648

clipped-amount :
    (size : ℕ) (count : ℤ)
    → size < 2147483648
    → IsInt count
    → clipped size count ≡ pos (amount size count)
unfolding clipped
clipped-amount size (pos n) small fits = elim (Bool-cases (ltb size n)) [
  | inl less ↦ rw less (clip size small)
  | inr more ↦ rw more refl
]
  where
    clip : (m : ℕ) → m < 2147483648 → signed32 (m % 2 ^ 32) ≡ pos m
    clip m lt =
        let same : m % 4294967296 ≡ m = omega arith in
        let low : ltb m 2147483648 ≡ true = ground arith in rw same (rw low refl)
clipped-amount size (negsuc n) small fits =
    let less : ltb size (18446744073709551615 - n) ≡ true = ground arith in
    rw less (clip size small)
  where
    clip : (m : ℕ) → m < 2147483648 → signed32 (m % 2 ^ 32) ≡ pos m
    clip m lt =
        let same : m % 4294967296 ≡ m = omega arith in
        let low : ltb m 2147483648 ≡ true = ground arith in rw same (rw low refl)

-- For an open file of less than 2^31 bytes and an `int` count that is not zero, `read_tarfs` returns the
-- smaller `n` of the count and the file's size, or the file's size if the count is negative; it writes
-- `n + 1` bytes, one more than it returns, and the first `n` are those behind the file's header.
pub read_tarfs-bytes :
    (byte : ℕ → ℕ) (r : Task) (fd : ℕ) (count : ℤ)
    → ((r.fd fd).aval == 0) ≡ false
    → (r.fd fd).size < 2147483648
    → IsInt count
    → is_zero count ≡ false
    → (out : Bytes) × (read_tarfs byte r fd count ≡ filled out (amount (r.fd fd).size count))
      × (length out ≡ amount (r.fd fd).size count + 1)
      × ((i : ℕ)
          → i < amount (r.fd fd).size count
          → get_elem? out i ≡ some (byte ((r.fd fd).address + 512 + i)))
unfolding read_tarfs fill_buf
read_tarfs-bytes byte r fd count is_open small fits some_bytes =
    let n = amount (r.fd fd).size count in
    (
      copy_out n ((r.fd fd).address + 512) byte ++ 0 ∷ [],
      rw (is_open, some_bytes, clipped-amount (r.fd fd).size count small fits) refl,
      length-append (copy_out n ((r.fd fd).address + 512) byte) (0 ∷ [])
          ∙ omega (arith, length-copy_out n ((r.fd fd).address + 512) byte),
      λ i lt. copy_out-get n ((r.fd fd).address + 512) i byte (0 ∷ []) lt,
    )
