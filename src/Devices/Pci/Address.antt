-- ===== src/Devices/Pci/Address.antt =====
-- The address of a configuration register, `pciConfigReadWord` of sys/pci.c.
use native.Mathlib.Nat.{pow-suc}
use osproject.Prelude.{ℕ, zero, suc, ◌+◌, ◌*◌, ◌/◌, ◌%◌, ◌^◌, ◌<◌, ◌≡◌, refl, ◌∙◌, ap, arith}
use osproject.Devices.Pci.{or_bits, config_address}

or_bits-zero : (n a : ℕ) → a < 2 ^ n → or_bits n a 0 ≡ a
unfolding or_bits
or_bits-zero zero a h = omega arith
or_bits-zero (suc n) a h =
    ground (arith, pow-suc 2 n, or_bits-zero n (a / 2) (omega (arith, pow-suc 2 n)))

or_bits_comm : (n a b : ℕ) → or_bits n a b ≡ or_bits n b a
unfolding or_bits
or_bits_comm zero a b = refl
or_bits_comm (suc n) a b = ground (arith, or_bits_comm n (a / 2) (b / 2))

-- Fields that do not meet are added.
or_bits_fields :
    (k n q r : ℕ) → r < 2 ^ k → q * 2 ^ k + r < 2 ^ n → or_bits n (q * 2 ^ k) r ≡ q * 2 ^ k + r
unfolding or_bits
or_bits_fields zero n q r small fits =
    let none_left : r ≡ 0 = omega arith in
    rw none_left (or_bits-zero n (q * 1) (omega arith) ∙ omega arith)
or_bits_fields (suc k) zero q r small fits = omega arith
or_bits_fields (suc k) (suc n) q r small fits =
    let twice : q * 2 ^ suc k ≡ 2 * (q * 2 ^ k) =
      omega (arith, ap (λ (t : ℕ). q * t) (pow-suc 2 k)) in
    let half : (q * 2 ^ suc k) / 2 ≡ q * 2 ^ k = omega arith in
    let rest : or_bits n (q * 2 ^ k) (r / 2) ≡ q * 2 ^ k + r / 2 =
      or_bits_fields k n q (r / 2) (omega (arith, pow-suc 2 k))
        (omega (arith, pow-suc 2 n, pow-suc 2 k)) in
    rw half (ground (arith, twice, rest))

-- The address as a number.
pub config_address_sum :
    (bus slot func offset : ℕ)
    → bus < 256
    → slot < 32
    → func < 8
    → offset < 256
    → config_address bus slot func offset
      ≡ 2147483648 + (((bus * 32 + slot) * 8 + func) * 256 + offset / 4 * 4)
unfolding config_address
config_address_sum bus slot func offset hb hs hf ho =
    let word = offset / 4 * 4 % 256 in
    let e1 = or_bits_fields 16 32 bus (slot * 2048) (omega arith) (omega arith) in
    let e2 = or_bits_fields 11 32 (bus * 32 + slot) (func * 256) (omega arith) (omega arith) in
    let e3 = or_bits_fields 8 32 ((bus * 32 + slot) * 8 + func) word (omega arith) (omega arith) in
    let low = ((bus * 32 + slot) * 8 + func) * 256 + word in
    let e4 =
      or_bits_comm 32 low 0x80000000 ∙ or_bits_fields 31 32 1 low (omega arith) (omega arith) in
    let s1 : or_bits 32 (bus * 65536) (slot * 2048) ≡ (bus * 32 + slot) * 2048 = e1 ∙ omega arith in
    let s2 : or_bits 32 (or_bits 32 (bus * 65536) (slot * 2048)) (func * 256)
        ≡ ((bus * 32 + slot) * 8 + func) * 256 =
      ap (λ t. or_bits 32 t (func * 256)) s1 ∙ e2 ∙ omega arith in
    let s3 = ap (λ t. or_bits 32 t word) s2 ∙ e3 in
    ap (λ t. or_bits 32 t 2147483648) s3 ∙ e4 ∙ omega arith

-- The address of every register holds the number of the bus, of the device and of the function, and the
-- offset of the word of four bytes, and has bit 31 set.
pub config_address-fields :
    (bus slot func offset : ℕ)
    → bus < 256
    → slot < 32
    → func < 8
    → offset < 256
    → (config_address bus slot func offset / 65536 % 256 ≡ bus)
      × (config_address bus slot func offset / 2048 % 32 ≡ slot)
      × (config_address bus slot func offset / 256 % 8 ≡ func)
      × (config_address bus slot func offset % 256 ≡ offset / 4 * 4)
      × (config_address bus slot func offset / 2147483648 ≡ 1)
config_address-fields bus slot func offset hb hs hf ho =
    let sum = config_address_sum bus slot func offset hb hs hf ho in
    (omega arith, omega arith, omega arith, omega arith, omega arith)
