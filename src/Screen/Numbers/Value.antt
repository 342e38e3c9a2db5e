-- ===== src/Screen/Numbers/Value.antt =====
-- The printed numbers read back.
use mathlib.Core.List.{reverse, reverse-cons, reverse-reverse}
use native.Mathlib.Nat.{div-add-mod, mod-lt, pow-suc}
use native.Mathlib.Decide.{dec_lt}
use osproject.Prelude.{
  ℕ, zero, suc, ◌+◌, ◌-◌, ◌*◌, ◌/◌, ◌%◌, ◌^◌, ◌<◌, ◌≤◌, ◌≡◌, refl, ap, ◌∙◌, sym, Bool, true, false,
  [], ◌∷◌, ◌++◌, ltb, not, ◌&&◌, ◌⊎◌, ◌==◌, if◌then◌else◌, Bool-cases, inl, inr, arith, ==_iff,
}
use osproject.Prelude.Int.{pos, negsuc}
use osproject.Text.{Bytes}
use osproject.Screen.Numbers.{
  int_loop, int_text, hex_digit, hex_loop, pointer_text, libc_pointer_text,
}

-- Reading decimal digits, after `acc`.
abbrev pub read_decimal : ℕ → Bytes → ℕ
read_decimal acc [] = acc
read_decimal acc (c ∷ cs) = read_decimal (acc * 10 + (c - b'0')) cs

abbrev pow10 : ℕ → ℕ
pow10 zero = 1
pow10 (suc n) = 10 * pow10 n

pow10_pos : (n : ℕ) → 0 < pow10 n
pow10_pos zero = omega arith
pow10_pos (suc n) = omega (arith, pow10_pos n)

-- Once the first digit is out the loop emits all the others.
int_loop_digits :
    (n fuel acc i : ℕ)
    → n + 1 < fuel
    → i < pow10 (suc n)
    → read_decimal acc (int_loop fuel (pow10 n) false i) ≡ acc * pow10 (suc n) + i
unfolding int_loop
int_loop_digits n zero acc i f lt = absurd (omega arith)
int_loop_digits zero (suc (suc fuel)) acc i f lt = omega arith
int_loop_digits zero (suc zero) acc i f lt = absurd (omega arith)
int_loop_digits (suc n) (suc fuel) acc i f lt =
    let p = pow10 (suc n) in
    let some_left : (p == 0) ≡ false = ground (arith, pow10_pos n) in
    let ten : p / 10 ≡ pow10 n = omega arith in
    let digit : b'0' + i / p - b'0' ≡ i / p = omega arith in
    let split : i / p * p + i % p ≡ i = grind (arith, div-add-mod i p, pow10_pos n) in
    let small : i % p < p = mod-lt i (ground (arith, pow10_pos n)) in
    rw (some_left, ten, digit)
      (int_loop_digits n fuel (acc * 10 + i / p) (i % p) (omega arith) small ∙ omega (arith, split))

-- Before the first digit the loop skips: a number below the place value has none there.
int_loop_leading :
    (n fuel i : ℕ)
    → n + 1 < fuel
    → i < pow10 (suc n)
    → read_decimal 0 (int_loop fuel (pow10 n) true i) ≡ i
unfolding int_loop
int_loop_leading n zero i f lt = absurd (omega arith)
int_loop_leading zero (suc (suc fuel)) i f lt = ground arith
int_loop_leading zero (suc zero) i f lt = absurd (omega arith)
int_loop_leading (suc n) (suc fuel) i f lt =
    let p = pow10 (suc n) in
    let some_left : (p == 0) ≡ false = ground (arith, pow10_pos n) in
    let ten : p / 10 ≡ pow10 n = omega arith in
    let split : i / p * p + i % p ≡ i = grind (arith, div-add-mod i p, pow10_pos n) in
    let small : i % p < p = mod-lt i (ground (arith, pow10_pos n)) in
    rw (some_left, ten)
      (elim (Bool-cases (i / p == 0)) [
        | inl none_here ↦
            let gone : i / p ≡ 0 = (==_iff (i / p) 0).0 none_here in
            let below : i < p = ground (arith, ap (λ (x : ℕ). x * p) gone) in
            rw none_here (int_loop_leading n fuel i (omega arith) below)
        | inr here ↦
            let first : 0 * 10 + (b'0' + i / p - b'0') ≡ i / p = omega arith in
            rw here (
              ap (λ (d : ℕ). read_decimal d (int_loop fuel (pow10 n) false (i % p))) first
              ∙ int_loop_digits n fuel (i / p) (i % p) (omega arith) small
              ∙ split)
      ])

-- Every character is one of '0' to '9'.
abbrev pub AllDigits : Bytes → Type 0
AllDigits [] = Unit {0}
AllDigits (c ∷ cs) = (b'0' ≤ c) × (c ≤ b'9') × AllDigits cs

-- The first character is not '0', or there is none.
abbrev pub starts_high : Bytes → Bool
starts_high [] = true
starts_high (c ∷ cs) = not (c == b'0')

int_loop-AllDigits :
    (n fuel i : ℕ) (lead : Bool) → i < pow10 (suc n) → AllDigits (int_loop fuel (pow10 n) lead i)
unfolding int_loop
int_loop-AllDigits n zero i lead h = tt
int_loop-AllDigits zero (suc zero) i lead h = ground arith
int_loop-AllDigits zero (suc (suc fuel)) i lead h = ground arith
int_loop-AllDigits (suc n) (suc fuel) i lead h =
    let p = pow10 (suc n) in
    let some_left : (p == 0) ≡ false = ground (arith, pow10_pos n) in
    let ten : p / 10 ≡ pow10 n = omega arith in
    let small : i % p < p = mod-lt i (ground (arith, pow10_pos n)) in
    let split : i / p * p + i % p ≡ i = grind (arith, div-add-mod i p, pow10_pos n) in
    let digit : i / p < 10 = div_lt i p (pow10_pos (suc n)) h in
    rw (some_left, ten)
      (elim (Bool-cases (lead && (i / p == 0))) [
        | inl skip ↦
            let gone : i / p ≡ 0 = ground arith in
            let below : i < p = ground (arith, ap (λ (x : ℕ). x * p) gone) in
            rw skip (int_loop-AllDigits n fuel i lead below)
        | inr here ↦
            rw here (omega arith, omega arith, int_loop-AllDigits n fuel (i % p) false small)
      ])
  where
    more : (x : ℕ) → 10 ≤ x → (k : ℕ) × (x ≡ k + 10)
    more x le = (x - 10, omega arith)

    mul_add : (k b : ℕ) → (k + 10) * b ≡ k * b + 10 * b
    mul_add k b = grind arith

    div_lt : (a b : ℕ) → 0 < b → a < 10 * b → a / b < 10
    div_lt a b b_pos lt = elim (dec_lt (a / b) 10) [
      | yes low ↦ low
      | no high ↦
          let split : a / b * b + a % b ≡ a = grind (arith, div-add-mod a b, b_pos) in
          let (k, e) = more (a / b) (omega arith) in
          absurd (omega (arith, split, ap (λ (x : ℕ). x * b) e, mul_add k b))
    ]

int_loop-starts_high : (n fuel i : ℕ) → 0 < i → starts_high (int_loop fuel (pow10 n) true i) ≡ true
unfolding int_loop
int_loop-starts_high n zero i h = refl
int_loop-starts_high zero (suc zero) i h = ground arith
int_loop-starts_high zero (suc (suc fuel)) i h = ground arith
int_loop-starts_high (suc n) (suc fuel) i h =
    let p = pow10 (suc n) in
    let some_left : (p == 0) ≡ false = ground (arith, pow10_pos n) in
    let ten : p / 10 ≡ pow10 n = omega arith in
    rw (some_left, ten)
      (elim (Bool-cases (i / p == 0)) [
        | inl skip ↦ rw skip (int_loop-starts_high n fuel i h)
        | inr here ↦ rw here (ground arith)
      ])

-- The text is the decimal numeral of `n`: digits that read as `n`, without a leading 0 unless it is "0".
pub record IsNumeral (n : ℕ) (text : Bytes) : Type 0 where
  pub digits : AllDigits text
  pub value : read_decimal 0 text ≡ n
  pub first : (n ≡ 0) × (text ≡ b'0' ∷ []) ⊎ (0 < n) × (starts_high text ≡ true)

-- `print_int` prints a number below 10^10 as its decimal numeral: characters '0' to '9' only, which read back
-- as the number, the first of them not 0 unless the text is "0"; and the negative of a number
-- from 1 to 2^31 - 1 as a '-' in front of that number's numeral.
pub int_text-read_decimal :
    (n : ℕ)
    → n < 10000000000
    → IsNumeral n (int_text (pos n))
      × ((k : ℕ) → n ≡ suc k → n < 2147483648 → int_text (negsuc k) ≡ b'-' ∷ int_text (pos n))
unfolding int_text
int_text-read_decimal n h = (
  elim (Bool-cases (n == 0)) [
    | inl zero_here ↦
        let e : n ≡ 0 = (==_iff n 0).0 zero_here in
        rw (zero_here, e)
          (record {
            digits = (omega arith, omega arith, tt);
            value = refl;
            first = inl (refl, refl);
          })
    | inr more ↦ rw more (record {
      digits = int_loop-AllDigits 9 11 n true h;
      value = int_loop_leading 9 11 n (omega arith) h;
      first = inr (ground arith, int_loop-starts_high 9 11 n (ground arith));
    })
  ],
  λ k e _. negative k ∙ ap (λ x. b'-' ∷ int_text (pos x)) (sym e),
)
  where
    negative : (k : ℕ) → int_text (negsuc k) ≡ b'-' ∷ int_text (pos (suc k))
    negative k = let more : (suc k == 0) ≡ false = ground arith in rw more refl

-- Reading hexadecimal digits, the last one first.
abbrev pub read_digit : ℕ → ℕ
read_digit c = if ltb c b'A' then c - b'0' else c - b'A' + 10

abbrev pub read_hex_reversed : Bytes → ℕ
read_hex_reversed [] = 0
read_hex_reversed (c ∷ cs) = read_digit c + 16 * read_hex_reversed cs

-- Reading them in the usual order, after `acc`.
abbrev pub read_hex : ℕ → Bytes → ℕ
read_hex acc [] = acc
read_hex acc (c ∷ cs) = read_hex (acc * 16 + read_digit c) cs

digit_back : (k : ℕ) → k < 16 → read_digit (hex_digit k) ≡ k
digit_back k h = ground arith

hex_loop-reads : (fuel i : ℕ) → i < 16 ^ fuel → read_hex_reversed (hex_loop fuel i) ≡ i
unfolding hex_loop
hex_loop-reads zero i h = omega arith
hex_loop-reads (suc fuel) i h = elim (Bool-cases (i == 0)) [
  | inl zero_here ↦ rw zero_here (ground arith)
  | inr more ↦
      let small : i / 16 < 16 ^ fuel = omega (arith, pow-suc 16 fuel) in
      rw (more, digit_back (i % 16) (omega arith), hex_loop-reads fuel (i / 16) small) (omega arith)
]

read_hex-append :
    (acc : ℕ) (xs ys : Bytes) → read_hex acc (xs ++ ys) ≡ read_hex (read_hex acc xs) ys
read_hex-append acc [] ys = refl
read_hex-append acc (x ∷ xs) ys = read_hex-append (acc * 16 + read_digit x) xs ys

read_hex-reverse : (xs : Bytes) → read_hex 0 (reverse xs) ≡ read_hex_reversed xs
read_hex-reverse [] = refl
read_hex-reverse (x ∷ xs) =
    rw (reverse-cons x xs, read_hex-append 0 (reverse xs) (x ∷ []), read_hex-reverse xs)
      (omega arith)

-- A 64-bit pointer is printed by `print_pointer` of the kernel as hexadecimal digits that read back as the
-- pointer.
pub pointer_text-read_hex : (i : ℕ) → i < 2 ^ 64 → read_hex 0 (pointer_text i) ≡ i
unfolding pointer_text
pointer_text-read_hex i h = read_hex-reverse (hex_loop 17 i) ∙ hex_loop-reads 17 i (omega arith)

-- `print_pointer` of the C library prints the digits that the kernel prints for the same pointer in the
-- reverse order.
pub libc_pointer_text-reverse : (i : ℕ) → libc_pointer_text i ≡ reverse (pointer_text i)
unfolding libc_pointer_text pointer_text
libc_pointer_text-reverse i = sym (reverse-reverse (hex_loop 17 i))
