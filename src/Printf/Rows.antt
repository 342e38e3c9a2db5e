-- ===== src/Printf/Rows.antt =====
-- `string_split` of libc/printf.c on arrays of zeros.
use native.Mathlib.Decide.{dec_lt}
use osproject.Prelude.{
  ℕ, zero, suc, ◌+◌, ◌-◌, ◌<◌, ◌≤◌, ◌≡◌, ◌≢◌, refl, sym, ap, ◌∙◌, Bool, true, false, ◌||◌, some,
  List, [], ◌∷◌, ◌++◌, ltb, leb, ◌==◌, if◌then◌else◌, length, length-append, Bool-cases, inl, inr,
  arith,
}
use osproject.Text.{Bytes}
use osproject.Prelude.Loops.{update}
use osproject.Printf.{
  next_i, clear_temp, is_pending, then_do, set_temp, Split, temp_text, copy_row, close_text,
  conversion,
}

abbrev pub is_empty : Bytes → Bool
is_empty [] = true
is_empty (c ∷ t) = false

-- The text in front of a conversion, as rows.
abbrev pub front : Bytes → List Bytes
front acc = if is_empty acc then [] else acc ∷ []

-- The rows of a format behind the text `acc`.
unfoldable pub pieces : Bool → Bytes → Bytes → List Bytes
pieces true acc [] = []
pieces true acc (c ∷ str) = front acc ++ (b'%' ∷ c ∷ []) ∷ pieces false [] str
pieces false acc [] = acc ∷ []
pieces false acc (c ∷ str) =
    if c == b'%'
    then pieces true acc str
    else if (c == b'\n') || (c == b'\t')
    then acc ∷ (c ∷ []) ∷ pieces false [] str
    else pieces false (acc ++ c ∷ []) str

-- The bytes of a text with zeros behind it, and the rows of a list with empty rows behind it.
abbrev pub byte_at : Bytes → ℕ → ℕ
byte_at [] k = 0
byte_at (c ∷ t) zero = c
byte_at (c ∷ t) (suc k) = byte_at t k

abbrev pub row_at : List Bytes → ℕ → Bytes
row_at [] k = []
row_at (r ∷ rows) zero = r
row_at (r ∷ rows) (suc k) = row_at rows k

abbrev pub NoZeros : Bytes → Type 0
NoZeros [] = Unit {0}
NoZeros (c ∷ t) = (c ≢ 0) × NoZeros t

temp_text-byte_at :
    (n : ℕ) (temp : ℕ → ℕ) (k : ℕ) (t : Bytes)
    → ((m : ℕ) → temp (k + m) ≡ byte_at t m)
    → NoZeros t
    → length t < n
    → temp_text n temp k ≡ some t
unfolding temp_text
temp_text-byte_at zero temp k t h ok short = absurd (omega arith)
temp_text-byte_at (suc n) temp k [] h ok short =
    let here : temp k ≡ 0 = ap temp (omega arith) ∙ h 0 in rw (here, temp_text) refl
temp_text-byte_at (suc n) temp k (c ∷ t) h ok short =
    let here : temp k ≡ c = ap temp (omega arith) ∙ h 0 in
    let other : (temp k == 0) ≡ false = ground (arith, here, ok.0) in
    let rest : temp_text n temp (k + 1) ≡ some t =
      temp_text-byte_at n temp (k + 1) t (λ m. ap temp (omega arith) ∙ h (suc m)) ok.1
        (omega arith) in
    rw (other, temp_text) (rw rest (ap (λ x. some (x ∷ t)) here))

-- The text in `temp` is `acc`.
pub record Typed (st : Split) (acc : Bytes) : Type 0 where
  pub bytes : (m : ℕ) → st.temp m ≡ byte_at acc m
  pub at_end : st.j ≡ length acc
  pub no_zeros : NoZeros acc
  pub fits : length acc < 50

-- The rows that were added from one state to the next.
pub record Wrote (st st' : Split) (rows : List Bytes) : Type 0 where
  pub next : st'.i ≡ st.i + length rows
  pub before : (k : ℕ) → k < st.i → st'.s k ≡ st.s k
  pub added : (m : ℕ) → m < length rows → st'.s (st.i + m) ≡ row_at rows m
  pub beyond : (k : ℕ) → st'.i ≤ k → st'.s k ≡ st.s k

row_at-append-left :
    (xs ys : List Bytes) (m : ℕ) → m < length xs → row_at (xs ++ ys) m ≡ row_at xs m
row_at-append-left [] ys m h = absurd (omega arith)
row_at-append-left (x ∷ xs) ys zero h = refl
row_at-append-left (x ∷ xs) ys (suc m) h = row_at-append-left xs ys m (omega arith)

pub row_at-append-right :
    (xs ys : List Bytes) (m : ℕ) → row_at (xs ++ ys) (length xs + m) ≡ row_at ys m
row_at-append-right [] ys m = let e : 0 + m ≡ m = omega arith in ap (row_at ys) e
row_at-append-right (x ∷ xs) ys m =
    let e : length (x ∷ xs) + m ≡ suc (length xs + m) = omega arith in
    ap (row_at (x ∷ (xs ++ ys))) e ∙ row_at-append-right xs ys m

pub Wrote-append :
    (a b c : Split) (xs ys : List Bytes) → Wrote a b xs → Wrote b c ys → Wrote a c (xs ++ ys)
Wrote-append a b c xs ys h g = record {
  next = omega (arith, h.next, g.next, length-append xs ys);
  before = λ k lt. g.before k (omega (arith, h.next)) ∙ h.before k lt;
  added = λ m lt. (elim (dec_lt m (length xs)) [
    | yes low ↦
        g.before (a.i + m) (omega (arith, h.next))
        ∙ h.added m low
        ∙ sym (row_at-append-left xs ys m low)
    | no high ↦
        ap c.s (omega (arith, h.next))
        ∙ g.added (m - length xs) (omega (arith, length-append xs ys))
        ∙ sym (row_at-append-right xs ys (m - length xs))
        ∙ ap (row_at (xs ++ ys)) (omega arith)
  ]);
  beyond = λ k le. g.beyond k le ∙ h.beyond k (omega (arith, g.next));
}

pub Wrote-nil : (st : Split) → Wrote st st []
Wrote-nil st = record {
  next = omega arith;
  before = λ k lt. refl;
  added = λ m lt. absurd (omega arith);
  beyond = λ k le. refl;
}

-- One row, written by `copy_row`, counted by what follows.
pub one-Wrote :
    (st st' : Split) (row : Bytes)
    → st'.i ≡ st.i + 1
    → ((k : ℕ) → st'.s k ≡ (if st.i == k then row else st.s k))
    → Wrote st st' (row ∷ [])
one-Wrote st st' row e h = record {
  next = e;
  before = λ k lt. h k ∙ ground arith;
  added = λ m lt. only m lt;
  beyond = λ k le. h k ∙ ground arith;
}
  where
    only : (m : ℕ) → m < 1 → st'.s (st.i + m) ≡ row_at (row ∷ []) m
    only zero lt = h (st.i + 0) ∙ ground arith
    only (suc m) lt = absurd (omega arith)

pub copy_row-text :
    (st : Split) (acc : Bytes)
    → ((m : ℕ) → st.temp m ≡ byte_at acc m)
    → NoZeros acc
    → length acc < 50
    → st.i < 100
    → copy_row st ≡ some (record st { s = update st.s st.i acc })
unfolding copy_row
copy_row-text st acc bytes ok short room =
    rw
      (
        temp_text-byte_at 50 st.temp 0 acc (λ m. ap st.temp (omega arith) ∙ bytes m) ok short,
        copy_row,
      )
      (rw (below_true st.i 100 room) refl)
  where
    below_true : (a b : ℕ) → a < b → ltb a b ≡ true
    below_true a b lt = ground arith

pub is_pending-Typed :
    (st : Split) (acc : Bytes)
    → Typed st acc
    → is_pending st ≡ (if is_empty acc then false else true)
is_pending-Typed st [] h = let e : st.temp 0 ≡ 0 = h.bytes 0 in rw e refl
is_pending-Typed st (c ∷ acc) h =
    let e : st.temp 0 ≡ c = h.bytes 0 in rw e (ground (arith, h.no_zeros.0))

byte_at-end : (t : Bytes) (k : ℕ) → length t ≤ k → byte_at t k ≡ 0
byte_at-end [] k h = refl
byte_at-end (c ∷ t) zero h = absurd (omega arith)
byte_at-end (c ∷ t) (suc k) h = byte_at-end t k (omega arith)

pub clear-Typed : (st : Split) (acc : Bytes) → Typed st acc → (m : ℕ) → (clear_temp st).temp m ≡ 0
clear-Typed st acc h m = elim (Bool-cases (leb m st.j)) [
  | inl e ↦ rw e refl
  | inr e ↦ rw e (h.bytes m ∙ byte_at-end acc m (ground (arith, e, h.at_end)))
]

close_text-Wrote :
    (st : Split) (acc : Bytes)
    → Typed st acc
    → st.i < 100
    → (st' : Split) × (close_text st ≡ some st')
      × ((m : ℕ) → st'.temp m ≡ 0)
      × Wrote st st' (front acc)
unfolding close_text
close_text-Wrote st [] h room =
    let e : st.temp 0 ≡ 0 = h.bytes 0 in (st, rw (e, close_text) refl, h.bytes, Wrote-nil st)
close_text-Wrote st (c ∷ acc) h room =
    let copied = record st { s = update st.s st.i (c ∷ acc) } in
    let e : is_pending st ≡ true = is_pending-Typed st (c ∷ acc) h in
    (
      clear_temp (next_i copied),
      rw (e, close_text) (rw (copy_row-text st (c ∷ acc) h.bytes h.no_zeros h.fits room) refl),
      clear-Typed st (c ∷ acc) h,
      one-Wrote st (clear_temp (next_i copied)) (c ∷ acc) refl (λ k. refl),
    )

-- A row that is put together in an empty `temp`, and the empty `temp` again.
pub cleared-Typed : (st : Split) → ((m : ℕ) → st.temp m ≡ 0) → st.j ≡ 0 → Typed st []
cleared-Typed st h e = record { bytes = h; at_end = e; no_zeros = tt; fits = omega arith }

pub conversion-Wrote :
    (c : ℕ) (st : Split) (acc : Bytes)
    → Typed st acc
    → c ≢ 0
    → st.i + 1 < 100
    → (st' : Split) × (conversion c st ≡ some st')
      × Typed st' []
      × Wrote st st' (front acc ++ (b'%' ∷ c ∷ []) ∷ [])
unfolding conversion
conversion-Wrote c st acc h ok room =
    let (t, closed, zeros, w) = close_text-Wrote st acc h (omega arith) in
    let u0 = set_temp 1 c (set_temp 0 b'%' t) in
    let u = record u0 { s = update u0.s u0.i (b'%' ∷ c ∷ []) } in
    let v = record (set_temp 1 0 (set_temp 0 0 (next_i u))) { j = 0 } in
    let copied =
      copy_row-text u0 (b'%' ∷ c ∷ []) (typed t zeros) (omega arith, (ok, tt)) (omega arith)
        (omega (arith, w.next, front_length acc)) in
    (
      v,
      rw (closed, conversion, then_do) (rw copied refl),
      cleared-Typed v (erased t zeros) refl,
      Wrote-append st t v (front acc) ((b'%' ∷ c ∷ []) ∷ []) w
          (one-Wrote t v (b'%' ∷ c ∷ []) refl (λ k. refl)),
    )
  where
    typed :
        (t : Split)
        → ((m : ℕ) → t.temp m ≡ 0)
        → (m : ℕ) → (set_temp 1 c (set_temp 0 b'%' t)).temp m ≡ byte_at (b'%' ∷ c ∷ []) m
    typed t zeros zero = refl
    typed t zeros (suc zero) = refl
    typed t zeros (suc (suc m)) = ground (arith, zeros (suc (suc m)))

    erased :
        (t : Split)
        → ((m : ℕ) → t.temp m ≡ 0)
        → (m : ℕ) → (set_temp 1 0 (set_temp 0 0 (set_temp 1 c (set_temp 0 b'%' t)))).temp m ≡ 0
    erased t zeros m = ground (arith, zeros m)

    front_length : (acc : Bytes) → length (front acc) ≤ 1
    front_length [] = omega arith
    front_length (c ∷ acc) = omega arith
