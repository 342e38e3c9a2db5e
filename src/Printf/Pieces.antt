-- ===== src/Printf/Pieces.antt =====
-- The rows that `string_split` of libc/printf.c makes of a format.
use mathlib.Core.Path.{subst}
use mathlib.Core.List.{append_assoc}
use osproject.Prelude.{
  ℕ, ◌+◌, ◌<◌, ◌≤◌, ◌≡◌, ◌≢◌, refl, sym, ap, ◌∙◌, Bool, true, false, ◌&&◌, ◌||◌, not, Option, some,
  List, [], ◌∷◌, ◌++◌, ltb, ◌==◌, if◌then◌else◌, length, length-append, Bool-cases, inl, inr, arith,
}
use osproject.Prelude.Loops.{update}
use osproject.Text.{Bytes}
use osproject.Printf.{
  Split, next_i, then_do, conversion, newline, ordinary, plain, split_loop, string_split,
}
use osproject.Printf.Rows.{
  front, pieces, row_at, Typed, Wrote, copy_row-text, conversion-Wrote, one-Wrote, Wrote-append,
  cleared-Typed,
}
use osproject.Printf.Steps.{EmptyFrom, newline-Wrote, ordinary-Typed}

-- Nothing is cut off: no byte of the format is 0, no text between two conversions or newlines has more than
-- 49 characters, and a `%` is not the last character. `n` characters of a text have been read.
abbrev pub is_fitting : Bool → ℕ → Bytes → Bool
is_fitting true n [] = false
is_fitting true n (c ∷ str) = not (c == 0) && is_fitting false 0 str
is_fitting false n [] = true
is_fitting false n (c ∷ str) =
    not (c == 0)
    && (if c == b'%'
        then is_fitting true n str
        else if (c == b'\n') || (c == b'\t')
        then is_fitting false 0 str
        else ltb n 49 && is_fitting false (n + 1) str)

both : (a b : Bool) → a && b ≡ true → (a ≡ true) × (b ≡ true)
both true true e = (refl, refl)
both true false e = absurd (cc)
both false b e = absurd (cc)

nonzero : (c : ℕ) → not (c == 0) ≡ true → c ≢ 0
nonzero c h = ground arith

-- The three kinds of characters.
abbrev is_break : ℕ → Bool
is_break c = (c == b'\n') || (c == b'\t')

abbrev rest_fits : ℕ → ℕ → Bytes → Bool
rest_fits n c str =
    if c == b'%'
    then is_fitting true n str
    else if is_break c
    then is_fitting false 0 str
    else ltb n 49 && is_fitting false (n + 1) str

fitting_percent :
    (n c : ℕ) (str : Bytes)
    → (c == b'%') ≡ true
    → is_fitting false n (c ∷ str) ≡ true
    → is_fitting true n str ≡ true
fitting_percent n c str e h =
    let (_, rest) = both (not (c == 0)) (rest_fits n c str) h in rw e at rest

fitting_break :
    (n c : ℕ) (str : Bytes)
    → (c == b'%') ≡ false
    → is_break c ≡ true
    → is_fitting false n (c ∷ str) ≡ true
    → (c ≢ 0) × (is_fitting false 0 str ≡ true)
fitting_break n c str e e' h =
    let (some_char, rest) = both (not (c == 0)) (rest_fits n c str) h in
    (nonzero c some_char, rw (e, e') at rest)

fitting_other :
    (n c : ℕ) (str : Bytes)
    → (c == b'%') ≡ false
    → is_break c ≡ false
    → is_fitting false n (c ∷ str) ≡ true
    → (c ≢ 0) × (n < 49) × (is_fitting false (n + 1) str ≡ true)
fitting_other n c str e e' h =
    let (some_char, rest) = both (not (c == 0)) (rest_fits n c str) h in
    let (small, more) = both (ltb n 49) (is_fitting false (n + 1) str) (rw (e, e') at rest) in
    (nonzero c some_char, ground (arith, small), more)

pieces_percent :
    (acc str : Bytes) (c : ℕ)
    → (c == b'%') ≡ true
    → pieces false acc (c ∷ str) ≡ pieces true acc str
unfolding pieces
pieces_percent acc str c e = rw e refl

pieces_break :
    (acc str : Bytes) (c : ℕ)
    → (c == b'%') ≡ false
    → is_break c ≡ true
    → pieces false acc (c ∷ str) ≡ acc ∷ (c ∷ []) ∷ pieces false [] str
unfolding pieces
pieces_break acc str c e e' = rw (e, e') refl

pieces_other :
    (acc str : Bytes) (c : ℕ)
    → (c == b'%') ≡ false
    → is_break c ≡ false
    → pieces false acc (c ∷ str) ≡ pieces false (acc ++ c ∷ []) str
unfolding pieces
pieces_other acc str c e e' = rw (e, e') refl

-- A format gives a row at least.
pieces_some :
    (percent : Bool) (acc str : Bytes) (n : ℕ)
    → is_fitting percent n str ≡ true
    → 1 ≤ length (pieces percent acc str)
unfolding pieces
pieces_some true acc [] n h = absurd (cc)
pieces_some true acc (c ∷ str) n h =
    omega (arith, length-append (front acc) ((b'%' ∷ c ∷ []) ∷ pieces false [] str))
pieces_some false acc [] n h = omega arith
pieces_some false acc (c ∷ str) n h = elim (Bool-cases (c == b'%')) [
  | inl e ↦
      rw (pieces_percent acc str c e) (pieces_some true acc str n (fitting_percent n c str e h))
  | inr e ↦ elim (Bool-cases (is_break c)) [
    | inl e' ↦ rw (pieces_break acc str c e e') (omega arith)
    | inr e' ↦
        rw (pieces_other acc str c e e')
          (pieces_some false (acc ++ c ∷ []) str (n + 1) (fitting_other n c str e e' h).2)
  ]
]

EmptyFrom-Wrote :
    (st st' : Split) (rows : List Bytes) → Wrote st st' rows → EmptyFrom st → EmptyFrom st'
EmptyFrom-Wrote st st' rows w empty = λ k le. w.beyond k le ∙ empty k (omega (arith, w.next))

-- The rows that the loop writes.
abbrev Splits : Bool → Bytes → Split → List Bytes → Type 0
Splits percent str st rows =
    (st' : Split) × (split_loop percent str st ≡ some st') × Wrote st (next_i st') rows

-- A step in front of the rest.
step-Splits :
    (m : Option Split) (str : Bytes) (st t : Split) (xs ys : List Bytes)
    → m ≡ some t
    → Wrote st t xs
    → Splits false str t ys
    → (st' : Split) × (then_do m (split_loop false str) ≡ some st')
      × Wrote st (next_i st') (xs ++ ys)
step-Splits m str st t xs ys e w (st', rest, w') =
    (st', rw e rest, Wrote-append st t (next_i st') xs ys w w')

split_percent :
    (c : ℕ) (str : Bytes) (st : Split)
    → (c == b'%') ≡ true
    → split_loop false (c ∷ str) st ≡ split_loop true str st
unfolding split_loop
split_percent c str st e = rw (e, split_loop) refl

split_plain :
    (c : ℕ) (str : Bytes) (st : Split)
    → (c == b'%') ≡ false
    → split_loop false (c ∷ str) st ≡ then_do (plain c st) (split_loop false str)
unfolding split_loop
split_plain c str st e = rw (e, split_loop) refl

plain_break : (c : ℕ) (st : Split) → is_break c ≡ true → plain c st ≡ newline c st
unfolding plain
plain_break c st e = rw (e, plain) refl

plain_other : (c : ℕ) (st : Split) → is_break c ≡ false → plain c st ≡ ordinary c st
unfolding plain
plain_other c st e = rw (e, plain) refl

split_loop-pieces :
    (percent : Bool) (str : Bytes) (st : Split) (acc : Bytes)
    → Typed st acc
    → EmptyFrom st
    → is_fitting percent (length acc) str ≡ true
    → st.i + length (pieces percent acc str) ≤ 100
    → Splits percent str st (pieces percent acc str)
unfolding split_loop pieces
split_loop-pieces true [] st acc h empty fit room = absurd (cc)
split_loop-pieces true (c ∷ str) st acc h empty fit room =
    let (some_char, more) = both (not (c == 0)) (is_fitting false 0 str) fit in
    let least = pieces_some false [] str 0 more in
    let size = length-append (front acc) ((b'%' ∷ c ∷ []) ∷ pieces false [] str) in
    let (t, e, h', w) = conversion-Wrote c st acc h (nonzero c some_char) (omega arith) in
    let size' = length-append (front acc) ((b'%' ∷ c ∷ []) ∷ []) in
    let again =
      split_loop-pieces false str t [] h'
        (EmptyFrom-Wrote st t (front acc ++ (b'%' ∷ c ∷ []) ∷ []) w empty) more
        (omega (arith, w.next)) in
    let (st', went, w') =
      step-Splits (conversion c st) str st t (front acc ++ (b'%' ∷ c ∷ []) ∷ [])
        (pieces false [] str) e w again in
    (
      st',
      went,
      subst (Wrote st (next_i st'))
          (append_assoc (front acc) ((b'%' ∷ c ∷ []) ∷ []) (pieces false [] str)) w',
    )
split_loop-pieces false [] st acc h empty fit room = (
  record st { s = update st.s st.i acc },
  copy_row-text st acc h.bytes h.no_zeros h.fits (omega arith),
  one-Wrote st _ acc refl (λ k. refl),
)
split_loop-pieces false (c ∷ str) st acc h empty fit room = elim (Bool-cases (c == b'%')) [
  | inl e ↦
      let same = pieces_percent acc str c e in
      let (st', went, w) =
        split_loop-pieces true str st acc h empty (fitting_percent (length acc) c str e fit)
          (subst (λ rows. st.i + length rows ≤ 100) same room) in
      (st', split_percent c str st e ∙ went, subst (Wrote st (next_i st')) (sym same) w)
  | inr e ↦ elim (Bool-cases (is_break c)) [
    | inl e' ↦
        let same = pieces_break acc str c e e' in
        let room' = subst (λ rows. st.i + length rows ≤ 100) same room in
        let (some_char, more) = fitting_break (length acc) c str e e' fit in
        let least = pieces_some false [] str 0 more in
        let (t, went, h', w) = newline-Wrote c st acc h empty some_char (omega arith) in
        let (st', went', w') =
          step-Splits (plain c st) str st t (acc ∷ (c ∷ []) ∷ []) (pieces false [] str)
            (plain_break c st e' ∙ went) w
            (split_loop-pieces false str t [] h'
              (EmptyFrom-Wrote st t (acc ∷ (c ∷ []) ∷ []) w empty) more (omega (arith, w.next))) in
        (st', split_plain c str st e ∙ went', subst (Wrote st (next_i st')) (sym same) w')
    | inr e' ↦
        let same = pieces_other acc str c e e' in
        let room' = subst (λ rows. st.i + length rows ≤ 100) same room in
        let (some_char, small, more) = fitting_other (length acc) c str e e' fit in
        let (t, went, h', w) = ordinary-Typed c st acc h some_char small in
        let (st', went', w') =
          step-Splits (plain c st) str st t [] (pieces false (acc ++ c ∷ []) str)
            (plain_other c st e' ∙ went) w
            (split_loop-pieces false str t (acc ++ c ∷ []) h' (EmptyFrom-Wrote st t [] w empty)
              (subst (λ n. is_fitting false n str ≡ true) (sym (length-append acc (c ∷ []))) more)
              (omega (arith, w.next))) in
        (st', split_plain c str st e ∙ went', subst (Wrote st (next_i st')) (sym same) w')
  ]
]

-- A format whose rows and texts fit the arrays, with `temp` and `s` all zeros: `string_split` comes back with
-- the rows of `pieces`, from row 0 on, and leaves the others empty.
pub string_split-pieces :
    (str : Bytes)
    → is_fitting false 0 str ≡ true
    → length (pieces false [] str) ≤ 100
    → (rows : ℕ → Bytes) × (string_split str (λ k. 0) (λ k. []) ≡ some rows)
      × ((m : ℕ) → m < length (pieces false [] str) → rows m ≡ row_at (pieces false [] str) m)
      × ((k : ℕ) → length (pieces false [] str) ≤ k → rows k ≡ [])
unfolding string_split
string_split-pieces str fit room =
    let st : Split = record { i = 0; j = 0; temp = λ k. 0; s = λ k. [] } in
    let (st', went, w) =
      split_loop-pieces false str st [] (cleared-Typed st (λ m. refl) refl) (λ k le. refl) fit
        (omega (arith, room)) in
    (
      st'.s,
      rw went refl,
      λ m lt. ap st'.s (omega arith) ∙ w.added m lt,
      λ k le. w.beyond k (omega (arith, w.next)),
    )
