-- ===== src/Printf/Steps.antt =====
-- A newline and an ordinary character in `string_split` of libc/printf.c.
use osproject.Prelude.{
  ℕ, zero, suc, ◌+◌, ◌<◌, ◌≤◌, ◌≡◌, ◌≢◌, refl, sym, true, false, some, [], ◌∷◌, ◌++◌, ltb, ◌==◌,
  if◌then◌else◌, length, length-append, Bool-cases, inl, inr, arith,
}
use osproject.Prelude.Loops.{update}
use osproject.Text.{Bytes}
use osproject.Printf.{
  Split, next_i, clear_temp, is_pending, then_do, set_temp, copy_row, newline, ordinary,
}
use osproject.Printf.Rows.{
  byte_at, NoZeros, Typed, Wrote, copy_row-text, one-Wrote, Wrote-append, cleared-Typed,
  clear-Typed, is_pending-Typed,
}

-- The rows from the next one on are empty.
abbrev pub EmptyFrom : Split → Type 0
EmptyFrom st = (k : ℕ) → st.i ≤ k → st.s k ≡ []

-- The row in front of a newline: the text, or the row as it was.
closed_row :
    (st : Split) (acc : Bytes)
    → Typed st acc
    → EmptyFrom st
    → st.i < 100
    → (t : Split) × ((elim (is_pending st) [ false ↦ some st | true ↦ copy_row st ]) ≡ some t)
      × ((m : ℕ) → (clear_temp (next_i t)).temp m ≡ 0)
      × Wrote st (clear_temp (next_i t)) (acc ∷ [])
closed_row st [] h empty room = (
  st,
  rw (is_pending-Typed st [] h) refl,
  clear-Typed st [] h,
  one-Wrote st (clear_temp (next_i st)) [] refl (λ k. same k),
)
  where
    same : (k : ℕ) → st.s k ≡ (if st.i == k then [] else st.s k)
    same k = elim (Bool-cases (st.i == k)) [
      | inl e ↦ rw e (empty k (ground (arith, e)))
      | inr e ↦ rw e refl
    ]
closed_row st (c ∷ acc) h empty room =
    let t = record st { s = update st.s st.i (c ∷ acc) } in
    (
      t,
      rw (is_pending-Typed st (c ∷ acc) h)
          (copy_row-text st (c ∷ acc) h.bytes h.no_zeros h.fits room),
      clear-Typed st (c ∷ acc) h,
      one-Wrote st (clear_temp (next_i t)) (c ∷ acc) refl (λ k. refl),
    )

pub newline-Wrote :
    (c : ℕ) (st : Split) (acc : Bytes)
    → Typed st acc
    → EmptyFrom st
    → c ≢ 0
    → st.i + 1 < 100
    → (st' : Split) × (newline c st ≡ some st') × Typed st' [] × Wrote st st' (acc ∷ (c ∷ []) ∷ [])
unfolding newline
newline-Wrote c st acc h empty ok room =
    let (t, closed, zeros, w) = closed_row st acc h empty (omega arith) in
    let u0 = set_temp 0 c (clear_temp (next_i t)) in
    let u = record u0 { s = update u0.s u0.i (c ∷ []) } in
    let v = record (set_temp 0 0 (next_i u)) { j = 0 } in
    let copied =
      copy_row-text u0 (c ∷ []) (typed (clear_temp (next_i t)) zeros) (ok, tt) (omega arith)
        (omega (arith, w.next)) in
    (
      v,
      rw (closed, newline, then_do) (rw copied refl),
      cleared-Typed v (erased (clear_temp (next_i t)) zeros) refl,
      Wrote-append st (clear_temp (next_i t)) v (acc ∷ []) ((c ∷ []) ∷ []) w
          (one-Wrote (clear_temp (next_i t)) v (c ∷ []) refl (λ k. refl)),
    )
  where
    typed :
        (t : Split)
        → ((m : ℕ) → t.temp m ≡ 0)
        → (m : ℕ) → (set_temp 0 c t).temp m ≡ byte_at (c ∷ []) m
    typed t zeros zero = refl
    typed t zeros (suc m) = ground (arith, zeros (suc m))

    erased :
        (t : Split)
        → ((m : ℕ) → t.temp m ≡ 0)
        → (m : ℕ) → (set_temp 0 0 (set_temp 0 c t)).temp m ≡ 0
    erased t zeros m = ground (arith, zeros m)

byte_at-append :
    (t : Bytes) (c m : ℕ) → byte_at (t ++ c ∷ []) m ≡ (if length t == m then c else byte_at t m)
byte_at-append [] c zero = refl
byte_at-append [] c (suc m) = ground arith
byte_at-append (d ∷ t) c zero = ground arith
byte_at-append (d ∷ t) c (suc m) = ground (arith, byte_at-append t c m)

pub ordinary-Typed :
    (c : ℕ) (st : Split) (acc : Bytes)
    → Typed st acc
    → c ≢ 0
    → length acc < 49
    → (st' : Split) × (ordinary c st ≡ some st') × Typed st' (acc ++ c ∷ []) × Wrote st st' []
unfolding ordinary
ordinary-Typed c st acc h ok short =
    let st' = record st { temp = update st.temp st.j c; j = st.j + 1 } in
    (
      st',
      rw (fits st.j (omega (arith, h.at_end)), ordinary) refl,
      record {
        bytes = λ m. bytes_after m;
        at_end = omega (arith, h.at_end, length-append acc (c ∷ []));
        no_zeros = zeros_after acc h.no_zeros;
        fits = omega (arith, length-append acc (c ∷ []));
      },
      record {
        next = omega arith;
        before = λ k lt. refl;
        added = λ m lt. absurd (omega arith);
        beyond = λ k le. refl;
      },
    )
  where
    fits : (j : ℕ) → j < 50 → ltb j 50 ≡ true
    fits j lt = ground arith

    bytes_after : (m : ℕ) → update st.temp st.j c m ≡ byte_at (acc ++ c ∷ []) m
    bytes_after m = rw (h.at_end, h.bytes m) (sym (byte_at-append acc c m))

    zeros_after : (t : Bytes) → NoZeros t → NoZeros (t ++ c ∷ [])
    zeros_after [] z = (ok, tt)
    zeros_after (d ∷ t) z = (z.0, zeros_after t z.1)
