-- ===== src/Heap/GiveBack.antt =====
-- `free` of libc/malloc.c gives back what `malloc` has taken.
use osproject.Prelude.{
  ℕ, ◌+◌, ◌-◌, ◌*◌, ◌%◌, ◌^◌, ◌<◌, ◌≤◌, ◌≡◌, ◌≢◌, refl, sym, ap, ◌∙◌, true, false, ◌&&◌, ◌||◌,
  Option, none, some, List, leb, ltb, ◌==◌, if◌then◌else◌, arith, ==_iff, length, ◌⊎◌, inl, inr,
}
use osproject.Prelude.Loops.{update, update_self, update_other}
use osproject.Heap.{
  Heap, plus, set_ptr, set_size, find_place, join_upper, join_lower, libc_free, take_block,
  units_of, libc_malloc,
}
use osproject.Heap.FirstFit.{TooSmall, TooSmall-last, libc_malloc_first}

-- The block above `q` begins behind its end, or `q` is the last block.
abbrev pub IsApart : Heap → ℕ → Type 0
IsApart h q = (q + 16 * h.size q < h.ptr q) ⊎ (h.ptr q ≤ q)

-- The search that begins in front of `q` ends at `q`.
find_place-below :
    (h : Heap) (b q last : ℕ)
    → h.ptr last ≡ q
    → last < q
    → q < b
    → (b < h.ptr q) ⊎ (h.ptr q ≤ q)
    → find_place 2 b last h ≡ some q
unfolding find_place
find_place-below h b q last next low high apart =
    let here : (ltb last b && ltb b (h.ptr last)) ≡ false = ground (arith, next) in
    let wrap : (leb (h.ptr last) last && (ltb last b || ltb b (h.ptr last))) ≡ false =
      ground (arith, next) in
    rw here (rw wrap (rw next (ended (h.ptr q) apart)))
  where
    ended :
        (r : ℕ)
        → (b < r) ⊎ (r ≤ q)
        → (if ltb q b && ltb b r
            then some q
            else if leb r q && (ltb q b || ltb b r)
            then some q
            else none)
          ≡ some q
    ended r (inl below) = let inside : (ltb q b && ltb b r) ≡ true = ground arith in rw inside refl
    ended r (inr last_one) =
        let outside : (ltb q b && ltb b r) ≡ false = ground arith in
        let wrapped : (leb r q && (ltb q b || ltb b r)) ≡ true = ground arith in
        rw outside (rw wrapped refl)

-- What `free` makes of a block `b` that begins where `q` ends.
abbrev rejoined : ℕ → ℕ → Heap → Heap
rejoined b q h =
    record (set_ptr q ((set_ptr b (h.ptr q) h).ptr b)
      (set_size q ((h.size q + h.size b) % 2 ^ 32) (set_ptr b (h.ptr q) h))) { freep = q }

join-rejoined :
    (h : Heap) (b q : ℕ)
    → plus q (h.size q) ≡ b
    → plus b (h.size b) ≢ h.ptr q
    → record (join_lower b q (join_upper b q h)) { freep = q } ≡ rejoined b q h
unfolding join_lower join_upper set_ptr set_size
join-rejoined h b q end apart =
    let upper : (plus b (h.size b) == h.ptr q) ≡ false = ground arith in
    let lower : (plus q (h.size q) == b) ≡ true = (==_iff (plus q (h.size q)) b).1 end in
    rw upper (rw lower refl)

libc_free-rejoined :
    (h : Heap) (b q last : ℕ)
    → h.freep ≡ last
    → find_place 2 b last h ≡ some q
    → plus q (h.size q) ≡ b
    → plus b (h.size b) ≢ h.ptr q
    → libc_free 2 (b + 16) h ≡ some (rejoined b q h)
unfolding libc_free
libc_free-rejoined h b q last free found end apart = freed (b + 16 - 16) (omega arith)
  where
    place :
        (c : ℕ) (o : Option ℕ)
        → o ≡ some q
        → ◌≡◌ {A = Option Heap}
            (elim o [
              | none ↦ none
              | some p ↦ some (record (join_lower c p (join_upper c p h)) { freep = p })
            ])
            (some (record (join_lower c q (join_upper c q h)) { freep = q }))
    place c o e = rw e refl

    freed :
        (c : ℕ)
        → c ≡ b
        → ◌≡◌ {A = Option Heap}
            (elim (find_place 2 c h.freep h) [
              | none ↦ none
              | some p ↦ some (record (join_lower c p (join_upper c p h)) { freep = p })
            ])
            (some (rejoined b q h))
    freed c same =
        place c (find_place 2 c h.freep h)
          (ap (λ x. find_place 2 x h.freep h) same ∙ ap (λ x. find_place 2 b x h) free ∙ found)
        ∙ ap (λ x. some (record (join_lower x q (join_upper x q h)) { freep = q })) same
        ∙ ap (λ x. some x) (join-rejoined h b q end apart)

-- Both heaps have the same headers, but for the one at `b`.
pub record SameBut (b : ℕ) (h h' : Heap) : Type 0 where
  pub size : (p : ℕ) → p ≢ b → h'.size p ≡ h.size p
  pub ptr : (p : ℕ) → p ≢ b → h'.ptr p ≡ h.ptr p

-- The heap after the end of `q` has been taken.
abbrev cut : ℕ → ℕ → ℕ → Heap → Heap
cut n last q h = record (set_size (plus q (h.size q - n)) n (set_size q (h.size q - n) h)) {
  freep = last;
}

size_back :
    (f : ℕ → ℕ) (q b m n p : ℕ)
    → b ≢ q
    → p ≢ b
    → m + n ≡ f q
    → f q < 4294967296
    → update
        (update (update f q m) b n)
        q
        ((update (update f q m) b n q + update (update f q m) b n b) % 2 ^ 32)
        p
      ≡ f p
size_back f q b m n p apart other sum small =
    let left : update (update f q m) b n q ≡ m =
      update_other (update f q m) b n q apart ∙ update_self f q m in
    let right : update (update f q m) b n b ≡ n = update_self (update f q m) b n in
    let whole : (m + n) % 4294967296 ≡ f q = omega arith in rw (left, right, whole) (ground arith)

ptr_back :
    (f : ℕ → ℕ) (q b p : ℕ) → p ≢ b → update (update f b (f q)) q (update f b (f q) b) p ≡ f p
ptr_back f q b p other = ground arith

cut-rejoined :
    (n last q : ℕ) (h : Heap)
    → n < h.size q
    → h.size q < 4294967296
    → SameBut (plus q (h.size q - n)) h (rejoined (plus q (h.size q - n)) q (cut n last q h))
unfolding set_ptr set_size
cut-rejoined n last q h less fits =
    let b = plus q (h.size q - n) in
    record {
      size =
          λ p other. size_back h.size q b (h.size q - n) n p (omega arith) other (omega arith) fits;
      ptr = λ p other. ptr_back h.ptr q b p other;
    }

-- The sizes on both sides of the cut.
cut-size :
    (n last q : ℕ) (h : Heap)
    → n < h.size q
    → ((cut n last q h).size q ≡ h.size q - n) × ((cut n last q h).size (plus q (h.size q - n)) ≡ n)
unfolding set_size
cut-size n last q h less =
    let b = plus q (h.size q - n) in
    (
      update_other (update h.size q (h.size q - n)) b n q (omega arith)
          ∙ update_self h.size q (h.size q - n),
      update_self (update h.size q (h.size q - n)) b n,
    )

take_block-cut :
    (n last q : ℕ) (h : Heap)
    → n < h.size q
    → take_block n last q h ≡ (plus q (h.size q - n) + 16, cut n last q h)
unfolding take_block
take_block-cut n last q h less =
    let larger : (h.size q == n) ≡ false = ground arith in rw larger refl

-- `free` on the heap after the cut.
libc_free-cut :
    (n last q : ℕ) (h : Heap)
    → n < h.size q
    → h.ptr last ≡ q
    → last < q
    → IsApart h q
    → libc_free 2 (plus q (h.size q - n) + 16) (cut n last q h)
      ≡ some (rejoined (plus q (h.size q - n)) q (cut n last q h))
unfolding set_size
libc_free-cut n last q h less next low apart =
    let b = plus q (h.size q - n) in
    let (below, above) = cut-size n last q h less in
    libc_free-rejoined (cut n last q h) b q last refl
      (find_place-below (cut n last q h) b q last next low (omega arith) (near apart))
      (ap (plus q) below) (λ e. far apart (sym (ap (plus b) above) ∙ e))
  where
    near : IsApart h q → (plus q (h.size q - n) < h.ptr q) ⊎ (h.ptr q ≤ q)
    near (inl behind) = inl (omega arith)
    near (inr last_one) = inr last_one

    far : IsApart h q → plus (plus q (h.size q - n)) n ≢ h.ptr q
    far (inl behind) e = omega arith
    far (inr last_one) e = omega arith

-- When `malloc`, under the conditions under which it takes the units from `q`, takes fewer than `q` has, whose
-- size is that of an `unsigned`, and `q` lies above the block in front of it and apart from the next one, `free` of the result, in two rounds of
-- its loop, gives the units back to `q`: every header but the one of the block that was taken is as it was.
pub libc_malloc-libc_free :
    (fuel nbytes : ℕ) (ps : List ℕ) (last q : ℕ) (h : Heap)
    → h.freep ≢ 0
    → TooSmall h (units_of nbytes) h.freep ps last q
    → units_of nbytes < h.size q
    → h.size q < 4294967296
    → length ps < fuel
    → last < q
    → IsApart h q
    → (b : ℕ) × (h' : Heap) × (h'' : Heap) × (libc_malloc fuel nbytes h ≡ some (b + 16, h'))
      × (libc_free 2 (b + 16) h' ≡ some h'')
      × SameBut b h h''
libc_malloc-libc_free fuel nbytes ps last q h ready small less fits enough low apart =
    let n = units_of nbytes in
    let b = plus q (h.size q - n) in
    (
      b,
      cut n last q h,
      rejoined b q (cut n last q h),
      libc_malloc_first fuel nbytes ps last q h ready small (omega arith) enough
          ∙ ap (λ x. some x) (take_block-cut n last q h less),
      libc_free-cut n last q h less (TooSmall-last h n h.freep ps last q small) low apart,
      cut-rejoined n last q h less fits,
    )
