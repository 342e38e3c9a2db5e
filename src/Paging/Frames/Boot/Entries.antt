-- ===== src/Paging/Frames/Boot/Entries.antt =====
-- The entries of `pagelist` that a round of `mem_map` of sys/paging.c changes, and the list they form.
use osproject.Prelude.{
  ℕ, ◌+◌, ◌*◌, ◌%◌, ◌<◌, ◌≡◌, ◌≢◌, refl, sym, ap, ◌∙◌, true, false, Bool, List, [], ◌∷◌, ◌++◌,
  Option, none, some, ltb, ◌&&◌, arith,
}
use mathlib.Core.Path.{subst}
use native.Mathlib.Decide.{ℕ_discrete}
use osproject.Prelude.Loops.{update, update_self, update_other}
use osproject.Paging.Frames.{Frame, Memory}
use osproject.Paging.Frames.FreeList.{has, Chain}
use osproject.Paging.Frames.Boot.{fresh_frame, usable}

-- The end of a list.
abbrev pub last_of : List ℕ → Option ℕ
last_of [] = none
last_of (x ∷ []) = some x
last_of (x ∷ y ∷ xs) = last_of (y ∷ xs)

has-last_of : (xs : List ℕ) (l : ℕ) → last_of xs ≡ some l → has l xs ≡ true
has-last_of [] l e = cc
has-last_of (x ∷ []) l e = ground arith
has-last_of (x ∷ y ∷ xs) l e = ground (arith, has-last_of (y ∷ xs) l e)

pub has-snoc : (xs : List ℕ) (i c : ℕ) → has i xs ≡ false → i ≢ c → has i (xs ++ c ∷ []) ≡ false
has-snoc [] i c h ne = ground arith
has-snoc (x ∷ xs) i c h ne = ground (arith, has-snoc xs i c)

-- The table once page `c` is entered and linked behind `l`.
abbrev pub linked : (ℕ → Frame) → ℕ → ℕ → (ℕ → Frame)
linked f l c =
    let g = update f c (fresh_frame (c * 4096) 1 0) in update g l (record (g l) { next = some c })

linked-other : (f : ℕ → Frame) (l c j : ℕ) → j ≢ l → j ≢ c → linked f l c j ≡ f j
linked-other f l c j nl nc =
    update_other (update f c (fresh_frame (c * 4096) 1 0)) l _ j (λ e. nl (sym e))
    ∙ update_other f c _ j (λ e. nc (sym e))

linked_new : (f : ℕ → Frame) (l c : ℕ) → c ≢ l → linked f l c c ≡ fresh_frame (c * 4096) 1 0
linked_new f l c ne =
    update_other (update f c (fresh_frame (c * 4096) 1 0)) l _ c (λ e. ne (sym e))
    ∙ update_self f c _

linked_last : (f : ℕ → Frame) (l c : ℕ) → l ≢ c → linked f l c l ≡ record (f l) { next = some c }
linked_last f l c ne =
    update_self (update f c (fresh_frame (c * 4096) 1 0)) l _
    ∙ ap (λ (x : Frame). record x { next = some c }) (update_other f c _ l (λ e. ne (sym e)))

pub Chain-snoc :
    (f : ℕ → Frame) (h : Option ℕ) (xs : List ℕ) (l c : ℕ)
    → Chain f h xs
    → last_of xs ≡ some l
    → has c xs ≡ false
    → Chain (linked f l c) h (xs ++ c ∷ [])
Chain-snoc f h [] l c chain e out = absurd (cc)
Chain-snoc f h (x ∷ []) l c chain e out =
    let same : x ≡ l = cc in
    let apart : l ≢ c = ground arith in
    let here = linked_last f l c apart in
    let new = linked_new f l c (λ q. apart (sym q)) in
    rw (same, here, new)
      (
        rw (← same) chain.0,
        rw (← same) chain.1,
        rw (← same) chain.2,
        rw (← same) chain.3,
        ground arith,
        (refl, refl, refl, omega arith, refl, refl),
      )
Chain-snoc f h (x ∷ y ∷ xs) l c chain e out =
    let inside : has l (y ∷ xs) ≡ true = has-last_of (y ∷ xs) l e in
    let no_last : x ≢ l = λ q. cc (q, chain.4, inside) in
    let no_new : x ≢ c = ground arith in
    let rest : has c (y ∷ xs) ≡ false = ground arith in
    rw (linked-other f l c x no_last no_new) (
      chain.0,
      chain.1,
      chain.2,
      chain.3,
      has-snoc (y ∷ xs) x c chain.4 no_new,
      Chain-snoc f (f x).next (y ∷ xs) l c chain.5 e rest,
    )

-- Page `p` is free: it lies above the kernel's own data and is not the last of its region.
abbrev pub is_free : ℕ → ℕ → ℕ → Bool
is_free physfree limit a = ltb physfree a && ltb (a + 4096) limit

pub is_free-usable :
    (physfree limit p : ℕ)
    → p < 75000
    → usable physfree limit (p * 4096) ≡ is_free physfree limit (p * 4096)
is_free-usable physfree limit p room =
    let next : (p * 4096 + 4096) % 18446744073709551616 ≡ p * 4096 + 4096 = omega arith in
    rw next refl

-- The table after the round for page `p`: the page with so many readers, the other pages' addresses and readers
-- as they were.
pub record Entered (p readers : ℕ) (m m' : Memory) : Type 0 where
  pub address : (m'.pagelist p).address ≡ p * 4096
  pub counted : (m'.pagelist p).ref_count ≡ readers
  pub others :
      (j : ℕ)
      → p ≢ j
      → ((m'.pagelist j).address ≡ (m.pagelist j).address)
        × ((m'.pagelist j).ref_count ≡ (m.pagelist j).ref_count)

pub entered :
    (p free readers : ℕ) (m : Memory) (h : Option ℕ)
    → Entered p readers m (record m {
      pagelist = update m.pagelist p (fresh_frame (p * 4096) free readers);
      head = h;
    })
entered p free readers m h = record {
  address = ap (λ (f : Frame). f.address) (update_self m.pagelist p _);
  counted = ap (λ (f : Frame). f.ref_count) (update_self m.pagelist p _);
  others = λ j ne. (
    ap (λ (f : Frame). f.address) (update_other m.pagelist p _ j ne),
    ap (λ (f : Frame). f.ref_count) (update_other m.pagelist p _ j ne),
  );
}

-- A change of a page's `next` field changes neither.
relinked :
    (f : ℕ → Frame) (l c j : ℕ)
    → ((update f l (record (f l) { next = some c }) j).address ≡ (f j).address)
      × ((update f l (record (f l) { next = some c }) j).ref_count ≡ (f j).ref_count)
relinked f l c j = elim (ℕ_discrete l j) [
  | yes e ↦
      subst
        (λ x.
          ((update f l (record (f l) { next = some c }) x).address ≡ (f x).address)
          × ((update f l (record (f l) { next = some c }) x).ref_count ≡ (f x).ref_count))
        e
        (
          ap (λ (x : Frame). x.address) (update_self f l _),
          ap (λ (x : Frame). x.ref_count) (update_self f l _),
        )
  | no ne ↦ (
    ap (λ (x : Frame). x.address) (update_other f l _ j ne),
    ap (λ (x : Frame). x.ref_count) (update_other f l _ j ne),
  )
]

pub linked-Entered :
    (p l : ℕ) (m : Memory) → Entered p 0 m (record m { pagelist = linked m.pagelist l p })
linked-Entered p l m =
    let g = update m.pagelist p (fresh_frame (p * 4096) 1 0) in
    let first = entered p 1 0 m m.head in
    record {
      address = (relinked g l p p).0 ∙ first.address;
      counted = (relinked g l p p).1 ∙ first.counted;
      others = λ j ne. (
        (relinked g l p j).0 ∙ (first.others j ne).0,
        (relinked g l p j).1 ∙ (first.others j ne).1,
      );
    }
