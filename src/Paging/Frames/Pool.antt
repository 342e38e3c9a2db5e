-- ===== src/Paging/Frames/Pool.antt =====
-- What the page allocator of sys/paging.c promises: a pool of pages with their numbers of readers.
use osproject.Prelude.{
  ℕ, Bool, true, not, ◌&&◌, ◌<◌, ◌+◌, ◌-◌, ◌*◌, ◌/◌, ◌≤◌, ◌≡◌, ◌≢◌, refl, sym, ap, ◌∙◌, false, List,
  [], ◌∷◌, Option, none, some, ltb, if◌then◌else◌, Bool-cases, Option-cases, inl, inr, arith,
}
use mathlib.Core.Path.{subst}
use native.Mathlib.Decide.{ℕ_discrete}
use osproject.Prelude.Loops.{update, update_self, update_other}
use osproject.Paging.Frames.{
  Frame, Memory, set_frame, set_ref_count, free, getrefcount, increfcount, allocate_page,
}
use osproject.Paging.Frames.FreeList.{
  has, Chain-update, IsFreeList, given_back, allocate_page-IsFreeList, free_last, free_shared,
  free_last-IsFreeList,
}

-- The abstract state: the pages that the allocator manages, the free ones among them, the next one first, and
-- how many read each of the others.
pub record Pool : Type 0 where
  pub region : ℕ → Bool
  pub pages : List ℕ
  pub readers : ℕ → ℕ

-- What the rest of the kernel asks for; a page is named by its number.
pub data Request : Type 0 where
  allocate : Request
  release share : ℕ → Request

-- The specification. `none` is a request that a pool does not serve: a page when none is left, and the
-- release or sharing of a page that is free already or that is not managed.
unfoldable pub serve_release : ℕ → Pool → Pool
serve_release i p =
    if ltb 1 (p.readers i)
    then record p { readers = update p.readers i (p.readers i - 1) }
    else record p { pages = i ∷ p.pages }

unfoldable pub allocate_from : List ℕ → Pool → Option (Option ℕ × Pool)
allocate_from [] p = none
allocate_from (i ∷ xs) p =
    some (some (i * 4096), record p { pages = xs; readers = update p.readers i 1 })

-- A page that is managed and not free.
abbrev pub in_use : ℕ → Pool → Bool
in_use i p = p.region i && not (has i p.pages)

unfoldable pub serve : Request → Pool → Option (Option ℕ × Pool)
unfolding serve_release allocate_from
serve allocate p = allocate_from p.pages p
serve (release i) p = if in_use i p then some (none, serve_release i p) else none
serve (share i) p =
    if in_use i p
    then some (none, record p { readers = update p.readers i (p.readers i + 1) })
    else none

-- The code: the page's address goes to `free` and `increfcount`.
unfoldable pub perform : Request → Memory → Option (Option ℕ × Memory)
unfolding allocate_page free increfcount
perform allocate m = elim (allocate_page m) [ none ↦ none | some (a, m') ↦ some (some a, m') ]
perform (release i) m = some (none, free (i * 4096) m)
perform (share i) m = some (none, increfcount (i * 4096) m)

-- A sequence of requests, with the answers.
module _ {S : Type 0} (step : Request → S → Option (Option ℕ × S)) where
  unfoldable pub run_requests : List Request → S → Option (List (Option ℕ) × S)
  run_requests [] s = some ([], s)
  run_requests (r ∷ rs) s = elim (step r s) [
    | none ↦ none
    | some (a, s') ↦ elim (run_requests rs s') [
      | none ↦ none
      | some (answers, s'') ↦ some (a ∷ answers, s'')
    ]
  ]

-- The memory holds the pool: its free list, and each managed page is one of the table, at its own address, with
-- its readers if it is not free.
pub record Represents (m : Memory) (p : Pool) : Type 0 where
  pub list : IsFreeList m p.pages
  pub known : (i : ℕ) → p.region i ≡ true → i < 75000
  pub places : (i : ℕ) → p.region i ≡ true → (m.pagelist i).address ≡ i * 4096
  pub counts :
      (i : ℕ) → p.region i ≡ true → has i p.pages ≡ false → (m.pagelist i).ref_count ≡ p.readers i

-- What one request must do.
abbrev Serves : Request → Memory → Pool → Option ℕ → Pool → Type 0
Serves r m p a p' = (m' : Memory) × (perform r m ≡ some (a, m')) × Represents m' p'

update-cases :
    {A : Type 0} (f : ℕ → A) (i : ℕ) (v : A) (j : ℕ) (P : A → Type 0)
    → (i ≡ j → P v)
    → (i ≢ j → P (f j))
    → P (update f i v j)
update-cases f i v j P here there = elim (ℕ_discrete i j) [
  | yes e ↦ subst (λ x. P (update f i v x)) e (subst P (sym (update_self f i v)) (here e))
  | no ne ↦ subst P (sym (update_other f i v j ne)) (there ne)
]

allocate-Serves :
    (m : Memory) (i : ℕ) (xs : List ℕ) (p : Pool)
    → Represents m (record p { pages = i ∷ xs })
    → Serves allocate m
        (record p { pages = i ∷ xs })
        (some (i * 4096))
        (record p { pages = xs; readers = update p.readers i 1 })
unfolding perform
allocate-Serves m i xs p rep =
    let (m', got, list, own, others, _, _) = allocate_page-IsFreeList m i xs rep.list in
    (
      m',
      rw (got, perform) refl,
      record {
        list = list;
        known = rep.known;
        places = λ j inside. elim (ℕ_discrete i j) [
          | yes e ↦
              subst (λ x. (m'.pagelist x).address ≡ x * 4096) e (ap (λ (f : Frame). f.address) own)
          | no ne ↦ ap (λ (f : Frame). f.address) (others j (ground arith)) ∙ rep.places j inside
        ];
        counts = λ j inside out. elim (ℕ_discrete i j) [
          | yes e ↦
              subst (λ x. (m'.pagelist x).ref_count ≡ update p.readers i 1 x) e
                (ap (λ (f : Frame). f.ref_count) own ∙ sym (update_self p.readers i 1))
          | no ne ↦
              ap (λ (f : Frame). f.ref_count) (others j (ground arith))
              ∙ rep.counts j inside (ground arith)
              ∙ sym (update_other p.readers i 1 j ne)
        ];
      },
    )

-- A change of page `i` that keeps its address, for a list that then holds and readers that then count.
changed-Represents :
    (m : Memory) (p : Pool) (i : ℕ) (v : Frame) (head : Option ℕ) (xs : List ℕ) (readers : ℕ → ℕ)
    → Represents m p
    → v.address ≡ i * 4096
    → IsFreeList (record m { pagelist = update m.pagelist i v; head = head }) xs
    → ((j : ℕ)
        → p.region j ≡ true
        → has j xs ≡ false
        → (update m.pagelist i v j).ref_count ≡ readers j)
    → Represents
        (record m { pagelist = update m.pagelist i v; head = head })
        (record p { pages = xs; readers = readers })
changed-Represents m p i v head xs readers rep own list counts = record {
  list = list;
  known = rep.known;
  places = λ j inside.
      update-cases m.pagelist i v j (λ f. f.address ≡ j * 4096)
        (λ e. own ∙ ap (λ (x : ℕ). x * 4096) e) (λ _. rep.places j inside);
  counts = counts;
}

-- The readers of page `i` become `n`.
counted-Represents :
    (m : Memory) (p : Pool) (i n : ℕ)
    → Represents m p
    → p.region i ≡ true
    → has i p.pages ≡ false
    → Represents (set_ref_count i n m) (record p { readers = update p.readers i n })
unfolding set_ref_count set_frame
counted-Represents m p i n rep here out =
    let v = record (m.pagelist i) { ref_count = n } in
    changed-Represents m p i v m.head p.pages (update p.readers i n) rep (rep.places i here)
      (Chain-update m.pagelist m.head p.pages i v out rep.list)
      (λ j inside free_j.
        update-cases m.pagelist i v j (λ f. f.ref_count ≡ update p.readers i n j)
          (λ e. subst (λ x. n ≡ update p.readers i n x) e (sym (update_self p.readers i n)))
          (λ ne. rep.counts j inside free_j ∙ sym (update_other p.readers i n j ne)))

share-Serves :
    (m : Memory) (p : Pool) (i : ℕ)
    → Represents m p
    → p.region i ≡ true
    → has i p.pages ≡ false
    → Serves (share i) m p none (record p { readers = update p.readers i (p.readers i + 1) })
unfolding perform increfcount getrefcount
share-Serves m p i rep here out =
    let page : i * 4096 / 4096 ≡ i = omega arith in
    (
      set_ref_count i (p.readers i + 1) m,
      ap (λ (x : Memory). some (none, x))
          (ap (λ k. set_ref_count k ((m.pagelist k).ref_count + 1) m) page
            ∙ ap (λ (n : ℕ). set_ref_count i (n + 1) m) (rep.counts i here out)),
      counted-Represents m p i (p.readers i + 1) rep here out,
    )

release-Serves :
    (m : Memory) (p : Pool) (i : ℕ)
    → Represents m p
    → p.region i ≡ true
    → has i p.pages ≡ false
    → Serves (release i) m p none (serve_release i p)
unfolding perform serve_release
release-Serves m p i rep here out =
    let room = rep.known i here in
    let own = rep.places i here in
    let count = rep.counts i here out in
    elim (Bool-cases (ltb 1 (p.readers i))) [
      | inl many ↦ rw many (
        set_ref_count i (p.readers i - 1) m,
        ap (λ (x : Memory). some (none, x))
            (free_shared m i room own (ground (arith, count))
              ∙ ap (λ (n : ℕ). set_ref_count i (n - 1) m) count),
        counted-Represents m p i (p.readers i - 1) rep here out,
      )
      | inr few ↦
          let low : (m.pagelist i).ref_count ≤ 1 = ground (arith, count) in
          let v = record (m.pagelist i) { free = 1; next = m.head } in
          rw few (
            given_back i m,
            ap (λ (x : Memory). some (none, x)) (free_last m i room own low),
            changed-Represents m p i v (some i) (i ∷ p.pages) p.readers rep own
                (subst (λ x. IsFreeList x (i ∷ p.pages)) (free_last m i room own low)
                  (free_last-IsFreeList m i p.pages rep.list out room own low))
                (λ j inside free_j.
                  update-cases m.pagelist i v j (λ f. f.ref_count ≡ p.readers j) (λ e. ground arith)
                    (λ _. rep.counts j inside (ground arith))),
          )
    ]

used : (i : ℕ) (p : Pool) → in_use i p ≡ true → (p.region i ≡ true) × (has i p.pages ≡ false)
used i p e = ground arith

served :
    (r : Request) (m : Memory) (p q p' : Pool) (a b : Option ℕ)
    → ◌≡◌ {A = Option (Option ℕ × Pool)} (some (b, q)) (some (a, p'))
    → Serves r m p b q
    → Serves r m p a p'
served r m p q p' a b e h =
    let same_answer : b ≡ a = cc in
    let same_pool : q ≡ p' = cc in
    subst (λ x. Serves r m p x p') same_answer (subst (Serves r m p b) same_pool h)

-- Every request that the pool serves, the code serves with the same answer, and the memory then holds the
-- pool that the specification gives.
serve-Serves :
    (r : Request) (m : Memory) (p p' : Pool) (a : Option ℕ)
    → Represents m p
    → serve r p ≡ some (a, p')
    → Serves r m p a p'
unfolding serve allocate_from
serve-Serves allocate m p p' a rep e = taken p.pages rep e
  where
    taken :
        (xs : List ℕ)
        → Represents m (record p { pages = xs })
        → allocate_from xs p ≡ some (a, p')
        → Serves allocate m (record p { pages = xs }) a p'
    taken [] rep e = cc
    taken (i ∷ xs) rep e =
        served allocate m (record p { pages = i ∷ xs })
          (record p { pages = xs; readers = update p.readers i 1 }) p' a (some (i * 4096)) e
          (allocate-Serves m i xs p rep)
serve-Serves (release i) m p p' a rep e = elim (Bool-cases (in_use i p)) [
  | inr unused ↦ absurd (cc (rw unused at e))
  | inl good ↦
      let (here, out) = used i p good in
      served (release i) m p _ p' a none (rw good at e) (release-Serves m p i rep here out)
]
serve-Serves (share i) m p p' a rep e = elim (Bool-cases (in_use i p)) [
  | inr unused ↦ absurd (cc (rw unused at e))
  | inl good ↦
      let (here, out) = used i p good in
      served (share i) m p _ p' a none (rw good at e) (share-Serves m p i rep here out)
]

-- For every sequence of requests that the specification serves from the pool that memory holds, the code
-- serves each, gives the same answers, and ends with a memory that holds the pool of the specification.
pub run_requests-Represents :
    (rs : List Request) (m : Memory) (p p' : Pool) (answers : List (Option ℕ))
    → Represents m p
    → run_requests serve rs p ≡ some (answers, p')
    → (m' : Memory) × (run_requests perform rs m ≡ some (answers, m')) × Represents m' p'
unfolding run_requests
run_requests-Represents [] m p p' answers rep e =
    let none_yet : [] ≡ answers = cc in
    let same : p ≡ p' = cc in (m, rw none_yet refl, subst (Represents m) same rep)
run_requests-Represents (r ∷ rs) m p p' answers rep e = elim (Option-cases (serve r p)) [
  | inl no_answer ↦ absurd (cc (rw (no_answer, run_requests) at e))
  | inr ((a, q), served_r) ↦
      let (n, done, rep') = serve-Serves r m p q a rep served_r in
      elim (Option-cases (run_requests serve rs q)) [
        | inl no_answer ↦ absurd (cc (rw (served_r, no_answer, run_requests) at e))
        | inr ((rest, q'), served_rs) ↦
            let (m', runs, rep'') = run_requests-Represents rs n q q' rest rep' served_rs in
            let all : a ∷ rest ≡ answers = cc (rw (served_r, served_rs, run_requests) at e) in
            let same : q' ≡ p' = cc (rw (served_r, served_rs, run_requests) at e) in
            (
              m',
              rw (done, runs, run_requests) (ap (λ x. some (x, m')) all),
              subst (Represents m') same rep'',
            )
      ]
]
