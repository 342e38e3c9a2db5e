-- ===== src/Paging/Frames/FreeList.antt =====
-- The free list as a list of page numbers, and what `allocate_page` and `free` do to it.
use osproject.Prelude.{
  ℕ, ◌+◌, ◌-◌, ◌*◌, ◌/◌, ◌%◌, ◌≤◌, ◌<◌, ◌≡◌, refl, ap, Bool, true, false, ◌||◌, List, [], ◌∷◌,
  Option, none, some, ◌==◌, ==_iff, ltb, arith, sym, ◌∙◌,
}
use osproject.Prelude.Loops.{update, update_self}
use mathlib.Core.Path.{subst}
use osproject.Paging.Frames.{
  Frame, Memory, set_frame, set_ref_count, free, getrefcount, allocate_page,
}

abbrev pub has : ℕ → List ℕ → Bool
has i [] = false
has i (x ∷ xs) = (i == x) || has i xs

-- From `h` the `next` fields lead through `xs`, each once, to NULL; each page is marked free, has no
-- second reader and starts at its own address.
abbrev pub Chain : (ℕ → Frame) → Option ℕ → List ℕ → Type 0
Chain f h [] = h ≡ none
Chain f h (i ∷ xs) =
    (h ≡ some i)
    × ((f i).address ≡ i * 4096)
    × ((f i).free ≡ 1)
    × ((f i).ref_count ≤ 1)
    × (has i xs ≡ false)
    × Chain f (f i).next xs

-- `xs` are the pages of the free list, next to be handed out first.
abbrev pub IsFreeList : Memory → List ℕ → Type 0
IsFreeList m xs = Chain m.pagelist m.head xs

-- A change of a page outside the chain does not touch it.
pub Chain-update :
    (f : ℕ → Frame) (h : Option ℕ) (xs : List ℕ) (i : ℕ) (v : Frame)
    → has i xs ≡ false
    → Chain f h xs
    → Chain (update f i v) h xs
Chain-update f h [] i v out c = c
Chain-update f h (x ∷ xs) i v out c = ground (arith, Chain-update f (f x).next xs i v)

-- If the free list is not empty, `allocate_page` returns the start of its first page, which leaves the list
-- and has one reader; the rest of the list, the other pages, the words of memory and the top table stay.
pub allocate_page-IsFreeList :
    (m : Memory) (i : ℕ) (xs : List ℕ)
    → IsFreeList m (i ∷ xs)
    → (m' : Memory) × (allocate_page m ≡ some (i * 4096, m'))
      × IsFreeList m' xs
      × (m'.pagelist i
          ≡ record { address = i * 4096; free = 0; ref_count = 1; next = (m.pagelist i).next })
      × ((j : ℕ) → (i == j) ≡ false → m'.pagelist j ≡ m.pagelist j)
      × (m'.word ≡ m.word)
      × (m'.pml4e ≡ m.pml4e)
unfolding allocate_page set_frame
allocate_page-IsFreeList m i xs c = (
  after,
  ground arith,
  Chain-update m.pagelist (m.pagelist i).next xs i
      (record (m.pagelist i) { free = 0; ref_count = 1 }) c.4 c.5,
  ground arith,
  λ j ne. ground arith,
  refl,
  refl,
)
  where
    after : Memory
    after = record m {
      pagelist = update m.pagelist i (record (m.pagelist i) { free = 0; ref_count = 1 });
      head = (m.pagelist i).next;
    }

-- With no page left the kernel does not come back.
pub allocate_page_empty : (m : Memory) → IsFreeList m [] → allocate_page m ≡ none
unfolding allocate_page
allocate_page_empty m c = rw (c, allocate_page)

abbrev pub given_back : ℕ → Memory → Memory
given_back i m = record m {
  pagelist = update m.pagelist i (record (m.pagelist i) { free = 1; next = m.head });
  head = some i;
}

-- `free` on the start of a page, by the number of its readers.
pub free_last :
    (m : Memory) (i : ℕ)
    → i < 75000
    → (m.pagelist i).address ≡ i * 4096
    → (m.pagelist i).ref_count ≤ 1
    → free (i * 4096) m ≡ given_back i m
unfolding free set_frame
free_last m i room own few =
    let page : i * 4096 / 4096 % 4294967296 ≡ i = omega arith in
    let same : ((m.pagelist i).address == i * 4096) ≡ true = (==_iff _ _).1 own in
    let last : ltb 1 (m.pagelist i).ref_count ≡ false = ground arith in rw (page, same, last)

pub free_shared :
    (m : Memory) (i : ℕ)
    → i < 75000
    → (m.pagelist i).address ≡ i * 4096
    → 1 < (m.pagelist i).ref_count
    → free (i * 4096) m ≡ set_ref_count i ((m.pagelist i).ref_count - 1) m
unfolding free
free_shared m i room own many =
    let page : i * 4096 / 4096 % 4294967296 ≡ i = omega arith in
    let same : ((m.pagelist i).address == i * 4096) ≡ true = (==_iff _ _).1 own in
    let more : ltb 1 (m.pagelist i).ref_count ≡ true = ground arith in rw (page, same, more)

-- `free` on a page of the table that is not on the list, starts at its own address and has at most one reader puts it
-- at the front of the list, to be handed out first.
pub free_last-IsFreeList :
    (m : Memory) (i : ℕ) (xs : List ℕ)
    → IsFreeList m xs
    → has i xs ≡ false
    → i < 75000
    → (m.pagelist i).address ≡ i * 4096
    → (m.pagelist i).ref_count ≤ 1
    → IsFreeList (free (i * 4096) m) (i ∷ xs)
free_last-IsFreeList m i xs c out room own few =
    subst (λ s. IsFreeList s (i ∷ xs)) (sym (free_last m i room own few))
      (rw (update_self m.pagelist i (record (m.pagelist i) { free = 1; next = m.head }))
        (refl, own, refl, few, out, Chain-update m.pagelist m.head xs i _ out c))

-- `free` on a page of the table that is not on the list, starts at its own address and has more readers than one leaves
-- the list as it is, and the page has one reader less.
pub free_shared-IsFreeList :
    (m : Memory) (i : ℕ) (xs : List ℕ)
    → IsFreeList m xs
    → has i xs ≡ false
    → i < 75000
    → (m.pagelist i).address ≡ i * 4096
    → 1 < (m.pagelist i).ref_count
    → IsFreeList (free (i * 4096) m) xs
      × (getrefcount (i * 4096) (free (i * 4096) m) + 1 ≡ getrefcount (i * 4096) m)
unfolding set_ref_count set_frame getrefcount
free_shared-IsFreeList m i xs c out room own many =
    rw (free_shared m i room own many) (Chain-update m.pagelist m.head xs i _ out c, ground arith)

-- What `allocate_page` leaves when page `i` is the head.
abbrev taken : ℕ → Memory → Memory
taken i m = record m {
  pagelist = update m.pagelist i (record (m.pagelist i) { free = 0; ref_count = 1 });
  head = (m.pagelist i).next;
}

allocate_page_head :
    (m : Memory) (i : ℕ)
    → m.head ≡ some i
    → (m.pagelist i).address ≡ i * 4096
    → allocate_page m ≡ some (i * 4096, taken i m)
unfolding allocate_page set_frame
allocate_page_head m i at_head own = ground arith

given_back-own :
    (m : Memory) (i : ℕ)
    → (m.pagelist i).address ≡ i * 4096
    → ((given_back i m).pagelist i).address ≡ i * 4096
given_back-own m i own = ground arith

-- For a page of the table that starts at its own address and has at most one reader, `free` and then `allocate_page`
-- returns that page, and the head of the list is what it was before.
pub allocate_page-free :
    (m : Memory) (i : ℕ)
    → i < 75000
    → (m.pagelist i).address ≡ i * 4096
    → (m.pagelist i).ref_count ≤ 1
    → (m' : Memory) × (allocate_page (free (i * 4096) m) ≡ some (i * 4096, m')) × (m'.head ≡ m.head)
allocate_page-free m i room own few = (
  taken i (given_back i m),
  rw (free_last m i room own few)
      (allocate_page_head (given_back i m) i refl (given_back-own m i own)),
  ground arith,
)

free-free :
    (m : Memory) (i : ℕ)
    → i < 75000
    → (m.pagelist i).address ≡ i * 4096
    → (m.pagelist i).ref_count ≤ 1
    → free (i * 4096) (free (i * 4096) m) ≡ given_back i (given_back i m)
free-free m i room own few =
    ap (free (i * 4096)) (free_last m i room own few)
    ∙ free_last (given_back i m) i room (given_back-own m i own) (ground arith)

-- For a page of the table that starts at its own address and has at most one reader: if it is freed twice, the next two
-- calls of `allocate_page` both return it.
pub free_twice :
    (m : Memory) (i : ℕ)
    → i < 75000
    → (m.pagelist i).address ≡ i * 4096
    → (m.pagelist i).ref_count ≤ 1
    → (a : Memory) × (b : Memory) × (allocate_page (free (i * 4096) (free (i * 4096) m))
        ≡ some (i * 4096, a))
      × (allocate_page a ≡ some (i * 4096, b))
free_twice m i room own few =
    let once = given_back i m in
    let twice = given_back i once in
    let own' : (once.pagelist i).address ≡ i * 4096 = given_back-own m i own in
    let own'' : (twice.pagelist i).address ≡ i * 4096 = given_back-own once i own' in
    (
      taken i twice,
      taken i (taken i twice),
      rw (free-free m i room own few) (allocate_page_head twice i refl own''),
      allocate_page_head (taken i twice) i (ground arith) (ground arith),
    )
