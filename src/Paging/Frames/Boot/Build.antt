-- ===== src/Paging/Frames/Boot/Build.antt =====
-- The free list that `mem_map` of sys/paging.c builds.
use osproject.Prelude.{
  ℕ, zero, suc, ◌+◌, ◌*◌, ◌/◌, ◌%◌, ◌^◌, ◌≤◌, ◌<◌, ◌≡◌, refl, sym, ◌∙◌, true, false, List, [], ◌∷◌,
  ◌++◌, none, some, ltb, leb, ◌&&◌, if◌then◌else◌, arith, Bool-cases, inl, inr,
}
use mathlib.Core.Path.{subst}
use native.Mathlib.Decide.{ℕ_discrete}
use mathlib.Core.List.{append-nil, append_assoc}
use osproject.Prelude.Loops.{update, update_self}
use osproject.Paging.Frames.{Memory, table_pages, set_frame}
use osproject.Paging.Frames.FreeList.{has, IsFreeList, Chain-update}
use osproject.Paging.Frames.Boot.{
  Scan, fresh_frame, usable, link_last, mem_map_step, mem_map_loop, mem_map,
}
use osproject.Paging.Frames.Boot.Entries.{
  Entered, last_of, has-snoc, linked, Chain-snoc, is_free, is_free-usable, entered, linked-Entered,
}

-- A scan at page `p` that has built the list `xs` of earlier pages.
abbrev at_page : ℕ → List ℕ → Memory → Scan
at_page p xs m = record { ptr = p * 4096; last = last_of xs; memory = m }

abbrev IsBelow : ℕ → List ℕ → Type 0
IsBelow p xs = (j : ℕ) → p ≤ j → has j xs ≡ false

-- The list after page `p`.
abbrev with_page : ℕ → ℕ → ℕ → List ℕ → List ℕ
with_page physfree limit p xs = if is_free physfree limit (p * 4096) then xs ++ p ∷ [] else xs

last_of-snoc : (xs : List ℕ) (p : ℕ) → last_of (xs ++ p ∷ []) ≡ some p
last_of-snoc [] p = refl
last_of-snoc (x ∷ []) p = refl
last_of-snoc (x ∷ y ∷ xs) p = last_of-snoc (y ∷ xs) p

last_of-some : (x : ℕ) (xs : List ℕ) → (l : ℕ) × (last_of (x ∷ xs) ≡ some l)
last_of-some x [] = (x, refl)
last_of-some x (y ∷ xs) = last_of-some y xs

IsBelow-next : (p : ℕ) (xs : List ℕ) → IsBelow p xs → IsBelow (p + 1) (xs ++ p ∷ [])
IsBelow-next p xs low j le = has-snoc xs j p (low j (omega arith)) (omega arith)

-- The page that is linked behind the last one.
abbrev linked_scan : ℕ → Scan → Scan
linked_scan l s =
    let c = s.ptr / 4096 in
    let m = set_frame c (fresh_frame s.ptr 1 0) s.memory in
    record {
      ptr = (s.ptr + 4096) % 2 ^ 64;
      last = some c;
      memory = set_frame l (record (m.pagelist l) { next = some c }) m;
    }

step_linked :
    (physfree limit h l : ℕ) (s : Scan)
    → ltb (s.ptr / 4096) table_pages ≡ true
    → usable physfree limit s.ptr ≡ true
    → s.memory.head ≡ some h
    → s.last ≡ some l
    → mem_map_step physfree limit s ≡ some (linked_scan l s)
unfolding mem_map_step link_last
step_linked physfree limit h l s room fits list end = simp (room, fits, list, end) refl

step-usable :
    (physfree limit p : ℕ) (xs : List ℕ) (m : Memory)
    → p < 75000
    → is_free physfree limit (p * 4096) ≡ true
    → IsFreeList m xs
    → IsBelow p xs
    → (m' : Memory) × (mem_map_step physfree limit (at_page p xs m)
        ≡ some (at_page (p + 1) (xs ++ p ∷ []) m'))
      × IsFreeList m' (xs ++ p ∷ [])
      × Entered p 0 m m'
unfolding mem_map_step set_frame link_last
step-usable physfree limit p [] m room free list low =
    let page : p * 4096 / 4096 ≡ p = omega arith in
    let next : (p * 4096 + 4096) % 18446744073709551616 ≡ (p + 1) * 4096 = omega arith in
    let inside : ltb p 75000 ≡ true = ground arith in
    let fits = is_free-usable physfree limit p room ∙ free in
    (
      record m { pagelist = update m.pagelist p (fresh_frame (p * 4096) 1 0); head = some p },
      rw (page, inside, fits, list, next, page) refl,
      rw (update_self m.pagelist p (fresh_frame (p * 4096) 1 0))
          (refl, refl, refl, omega arith, refl, refl),
      entered p 1 0 m (some p),
    )
step-usable physfree limit p (x ∷ xs) m room free list low =
    let page : p * 4096 / 4096 ≡ p = omega arith in
    let next : (p * 4096 + 4096) % 18446744073709551616 ≡ (p + 1) * 4096 = omega arith in
    let inside : ltb p 75000 ≡ true = ground arith in
    let fits = is_free-usable physfree limit p room ∙ free in
    let (l, end) = last_of-some x xs in
    (
      record m { pagelist = linked m.pagelist l p },
      step_linked physfree limit x l (at_page p (x ∷ xs) m) (rw (page, inside) refl) fits list.0 end
          ∙ rw (page, next, last_of-snoc (x ∷ xs) p) refl,
      Chain-snoc m.pagelist m.head (x ∷ xs) l p list end (low p (omega arith)),
      linked-Entered p l m,
    )

step-unusable :
    (physfree limit p : ℕ) (xs : List ℕ) (m : Memory)
    → p < 75000
    → is_free physfree limit (p * 4096) ≡ false
    → IsFreeList m xs
    → IsBelow p xs
    → (m' : Memory) × (mem_map_step physfree limit (at_page p xs m) ≡ some (at_page (p + 1) xs m'))
      × IsFreeList m' xs
      × Entered p 1 m m'
unfolding mem_map_step set_frame
step-unusable physfree limit p xs m room free list low =
    let page : p * 4096 / 4096 ≡ p = omega arith in
    let next : (p * 4096 + 4096) % 18446744073709551616 ≡ (p + 1) * 4096 = omega arith in
    let inside : ltb p 75000 ≡ true = ground arith in
    let fits = is_free-usable physfree limit p room ∙ free in
    (
      record m { pagelist = update m.pagelist p (fresh_frame (p * 4096) 0 1) },
      rw (page, inside, fits, next) refl,
      Chain-update m.pagelist m.head xs p _ (low p (omega arith)) list,
      entered p 0 1 m m.head,
    )

-- The usable pages from page `p` on, in order, as far as the loop goes in so many rounds.
abbrev pub usable_pages : ℕ → ℕ → ℕ → ℕ → List ℕ
usable_pages zero physfree limit p = []
usable_pages (suc n) physfree limit p =
    let rest = usable_pages n physfree limit (p + 1) in
    if ltb (p * 4096) limit
    then (if is_free physfree limit (p * 4096) then p ∷ rest else rest)
    else []

-- The pages from `p` on in the region have their addresses, and no reader if they are free, else one; the pages
-- before `p` are as they were.
pub record Filled (physfree limit p n : ℕ) (m m' : Memory) : Type 0 where
  pub inside :
      (j : ℕ)
      → p ≤ j
      → j < p + n
      → j * 4096 < limit
      → ((m'.pagelist j).address ≡ j * 4096)
        × ((m'.pagelist j).ref_count ≡ (if is_free physfree limit (j * 4096) then 0 else 1))
  pub before :
      (j : ℕ)
      → j < p
      → ((m'.pagelist j).address ≡ (m.pagelist j).address)
        × ((m'.pagelist j).ref_count ≡ (m.pagelist j).ref_count)

Filled-over :
    (physfree limit p n : ℕ) (m : Memory) → limit ≤ p * 4096 → Filled physfree limit p n m m
Filled-over physfree limit p n m over = record {
  inside = λ j le _ lt. absurd (omega arith);
  before = λ j lt. (refl, refl);
}

Filled-step :
    (physfree limit p n readers : ℕ) (m m' m'' : Memory)
    → (if is_free physfree limit (p * 4096) then 0 else 1) ≡ readers
    → Entered p readers m m'
    → Filled physfree limit (p + 1) n m' m''
    → Filled physfree limit p (suc n) m m''
Filled-step physfree limit p n readers m m' m'' count e h = record {
  inside = λ j le small lt. elim (ℕ_discrete p j) [
    | yes same ↦
        subst
          (λ x.
            ((m''.pagelist x).address ≡ x * 4096)
            × ((m''.pagelist x).ref_count ≡ (if is_free physfree limit (x * 4096) then 0 else 1)))
          same
          (
            (h.before p (omega arith)).0 ∙ e.address,
            (h.before p (omega arith)).1 ∙ e.counted ∙ sym count,
          )
    | no other ↦ h.inside j (omega arith) (omega arith) lt
  ];
  before = λ j lt. (
    (h.before j (omega arith)).0 ∙ (e.others j (omega arith)).0,
    (h.before j (omega arith)).1 ∙ (e.others j (omega arith)).1,
  );
}

loop-IsFreeList :
    (n physfree limit p : ℕ) (xs : List ℕ) (m : Memory)
    → limit ≤ 75000 * 4096
    → IsFreeList m xs
    → IsBelow p xs
    → (s : Scan) × (mem_map_loop n physfree limit (at_page p xs m) ≡ some s)
      × IsFreeList s.memory (xs ++ usable_pages n physfree limit p)
      × Filled physfree limit p n m s.memory
unfolding mem_map_loop
loop-IsFreeList zero physfree limit p xs m table list low = (
  at_page p xs m,
  refl,
  rw (append-nil xs) list,
  record { inside = λ j le lt _. absurd (omega arith); before = λ j lt. (refl, refl) },
)
loop-IsFreeList (suc n) physfree limit p xs m table list low =
    elim (Bool-cases (ltb (p * 4096) limit)) [
      | inr over ↦ (
        at_page p xs m,
        rw over refl,
        rw (over, append-nil xs) list,
        Filled-over physfree limit p (suc n) m (ground (arith, over)),
      )
      | inl more ↦
          let room : p < 75000 = ground (arith, more, table) in
          elim (Bool-cases (is_free physfree limit (p * 4096))) [
            | inr skip ↦
                let (m', step, list', e) = step-unusable physfree limit p xs m room skip list low in
                let (s, runs, built, filled) =
                  loop-IsFreeList n physfree limit (p + 1) xs m' table list'
                    (λ j le. low j (omega arith)) in
                (
                  s,
                  rw (more, step) runs,
                  rw (more, skip) built,
                  Filled-step physfree limit p n 1 m m' s.memory (rw skip refl) e filled,
                )
            | inl fits ↦
                let (m', step, list', e) = step-usable physfree limit p xs m room fits list low in
                let (s, runs, built, filled) =
                  loop-IsFreeList n physfree limit (p + 1) (xs ++ p ∷ []) m' table list'
                    (IsBelow-next p xs low) in
                (
                  s,
                  rw (more, step) runs,
                  rw (more, fits) (subst (IsFreeList s.memory) (append_assoc xs (p ∷ []) _) built),
                  Filled-step physfree limit p n 0 m m' s.memory (rw fits refl) e filled,
                )
          ]
    ]

past_end :
    (physfree limit p i : ℕ)
    → limit ≤ p * 4096
    → leb p i && is_free physfree limit (i * 4096) ≡ false
past_end physfree limit p i over = ground arith

-- With enough rounds, page `i` is listed exactly if it is none before `p` and usable.
has-usable_pages :
    (n physfree limit p i : ℕ)
    → limit ≤ (p + n) * 4096
    → has i (usable_pages n physfree limit p) ≡ (leb p i && is_free physfree limit (i * 4096))
has-usable_pages zero physfree limit p i enough = sym (past_end physfree limit p i (omega arith))
has-usable_pages (suc n) physfree limit p i enough = elim (Bool-cases (ltb (p * 4096) limit)) [
  | inr over ↦ rw over (sym (past_end physfree limit p i (ground arith)))
  | inl more ↦
      let ih = has-usable_pages n physfree limit (p + 1) i (omega arith) in
      elim (ℕ_discrete i p) [ yes same ↦ ground (arith, ih) | no other ↦ ground (arith, ih) ]
]

-- If the free list is empty when `mem_map` is called, the region begins at page `p` and ends within the 75000
-- pages of the table, and the end of the kernel's own data has 64 bits: `mem_map` returns with a free list
-- that holds exactly the pages from `p` on that lie above the kernel's own data and are not the region's
-- last; and every page of the region has its address, and no reader if it is on the list, else one.
pub mem_map-IsFreeList :
    (pagelist_bytes slim physfree p : ℕ) (m : Memory)
    → m.head ≡ none
    → p * 4096 + slim ≤ 75000 * 4096
    → physfree + pagelist_bytes < 18446744073709551616
    → (m' : Memory) × (xs : List ℕ) × (mem_map pagelist_bytes (p * 4096) slim physfree m ≡ some m')
      × IsFreeList m' xs
      × ((i : ℕ)
          → has i xs
            ≡ (leb p i && is_free (physfree + pagelist_bytes) (p * 4096 + slim) (i * 4096)))
      × ((i : ℕ)
          → p ≤ i
          → i * 4096 < p * 4096 + slim
          → ((m'.pagelist i).address ≡ i * 4096)
            × ((m'.pagelist i).ref_count ≡ (if has i xs then 0 else 1)))
unfolding mem_map
mem_map-IsFreeList pagelist_bytes slim physfree p m empty table small =
    let start = physfree + pagelist_bytes in
    let limit = p * 4096 + slim in
    let same : start % 18446744073709551616 ≡ start = omega arith in
    let same' : limit % 18446744073709551616 ≡ limit = omega arith in
    let (s, runs, built, filled) =
      loop-IsFreeList (slim / 4096 + 1) start limit p [] m table empty (λ j le. refl) in
    let listed : (i : ℕ)
        → has i (usable_pages (slim / 4096 + 1) start limit p)
          ≡ (leb p i && is_free start limit (i * 4096)) =
      λ i. has-usable_pages (slim / 4096 + 1) start limit p i (omega arith) in
    (
      s.memory,
      usable_pages (slim / 4096 + 1) start limit p,
      rw (same, same', mem_map) (rw (runs, mem_map) refl),
      built,
      listed,
      λ i le lt.
          let (own, count) = filled.inside i le (omega arith) lt in
          let from : leb p i ≡ true = ground arith in (own, count ∙ sym (rw (listed i, from) refl)),
    )
