-- ===== src/Heap/Fresh.antt =====
-- The first `malloc` of a program, in libc/malloc.c.
use osproject.Prelude.{
  ℕ, suc, ◌+◌, ◌-◌, ◌*◌, ◌/◌, ◌<◌, ◌≤◌, ◌≡◌, refl, sym, ap, ◌∙◌, true, false, ◌&&◌, ◌||◌, Option,
  none, some, leb, ltb, ◌==◌, if◌then◌else◌, arith, ==_iff, Bool-cases, inl, inr,
}
use osproject.Prelude.Loops.{update, update_self, update_other}
use osproject.Heap.{
  Heap, plus, set_ptr, set_size, find_place, join_upper, join_lower, libc_free, sbrk, nalloc,
  morecore, take_block, search_block, units_of, with_base, libc_malloc,
}
use osproject.Heap.FirstFit.{step_fits, Taken, whole, part, take_block-Taken}

-- `base` is the only block.
record IsBare (h : Heap) : Type 0 where
  free : h.freep ≡ h.base
  loop : h.ptr h.base ≡ h.base
  none_left : h.size h.base ≡ 0
  below : h.base < h.brk

with_base-IsBare : (h : Heap) → h.freep ≡ 0 → h.base < h.brk → IsBare (with_base h)
unfolding with_base set_ptr set_size
with_base-IsBare h e lt = rw e (record {
  free = refl;
  loop = update_self h.ptr h.base h.base;
  none_left = update_self h.size h.base 0;
  below = lt;
})

with_base_brk : (h : Heap) → h.freep ≡ 0 → (with_base h).brk ≡ h.brk
unfolding with_base set_ptr set_size
with_base_brk h e = rw e refl

-- A heap whose one block of 1024 units at `up` is free.
record IsFilled (h : Heap) (up : ℕ) : Type 0 where
  next : h.ptr h.freep ≡ up
  end : h.brk ≡ up + 20480
  units : h.size up ≡ 1024

-- The heap in which the new block is entered.
abbrev new_block : Heap → Heap
new_block h = set_size h.brk 1024 (record h { brk = h.brk + 4096 * (1024 * 16 / 4096 + 1) })

find_place-bare :
    (fuel : ℕ) (h : Heap) (bp : ℕ)
    → h.ptr h.base ≡ h.base
    → h.base < bp
    → find_place (suc fuel) bp h.base h ≡ some h.base
unfolding find_place
find_place-bare fuel h bp loop below =
    let first : (ltb h.base bp && ltb bp (h.ptr h.base)) ≡ false = ground arith in
    let second : (leb (h.ptr h.base) h.base && (ltb h.base bp || ltb bp (h.ptr h.base))) ≡ true =
      ground arith in
    rw first (rw second refl)

join-IsFilled :
    (h : Heap) (bp : ℕ)
    → h.ptr h.base ≡ h.base
    → h.size h.base ≡ 0
    → h.base < bp
    → h.size bp ≡ 1024
    → h.brk ≡ bp + 20480
    → IsFilled (record (join_lower bp h.base (join_upper bp h.base h)) { freep = h.base }) bp
unfolding join_lower join_upper set_ptr set_size
join-IsFilled h bp loop none_left below units granted =
    let upper : (plus bp (h.size bp) == h.ptr h.base) ≡ false = ground arith in
    let lower : (plus h.base (h.size h.base) == bp) ≡ false = ground arith in
    rw upper (
      rw lower (record {
        next = update_self (update h.ptr bp (h.ptr h.base)) h.base bp;
        end = granted;
        units = units;
      }))

libc_free-IsFilled :
    (fuel : ℕ) (h : Heap) (bp : ℕ)
    → h.freep ≡ h.base
    → h.ptr h.base ≡ h.base
    → h.size h.base ≡ 0
    → h.base < bp
    → h.size bp ≡ 1024
    → h.brk ≡ bp + 20480
    → (h' : Heap) × (libc_free (suc fuel) (bp + 16) h ≡ some h') × IsFilled h' bp
unfolding libc_free
libc_free-IsFilled fuel h bp free loop none_left below units granted =
    let header : bp + 16 - 16 ≡ bp = omega arith in
    (
      record (join_lower bp h.base (join_upper bp h.base h)) { freep = h.base },
      free_at (bp + 16 - 16) header,
      join-IsFilled h bp loop none_left below units granted,
    )
  where
    freed :
        (b : ℕ) (o : Option ℕ)
        → o ≡ some h.base
        → ◌≡◌ {A = Option Heap}
            (elim o [
              | none ↦ none
              | some p ↦ some (record (join_lower b p (join_upper b p h)) { freep = p })
            ])
            (some (record (join_lower b h.base (join_upper b h.base h)) { freep = h.base }))
    freed b o e = rw e refl

    free_at :
        (b : ℕ)
        → b ≡ bp
        → ◌≡◌ {A = Option Heap}
            (elim (find_place (suc fuel) b h.freep h) [
              | none ↦ none
              | some p ↦ some (record (join_lower b p (join_upper b p h)) { freep = p })
            ])
            (some (record (join_lower bp h.base (join_upper bp h.base h)) { freep = h.base }))
    free_at b same =
        freed b (find_place (suc fuel) b h.freep h) (
          ap (λ x. find_place (suc fuel) x h.freep h) same
          ∙ ap (λ x. find_place (suc fuel) bp x h) free
          ∙ find_place-bare fuel h bp loop below)
        ∙ ap (λ x. some (record (join_lower x h.base (join_upper x h.base h)) { freep = h.base }))
            same

-- `morecore` for at most 1024 units.
morecore_few :
    (fuel n : ℕ) (h : Heap)
    → n ≤ 1024
    → morecore fuel n h ≡ libc_free fuel (h.brk + 16) (new_block h)
unfolding morecore sbrk
morecore_few fuel n h few =
    let units : (if ltb n nalloc then nalloc else n) ≡ 1024 = ground arith in rw units refl

morecore-IsFilled :
    (fuel n : ℕ) (h : Heap)
    → IsBare h
    → n ≤ 1024
    → (h' : Heap) × (morecore (suc fuel) n h ≡ some h') × IsFilled h' h.brk
unfolding set_size
morecore-IsFilled fuel n h bare few =
    let (h', done, filled) =
      libc_free-IsFilled fuel (new_block h) h.brk bare.free bare.loop
        (update_other h.size h.brk 1024 h.base (omega (arith, bare.below)) ∙ bare.none_left)
        bare.below (update_self h.size h.brk 1024) refl in
    (h', morecore_few (suc fuel) n h few ∙ done, filled)

-- The search that finds nothing in the bare heap, and then the new block.
search_block-new :
    (fuel n : ℕ) (h : Heap)
    → IsBare h
    → 0 < n
    → n ≤ 1024
    → (last : ℕ) × (h' : Heap) × (search_block (suc (suc fuel)) n h.freep (h.ptr h.freep) h
        ≡ some (take_block n last h.brk h'))
      × (h'.size h.brk ≡ 1024)
      × (h'.brk ≡ h.brk + 20480)
unfolding search_block
search_block-new fuel n h bare positive few =
    let (h', done, filled) = morecore-IsFilled fuel n h bare few in
    let start : h.ptr h.freep ≡ h.base = ap h.ptr bare.free ∙ bare.loop in
    let small : leb n (h.size h.base) ≡ false = ground (arith, bare.none_left) in
    let here : (h.base == h.freep) ≡ true = (==_iff h.base h.freep).1 (sym bare.free) in
    (
      h'.freep,
      h',
      rw start (
          rw (small, search_block)
            (rw here (
              rw done (
                ap (λ x. search_block (suc fuel) n h'.freep x h') filled.next
                ∙ step_fits fuel n h'.freep h.brk h' (omega (arith, filled.units)))))),
      filled.units,
      filled.end,
    )

-- What the caller gets: `nbytes` bytes at `a` behind a header, within the first 16384 bytes from the old end
-- of the heap on, of which the kernel has granted 20480: the end of the heap is now behind those.
abbrev pub Inside : Heap → ℕ → ℕ → Heap → Type 0
Inside h nbytes a h' =
    (h.brk + 16 ≤ a)
    × (a + nbytes ≤ h.brk + 16384)
    × (a + nbytes ≤ h'.brk)
    × (h'.brk ≡ h.brk + 20480)

take_block_brk : (n last q : ℕ) (h : Heap) → (take_block n last q h).1.brk ≡ h.brk
unfolding take_block set_ptr set_size
take_block_brk n last q h = elim (Bool-cases (h.size q == n)) [
  | inl e ↦ rw e refl
  | inr e ↦ rw e refl
]

Taken-Inside :
    (nbytes last q : ℕ) (h : Heap) (r : ℕ × Heap)
    → nbytes ≤ 16368
    → h.size q ≡ 1024
    → Taken (units_of nbytes) last q h r
    → (q + 16 ≤ r.0) × (r.0 + nbytes ≤ q + 16384)
Taken-Inside nbytes last q h r small units (whole h' same _ _ _) = (omega arith, omega arith)
Taken-Inside nbytes last q h r small units (part b h' less at _ _ _ _) = (omega arith, omega arith)

-- The first `malloc` of a program, of at most 16368 bytes, comes back when its loops have two rounds each: the
-- kernel moves the end of the heap by 20480 bytes, and the block that it returns lies within the first
-- 16384 of them, behind a header.
pub libc_malloc-Inside :
    (fuel nbytes : ℕ) (h : Heap)
    → h.freep ≡ 0
    → h.base < h.brk
    → nbytes ≤ 16368
    → (a : ℕ) × (h' : Heap) × (libc_malloc (suc (suc fuel)) nbytes h ≡ some (a, h'))
      × Inside h nbytes a h'
unfolding libc_malloc
libc_malloc-Inside fuel nbytes h first below small =
    let bare = with_base-IsBare h first below in
    let same : (with_base h).brk ≡ h.brk = with_base_brk h first in
    let (last, h', done, units, end) =
      search_block-new fuel (units_of nbytes) (with_base h) bare (omega arith) (omega arith) in
    let r = take_block (units_of nbytes) last (with_base h).brk h' in
    let inside =
      Taken-Inside nbytes last (with_base h).brk h' r small units
        (take_block-Taken (units_of nbytes) last (with_base h).brk h' (omega (arith, units))) in
    let grown : r.1.brk ≡ h.brk + 20480 =
      take_block_brk (units_of nbytes) last (with_base h).brk h' ∙ omega (arith, end, same) in
    (
      r.0,
      r.1,
      done,
      (
        omega (arith, inside.0, same),
        omega (arith, inside.1, same),
        omega (arith, inside.1, same, grown),
        grown,
      ),
    )
