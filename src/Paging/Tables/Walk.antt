-- ===== src/Paging/Tables/Walk.antt =====
-- What the hardware reads from the tables that `map` and `init_pages_for_process` of sys/paging.c
-- build.
use osproject.Prelude.{
  ℕ, ◌+◌, ◌*◌, ◌/◌, ◌%◌, ◌<◌, ◌≡◌, ◌≢◌, ap, ◌∙◌, List, ◌∷◌, Option, none, some, if◌then◌else◌,
  arith, sym, ◌&&◌, leb, ltb,
}
use osproject.Prelude.State.{Op, ◌>>=◌}
use osproject.Prelude.Loops.{update, update_self, update_other}
use osproject.Paging.Frames.{Memory}
use osproject.Paging.Frames.FreeList.{IsFreeList, allocate_page-IsFreeList}
use osproject.Paging.Tables.{
  index4, index3, index2, index1, page_of, entry, present, slot, store, clear_table, new_table,
  new_clear_table,
}

-- The page frame that the processor finds for `v` under the table `p`, level by level.
abbrev pub walk1 : (ℕ → ℕ) → ℕ → ℕ → Option ℕ
walk1 w p v = let e = w (slot p (index1 v)) in if present e then some (page_of e) else none

abbrev pub walk2 : (ℕ → ℕ) → ℕ → ℕ → Option ℕ
walk2 w p v = let e = w (slot p (index2 v)) in if present e then walk1 w (page_of e) v else none

abbrev pub walk3 : (ℕ → ℕ) → ℕ → ℕ → Option ℕ
walk3 w p v = let e = w (slot p (index3 v)) in if present e then walk2 w (page_of e) v else none

abbrev pub walk4 : (ℕ → ℕ) → ℕ → ℕ → Option ℕ
walk4 w p v = let e = w (slot p (index4 v)) in if present e then walk3 w (page_of e) v else none

-- What a way of making a table must do: take the next free page, enter it at `a`, and leave every
-- word outside the new table alone.
pub record MakeLaw (make : ℕ → Op Memory ℕ) (flags : ℕ) : Type 0 where
  pub odd : flags % 2 ≡ 1
  pub small : flags < 4096
  pub makes :
      (m : Memory) (a i : ℕ) (xs : List ℕ)
      → IsFreeList m (i ∷ xs)
      → a / 4096 ≢ i
      → (m' : Memory) × (make a m ≡ some (i * 4096, m'))
        × IsFreeList m' xs
        × (m'.word a ≡ entry (i * 4096) flags)
        × ((b : ℕ) → b ≢ a → b / 4096 ≢ i → m'.word b ≡ m.word b)

new_table-makes :
    (flags : ℕ) (m : Memory) (a i : ℕ) (xs : List ℕ)
    → IsFreeList m (i ∷ xs)
    → a / 4096 ≢ i
    → (m' : Memory) × (new_table a flags m ≡ some (i * 4096, m'))
      × IsFreeList m' xs
      × (m'.word a ≡ entry (i * 4096) flags)
      × ((b : ℕ) → b ≢ a → b / 4096 ≢ i → m'.word b ≡ m.word b)
unfolding new_table store
new_table-makes flags m a i xs free apart =
    let (n, got, list, _, _, same, _) = allocate_page-IsFreeList m i xs free in
    (
      record n { word = update n.word a (entry (i * 4096) flags) },
      rw (got, ◌>>=◌),
      list,
      update_self n.word a _,
      λ b ne out. update_other n.word a _ b (λ e. ne (sym e)) ∙ ap (λ (w : ℕ → ℕ). w b) same,
    )

new_clear_table-makes :
    (flags : ℕ) (m : Memory) (a i : ℕ) (xs : List ℕ)
    → IsFreeList m (i ∷ xs)
    → a / 4096 ≢ i
    → (m' : Memory) × (new_clear_table a flags m ≡ some (i * 4096, m'))
      × IsFreeList m' xs
      × (m'.word a ≡ entry (i * 4096) flags)
      × ((b : ℕ) → b ≢ a → b / 4096 ≢ i → m'.word b ≡ m.word b)
unfolding new_clear_table store clear_table
new_clear_table-makes flags m a i xs free apart =
    let (n, got, list, _, _, same, _) = allocate_page-IsFreeList m i xs free in
    (
      record n {
        word = λ b.
            if leb (i * 4096) b && ltb b (i * 4096 + 4096)
            then 0
            else update n.word a (entry (i * 4096) flags) b;
      },
      rw (got, ◌>>=◌),
      list,
      ground arith,
      λ b ne out.
          outside b out
          ∙ update_other n.word a _ b (λ e. ne (sym e))
          ∙ ap (λ (w : ℕ → ℕ). w b) same,
    )
  where
    outside :
        (b : ℕ) {x : ℕ}
        → b / 4096 ≢ i
        → (if leb (i * 4096) b && ltb b (i * 4096 + 4096) then 0 else x) ≡ x
    outside b out = ground arith

pub new_table-MakeLaw :
    (flags : ℕ) → flags % 2 ≡ 1 → flags < 4096 → MakeLaw (λ a. new_table a flags) flags
new_table-MakeLaw flags odd small = record {
  odd = odd;
  small = small;
  makes = new_table-makes flags;
}

pub new_clear_table-MakeLaw :
    (flags : ℕ) → flags % 2 ≡ 1 → flags < 4096 → MakeLaw (λ a. new_clear_table a flags) flags
new_clear_table-MakeLaw flags odd small = record {
  odd = odd;
  small = small;
  makes = new_clear_table-makes flags;
}
