-- ===== src/Paging/Tables/Process.antt =====
-- `init_pages_for_process` and `map` of sys/paging.c as a whole.
use osproject.Prelude.{ℕ, ◌*◌, ◌/◌, ◌≡◌, ◌≢◌, refl, sym, false, List, ◌∷◌, some, arith}
use mathlib.Core.Path.{subst}
use osproject.Prelude.Loops.{update}
use osproject.Paging.Frames.{Memory}
use osproject.Paging.Frames.FreeList.{has, IsFreeList}
use osproject.Paging.Tables.{
  page_of, entry, slot, load, store, new_table, new_clear_table, map_level4, map_page,
  init_pages_for_process,
}
use osproject.Paging.Tables.Walk.{walk4, new_table-MakeLaw, new_clear_table-MakeLaw}
use osproject.Paging.Tables.Mapped.{Distinct, used4, level4-Mapped}

-- The words once the kernel's half is entered at slot 511 of the table of page `t`.
abbrev pub entered : Memory → ℕ → ℕ → ℕ
entered m t = update m.word (slot (t * 4096) 511) (entry (m.word (slot m.pml4e 511)) 7)

-- With three free pages, and all tables on the way from the process's top table `t` different,
-- `init_pages_for_process` returns; `v` then leads to the page of `phy`, and no word outside the top
-- table and the tables on the way has changed.
pub init_pages_for_process-walk4 :
    (m : Memory) (t v phy i j k : ℕ) (xs : List ℕ)
    → IsFreeList m (i ∷ j ∷ k ∷ xs)
    → Distinct (t ∷ used4 (entered m t) t v i j k)
    → (m' : Memory) × (init_pages_for_process v phy (t * 4096) m ≡ some (tt, m'))
      × (walk4 m'.word (t * 4096) v ≡ some (page_of phy))
      × ((b : ℕ)
          → b / 4096 ≢ t
          → has (b / 4096) (used4 (entered m t) t v i j k) ≡ false
          → m'.word b ≡ entered m t b)
unfolding init_pages_for_process load store
init_pages_for_process-walk4 m t v phy i j k xs list d =
    let r =
      level4-Mapped (λ a. new_clear_table a 7) 7 v phy
        (new_clear_table-MakeLaw 7 refl (omega arith)) (record m { word = entered m t }) t i j k xs
        list d in
    (r.after, r.returns, r.finds, r.frame)

-- If the kernel's own top table is page `t`, with three free pages, and all tables on the way from it
-- different, `map` returns; `v` then leads to the page of `phy`, and no word outside the top table and the
-- tables on the way has changed.
pub map_page-walk4 :
    (m : Memory) (t v phy i j k : ℕ) (xs : List ℕ)
    → m.pml4e ≡ t * 4096
    → IsFreeList m (i ∷ j ∷ k ∷ xs)
    → Distinct (t ∷ used4 m.word t v i j k)
    → (m' : Memory) × (map_page v phy m ≡ some (tt, m'))
      × (walk4 m'.word (t * 4096) v ≡ some (page_of phy))
      × ((b : ℕ)
          → b / 4096 ≢ t
          → has (b / 4096) (used4 m.word t v i j k) ≡ false
          → m'.word b ≡ m.word b)
unfolding map_page
map_page-walk4 m t v phy i j k xs top list d =
    let r =
      level4-Mapped (λ a. new_table a 3) 3 v phy (new_table-MakeLaw 3 refl (omega arith)) m t i j k
        xs list d in
    (
      r.after,
      subst (λ p. map_level4 (λ a. new_table a 3) 3 v phy p m ≡ some (tt, r.after)) (sym top)
          r.returns,
      r.finds,
      r.frame,
    )
