-- ===== src/Paging/Tables/Mapped.antt =====
-- `map` and `init_pages_for_process` of sys/paging.c enter a page so that the hardware finds it.
use osproject.Prelude.{
  ℕ, ◌*◌, ◌/◌, ◌%◌, ◌^◌, ◌<◌, ◌≡◌, ◌≢◌, refl, ap, ◌∙◌, sym, true, false, List, [], ◌∷◌, Option,
  some, if◌then◌else◌, Bool-cases, inl, inr, arith,
}
use osproject.Prelude.State.{Op, ◌>>=◌}
use osproject.Prelude.Loops.{update, update_self, update_other}
use osproject.Paging.Frames.{Memory}
use osproject.Paging.Frames.FreeList.{has, IsFreeList}
use osproject.Paging.Tables.{
  index4, index3, index2, index1, page_of, entry, present, slot, store, map_leaf, make_below2,
  make_below3, make_below4, map_level2, map_level3, map_level4,
}
use osproject.Paging.Tables.Walk.{walk1, walk2, walk3, walk4, MakeLaw}

-- A table entry that was made for page `i` is present and leads back to it.
entry_back :
    (i flags : ℕ)
    → flags % 2 ≡ 1
    → flags < 4096
    → (present (entry (i * 4096) flags) ≡ true) × (page_of (entry (i * 4096) flags) ≡ i * 4096)
entry_back i flags odd small = (ground arith, omega arith)

leaf_back :
    (phy flags : ℕ)
    → flags % 2 ≡ 1
    → flags < 4096
    → (present (entry phy flags) ≡ true) × (page_of (entry phy flags) ≡ page_of phy)
leaf_back phy flags odd small = (ground arith, omega arith)

has-cons : (b i : ℕ) (ys : List ℕ) → has b (i ∷ ys) ≡ false → (b ≢ i) × (has b ys ≡ false)
has-cons b i ys h = (ground arith, ground arith)

-- The list names no page twice.
abbrev pub Distinct : List ℕ → Type 0
Distinct [] = Unit {0}
Distinct (x ∷ xs) = (has x xs ≡ false) × Distinct xs

-- The tables below `t` on the way to the page of `v`: those that are there, then the free pages `i`,
-- `j`, `k` that become the missing ones.
abbrev pub used2 : (ℕ → ℕ) → ℕ → ℕ → ℕ → List ℕ
used2 w t v i =
    let e = w (slot (t * 4096) (index2 v)) in if present e then e / 4096 ∷ [] else i ∷ []

abbrev pub used3 : (ℕ → ℕ) → ℕ → ℕ → ℕ → ℕ → List ℕ
used3 w t v i j =
    let e = w (slot (t * 4096) (index3 v)) in
    if present e then e / 4096 ∷ used2 w (e / 4096) v i else i ∷ j ∷ []

abbrev pub used4 : (ℕ → ℕ) → ℕ → ℕ → ℕ → ℕ → ℕ → List ℕ
used4 w t v i j k =
    let e = w (slot (t * 4096) (index4 v)) in
    if present e then e / 4096 ∷ used3 w (e / 4096) v i j else i ∷ j ∷ k ∷ []

-- A slot lies in the page of its table.
slot_page : (t v k : ℕ) → slot (t * 4096) (v / k % 512) / 4096 ≡ t
slot_page t v k = omega arith

module _ (make : ℕ → Op Memory ℕ) (flags v phy : ℕ) (law : MakeLaw make flags) where
  open law use {odd, small, makes}

  -- What a run that reaches `run m` must have done below the table `t`, reading by `walk`: it maps `v`
  -- to the page of `phy`, and changes words of `t` and of the pages `xs` alone.
  pub record Mapped (walk : (ℕ → ℕ) → ℕ → ℕ → Option ℕ) (t : ℕ) (xs : List ℕ) (m : Memory)
      (r : Option (Unit {0} × Memory)) : Type 0 where
    pub after : Memory
    pub returns : r ≡ some (tt, after)
    pub finds : walk after.word (t * 4096) v ≡ some (page_of phy)
    pub frame : (b : ℕ) → b / 4096 ≢ t → has (b / 4096) xs ≡ false → after.word b ≡ m.word b

  leaf-Mapped : (m : Memory) (t : ℕ) → Mapped walk1 t [] m (map_leaf make flags v phy (t * 4096) m)
  unfolding map_leaf store
  leaf-Mapped m t = record {
    after = record m { word = update m.word (slot (t * 4096) (index1 v)) (entry phy flags) };
    returns = refl;
    finds = rw (
      update_self m.word (slot (t * 4096) (index1 v)) (entry phy flags),
      (leaf_back phy flags odd small).0,
      (leaf_back phy flags odd small).1,
    );
    frame = λ b out _.
        update_other m.word _ _ b
          (λ e. out (ap (λ (x : ℕ). x / 4096) (sym e) ∙ slot_page t v (2 ^ 12)));
  }

  -- One level up: a table made at slot `a` of table `t`, then the levels below it.
  module _ (walk : (ℕ → ℕ) → ℕ → ℕ → Option ℕ) (a t i : ℕ) (xs ys : List ℕ) (m : Memory)
      (in_t : a / 4096 ≡ t) (apart : t ≢ i) (out : has t ys ≡ false)
      (list : IsFreeList m (i ∷ xs)) where
    made_under :
        (below : ℕ → Op Memory (Unit {0}))
        → ((n : Memory) → IsFreeList n xs → Mapped walk i ys n (below (i * 4096) n))
        → record {
          after : Memory;
          returns : (make a >>= below) m ≡ some (tt, after);
          entered : after.word a ≡ entry (i * 4096) flags;
          finds : walk after.word (i * 4096) v ≡ some (page_of phy);
          frame :
              (b : ℕ) → b / 4096 ≢ t → has (b / 4096) (i ∷ ys) ≡ false → after.word b ≡ m.word b;
        }
    made_under below run =
        let (n, got, rest, wrote, same) = makes m a i xs list (λ e. apart (sym in_t ∙ e)) in
        let r = run n rest in
        record {
          after = r.after;
          returns = rw (got, ◌>>=◌) r.returns;
          entered = r.frame a (λ e. apart (sym in_t ∙ e)) (rw in_t out) ∙ wrote;
          finds = r.finds;
          frame = λ b ne no_new.
              let (not_i, not_ys) = has-cons (b / 4096) i ys no_new in
              r.frame b not_i not_ys ∙ same b (λ e. ne (ap (λ (x : ℕ). x / 4096) e ∙ in_t)) not_i;
        }

  -- The free pages are all new to the tables that are there already: `t` is not among them.
  make_below2-Mapped :
      (m : Memory) (t i : ℕ) (xs : List ℕ)
      → IsFreeList m (i ∷ xs)
      → has t (i ∷ []) ≡ false
      → Mapped walk2 t (i ∷ []) m (make_below2 make flags v phy (t * 4096) m)
  unfolding make_below2
  make_below2-Mapped m t i xs list apart =
      let s = slot (t * 4096) (index2 v) in
      let r =
        made_under walk1 s t i xs [] m (slot_page t v (2 ^ 21)) (has-cons t i [] apart).0 refl list
          (map_leaf make flags v phy) (λ n _. leaf-Mapped n i) in
      record {
        after = r.after;
        returns = r.returns;
        finds =
            rw (r.entered, (entry_back i flags odd small).0, (entry_back i flags odd small).1)
              r.finds;
        frame = r.frame;
      }

  make_below3-Mapped :
      (m : Memory) (t j i : ℕ) (xs : List ℕ)
      → IsFreeList m (j ∷ i ∷ xs)
      → Distinct (t ∷ j ∷ i ∷ [])
      → Mapped walk3 t (j ∷ i ∷ []) m (make_below3 make flags v phy (t * 4096) m)
  unfolding make_below3
  make_below3-Mapped m t j i xs list d =
      let s = slot (t * 4096) (index3 v) in
      let apart = has-cons t j (i ∷ []) d.0 in
      let r =
        made_under walk2 s t j (i ∷ xs) (i ∷ []) m (slot_page t v (2 ^ 30)) apart.0 apart.1 list
          (make_below2 make flags v phy) (λ n l. make_below2-Mapped n j i xs l d.1.0) in
      record {
        after = r.after;
        returns = r.returns;
        finds =
            rw (r.entered, (entry_back j flags odd small).0, (entry_back j flags odd small).1)
              r.finds;
        frame = r.frame;
      }

  make_below4-Mapped :
      (m : Memory) (t k j i : ℕ) (xs : List ℕ)
      → IsFreeList m (k ∷ j ∷ i ∷ xs)
      → Distinct (t ∷ k ∷ j ∷ i ∷ [])
      → Mapped walk4 t (k ∷ j ∷ i ∷ []) m (make_below4 make flags v phy (t * 4096) m)
  unfolding make_below4
  make_below4-Mapped m t k j i xs list d =
      let s = slot (t * 4096) (index4 v) in
      let apart = has-cons t k (j ∷ i ∷ []) d.0 in
      let r =
        made_under walk3 s t k (j ∷ i ∷ xs) (j ∷ i ∷ []) m (slot_page t v (2 ^ 39)) apart.0 apart.1
          list (make_below3 make flags v phy) (λ n l. make_below3-Mapped n k j i xs l d.1) in
      record {
        after = r.after;
        returns = r.returns;
        finds =
            rw (r.entered, (entry_back k flags odd small).0, (entry_back k flags odd small).1)
              r.finds;
        frame = r.frame;
      }

  -- An entry that is there already: the level below works on the table it names.
  passed :
      (walk up : (ℕ → ℕ) → ℕ → ℕ → Option ℕ) (m : Memory) (s t : ℕ) (ys : List ℕ)
      (r : Option (Unit {0} × Memory))
      → ((w : ℕ → ℕ) → present (w s) ≡ true → up w (t * 4096) v ≡ walk w (page_of (w s)) v)
      → s / 4096 ≡ t
      → present (m.word s) ≡ true
      → has t (m.word s / 4096 ∷ ys) ≡ false
      → Mapped walk (m.word s / 4096) ys m r
      → Mapped up t (m.word s / 4096 ∷ ys) m r
  passed walk up m s t ys r step in_t there apart below =
      let (ne, out) = has-cons t (m.word s / 4096) ys apart in
      let kept : below.after.word s ≡ m.word s =
        below.frame s (λ e. ne (sym in_t ∙ e)) (rw in_t out) in
      record {
        after = below.after;
        returns = below.returns;
        finds = step below.after.word (rw kept there) ∙ rw kept below.finds;
        frame = λ b _ no_new.
            let (a, c) = has-cons (b / 4096) (m.word s / 4096) ys no_new in below.frame b a c;
      }

  level2-Mapped :
      (m : Memory) (t i : ℕ) (xs : List ℕ)
      → IsFreeList m (i ∷ xs)
      → Distinct (t ∷ used2 m.word t v i)
      → Mapped walk2 t (used2 m.word t v i) m (map_level2 make flags v phy (t * 4096) m)
  unfolding map_level2
  level2-Mapped m t i xs list d =
      elim (Bool-cases (present (m.word (slot (t * 4096) (index2 v))))) [
        | inl there ↦ rw there (
            passed walk1 walk2 m (slot (t * 4096) (index2 v)) t [] _ (λ w h. rw h)
              (slot_page t v (2 ^ 21)) there (rw there at d).0
              (leaf-Mapped m (m.word (slot (t * 4096) (index2 v)) / 4096)))
        | inr absent ↦ rw absent (make_below2-Mapped m t i xs list (rw absent at d).0)
      ]

  level3-Mapped :
      (m : Memory) (t i j : ℕ) (xs : List ℕ)
      → IsFreeList m (i ∷ j ∷ xs)
      → Distinct (t ∷ used3 m.word t v i j)
      → Mapped walk3 t (used3 m.word t v i j) m (map_level3 make flags v phy (t * 4096) m)
  unfolding map_level3
  level3-Mapped m t i j xs list d =
      elim (Bool-cases (present (m.word (slot (t * 4096) (index3 v))))) [
        | inl there ↦ rw there (
            passed walk2 walk3 m (slot (t * 4096) (index3 v)) t _ _ (λ w h. rw h)
              (slot_page t v (2 ^ 30)) there (rw there at d).0
              (level2-Mapped m (m.word (slot (t * 4096) (index3 v)) / 4096) i (j ∷ xs) list
                (rw there at d).1))
        | inr absent ↦ rw absent (make_below3-Mapped m t i j xs list (rw absent at d))
      ]

  -- With three free pages, and all tables on the way different, the page is entered, and `v` leads
  -- to it; the tables that are no part of the way keep every word.
  pub level4-Mapped :
      (m : Memory) (t i j k : ℕ) (xs : List ℕ)
      → IsFreeList m (i ∷ j ∷ k ∷ xs)
      → Distinct (t ∷ used4 m.word t v i j k)
      → Mapped walk4 t (used4 m.word t v i j k) m (map_level4 make flags v phy (t * 4096) m)
  unfolding map_level4
  level4-Mapped m t i j k xs list d =
      elim (Bool-cases (present (m.word (slot (t * 4096) (index4 v))))) [
        | inl there ↦ rw there (
            passed walk3 walk4 m (slot (t * 4096) (index4 v)) t _ _ (λ w h. rw h)
              (slot_page t v (2 ^ 39)) there (rw there at d).0
              (level3-Mapped m (m.word (slot (t * 4096) (index4 v)) / 4096) i j (k ∷ xs) list
                (rw there at d).1))
        | inr absent ↦ rw absent (make_below4-Mapped m t i j k xs list (rw absent at d))
      ]
