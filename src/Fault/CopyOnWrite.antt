-- ===== src/Fault/CopyOnWrite.antt =====
-- Pages that `copytables` of sys/paging.c shares and `isr14` of sys/idt.c separates again.
use osproject.Prelude.{
  ℕ, ◌+◌, ◌/◌, ◌≤◌, ◌≡◌, ◌≢◌, refl, ap, ◌∙◌, sym, true, false, none, some, arith, ◌==◌, ==_iff,
  Bool-cases, inl, inr,
}
use osproject.Prelude.State.{◌>>=◌, ◌>>◌}
use osproject.Prelude.Loops.{update, update_self, update_other}
use osproject.Paging.Frames.{Memory, getrefcount, increfcount}
use osproject.Paging.Tables.{page_of, present, slot, index1, load}
use osproject.Paging.Space.{bit_of, set_bit, clear_bit, shared_entry, copy_entry}
use osproject.Fault.{copy_on_write}

-- A shared entry is still present and names the same page, and it is not writable.
pub shared_entry_lem :
    (e : ℕ)
    → (present (shared_entry e) ≡ present e)
      × (page_of (shared_entry e) ≡ page_of e)
      × (bit_of (shared_entry e) 1 ≡ false)
      × (bit_of (shared_entry e) 9 ≡ true)
shared_entry_lem e = ground arith

-- When the last reader writes, the entry is what it was before the page was shared, if it was writable
-- and not marked.
pub unshared_entry :
    (e : ℕ) → bit_of e 1 ≡ true → bit_of e 9 ≡ false → clear_bit (set_bit (shared_entry e) 1) 9 ≡ e
unshared_entry e w c = ground arith

-- Memory after the page of entry `l` has been shared.
abbrev shared : ℕ → ℕ → ℕ → Memory → Memory
shared p1 c1 l m =
    let e = m.word (slot p1 l) in
    record (increfcount (page_of e) m) {
      word = update (update m.word (slot p1 l) (shared_entry e)) (slot c1 l) (shared_entry e);
    }

copy_entry-present :
    (p1 c1 l : ℕ) (m : Memory)
    → present (m.word (slot p1 l)) ≡ true
    → copy_entry p1 c1 l m ≡ some (tt, shared p1 c1 l m)
unfolding copy_entry increfcount
copy_entry-present p1 c1 l m here = rw (here, copy_entry)

copy_entry_absent :
    (p1 c1 l : ℕ) (m : Memory)
    → present (m.word (slot p1 l)) ≡ false
    → copy_entry p1 c1 l m ≡ some (tt, m)
unfolding copy_entry
copy_entry_absent p1 c1 l m gone = rw (gone, copy_entry)

pub getrefcount-increfcount :
    (a : ℕ) (m : Memory) → getrefcount a (increfcount a m) ≡ getrefcount a m + 1
unfolding getrefcount increfcount
getrefcount-increfcount a m = rw ((==_iff (a / 4096) (a / 4096)).1 refl, getrefcount)

-- `copytables` at one entry: a present page gets one more reader, and parent and child have the same
-- entry, which may not be written through; an absent one changes nothing.
pub copy_entry_lem :
    (p1 c1 l : ℕ) (m : Memory)
    → slot p1 l ≢ slot c1 l
    → (m' : Memory) × (copy_entry p1 c1 l m ≡ some (tt, m'))
      × ((present (m.word (slot p1 l)) ≡ false) → m' ≡ m)
      × ((present (m.word (slot p1 l)) ≡ true)
          → (m'.word (slot p1 l) ≡ shared_entry (m.word (slot p1 l)))
            × (m'.word (slot c1 l) ≡ shared_entry (m.word (slot p1 l)))
            × (getrefcount (page_of (m.word (slot p1 l))) m'
                ≡ getrefcount (page_of (m.word (slot p1 l))) m + 1))
unfolding getrefcount increfcount
copy_entry_lem p1 c1 l m apart = elim (Bool-cases (present (m.word (slot p1 l)))) [
  | inl here ↦
      let e = m.word (slot p1 l) in
      (
        shared p1 c1 l m,
        copy_entry-present p1 c1 l m here,
        λ gone. absurd (cc),
        λ _. (
          update_other (update m.word (slot p1 l) (shared_entry e)) (slot c1 l) (shared_entry e)
                (slot p1 l) (λ x. apart (sym x))
              ∙ update_self m.word (slot p1 l) (shared_entry e),
          update_self (update m.word (slot p1 l) (shared_entry e)) (slot c1 l) (shared_entry e),
          getrefcount-increfcount (page_of e) m,
        ),
      )
  | inr gone ↦ (m, copy_entry_absent p1 c1 l m gone, λ _. refl, λ here. absurd (cc))
]

spins :
    (bb pml4e t : ℕ) (m : Memory)
    → 3 ≤ getrefcount (page_of (m.word (slot t (index1 bb)))) m
    → copy_on_write bb pml4e t m ≡ none
unfolding copy_on_write load
spins bb pml4e t m many =
    let n = getrefcount (page_of (m.word (slot t (index1 bb)))) m in
    let two : (n == 2) ≡ false = ground arith in
    let one : (n == 1) ≡ false = ground arith in rw (two, one)

-- `copytables` at an entry of a present page: it returns, the page has one more reader, and parent and
-- child have the same entry, which names the page and may not be written through.
pub copy_entry-shared :
    (p1 c1 l : ℕ) (m : Memory)
    → slot p1 l ≢ slot c1 l
    → present (m.word (slot p1 l)) ≡ true
    → (m' : Memory) × (copy_entry p1 c1 l m ≡ some (tt, m'))
      × (m'.word (slot p1 l) ≡ m'.word (slot c1 l))
      × (page_of (m'.word (slot c1 l)) ≡ page_of (m.word (slot p1 l)))
      × (bit_of (m'.word (slot c1 l)) 1 ≡ false)
      × (bit_of (m'.word (slot c1 l)) 9 ≡ true)
      × (getrefcount (page_of (m.word (slot p1 l))) m'
          ≡ getrefcount (page_of (m.word (slot p1 l))) m + 1)
copy_entry-shared p1 c1 l m apart there =
    let (m', runs, _, shared) = copy_entry_lem p1 c1 l m apart in
    let (parent, child, count) = shared there in
    let (_, page, plain, marked) = shared_entry_lem (m.word (slot p1 l)) in
    (
      m',
      runs,
      parent ∙ sym child,
      ap page_of child ∙ page,
      ap (λ e. bit_of e 1) child ∙ plain,
      ap (λ e. bit_of e 9) child ∙ marked,
      count,
    )

-- A present page with one reader that `copytables` has shared twice, with tables whose entries differ from
-- the parent's, has no way out of the write fault: the next write through the parent's table never returns.
pub copy_on_write_two_forks :
    (p1 c1 c2 bb pml4e : ℕ) (m : Memory)
    → slot p1 (index1 bb) ≢ slot c1 (index1 bb)
    → slot p1 (index1 bb) ≢ slot c2 (index1 bb)
    → present (m.word (slot p1 (index1 bb))) ≡ true
    → getrefcount (page_of (m.word (slot p1 (index1 bb)))) m ≡ 1
    → (m' : Memory) × ((copy_entry p1 c1 (index1 bb) >> copy_entry p1 c2 (index1 bb)) m
        ≡ some (tt, m'))
      × (copy_on_write bb pml4e p1 m' ≡ none)
copy_on_write_two_forks p1 c1 c2 bb pml4e m apart1 apart2 here one =
    let l = index1 bb in
    let e = m.word (slot p1 l) in
    let (a, ea, _, first) = copy_entry_lem p1 c1 l m apart1 in
    let (pa, _, na) = first here in
    let keep = shared_entry_lem e in
    let here' : present (a.word (slot p1 l)) ≡ true = ap present pa ∙ keep.0 ∙ here in
    let page' : page_of (a.word (slot p1 l)) ≡ page_of e = ap page_of pa ∙ keep.1 in
    let (b, eb, _, second) = copy_entry_lem p1 c2 l a apart2 in
    let (pb, _, nb) = second here' in
    let page'' : page_of (b.word (slot p1 l)) ≡ page_of (a.word (slot p1 l)) =
      ap page_of pb ∙ (shared_entry_lem (a.word (slot p1 l))).1 in
    let count : getrefcount (page_of (b.word (slot p1 l))) b ≡ 3 =
      ap (λ x. getrefcount x b) page''
      ∙ nb
      ∙ ap (λ x. getrefcount x a + 1) page'
      ∙ ap (λ (x : ℕ). x + 1) (na ∙ ap (λ (x : ℕ). x + 1) one) in
    (b, rw (ea, ◌>>=◌) eb, spins bb pml4e p1 b (omega arith))
