-- ===== src/Heap/FirstFit.antt =====
-- `malloc` of libc/malloc.c takes the first block that is large enough.
use osproject.Prelude.{
  ℕ, zero, suc, ◌+◌, ◌-◌, ◌*◌, ◌<◌, ◌≤◌, ◌≡◌, sym, ◌≢◌, refl, ap, ◌∙◌, true, false, some, List, [],
  ◌∷◌, length, leb, ◌==◌, arith, ==_iff,
}
use native.Mathlib.Decide.{ℕ_discrete}
use osproject.Prelude.Loops.{update, update_self, update_other}
use osproject.Heap.{
  Heap, set_ptr, set_size, take_block, search_block, with_base, units_of, libc_malloc,
}

-- From `prevp` the pointers lead through the blocks `ps`, all too small and none of them `freep`, to `q`, and
-- `last` is the block in front of `q`.
abbrev pub TooSmall : Heap → ℕ → ℕ → List ℕ → ℕ → ℕ → Type 0
TooSmall h nunits prevp [] last q = (prevp ≡ last) × (h.ptr prevp ≡ q)
TooSmall h nunits prevp (p ∷ ps) last q =
    (h.ptr prevp ≡ p) × (h.size p < nunits) × (p ≢ h.freep) × TooSmall h nunits p ps last q

pub TooSmall-last :
    (h : Heap) (nunits prevp : ℕ) (ps : List ℕ) (last q : ℕ)
    → TooSmall h nunits prevp ps last q
    → h.ptr last ≡ q
TooSmall-last h nunits prevp [] last q small = ap h.ptr (sym small.0) ∙ small.1
TooSmall-last h nunits prevp (p ∷ ps) last q small = TooSmall-last h nunits p ps last q small.3

pub step_fits :
    (fuel nunits prevp p : ℕ) (h : Heap)
    → nunits ≤ h.size p
    → search_block (suc fuel) nunits prevp p h ≡ some (take_block nunits prevp p h)
unfolding search_block
step_fits fuel nunits prevp p h fits =
    let large : leb nunits (h.size p) ≡ true = ground arith in rw large refl

step_small :
    (fuel nunits prevp p : ℕ) (h : Heap)
    → h.size p < nunits
    → p ≢ h.freep
    → search_block (suc fuel) nunits prevp p h ≡ search_block fuel nunits p (h.ptr p) h
unfolding search_block
step_small fuel nunits prevp p h small other =
    let few : leb nunits (h.size p) ≡ false = ground arith in
    let apart : (p == h.freep) ≡ false = ground arith in rw (few, search_block) (rw apart refl)

search_block-first :
    (fuel nunits prevp : ℕ) (ps : List ℕ) (last q : ℕ) (h : Heap)
    → TooSmall h nunits prevp ps last q
    → nunits ≤ h.size q
    → length ps < fuel
    → search_block fuel nunits prevp (h.ptr prevp) h ≡ some (take_block nunits last q h)
search_block-first zero nunits prevp ps last q h small fits enough = absurd (omega arith)
search_block-first (suc fuel) nunits prevp [] last q h small fits enough =
    ap (λ x. search_block (suc fuel) nunits prevp x h) small.1
    ∙ step_fits fuel nunits prevp q h fits
    ∙ ap (λ x. some (take_block nunits x q h)) small.0
search_block-first (suc fuel) nunits prevp (p ∷ ps) last q h small fits enough =
    ap (λ x. search_block (suc fuel) nunits prevp x h) small.0
    ∙ step_small fuel nunits prevp p h small.1 small.2
    ∙ search_block-first fuel nunits p ps last q h small.3 fits (omega arith)

-- What a block of `nunits` units that `malloc` has taken from block `q` behind `last` means: the caller gets
-- the units behind its header, it is the end of `q`, and `q` keeps the rest, or leaves the list if nothing
-- would be left.
pub data Taken (nunits last q : ℕ) (h : Heap) : ℕ × Heap → Type 0 where
  whole :
      (h' : Heap)
      → h.size q ≡ nunits
      → h'.ptr last ≡ h.ptr q
      → h'.size ≡ h.size
      → h'.freep ≡ last
      → Taken nunits last q h (q + 16, h')
  part :
      (b : ℕ) (h' : Heap)
      → nunits < h.size q
      → b + 16 * nunits ≡ q + 16 * h.size q
      → h'.size b ≡ nunits
      → h'.size q + nunits ≡ h.size q
      → h'.ptr ≡ h.ptr
      → h'.freep ≡ last
      → Taken nunits last q h (b + 16, h')

pub take_block-Taken :
    (nunits last q : ℕ) (h : Heap)
    → nunits ≤ h.size q
    → Taken nunits last q h (take_block nunits last q h)
unfolding take_block set_ptr set_size
take_block-Taken nunits last q h fits = elim (ℕ_discrete (h.size q) nunits) [
  | yes same ↦
      let exact : (h.size q == nunits) ≡ true = (==_iff (h.size q) nunits).1 same in
      rw exact (whole _ same (update_self h.ptr last (h.ptr q)) refl refl)
  | no other ↦
      let larger : (h.size q == nunits) ≡ false = ground arith in
      let b = q + 16 * (h.size q - nunits) in
      let rest : (b : ℕ)
          → b ≢ q
          → update (update h.size q (h.size q - nunits)) b nunits q + nunits ≡ h.size q =
        λ b ne.
          ap (λ x. x + nunits)
            (update_other (update h.size q (h.size q - nunits)) b nunits q ne
              ∙ update_self h.size q (h.size q - nunits))
          ∙ omega arith in
      rw larger (
        part b _ (omega arith) (omega arith)
          (update_self (update h.size q (h.size q - nunits)) b nunits) (rest b (omega arith)) refl
          refl)
]

pub libc_malloc_first :
    (fuel nbytes : ℕ) (ps : List ℕ) (last q : ℕ) (h : Heap)
    → h.freep ≢ 0
    → TooSmall h (units_of nbytes) h.freep ps last q
    → units_of nbytes ≤ h.size q
    → length ps < fuel
    → libc_malloc fuel nbytes h ≡ some (take_block (units_of nbytes) last q h)
unfolding libc_malloc with_base
libc_malloc_first fuel nbytes ps last q h ready small fits enough =
    let made : (h.freep == 0) ≡ false = ground arith in
    rw made (search_block-first fuel (units_of nbytes) h.freep ps last q h small fits enough)

-- On a heap that is set up, when the blocks that follow `freep` are too small up to a block `q` that is large
-- enough, and none of them is `freep` again, `malloc` takes the units from `q`, after at most one round of its
-- loop for each of these blocks.
pub libc_malloc-Taken :
    (fuel nbytes : ℕ) (ps : List ℕ) (last q : ℕ) (h : Heap)
    → h.freep ≢ 0
    → TooSmall h (units_of nbytes) h.freep ps last q
    → units_of nbytes ≤ h.size q
    → length ps < fuel
    → (r : ℕ × Heap) × (libc_malloc fuel nbytes h ≡ some r) × Taken (units_of nbytes) last q h r
libc_malloc-Taken fuel nbytes ps last q h ready small fits enough = (
  take_block (units_of nbytes) last q h,
  libc_malloc_first fuel nbytes ps last q h ready small fits enough,
  take_block-Taken (units_of nbytes) last q h fits,
)
