-- ===== src/Tarfs/Files/Find.antt =====
-- The search of `isfileexists` in sys/tarfs.c.
use osproject.Prelude.{
  ℕ, zero, suc, ◌+◌, ◌≡◌, ◌≢◌, refl, ap, ◌∙◌, true, List, [], ◌∷◌, Option, none, some,
}
use osproject.Prelude.Int.{ℤ, pos, negsuc}
use osproject.Text.{Bytes, strcmp, no_nul, holds, AreBytes}
use osproject.Text.Laws.{strcmp-holds, strcmp-some}
use osproject.Tarfs.{Header}
use osproject.Tarfs.Lookup.{Named}
use osproject.Tarfs.Files.{find_from}

-- The headers have these names.
pub data Names : List Header → List Bytes → Type 0 where
  nil : Names [] []
  cons :
      {h : Header} {s : Bytes} {hs : List Header} {xs : List Bytes}
      → Named h s
      → Names hs xs
      → Names (h ∷ hs) (s ∷ xs)

-- The index of the first of the next `n` names that is `t`, counted from `i`.
pub data FirstOf (t : Bytes) : ℕ → ℕ → List Bytes → Option ℕ → Type 0 where
  given_up : {i : ℕ} {xs : List Bytes} → FirstOf t zero i xs none
  missing : {n i : ℕ} → FirstOf t (suc n) i [] none
  here : {n i : ℕ} {s : Bytes} {xs : List Bytes} → s ≡ t → FirstOf t (suc n) i (s ∷ xs) (some i)
  later :
      {n i : ℕ} {s : Bytes} {xs : List Bytes} {r : Option ℕ}
      → s ≢ t
      → FirstOf t n (i + 1) xs r
      → FirstOf t (suc n) i (s ∷ xs) r

-- On headers with terminated names, the search of `isfileexists` returns, with the first of the next `n`
-- headers that has the name: `isfileexists` looks at the first 32, whatever their number.
pub find_from-FirstOf :
    (t rest : Bytes) (n i : ℕ) (hs : List Header) (xs : List Bytes)
    → no_nul t ≡ true
    → AreBytes t
    → Names hs xs
    → (r : Option ℕ) × (find_from n i hs (holds t rest) ≡ some r) × FirstOf t n i xs r
unfolding find_from
find_from-FirstOf t rest zero i hs xs ok bytes names = (none, refl, given_up)
find_from-FirstOf t rest (suc n) i [] [] ok bytes nil = (none, refl, missing)
find_from-FirstOf t rest (suc n) i [] (x ∷ xs) ok bytes odd = elim odd [ ]
find_from-FirstOf t rest (suc n) i (h ∷ hs) [] ok bytes odd = elim odd [ ]
find_from-FirstOf t rest (suc n) i (h ∷ hs) (x ∷ xs) ok bytes
      (cons {s = s} (rest', e, ok', bytes') names) =
    let (z, ez) = strcmp-some s t rest' rest ok' ok in
    let (r, got, first) = find_from-FirstOf t rest n (i + 1) hs xs ok bytes names in
    step z (ap (λ name. strcmp name (holds t rest)) e ∙ ez) ez r got first
  where
    same : (strcmp (holds s rest') (holds t rest) ≡ some (pos 0)) → s ≡ t
    same = (strcmp-holds s t rest' rest ok' ok bytes' bytes).0

    differ : (z : ℤ) → strcmp (holds s rest') (holds t rest) ≡ some z → z ≢ pos 0 → s ≢ t
    differ z ez ne eq = ne (cc (ez, (strcmp-holds s t rest' rest ok' ok bytes' bytes).1 eq))

    step :
        (z : ℤ)
        → strcmp h.name (holds t rest) ≡ some z
        → strcmp (holds s rest') (holds t rest) ≡ some z
        → (r : Option ℕ) → find_from n (i + 1) hs (holds t rest) ≡ some r
        → FirstOf t n (i + 1) xs r
        → (r : Option ℕ) × (find_from (suc n) i (h ∷ hs) (holds t rest) ≡ some r)
          × FirstOf t (suc n) i (s ∷ xs) r
    step (pos zero) at_h ez r got first = (some i, rw (at_h, find_from) refl, here (same ez))
    step (pos (suc m)) at_h ez r got first =
        (r, rw (at_h, find_from) got, later (differ (pos (suc m)) ez (λ q. cc)) first)
    step (negsuc m) at_h ez r got first =
        (r, rw (at_h, find_from) got, later (differ (negsuc m) ez (λ q. cc)) first)
