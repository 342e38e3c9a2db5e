-- ===== src/Tarfs/Lookup.antt =====
-- `get_file_address` of sys/tarfs.c, and how its callers tell a missing file.
use osproject.Prelude.{
  ℕ, zero, suc, ◌+◌, ◌-◌, ◌^◌, ◌≤◌, ◌<◌, ◌≡◌, ◌≢◌, refl, ap, ◌∙◌, true, List, [], ◌∷◌, Option, none,
  some, arith,
}
use osproject.Prelude.Int.{ℤ, pos, negsuc}
use osproject.Text.{Bytes, strcmp, no_nul, holds, AreBytes}
use osproject.Text.Laws.{strcmp-holds, strcmp-some}
use osproject.Tarfs.{Header, get_file_address, data_address}

-- A header whose name is the text `s`, terminated within the field.
abbrev pub Named : Header → Bytes → Type 0
Named h s = (rest : Bytes) × (h.name ≡ holds s rest) × (no_nul s ≡ true) × AreBytes s

-- Headers with their names, each at an address to which the 512 bytes of the header can be added.
pub data Index : List Header → List (Bytes × ℕ) → Type 0 where
  nil : Index [] []
  cons :
      {h : Header} {s : Bytes} {hs : List Header} {xs : List (Bytes × ℕ)}
      → Named h s
      → h.address < 2 ^ 64 - 512
      → Index hs xs
      → Index (h ∷ hs) ((s, h.address) ∷ xs)

-- The address that goes with the first entry named `s`.
pub data Finds (s : Bytes) : List (Bytes × ℕ) → Option ℕ → Type 0 where
  missing : Finds s [] none
  here : {t : Bytes} {a : ℕ} {xs : List (Bytes × ℕ)} → s ≡ t → Finds s ((t, a) ∷ xs) (some a)
  later :
      {t : Bytes} {a : ℕ} {xs : List (Bytes × ℕ)} {r : Option ℕ}
      → s ≢ t
      → Finds s xs r
      → Finds s ((t, a) ∷ xs) r

-- What the caller sees: the file's data behind its header, or an address below 512.
abbrev pub Seen : Option ℕ → ℕ → Type 0
Seen none d = d < 512
Seen (some a) d = (d ≡ a + 512) × (512 ≤ d)

-- For a terminated name and headers with terminated names, each at an address below 2^64 - 512,
-- `get_file_address` finds the first header of that name. What callers see 512 bytes further on lies below
-- 512 exactly for a missing file.
pub get_file_address-Finds :
    (s rest : Bytes) (hs : List Header) (xs : List (Bytes × ℕ))
    → no_nul s ≡ true
    → AreBytes s
    → Index hs xs
    → (r : Option ℕ) × (a : ℕ) × Finds s xs r
      × (get_file_address (holds s rest) hs ≡ some a)
      × Seen r (data_address a)
unfolding get_file_address data_address
get_file_address-Finds s rest [] [] ok bytes nil = (none, 2 ^ 64 - 1, missing, refl, omega arith)
get_file_address-Finds s rest [] (x ∷ xs) ok bytes odd = elim odd [ ]
get_file_address-Finds s rest (h ∷ hs) [] ok bytes odd = elim odd [ ]
get_file_address-Finds s rest (h ∷ hs) (x ∷ xs) ok bytes
      (cons {s = t} (rest', e, ok', bytes') low ix) =
    let (z, ez) = strcmp-some s t rest rest' ok ok' in
    let at_h : strcmp (holds s rest) h.name ≡ some z = ap (strcmp (holds s rest)) e ∙ ez in
    let (r, a, found, got, seen) = get_file_address-Finds s rest hs xs ok bytes ix in
    step z at_h ez r a found got seen
  where
    step :
        (z : ℤ)
        → strcmp (holds s rest) h.name ≡ some z
        → strcmp (holds s rest) (holds t rest') ≡ some z
        → (r : Option ℕ) (a : ℕ) → Finds s xs r
        → get_file_address (holds s rest) hs ≡ some a
        → Seen r (data_address a)
        → (r : Option ℕ) × (a : ℕ) × Finds s ((t, h.address) ∷ xs) r
          × (get_file_address (holds s rest) (h ∷ hs) ≡ some a)
          × Seen r (data_address a)
    step (pos zero) at_h ez r a found got seen = (
      some h.address,
      h.address,
      here ((strcmp-holds s t rest rest' ok ok' bytes bytes').0 ez),
      rw (at_h, get_file_address) refl,
      (omega arith, omega arith),
    )
    step (pos (suc n)) at_h ez r a found got seen = (
      r,
      a,
      later (λ e. cc (ez, (strcmp-holds s t rest rest' ok ok' bytes bytes').1 e)) found,
      rw (at_h, get_file_address) got,
      seen,
    )
    step (negsuc n) at_h ez r a found got seen = (
      r,
      a,
      later (λ e. cc (ez, (strcmp-holds s t rest rest' ok ok' bytes bytes').1 e)) found,
      rw (at_h, get_file_address) got,
      seen,
    )
