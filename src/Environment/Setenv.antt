-- ===== src/Environment/Setenv.antt =====
-- `setenv` of libc/env.c.
use osproject.Prelude.{
  ℕ, zero, suc, ◌+◌, ◌<◌, ◌≡◌, ◌≢◌, refl, ap, ◌∙◌, true, false, List, [], ◌∷◌, ◌++◌, some, ◌==◌,
  length, drop, arith,
}
use mathlib.Core.Path.{subst}
use osproject.Prelude.Int.{ℤ, pos, negsuc}
use osproject.Text.{Bytes, strcmp, strcpy, no_nul, holds, AreBytes}
use osproject.Text.Laws.{strlen-holds, strcpy-holds, strcmp-holds, strcmp-some}
use osproject.Environment.{getvar_loop, getvar, copy_at, set_value_of, set_or_keep, setenv}

-- The row of a variable, whose value and what lies behind it is `v`.
abbrev pub row_of : Bytes × Bytes → Bytes
row_of (n, v) = n ++ b'=' ∷ v

abbrev pub rows_of : List (Bytes × Bytes) → List Bytes
rows_of [] = []
rows_of (x ∷ xs) = row_of x ∷ rows_of xs

abbrev pub NoEquals : Bytes → Type 0
NoEquals [] = Unit {0}
NoEquals (c ∷ n) = (c ≢ b'=') × NoEquals n

-- A name that `temp` has room for.
pub record IsName (n : Bytes) : Type 0 where
  pub no_equals : NoEquals n
  pub text : no_nul n ≡ true
  pub bytes : AreBytes n
  pub short : length n < 50

abbrev pub AreNames : List (Bytes × Bytes) → Type 0
AreNames [] = Unit {0}
AreNames (x ∷ xs) = IsName x.0 × AreNames xs

getvar_loop-row :
    (room : ℕ) (n v : Bytes)
    → NoEquals n
    → length n < room
    → getvar_loop room (n ++ b'=' ∷ v) ≡ some n
unfolding getvar_loop
getvar_loop-row zero n v ok lt = absurd (omega arith)
getvar_loop-row (suc room) [] v ok lt = refl
getvar_loop-row (suc room) (c ∷ n) v ok lt =
    let other : (c == b'=') ≡ false = ground (arith, ok.0) in
    rw other (rw (getvar_loop-row room n v ok.1 (omega arith)) refl)

getvar-row : (n v : Bytes) → IsName n → getvar (n ++ b'=' ∷ v) ≡ some (holds n [])
unfolding getvar
getvar-row n v h = rw (getvar_loop-row 50 n v h.no_equals h.short) refl

copy_at-row :
    (n v value new : Bytes)
    → strcpy v value ≡ some new
    → copy_at (suc (length n)) (n ++ b'=' ∷ v) value ≡ some (n ++ b'=' ∷ new)
unfolding copy_at
copy_at-row [] v value new e = rw e refl
copy_at-row (c ∷ n) v value new e = rw (copy_at-row n v value new e) refl

-- What `setenv` makes of the variables: the first one of that name gets the value and the result is 1, or the
-- result is 0.
pub data Sets (name value : Bytes) : List (Bytes × Bytes) → ℕ → List (Bytes × Bytes) → Type 0 where
  missing : Sets name value [] 0 []
  here :
      {v : Bytes} {xs : List (Bytes × Bytes)}
      → Sets name value ((name, v) ∷ xs) 1 ((name, holds value (drop (suc (length value)) v)) ∷ xs)
  later :
      {n v : Bytes} {xs ys : List (Bytes × Bytes)} {r : ℕ}
      → name ≢ n
      → Sets name value xs r ys
      → Sets name value ((n, v) ∷ xs) r ((n, v) ∷ ys)

-- Each value's place has room for the new one.
abbrev pub HasRoom : ℕ → List (Bytes × Bytes) → Type 0
HasRoom l [] = Unit {0}
HasRoom l (x ∷ xs) = (l < length x.1) × HasRoom l xs

set_value_of-row :
    (n v value rest : Bytes)
    → IsName n
    → no_nul value ≡ true
    → length value < length v
    → set_value_of (holds n []) (n ++ b'=' ∷ v) (holds value rest)
      ≡ some (n ++ b'=' ∷ holds value (drop (suc (length value)) v))
unfolding set_value_of
set_value_of-row n v value rest h ok room =
    rw (strlen-holds n [] h.text, set_value_of)
      (ap (λ k. copy_at k (n ++ b'=' ∷ v) (holds value rest)) next
        ∙ copy_at-row n v (holds value rest) (holds value (drop (suc (length value)) v))
            (strcpy-holds v value rest ok room))
  where
    next : length n + 1 ≡ suc (length n)
    next = omega arith

-- On variables whose names are texts of fewer than 50 bytes without `=` and whose values have room for the
-- new one, `setenv` gives the first variable of that name the value and returns 1, or returns 0 if there is
-- none; all else stays.
pub setenv-Sets :
    (name value rest rest' : Bytes) (xs : List (Bytes × Bytes))
    → IsName name
    → no_nul value ≡ true
    → AreNames xs
    → HasRoom (length value) xs
    → (r : ℕ) × (ys : List (Bytes × Bytes)) × (setenv
          (holds name rest)
          (holds value rest')
          (rows_of xs)
        ≡ some (r, rows_of ys))
      × Sets name value xs r ys
unfolding setenv
setenv-Sets name value rest rest' [] h ok names room = (0, [], refl, missing)
setenv-Sets name value rest rest' ((n, v) ∷ xs) h ok names room =
    let (z, ez) = strcmp-some name n rest [] h.text names.0.text in
    let (r, ys, done, sets) = setenv-Sets name value rest rest' xs h ok names.1 room.1 in
    step z ez r ys done sets
  where
    step :
        (z : ℤ)
        → strcmp (holds name rest) (holds n []) ≡ some z
        → (r : ℕ) (ys : List (Bytes × Bytes))
        → setenv (holds name rest) (holds value rest') (rows_of xs) ≡ some (r, rows_of ys)
        → Sets name value xs r ys
        → (r : ℕ) × (ys : List (Bytes × Bytes)) × (setenv
              (holds name rest)
              (holds value rest')
              (rows_of ((n, v) ∷ xs))
            ≡ some (r, rows_of ys))
          × Sets name value ((n, v) ∷ xs) r ys
    step (pos zero) ez r ys done sets = (
      1,
      (n, holds value (drop (suc (length value)) v)) ∷ xs,
      rw (getvar-row n v names.0, setenv)
          (rw (ez, set_or_keep) (rw (set_value_of-row n v value rest' names.0 ok room.0) refl)),
      subst
          (λ x.
            Sets name value ((x, v) ∷ xs) 1 ((x, holds value (drop (suc (length value)) v)) ∷ xs))
          same here,
    )
      where
        same : name ≡ n
        same = (strcmp-holds name n rest [] h.text names.0.text h.bytes names.0.bytes).0 ez
    step (pos (suc m)) ez r ys done sets = (
      r,
      (n, v) ∷ ys,
      rw (getvar-row n v names.0, setenv) (rw (ez, done) refl),
      later
          (λ e.
            cc (ez, (strcmp-holds name n rest [] h.text names.0.text h.bytes names.0.bytes).1 e))
          sets,
    )
    step (negsuc m) ez r ys done sets = (
      r,
      (n, v) ∷ ys,
      rw (getvar-row n v names.0, setenv) (rw (ez, done) refl),
      later
          (λ e.
            cc (ez, (strcmp-holds name n rest [] h.text names.0.text h.bytes names.0.bytes).1 e))
          sets,
    )
