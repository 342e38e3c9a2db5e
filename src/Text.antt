-- ===== src/Text.antt =====
-- sys/string.c and libc/string.c: the C string routines, over the bytes of an object from the pointer
-- to its end. `none` is an access outside the object.
pub mod Laws
use mathlib.Core.Option
use osproject.Prelude.{
  ℕ, suc, ◌+◌, ◌<◌, Bool, true, ◌&&◌, not, List, [], ◌∷◌, ◌++◌, Option, none, some, ◌==◌,
  if◌then◌else◌,
}
use osproject.Prelude.Int.{ℤ, pos, pos_part, neg_part, sub_ℕ, signed8}

abbrev pub Bytes : Type 0
Bytes = List ℕ

-- `*s - *t` on plain chars.
abbrev pub char_diff : ℕ → ℕ → ℤ
char_diff c d =
    sub_ℕ (pos_part (signed8 c) + neg_part (signed8 d))
      (neg_part (signed8 c) + pos_part (signed8 d))

unfoldable pub strcmp : Bytes → Bytes → Option ℤ
strcmp [] t = none
strcmp (c ∷ s) [] = none
strcmp (c ∷ s) (d ∷ t) =
    let rest = strcmp s t in
    if c == d then (if c == 0 then some (pos 0) else rest) else some (char_diff c d)

-- The object of `string2` after the copy.
unfoldable pub strcpy : Bytes → Bytes → Option Bytes
strcpy dst [] = none
strcpy [] (c ∷ s) = none
strcpy (d ∷ dst) (c ∷ s) =
    let rest = Option.map (λ r. c ∷ r) (strcpy dst s) in if c == 0 then some (c ∷ dst) else rest

unfoldable pub strlen : Bytes → Option ℕ
strlen [] = none
strlen (c ∷ s) = let rest = Option.map suc (strlen s) in if c == 0 then some 0 else rest

-- The object of `string1` after the text at `string2` is put behind its own.
unfoldable pub strcat : Bytes → Bytes → Option Bytes
unfolding strcpy
strcat [] t = none
strcat (c ∷ s) t =
    let rest = Option.map (λ r. c ∷ r) (strcat s t) in if c == 0 then strcpy (c ∷ s) t else rest

-- No byte of a text is NUL.
unfoldable pub no_nul : Bytes → Bool
no_nul [] = true
no_nul (c ∷ s) = not (c == 0) && no_nul s

-- The text with its terminator, in an object that has `rest` behind it.
abbrev pub holds : Bytes → Bytes → Bytes
holds s rest = s ++ 0 ∷ rest

abbrev pub AreBytes : Bytes → Type 0
AreBytes [] = Unit {0}
AreBytes (c ∷ s) = (c < 256) × AreBytes s
