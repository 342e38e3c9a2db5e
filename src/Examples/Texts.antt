-- ===== src/Examples/Texts.antt =====
-- The string routines on short texts.
use osproject.Prelude.{[], ◌∷◌}
use osproject.Text.{Bytes}

abbrev pub bin : Bytes
bin = b'b' ∷ b'i' ∷ b'n' ∷ []

abbrev pub ls : Bytes
ls = b'l' ∷ b's' ∷ []

abbrev room : Bytes
room = 7 ∷ 7 ∷ 7 ∷ 7 ∷ 7 ∷ []
