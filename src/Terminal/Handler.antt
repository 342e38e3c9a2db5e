-- ===== src/Terminal/Handler.antt =====
-- sys/keyboard.c: `kb`, a handler of the keyboard that shows the key in a corner of the screen.
use osproject.Prelude.{
  ℕ, ◌≡◌, refl, ◌||◌, Option, none, some, List, [], ◌∷◌, ltb, ◌==◌, if◌then◌else◌, get_elem?,
}
use osproject.Terminal.{code_map}

-- `code_map` of this file.
abbrev pub kb_map : List (ℕ × ℕ)
kb_map =
    (0, 0)
    ∷ (0, 0)
    ∷ (b'1', b'!')
    ∷ (b'2', b'@')
    ∷ (b'3', b'#')
    ∷ (b'4', b'$')
    ∷ (b'5', b'%')
    ∷ (b'6', b'^')
    ∷ (b'7', b'&')
    ∷ (b'8', b'*')
    ∷ (b'9', b'(')
    ∷ (b'0', b')')
    ∷ (b'-', b'_')
    ∷ (b'=', b'+')
    ∷ (8, 8)
    ∷ (9, 9)
    ∷ (b'q', b'Q')
    ∷ (b'w', b'W')
    ∷ (b'e', b'E')
    ∷ (b'r', b'R')
    ∷ (b't', b'T')
    ∷ (b'y', b'Y')
    ∷ (b'u', b'U')
    ∷ (b'i', b'I')
    ∷ (b'o', b'O')
    ∷ (b'p', b'P')
    ∷ (b'[', b'{')
    ∷ (b']', b'}')
    ∷ (b'^', b'M')
    ∷ (b' ', b'^')
    ∷ (b'a', b'A')
    ∷ (b's', b'S')
    ∷ (b'd', b'D')
    ∷ (b'f', b'F')
    ∷ (b'g', b'G')
    ∷ (b'h', b'H')
    ∷ (b'j', b'J')
    ∷ (b'k', b'K')
    ∷ (b'l', b'L')
    ∷ (b';', b':')
    ∷ (39, 34)
    ∷ (96, b'~')
    ∷ (0, 0)
    ∷ (92, b'|')
    ∷ (b'z', b'Z')
    ∷ (b'x', b'X')
    ∷ (b'c', b'C')
    ∷ (b'v', b'V')
    ∷ (b'b', b'B')
    ∷ (b'n', b'N')
    ∷ (b'm', b'M')
    ∷ (b',', b'<')
    ∷ (b'.', b'>')
    ∷ (b'/', b'?')
    ∷ (0, 0)
    ∷ (0, 0)
    ∷ (0, 0)
    ∷ (b' ', b' ')
    ∷ []

-- The variables, and the two characters on the screen.
pub record Keyboard : Type 0 where
  pub caps : ℕ
  pub ctrl : ℕ
  pub reg : ℕ
  pub preg : ℕ

-- `code_map[29]`.
abbrev pub control_key : ℕ × ℕ
control_key = (b' ', b'^')

-- A key that is no control, shift or enter key.
unfoldable pub show_key : ℕ × ℕ → ℕ × ℕ → Keyboard → Keyboard
show_key key control k =
    let shift = if k.ctrl == 1 then 1 else k.caps in
    record {
      caps = 0;
      ctrl = if k.ctrl == 1 then 0 else k.ctrl;
      reg = if shift == 0 then key.0 else key.1;
      preg = if k.ctrl == 1 then k.preg else control.0;
    }

-- `kb` for a code; one that lies past the table is read out of range.
unfoldable pub press_key : ℕ → Keyboard → Option Keyboard
press_key c k =
    if (c == 0) || ltb 128 c
    then some k
    else if (c == 42) || (c == 54)
    then some (record k { caps = 1 })
    else elim (get_elem? kb_map c) [
      | none ↦ none
      | some key ↦
          if c == 28
          then some (record k { preg = key.0; reg = key.1 })
          else if c == 29
          then some (record k { ctrl = 1; preg = key.1 })
          else some (show_key key control_key k)
    ]

-- `kb`, over the two bytes that the keyboard's port gives.
unfoldable pub kb : ℕ → ℕ → Keyboard → Option Keyboard
kb first second k = press_key (if first == 0 then 0 else second) k

-- Both handlers of the keyboard have the same table.
pub kb_map-code_map : kb_map ≡ code_map
kb_map-code_map = refl
