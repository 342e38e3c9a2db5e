-- ===== src/Examples/Keyboard.antt =====
-- A line typed at the keyboard, a key taken back, and a system call.
use osproject.Prelude.{◌≡◌, refl, [], ◌∷◌, some, arith, get_elem?}
use osproject.Terminal.Handler.{press_key, show_key, kb_map, control_key}
use osproject.Terminal.{Console, write_terminal, read_round, returns}
use osproject.Terminal.Line.{nil, cons, type_keys, line_typed-read}
use osproject.Prelude.Loops.{update}
use osproject.Screen.{backspace, put_to_screen}
use osproject.Screen.Erase.{backspace-put_to_screen}
use osproject.Examples.Texts.{ls}
use osproject.Examples.Console.{blank}
use osproject.Examples.Processes.{family}

abbrev quiet : Console
quiet = record {
  offset = 10;
  caps = 0;
  ctrl = 0;
  i = 10;
  no_lines = 0;
  buf = λ a. 0;
  screen = blank;
  kernel = family;
}

line_typed-read_example :
    (t : Console) × (s' : Console) × (u : Console) × (type_keys (38 ∷ 31 ∷ []) quiet ≡ some t)
    × (write_terminal 28 28 t ≡ some s')
    × (read_round s' ≡ returns ls u)
    × (u.offset ≡ u.i)
    × (u.no_lines ≡ 0)
line_typed-read_example =
    line_typed-read (38 ∷ 31 ∷ []) ls quiet
      (cons refl refl (omega arith) (cons refl refl (omega arith) nil)) refl refl refl refl
      (omega arith)

backspace-put_to_screen_example :
    backspace (put_to_screen b'a' blank)
    ≡ record blank { byte = update (update blank.byte blank.p_reg b'a') blank.p_reg b' ' }
backspace-put_to_screen_example = backspace-put_to_screen b'a' blank refl refl refl

-- The control key, then "a": the key shows as with the shift key.
control_key_example :
    press_key 30 (record { caps = 0; ctrl = 1; reg = 0; preg = b'^' })
    ≡ some (record { caps = 0; ctrl = 0; reg = b'A'; preg = b'^' })
unfolding press_key show_key
control_key_example = refl

entry_29_example : get_elem? kb_map 29 ≡ some control_key
entry_29_example = refl
