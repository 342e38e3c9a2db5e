-- ===== src/Screen/Erase.antt =====
-- `backspace` of sys/kprintf.c after a character.
use osproject.Prelude.{ℕ, ◌+◌, ◌-◌, ◌≡◌, refl, false, ◌==◌, arith}
use osproject.Prelude.Loops.{update}
use osproject.Screen.{Screen, advance, put_to_screen, backspace}

-- A character that is no line feed or carriage return, away from the last column.
put_plain :
    (a : ℕ) (s : Screen)
    → (a == b'\n') ≡ false
    → (a == b'\r') ≡ false
    → (s.h_offset == 79) ≡ false
    → put_to_screen a s
      ≡ record s { byte = update s.byte s.p_reg a; p_reg = s.p_reg + 2; h_offset = s.h_offset + 1 }
unfolding put_to_screen advance
put_plain a s line return inside = rw (line, return, inside) refl

-- Away from the last column, `backspace` behind a character that is no line feed or carriage return puts
-- the cursor back where it was before the character, and leaves a space there.
pub backspace-put_to_screen :
    (a : ℕ) (s : Screen)
    → (a == b'\n') ≡ false
    → (a == b'\r') ≡ false
    → (s.h_offset == 79) ≡ false
    → backspace (put_to_screen a s)
      ≡ record s { byte = update (update s.byte s.p_reg a) s.p_reg b' ' }
unfolding backspace
backspace-put_to_screen a s line return inside =
    let typed : Screen = record s {
      byte = update s.byte s.p_reg a;
      p_reg = s.p_reg + 2;
      h_offset = s.h_offset + 1;
    } in
    let moved : (s.h_offset + 1 == 0) ≡ false = ground arith in
    let column : s.h_offset + 1 - 1 ≡ s.h_offset = omega arith in
    let place : s.p_reg + 2 - 2 ≡ s.p_reg = omega arith in
    let back : Screen = record s { byte = update s.byte s.p_reg a } in
    rw
      (
        put_plain a s line return inside,
        moved,
        column,
        place,
        put_plain b' ' back refl refl inside,
        column,
        place,
      )
      refl
