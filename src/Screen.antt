-- ===== src/Screen.antt =====
-- sys/kprintf.c: the text screen, and the numbers that `kprintf` prints on it.
pub mod Cursor
pub mod Numbers
pub mod Format
pub mod Erase
use osproject.Prelude.{
  ℕ, zero, suc, ◌+◌, ◌-◌, ◌*◌, ◌/◌, ◌%◌, Bool, ◌&&◌, List, [], ◌∷◌, ltb, ◌==◌, if◌then◌else◌,
}
use osproject.Prelude.Int.{ℤ, pos, negsuc}
use osproject.Prelude.Loops.{update, for_range}
use osproject.Text.{Bytes}

-- Where the VGA text memory begins: 25 rows of 80 cells, two bytes each.
abbrev pub vga : ℕ
vga = 0xffffffff800b8000

-- The static variables of kprintf.c and the bytes of memory.
pub record Screen : Type 0 where
  pub p_reg : ℕ
  pub h_offset : ℕ
  pub v_offset : ℕ
  pub byte : ℕ → ℕ

-- `scroll`: rows 1 to 24 move up, row 23 is emptied, and the cursor goes to its start.
unfoldable pub scroll : Screen → Screen
scroll s =
    let moved =
      for_range 24 0
        (λ i m.
          for_range 80 0 (λ j n. update n (vga + i * 160 + 2 * j) (n (vga + (i + 1) * 160 + 2 * j)))
            m)
        s.byte in
    record s {
      byte = for_range 80 0 (λ j m. update m (vga + 160 * 23 + 2 * j) 0) moved;
      p_reg = vga + 160 * 23;
    }

-- The end of `put_to_screen`, after the character.
unfoldable pub advance : Screen → Screen
advance s =
    if s.h_offset == 79
    then (if s.v_offset == 23
        then record (scroll s) { p_reg = vga + 160 * 22; h_offset = 0 }
        else record s { v_offset = s.v_offset + 1; h_offset = 0 })
    else record s { h_offset = s.h_offset + 1 }

unfoldable pub put_to_screen : ℕ → Screen → Screen
put_to_screen a s =
    if a == b'\n'
    then (let line = record s { p_reg = vga + 160 * (s.v_offset + 1) } in
        if s.v_offset == 23
        then record (scroll line) { h_offset = 0 }
        else record line { v_offset = s.v_offset + 1; h_offset = 0 })
    else if a == b'\r'
    then advance (record s { p_reg = vga + 160 * s.v_offset; h_offset = 0 })
    else advance (record s { byte = update s.byte s.p_reg a; p_reg = s.p_reg + 2 })

unfoldable pub backspace : Screen → Screen
unfolding put_to_screen
backspace s =
    if s.h_offset == 0
    then s
    else (let t =
          put_to_screen b' ' (record s { h_offset = s.h_offset - 1; p_reg = s.p_reg - 2 }) in
        record t { h_offset = t.h_offset - 1; p_reg = t.p_reg - 2 })

-- `clrscr`: each of the 2000 cells gets a blank, and the byte before the cell the attribute 7.
unfoldable pub clrscr : Screen → Screen
clrscr s = record {
  p_reg = vga;
  h_offset = 0;
  v_offset = 0;
  byte = for_range 2000 0 (λ i m. update (update m (vga + 2 * i) b' ') (vga + 2 * i - 1) 7) s.byte;
}

-- A text, character by character.
unfoldable pub put_text : Bytes → Screen → Screen
put_text [] s = s
put_text (c ∷ cs) s = put_text cs (put_to_screen c s)
