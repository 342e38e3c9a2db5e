-- ===== src/Screen/Cursor.antt =====
-- Where the cursor of sys/kprintf.c can be, and what is written.
use osproject.Prelude.{
  ℕ, ◌+◌, ◌*◌, ◌<◌, ◌≡◌, ◌≢◌, refl, ◌⊎◌, inl, inr, false, [], ◌∷◌, arith, ◌==◌, Bool-cases,
}
use osproject.Prelude.Loops.{update}
use osproject.Text.{Bytes}
use osproject.Screen.{vga, Screen, scroll, advance, put_to_screen, put_text}

-- The cursor's address is that of cell `(v_offset, h_offset)`, or, in the last row, of the cell above.
pub record IsPlaced (s : Screen) : Type 0 where
  pub row : s.v_offset < 24
  pub column : s.h_offset < 80
  pub place :
      (s.p_reg ≡ vga + 160 * s.v_offset + 2 * s.h_offset)
      ⊎ ((s.v_offset ≡ 23) × (s.p_reg ≡ vga + 160 * 22 + 2 * s.h_offset))

-- No character is a carriage return.
abbrev pub NoReturn : Bytes → Type 0
NoReturn [] = Unit {0}
NoReturn (c ∷ cs) = (c ≢ b'\r') × NoReturn cs

scroll_keeps :
    (s : Screen)
    → ((scroll s).v_offset ≡ s.v_offset)
      × ((scroll s).h_offset ≡ s.h_offset)
      × ((scroll s).p_reg ≡ vga + 160 * 23)
unfolding scroll
scroll_keeps s = (refl, refl, refl)

advance-IsPlaced :
    (s : Screen)
    → s.v_offset < 24
    → s.h_offset < 80
    → (s.p_reg ≡ vga + 160 * s.v_offset + 2 * s.h_offset + 2)
      ⊎ ((s.v_offset ≡ 23) × (s.p_reg ≡ vga + 160 * 22 + 2 * s.h_offset + 2))
    → IsPlaced (advance s)
unfolding advance
advance-IsPlaced s r c p = ground (arith, scroll_keeps s)

-- Every character but a carriage return keeps the cursor in place.
pub put_to_screen-IsPlaced :
    (a : ℕ) (s : Screen) → a ≢ b'\r' → IsPlaced s → IsPlaced (put_to_screen a s)
unfolding put_to_screen
put_to_screen-IsPlaced a s ne p = elim (Bool-cases (a == b'\n')) [
  | inl newline ↦
      let line = record s { p_reg = vga + 160 * (s.v_offset + 1) } in
      rw newline (elim (Bool-cases (s.v_offset == 23)) [
        | inl bottom ↦
            let (v, h, at) = scroll_keeps line in
            rw bottom
              (record { row = ground arith; column = omega arith; place = inl (ground arith) })
        | inr above ↦
            rw above
              (record { row = ground arith; column = omega arith; place = inl (omega arith) })
      ])
  | inr other ↦
      let glyph : (a == b'\r') ≡ false = ground arith in
      let s' = record s { byte = update s.byte s.p_reg a; p_reg = s.p_reg + 2 } in
      rw (other, glyph) (advance-IsPlaced s' p.row p.column (ground (arith, p.place)))
]

-- Printing a text without carriage returns keeps the cursor in place: in its row and column, with the
-- address of its cell, or in the last row that of the cell above.
pub put_text-IsPlaced :
    (cs : Bytes) (s : Screen) → NoReturn cs → IsPlaced s → IsPlaced (put_text cs s)
unfolding put_text
put_text-IsPlaced [] s h p = p
put_text-IsPlaced (c ∷ cs) s h p =
    put_text-IsPlaced cs (put_to_screen c s) h.1 (put_to_screen-IsPlaced c s h.0 p)
