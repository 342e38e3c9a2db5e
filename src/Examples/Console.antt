-- ===== src/Examples/Console.antt =====
-- The text screen and the numbers that are printed on it.
use osproject.Prelude.{ℕ, suc, ◌+◌, ◌*◌, ◌<◌, ◌≡◌, refl, List, [], ◌∷◌, arith, inl}
use osproject.Prelude.Int.{pos, negsuc}
use osproject.Screen.{vga, Screen, put_to_screen, put_text}
use osproject.Screen.Cursor.{IsPlaced, put_to_screen-IsPlaced, put_text-IsPlaced}
use osproject.Screen.Numbers.{int_text, int_loop}
use osproject.Screen.Numbers.Value.{IsNumeral, int_text-read_decimal}
use osproject.Screen.Format.{Piece, plain, number, stands_for}

-- The cursor stands at the start of the last row.
abbrev pub blank : Screen
blank = record { p_reg = vga + 160 * 23; h_offset = 0; v_offset = 23; byte = λ a. 0 }

blank-IsPlaced : IsPlaced blank
blank-IsPlaced = record { row = omega arith; column = omega arith; place = inl refl }

put_to_screen-IsPlaced_example : IsPlaced (put_to_screen b'\n' blank)
put_to_screen-IsPlaced_example = put_to_screen-IsPlaced b'\n' blank (omega arith) blank-IsPlaced

put_text-IsPlaced_example : IsPlaced (put_text (b'a' ∷ b'\n' ∷ []) blank)
put_text-IsPlaced_example =
    put_text-IsPlaced (b'a' ∷ b'\n' ∷ []) blank (omega arith, (omega arith, tt)) blank-IsPlaced

int_text-read_decimal_example :
    IsNumeral 1024 (int_text (pos 1024))
    × ((k : ℕ)
        → 1024 ≡ suc k
        → 1024 < 2147483648
        → int_text (negsuc k) ≡ b'-' ∷ int_text (pos 1024))
int_text-read_decimal_example = int_text-read_decimal 1024 (omega arith)

-- "n=%d", and the argument -5.
abbrev pieces : List Piece
pieces = plain b'n' ∷ plain b'=' ∷ number ∷ []

stands_for_example :
    stands_for (λ a. []) (λ k. 0xFFFFFFFB) 0 pieces ≡ b'n' ∷ b'=' ∷ b'-' ∷ b'5' ∷ []
unfolding stands_for int_text int_loop
stands_for_example = refl
