-- ===== src/Examples/Machine.antt =====
-- The descriptor tables, the handlers of exceptions, and the small programs.
use osproject.Prelude.{ℕ, ◌<◌, ◌≡◌, refl, none, some, [], ◌∷◌, arith}
use osproject.Prelude.Int.{pos, negsuc}
use osproject.Screen.Numbers.{libc_int_text}
use osproject.Devices.Gdt.{gdt, init_gdt}
use osproject.Devices.Gdt.Segments.{IsTask, entry, dpl_of, init_gdt-IsTask}
use osproject.Devices.Exceptions.{exception, low_exception, high_exception, report_exception}
use osproject.Programs.{
  SystemAnswers, kill_main, kill_call, sleep_main, sleep, echo_main, echo_args, str_to_int, to_int,
  puts, blanks, line_end, ls_main, ls_dir, list_entries, cat_main, close,
}
use osproject.Programs.Numbers.{programs-libc_int_text}
use osproject.Examples.Texts.{bin, ls}

init_gdt-IsTask_example :
    IsTask 0xFFFFFFFF80209000
      (entry (init_gdt 0xFFFFFFFF80209000 0).0 (init_gdt 0xFFFFFFFF80209000 0).1.tss_idx)
      ((init_gdt 0xFFFFFFFF80209000 0).0 7)
    × ((k : ℕ) → k < 6 → (init_gdt 0xFFFFFFFF80209000 0).0 k ≡ gdt k)
init_gdt-IsTask_example = init_gdt-IsTask 0xFFFFFFFF80209000 0 (omega arith)

-- The selector 0x2B of user code names a segment of privilege 3.
user_code_example : dpl_of (entry gdt 0x2B) ≡ 3
unfolding gdt
user_code_example = refl

exception_0_example : exception none 0 ≡ some report_exception
unfolding exception low_exception
exception_0_example = refl

exception_13_example : exception (some []) 13 ≡ none
unfolding exception low_exception
exception_13_example = refl

exception_31_example : exception none 31 ≡ some report_exception
unfolding exception high_exception
exception_31_example = refl

programs-libc_int_text_example :
    (kill_main (bin ∷ ls ∷ libc_int_text 1024 ∷ []) ≡ some (kill_call (pos 1024) ∷ []))
    × (sleep_main (bin ∷ libc_int_text 1024 ∷ []) ≡ some (sleep (pos 1024) ∷ []))
programs-libc_int_text_example = programs-libc_int_text 1024 bin ls (omega arith)

-- A minus sign is taken for a digit: "-1" is read as -29.
minus_example : str_to_int (b'-' ∷ b'1' ∷ []) ≡ negsuc 28
unfolding str_to_int to_int
minus_example = refl

-- kill without its arguments goes on behind its message.
kill_example : kill_main (bin ∷ []) ≡ none
unfolding kill_main
kill_example = refl

echo_example : echo_main (bin ∷ ls ∷ []) ≡ puts ls ∷ puts (blanks 3) ∷ puts line_end ∷ []
unfolding echo_main echo_args
echo_example = refl

abbrev os : SystemAnswers
os = record {
  open_file = λ path. pos 3;
  contents = λ fd. ls;
  entries = λ path. some (bin ∷ []);
  cwd = b'/' ∷ [];
}

cat_example : cat_main os (bin ∷ ls ∷ []) ≡ puts ls ∷ close (pos 3) ∷ []
unfolding cat_main
cat_example = refl

ls_example : ls_main os (bin ∷ []) ≡ some (puts bin ∷ puts (blanks 5) ∷ puts line_end ∷ [])
unfolding ls_main ls_dir list_entries
ls_example = refl
