-- ===== src/Examples/User.antt =====
-- A line of the shell, an environment and a heap, and the theorems of sbush.c, env.c and malloc.c on them.
use osproject.Prelude.{
  ℕ, ◌≡◌, refl, true, false, none, List, [], ◌∷◌, ◌++◌, some, if◌then◌else◌, ◌==◌, ◌+◌, inr, arith,
}
use osproject.Text.{Bytes, no_nul, holds}
use osproject.Shell.{Shell, run, parse_input}
use osproject.Shell.Words.{IsWord}
use osproject.Shell.Lines.{parse_input-run}
use osproject.Shell.Script.{run_script, script_lines, run_lines, rounds, round_of, exit_text}
use osproject.Shell.Script.Lines.{IsCommand, script_text, run_script-runs}
use osproject.Environment.{setenv}
use osproject.Environment.Setenv.{rows_of, IsName, Sets, setenv-Sets}
use osproject.Heap.{Heap, libc_malloc, libc_free}
use osproject.Heap.GiveBack.{SameBut, libc_malloc-libc_free}
use osproject.Heap.Fresh.{Inside, libc_malloc-Inside}
use osproject.Examples.Texts.{bin, ls}

-- The line "ls bin".
abbrev shell : Shell
shell = record { is_background = false; prompt = ls }

ls-IsWord : IsWord ls
ls-IsWord = record {
  plain = (omega arith, omega arith, omega arith, (omega arith, omega arith, omega arith, tt));
  some_letter = refl;
  no_ampersand = refl;
  short = omega arith;
}

bin-IsWord : IsWord bin
bin-IsWord = record {
  plain = (
    omega arith,
    omega arith,
    omega arith,
    (omega arith, omega arith, omega arith, (omega arith, omega arith, omega arith, tt)),
  );
  some_letter = refl;
  no_ampersand = refl;
  short = omega arith;
}

parse_input-run_example :
    parse_input ((ls ++ b' ' ∷ bin) ++ 0 ∷ []) shell ≡ some (run ls (ls ∷ bin ∷ []) true, shell)
parse_input-run_example =
    parse_input-run ls (bin ∷ []) [] shell ls-IsWord (bin-IsWord, tt)
      (
        (omega arith, omega arith, omega arith, (omega arith, omega arith, omega arith, tt)),
        (
          (
            omega arith,
            omega arith,
            omega arith,
            (omega arith, omega arith, omega arith, (omega arith, omega arith, omega arith, tt)),
          ),
          tt,
        ),
      )
      (record { no_cd = refl; no_export = refl; no_clear = refl; no_pwd = refl }) (omega arith)

-- The script "ls bin", with the unfinished line "ls" behind its newline.
ls-bin-IsCommand : IsCommand (ls, bin ∷ [])
ls-bin-IsCommand = record {
  first = ls-IsWord;
  others = (bin-IsWord, tt);
  no_pipes = (
    (omega arith, omega arith, omega arith, (omega arith, omega arith, omega arith, tt)),
    (
      (
        omega arith,
        omega arith,
        omega arith,
        (omega arith, omega arith, omega arith, (omega arith, omega arith, omega arith, tt)),
      ),
      tt,
    ),
  );
  foreign = record { no_cd = refl; no_export = refl; no_clear = refl; no_pwd = refl };
  short = omega arith;
}

run_script-runs_example :
    run_script (script_text ((ls, bin ∷ []) ∷ []) ls) shell
    ≡ some (run ls (ls ∷ bin ∷ []) true ∷ [], shell)
run_script-runs_example =
    run_script-runs ((ls, bin ∷ []) ∷ []) ls shell (omega arith) (ls-bin-IsCommand, tt)
      (omega arith, (omega arith, tt)) (omega arith)

-- An empty line at the prompt is passed over, "exit" ends the shell.
rounds_example : rounds ([] ∷ exit_text ∷ ls ∷ []) shell ≡ some ([], true)
unfolding rounds round_of
rounds_example = refl

-- An empty line of a script is a fault: its command is NULL.
empty_line_example : run_script (b'\n' ∷ []) shell ≡ none
unfolding run_script script_lines run_lines parse_input
empty_line_example = refl

-- The variables "bin" and "ls", each with room for four bytes.
abbrev variables : List (Bytes × Bytes)
variables = (bin, 0 ∷ 0 ∷ 0 ∷ 0 ∷ []) ∷ (ls, 0 ∷ 0 ∷ 0 ∷ 0 ∷ []) ∷ []

ls-IsName : IsName ls
unfolding no_nul
ls-IsName = record {
  no_equals = (omega arith, (omega arith, tt));
  text = refl;
  bytes = (omega arith, (omega arith, tt));
  short = omega arith;
}

bin-IsName : IsName bin
unfolding no_nul
bin-IsName = record {
  no_equals = (omega arith, (omega arith, (omega arith, tt)));
  text = refl;
  bytes = (omega arith, (omega arith, (omega arith, tt)));
  short = omega arith;
}

setenv-Sets_example :
    (r : ℕ) × (ys : List (Bytes × Bytes)) × (setenv (holds ls []) (holds bin []) (rows_of variables)
      ≡ some (r, rows_of ys))
    × Sets ls bin variables r ys
unfolding no_nul
setenv-Sets_example =
    setenv-Sets ls bin [] [] variables ls-IsName refl (bin-IsName, (ls-IsName, tt))
      (omega arith, (omega arith, tt))

-- Three blocks in a ring: the base at 64, one of 2 units at 4096 and one of 100 at 8192.
abbrev heap : Heap
heap = record {
  ptr = λ p. if p == 64 then 4096 else if p == 4096 then 8192 else 64;
  size = λ p. if p == 64 then 0 else if p == 4096 then 2 else 100;
  freep = 64;
  base = 64;
  brk = 12288;
}

libc_malloc-libc_free_example :
    (b : ℕ) × (h' : Heap) × (h'' : Heap) × (libc_malloc 10 100 heap ≡ some (b + 16, h'))
    × (libc_free 2 (b + 16) h' ≡ some h'')
    × SameBut b heap h''
libc_malloc-libc_free_example =
    libc_malloc-libc_free 10 100 (4096 ∷ []) 4096 8192 heap (omega arith)
      (refl, omega arith, omega arith, (refl, refl)) (omega arith) (omega arith) (omega arith)
      (omega arith) (inr (omega arith))

-- Before the first call.
abbrev new_heap : Heap
new_heap = record heap { freep = 0 }

libc_malloc-Inside_example :
    (a : ℕ) × (h' : Heap) × (libc_malloc 2 100 new_heap ≡ some (a, h')) × Inside new_heap 100 a h'
libc_malloc-Inside_example = libc_malloc-Inside 0 100 new_heap refl (omega arith) (omega arith)
