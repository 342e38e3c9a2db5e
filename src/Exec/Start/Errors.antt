-- ===== src/Exec/Start/Errors.antt =====
-- `execvpe` of sys/process.c on a program that is not there, and with an environment.
use osproject.Prelude.{
  ℕ, suc, ◌≤◌, ◌<◌, ◌≡◌, refl, true, false, List, [], ◌∷◌, ◌++◌, Option, none, some, ltb, length,
  drop, replicate, arith,
}
use mathlib.Core.Path.{subst}
use osproject.Prelude.State.{◌>>=◌}
use osproject.Text.{Bytes, strcpy, no_nul, holds, AreBytes}
use osproject.Text.Laws.{strcpy-holds, strcat-holds}
use osproject.Process.{Kernel, current, put}
use osproject.Process.Fork.{or_fault, get, assign}
use osproject.Tarfs.{Header, data_address}
use osproject.Tarfs.Lookup.{Index, Finds, Seen, missing, here, later, get_file_address-Finds}
use osproject.Exec.Command.{Command, find_program, is_local, bin_file, bin_command}
use osproject.Exec.Start.{execvpe, exec_bin, exec_found, exec_env}

-- "bin/" without its terminator.
abbrev pub bin_dir : Bytes
bin_dir = b'b' ∷ b'i' ∷ b'n' ∷ b'/' ∷ []

-- Only one address goes with a name.
Finds-unique :
    (t : Bytes) (xs : List (Bytes × ℕ)) (r r' : Option ℕ) → Finds t xs r → Finds t xs r' → r ≡ r'
Finds-unique t [] none none missing missing = refl
Finds-unique t [] none (some a) missing odd = elim odd [ ]
Finds-unique t [] (some a) r' odd f' = elim odd [ ]
Finds-unique t (x ∷ xs) r r' (here e) (here e') = refl
Finds-unique t (x ∷ xs) r r' (here e) (later ne f) = absurd (ne e)
Finds-unique t (x ∷ xs) r r' (later ne f) (here e) = absurd (ne e)
Finds-unique t (x ∷ xs) r r' (later ne f) (later ne' f') = Finds-unique t xs r r' f f'

-- The file's name in its array of 50 bytes.
abbrev pub file_of : Bytes → Bytes
file_of s = holds (bin_dir ++ s) (drop (length s) (replicate 45 0))

bin_file_lem :
    (s rest : Bytes) → no_nul s ≡ true → length s ≤ 45 → bin_file (holds s rest) ≡ some (file_of s)
unfolding bin_file strcpy no_nul
bin_file_lem s rest ok short = strcat-holds bin_dir s (replicate 45 0) rest refl ok short

-- What the search for the program finds.
find_program_missing :
    (headers : List Header) (t rest : Bytes) (xs : List (Bytes × ℕ))
    → no_nul t ≡ true
    → AreBytes t
    → Index headers xs
    → Finds t xs none
    → (d : ℕ) × (find_program headers (holds t rest) ≡ some d) × (d < 512)
unfolding find_program
find_program_missing headers t rest xs ok bytes index none_there =
    let (r, a, found, got, seen) = get_file_address-Finds t rest headers xs ok bytes index in
    (
      data_address a,
      rw got refl,
      subst (λ o. Seen o (data_address a)) (Finds-unique t xs r none found none_there) seen,
    )

bin_no_nul : (s : Bytes) → no_nul s ≡ true → no_nul (bin_dir ++ s) ≡ true
unfolding no_nul
bin_no_nul s ok = ok

bin_command_missing :
    (headers : List Header) (t rest : Bytes) (argv : List Bytes) (xs : List (Bytes × ℕ))
    → no_nul t ≡ true
    → AreBytes t
    → Index headers xs
    → Finds t xs none
    → bin_command headers (holds t rest) argv ≡ some none
unfolding bin_command
bin_command_missing headers t rest argv xs ok bytes index none_there =
    let (d, got, low) = find_program_missing headers t rest xs ok bytes index none_there in
    let small : ltb d 512 ≡ true = ground arith in rw (got, bin_command) (rw small refl)

module _ (headers : List Header) (byte : ℕ → ℕ) (tar_end : ℕ) (fresh : ℕ → ℕ) where
  -- The steps of `exec_bin` up to the search.
  bin_steps :
      (path file name : Bytes) (argv env : List Bytes) (c : Option Command) (k : Kernel)
      → is_local path ≡ false
      → bin_file path ≡ some file
      → strcpy (current k).name file ≡ some name
      → bin_command headers file argv ≡ some c
      → execvpe headers byte tar_end fresh path argv env k
        ≡ exec_found headers byte tar_end fresh env c
            (put k.r (record (current k) { name = name }) k)
  unfolding execvpe exec_bin get or_fault assign
  bin_steps path file name argv env c k far file_e name_e command_e =
      rw far (rw (file_e, ◌>>=◌) (rw (name_e, ◌>>=◌) (rw (command_e, ◌>>=◌) refl)))

  -- If no header is named after "bin/" and the path, a text of at most 45 bytes that does not begin with
  -- "./", `execvpe` returns -1; all that has changed is the task's name, which is that of the missing file.
  pub execvpe-missing :
      (s rest : Bytes) (argv env : List Bytes) (xs : List (Bytes × ℕ)) (k : Kernel)
      → no_nul s ≡ true
      → AreBytes s
      → is_local (holds s rest) ≡ false
      → length s ≤ 45
      → length (bin_dir ++ s) < length (current k).name
      → Index headers xs
      → Finds (bin_dir ++ s) xs none
      → execvpe headers byte tar_end fresh (holds s rest) argv env k
        ≡ some (
          none,
          put k.r
              (record (current k) {
                name = holds (bin_dir ++ s) (drop (suc (length (bin_dir ++ s))) (current k).name);
              })
              k,
        )
  unfolding exec_found
  execvpe-missing s rest argv env xs k ok bytes far short room index none_there =
      let t = bin_dir ++ s in
      let tail : Bytes = drop (length s) (replicate 45 0) in
      bin_steps (holds s rest) (file_of s) (holds t (drop (suc (length t)) (current k).name)) argv
        env none k far (bin_file_lem s rest ok short)
        (strcpy-holds (current k).name t tail (bin_no_nul s ok) room)
        (bin_command_missing headers t tail argv xs (bin_no_nul s ok)
          (omega arith, (omega arith, (omega arith, (omega arith, bytes)))) index none_there)

  -- With an environment `execvpe` does not come back: if the program and its arguments are found, the loop
  -- over `env` never ends.
  pub execvpe-environment :
      (s rest e : Bytes) (argv env : List Bytes) (k : Kernel) (c : Command)
      → no_nul s ≡ true
      → is_local (holds s rest) ≡ false
      → length s ≤ 45
      → length (bin_dir ++ s) < length (current k).name
      → bin_command headers (file_of s) argv ≡ some (some c)
      → execvpe headers byte tar_end fresh (holds s rest) argv (e ∷ env) k ≡ none
  unfolding exec_found exec_env
  execvpe-environment s rest e argv env k c ok far short room found =
      let t = bin_dir ++ s in
      bin_steps (holds s rest) (file_of s) (holds t (drop (suc (length t)) (current k).name)) argv
        (e ∷ env) (some c) k far (bin_file_lem s rest ok short)
        (strcpy-holds (current k).name t (drop (length s) (replicate 45 0)) (bin_no_nul s ok) room)
        found
