-- ===== src/Examples/Programs.antt =====
-- Programs that are started, the process table on its way, and the pool of pages.
use osproject.Prelude.{
  ℕ, ◌*◌, ◌<◌, ◌≡◌, refl, List, [], ◌∷◌, ◌++◌, none, some, inr, arith, drop, replicate,
}
use osproject.Prelude.Loops.{update}
use osproject.Text.{Bytes, no_nul, holds}
use osproject.Paging.Frames.{Memory}
use osproject.Paging.Frames.FreeList.{IsFreeList}
use osproject.Prelude.{ltb, ◌&&◌, if◌then◌else◌}
use osproject.Paging.Frames.Pool.{
  Pool, Request, allocate, release, share, serve, perform, run_requests, Represents,
  run_requests-Represents,
}
use osproject.Process.{Kernel, current, put}
use osproject.Process.Life.{exit, timer_leave}
use osproject.Process.System.{IsTable}
use osproject.Process.System.Reach.{now, later, exits, ticks, Reach-IsTable}
use osproject.Exec.Command.{is_local}
use osproject.Tarfs.Lookup.{Finds}
use osproject.Exec.Stack.{push_arguments}
use osproject.Exec.Stack.Layout.{Arguments, push_arguments-Arguments}
use osproject.Exec.Start.{execvpe}
use osproject.Exec.Start.Errors.{bin_dir, execvpe-missing}
use osproject.Examples.Pages.{machine, machine-IsFreeList}
use osproject.Examples.Processes.{family}
use osproject.Examples.Archives.{headers, index, headers-Index}

-- "ls" and "-".
abbrev ls_text : Bytes
ls_text = b'l' ∷ b's' ∷ 0 ∷ []

abbrev dash_text : Bytes
dash_text = b'-' ∷ 0 ∷ []

push_arguments-Arguments_example :
    Arguments
      (ls_text ∷ dash_text ∷ [])
      (record { rsp = 0x100FFFFF0FF0; byte = λ a. 0 })
      (push_arguments (ls_text ∷ dash_text ∷ []) (record { rsp = 0x100FFFFF0FF0; byte = λ a. 0 }))
push_arguments-Arguments_example =
    push_arguments-Arguments (ls_text ∷ dash_text ∷ [])
      (record { rsp = 0x100FFFFF0FF0; byte = λ a. 0 }) (omega arith) (omega arith)

family-IsTable : IsTable family
family-IsTable = record { inside = omega arith; own = refl; good = λ j lt. (ppids j, inr (pids j)) }
  where
    ppids : (j : ℕ) → (family.q j).ppid < 1100
    ppids j = ground arith

    pids : (j : ℕ) → (family.q j).pid ≡ j
    pids j = ground arith

Reach-IsTable_example : IsTable (timer_leave (record { count = 18; sec = 7 }) (exit family)).1
Reach-IsTable_example =
    Reach-IsTable family (timer_leave (record { count = 18; sec = 7 }) (exit family)).1
      (later (exit family) (timer_leave (record { count = 18; sec = 7 }) (exit family)).1
        (later family (exit family) now exits) (ticks (record { count = 18; sec = 7 })))
      family-IsTable

-- The table after a region of pages 1 to 11, of which 8 to 11 are free: the other entries are zeros.
abbrev small_machine : Memory
small_machine = record machine {
  pagelist = λ i.
      if ltb 0 i && ltb i 12
      then machine.pagelist i
      else record { address = 0; free = 0; ref_count = 0; next = none };
}

small_machine-IsFreeList : IsFreeList small_machine (8 ∷ 9 ∷ 10 ∷ 11 ∷ [])
small_machine-IsFreeList = machine-IsFreeList

-- A page is taken, shared, and given back twice; another page is given back.
abbrev requests : List Request
requests = allocate ∷ share 8 ∷ release 8 ∷ release 8 ∷ release 7 ∷ []

abbrev pool : Pool
pool = record { region = λ i. ltb 0 i && ltb i 12; pages = 8 ∷ 9 ∷ 10 ∷ 11 ∷ []; readers = λ i. 1 }

abbrev pool_after : Pool
pool_after = record pool {
  pages = 7 ∷ 8 ∷ 9 ∷ 10 ∷ 11 ∷ [];
  readers = update (update (update (λ i. 1) 8 1) 8 2) 8 1;
}

machine-Represents : Represents small_machine pool
machine-Represents = record {
  list = small_machine-IsFreeList;
  known = λ i here. ground arith;
  places = λ i here. rw here refl;
  counts = λ i here out. rw here refl;
}

run_requests-Represents_example :
    (m' : Memory) × (run_requests perform requests small_machine
      ≡ some (some (8 * 4096) ∷ none ∷ none ∷ none ∷ none ∷ [], m'))
    × Represents m' pool_after
unfolding run_requests serve
run_requests-Represents_example =
    run_requests-Represents requests small_machine pool pool_after
      (some (8 * 4096) ∷ none ∷ none ∷ none ∷ none ∷ []) machine-Represents refl

-- Process 1 with room for its name; the program "cat".
abbrev named : Kernel
named = put 1 (record (family.q 1) { name = replicate 50 0 }) family

abbrev cat : Bytes
cat = b'c' ∷ b'a' ∷ b't' ∷ []

cat-Finds : Finds (bin_dir ++ cat) index none
cat-Finds = Finds.later (λ e. cc) (Finds.later (λ e. cc) Finds.missing)

execvpe-missing_example :
    execvpe headers (λ a. 0) 8192 (λ a. 0) (holds cat []) [] [] named
    ≡ some (
      none,
      put 1
          (record (current named) { name = holds (bin_dir ++ cat) (drop 8 (current named).name) })
          named,
    )
unfolding no_nul is_local
execvpe-missing_example =
    execvpe-missing headers (λ a. 0) 8192 (λ a. 0) cat [] [] [] index named refl
      (omega arith, (omega arith, (omega arith, tt))) refl (omega arith) (omega arith) headers-Index
      cat-Finds
