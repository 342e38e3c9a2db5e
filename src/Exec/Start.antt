-- ===== src/Exec/Start.antt =====
-- `create_process` and `execvpe` of sys/process.c. The registers that `iretq` loads are the result; what
-- `kprintf` prints is left out.
pub mod Errors
use mathlib.Core.Option
use osproject.Prelude.{
  ℕ, zero, suc, ◌+◌, ◌*◌, ◌%◌, ◌^◌, Bool, List, [], ◌∷◌, Option, none, some, ltb, if◌then◌else◌,
  drop, replicate,
}
use osproject.Prelude.Int.{ℤ, pos, negsuc}
use osproject.Prelude.State.{Op, pure, ◌>>=◌, ◌>>◌}
use osproject.Text.{Bytes, strcpy, strlen}
use osproject.Paging.Tables.{clear_table}
use osproject.Paging.Tables.Kmalloc.{allocate_page_for_process, physical}
use osproject.Paging.Space.{dealloc_pml4}
use osproject.Process.{Task, Kernel, Vma, running, current, new_pid}
use osproject.Process.Wait.{on_memory}
use osproject.Process.Fork.{or_fault, get, assign}
use osproject.Tarfs.{Header}
use osproject.Exec.Elf.{Image, Copy, Ehdr, ehdr_at, load_program, stack_base}
use osproject.Exec.Stack.{UserStack, push_name, push_arguments}
use osproject.Exec.Command.{
  Command, file_room, find_program, is_local, local_command, bin_file, bin_command,
}

-- What a new program starts with: its first instruction, its stack, and what is copied for it.
pub record Start : Type 0 where
  pub rip : ℕ
  pub stack : UserStack
  pub copies : List Copy

-- `ts->ustack + 510 * 8`, in a page whose bytes are `fresh`.
unfoldable pub first_stack : (ℕ → ℕ) → UserStack
first_stack fresh = record { rsp = stack_base + 510 * 8; byte = fresh }

-- A text with its terminator, as `memcpy(…, a, strlen(a) + 1)` reads it.
unfoldable pub c_text : Bytes → Option Bytes
unfolding strlen
c_text a = Option.map (λ l. take (l + 1) a) (strlen a)
  where
    take : ℕ → Bytes → Bytes
    take zero a = []
    take (suc n) [] = []
    take (suc n) (c ∷ a) = c ∷ take n a

unfoldable pub c_texts : List Bytes → Option (List Bytes)
unfolding c_text
c_texts [] = some []
c_texts (a ∷ args) = elim (c_text a) [
  | none ↦ none
  | some b ↦ elim (c_texts args) [ none ↦ none | some rest ↦ some (b ∷ rest) ]
]

-- The archive: its headers, its bytes by their address, and its end; and the bytes of a new page.
module _ (headers : List Header) (byte : ℕ → ℕ) (tar_end : ℕ) (fresh : ℕ → ℕ) where
  -- `create_process` from the point where the file is found.
  unfoldable pub create_at : Bytes → ℕ → Op Kernel Start
  unfolding ehdr_at load_program first_stack c_text push_name
  create_at filename f_a = do
    a ← or_fault (strcpy file_room filename)
    k ← get
    pid ← or_fault (new_pid k.q)
    name ← or_fault (strcpy (k.q pid).name filename)
    curr_dir ← or_fault (strcpy (k.q pid).curr_dir (b'/' ∷ 0 ∷ []))
    pml4 ← on_memory allocate_page_for_process
    on_memory (clear_table (physical pml4))
    image ← on_memory (load_program byte (ehdr_at byte f_a) (physical pml4) [])
    text ← or_fault (c_text a)
    let stack = push_name text (first_stack fresh)
    assign pid (record (k.q pid) {
      name = name;
      curr_dir = curr_dir;
      ppid = 0;
      pid = pid;
      vm = image.vm;
      state = running;
      pml4e = physical pml4;
      reg_rip = (ehdr_at byte f_a).e_entry;
      ustack = stack_base;
      rsp = stack.rsp;
    })
    k' ← get
    λ _. some (
      record { rip = (ehdr_at byte f_a).e_entry; stack = stack; copies = image.copies },
      record k' { r = pid },
    )

  -- `create_process`; `none` when there is no such file.
  unfoldable pub create_found : Bytes → ℕ → Op Kernel (Option Start)
  unfolding create_at
  create_found filename f_a =
      if ltb f_a 512 then pure none else (do start ← create_at filename f_a; pure (some start))

  unfoldable pub create_process : Bytes → Op Kernel (Option Start)
  unfolding create_found find_program
  create_process filename = do
    f_a ← or_fault (find_program headers filename)
    create_found filename f_a

  -- `execvpe` once the program and its arguments are known: the old pages go, the new ones come. The areas
  -- of the old program stay in the list.
  unfoldable pub exec_command : Command → Op Kernel Start
  unfolding ehdr_at load_program first_stack c_texts push_arguments
  exec_command c = do
    k ← get
    on_memory (dealloc_pml4 (current k).pml4e)
    image ← on_memory (load_program byte (ehdr_at byte c.f_a) (current k).pml4e (current k).vm)
    texts ← or_fault (c_texts c.args)
    let stack = push_arguments texts (first_stack fresh)
    assign k.r (record (current k) {
      reg_rip = (ehdr_at byte c.f_a).e_entry;
      ustack = stack_base;
      vm = image.vm;
      rsp = stack.rsp;
    })
    pure (record { rip = (ehdr_at byte c.f_a).e_entry; stack = stack; copies = image.copies })

  -- The loop over `env` never moves on: with an environment it does not end. `none` stands for -1.
  unfoldable pub exec_env : List Bytes → Command → Op Kernel (Option Start)
  unfolding exec_command
  exec_env [] c =
      if ltb c.f_a 512 then pure none else (do start ← exec_command c; pure (some start))
  exec_env (e ∷ env) c = λ k. none

  unfoldable pub exec_found : List Bytes → Option Command → Op Kernel (Option Start)
  unfolding exec_env
  exec_found env none = pure none
  exec_found env (some c) = exec_env env c

  -- A program in "bin/" gives the task its name, whether or not there is such a file.
  unfoldable pub exec_bin : Bytes → List Bytes → List Bytes → Op Kernel (Option Start)
  unfolding exec_found bin_file bin_command
  exec_bin path argv env = do
    k ← get
    file ← or_fault (bin_file path)
    name ← or_fault (strcpy (current k).name file)
    assign k.r (record (current k) { name = name })
    c ← or_fault (bin_command headers file argv)
    exec_found env c

  unfoldable pub exec_local : Bytes → List Bytes → List Bytes → Op Kernel (Option Start)
  unfolding exec_found local_command
  exec_local path argv env = do
    k ← get
    c ← or_fault (local_command headers byte tar_end (current k).curr_dir path argv)
    exec_found env c

  -- `execvpe`.
  unfoldable pub execvpe : Bytes → List Bytes → List Bytes → Op Kernel (Option Start)
  unfolding exec_bin exec_local is_local
  execvpe path argv env = if is_local path then exec_local path argv env else exec_bin path argv env
