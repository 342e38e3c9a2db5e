-- ===== src/Process.antt =====
-- include/sys/process.h, sys/process.c and sys/proc_man.c: the process table and the scheduler.
pub mod Slots
pub mod Yield
pub mod Life
pub mod Wait
pub mod Fork
pub mod System
use osproject.Prelude.{
  ℕ, zero, suc, ◌+◌, ◌%◌, Bool, ◌||◌, List, Option, none, some, ◌==◌, if◌then◌else◌,
}
use osproject.Prelude.Int.{ℤ, pos}
use osproject.Prelude.Loops.{update, for_range, first_from}
use osproject.Text.{Bytes}
use osproject.Paging.Frames.{Memory}

-- `MAX`, the number of slots of `q`.
abbrev pub max : ℕ
max = 1100

pub data State : Type 0 where
  running sleeping zombie idle ready wait suspended : State

-- The value of the C enumeration.
abbrev pub code : State → ℕ
code running = 0
code sleeping = 1
code zombie = 2
code idle = 3
code ready = 4
code wait = 5
code suspended = 6

abbrev pub is : State → State → Bool
is s t = code s == code t

-- `struct vm_area_struct`, with the kernel address `node` of the struct itself.
pub record Vma : Type 0 where
  pub node : ℕ
  pub vm_start : ℕ
  pub vm_end : ℕ

-- `file_t` of include/sys/file.h.
pub record File : Type 0 where
  pub fd : ℕ
  pub file_name : Bytes
  pub aval : ℕ
  pub offset : ℕ
  pub entry : ℕ
  pub flags : ℕ
  pub size : ℕ
  pub address : ℕ

-- `task_struct`; of the saved registers the two that the kernel uses.
pub record Task : Type 0 where
  pub name : Bytes
  pub kstack : ℕ → ℕ
  pub ustack : ℕ
  pub time : ℤ
  pub state : State
  pub pid : ℕ
  pub ppid : ℕ
  pub rsp : ℕ
  pub pml4e : ℕ
  pub child_count : ℕ
  pub vm : List Vma
  pub curr_dir : Bytes
  pub fd : ℕ → File
  pub fd_c : ℕ
  pub reg_rip : ℕ
  pub reg_rsp : ℕ

-- The kernel's globals: the table `q`, the slot that `r` points to, and physical memory.
pub record Kernel : Type 0 where
  pub q : ℕ → Task
  pub r : ℕ
  pub memory : Memory

abbrev pub current : Kernel → Task
current k = k.q k.r

-- `q[i] = t`.
abbrev pub put : ℕ → Task → Kernel → Kernel
put i t k = record k { q = update k.q i t }

abbrev pub set_state : ℕ → State → Kernel → Kernel
set_state i s k = put i (record (k.q i) { state = s }) k

-- A loop over all slots that changes each by itself.
unfoldable pub sweep : (Task → Task) → (ℕ → Task) → ℕ → Task
unfolding for_range
sweep g q = for_range max 0 (λ i t. update t i (g (t i))) q

-- `newPID`: the first free slot, `none` for -1.
unfoldable pub new_pid : (ℕ → Task) → Option ℕ
unfolding first_from
new_pid q = first_from max 0 (λ i. is (q i).state ready)

-- `init_proc`.
unfoldable pub init_proc : (ℕ → Task) → ℕ → Task
unfolding sweep
init_proc = sweep (λ t. record t { state = ready; fd_c = 0; time = pos 0 })

-- The loop of `yield`: the next slot that runs, from `i` round to `last`.
unfoldable pub find_next : ℕ → (ℕ → Task) → ℕ → ℕ → ℕ
find_next zero q last i = i
find_next (suc fuel) q last i =
    let rest = find_next fuel q last ((i + 1) % max) in
    if i == last then i else if is (q i).state running then i else rest

-- `yield`, up to the switch of stacks: the slot that goes on. The loop visits each slot once.
unfoldable pub yield_to : Kernel → Kernel
unfolding find_next
yield_to k = record k { r = find_next max k.q (current k).pid (((current k).pid + 1) % max) }

-- Whom `ps` lists.
unfoldable pub listed : Task → Bool
listed t = is t.state running || is t.state sleeping || is t.state wait || is t.state suspended
