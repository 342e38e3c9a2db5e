-- ===== src/Process/Fork/Child.antt =====
-- What `fork` of sys/process.c leaves in the process table.
use osproject.Prelude.{
  ℕ, ◌+◌, ◌*◌, ◌≡◌, ◌≢◌, refl, sym, ap, ◌∙◌, true, Option, none, some, ltb, ◌==◌, if◌then◌else◌,
  Option-cases, inl, inr, arith,
}
use mathlib.Core.Path.{subst}
use osproject.Prelude.State.{Op, >>=-eq-some}
use osproject.Prelude.Loops.{update, update_self, update_other}
use osproject.Text.{strcpy}
use osproject.Paging.Tables.{clear_table}
use osproject.Paging.Tables.Kmalloc.{physical}
use osproject.Paging.Space.{copytables}
use osproject.Paging.Frames.{Memory}
use osproject.Paging.Tables.Kmalloc.{allocate_page_for_process}
use osproject.Process.{Task, Kernel, running, ready, is, current, put, new_pid}
use osproject.Process.Slots.{LeastFree, found, full, new_pid-LeastFree}
use osproject.Process.Wait.{on_memory}
use osproject.Process.Fork.{
  or_fault, get, assign, copy_areas, copytask, Machine, child_rsp, stack_base, fork,
}

-- What `copytask` leaves: slot `c` alone has changed, with its pid and state as they were and the current
-- process as its parent.
record Copied (c : ℕ) (k k' : Kernel) : Type 0 where
  pub task : Task
  table : k'.q ≡ update k.q c task
  same : k'.r ≡ k.r
  pid : task.pid ≡ (k.q c).pid
  ppid : task.ppid ≡ (current k).pid
  state : task.state ≡ (k.q c).state

-- Both have the same table and the same current process.
abbrev Same : Kernel → Kernel → Type 0
Same k k' = (k'.q ≡ k.q) × (k'.r ≡ k.r)

on_memory-Same :
    {A : Type 0} (m : Op Memory A) (k k' : Kernel) (a : A)
    → ◌≡◌ {A = Option (A × Kernel)} (on_memory m k) (some (a, k'))
    → Same k k'
unfolding on_memory
on_memory-Same m k k' a e = elim (Option-cases (m k.memory)) [
  | inl stuck ↦ absurd (cc (rw (stuck, on_memory) at e))
  | inr ((b, n), went) ↦
      let same : record k { memory = n } ≡ k' = cc (rw (went, on_memory) at e) in
      (ap (λ (x : Kernel). x.q) (sym same), ap (λ (x : Kernel). x.r) (sym same))
]

then_Same : (k k' k'' : Kernel) → Same k k' → Same k' k'' → Same k k''
then_Same k k' k'' (q, r) (q', r') = (q' ∙ q, r' ∙ r)

or_fault-Same :
    {A : Type 0} (o : Option A) (k k' : Kernel) (a : A)
    → ◌≡◌ {A = Option (A × Kernel)} (or_fault o k) (some (a, k'))
    → Same k k'
unfolding or_fault
or_fault-Same o k k' a e = elim (Option-cases o) [
  | inl missing ↦ absurd (cc (rw (missing, or_fault) at e))
  | inr (b, it) ↦
      let same : k ≡ k' = cc (rw (it, or_fault) at e) in
      (ap (λ (x : Kernel). x.q) (sym same), ap (λ (x : Kernel). x.r) (sym same))
]

assign-Copied :
    (c : ℕ) (t : Task) (k n k' : Kernel)
    → Same k n
    → t.pid ≡ (k.q c).pid
    → t.ppid ≡ (current k).pid
    → t.state ≡ (k.q c).state
    → assign c t n ≡ some (tt, k')
    → Copied c k k'
unfolding assign
assign-Copied c t k n k' (q, r) pid ppid state e =
    let done : put c t n ≡ k' = cc in
    record {
      task = t;
      table = ap (λ (x : Kernel). x.q) (sym done) ∙ ap (λ x. update x c t) q;
      same = ap (λ (x : Kernel). x.r) (sym done) ∙ r;
      pid = pid;
      ppid = ppid;
      state = state;
    }

copytask-Copied : (c : ℕ) (k k' : Kernel) → copytask c k ≡ some (tt, k') → Copied c k k'
unfolding copytask get
copytask-Copied c k k' e =
    let (v, k2, a2, e2) = >>=-eq-some (on_memory allocate_page_for_process) _ k k' tt e in
    let (u3, k3, a3, e3) = >>=-eq-some (on_memory (clear_table (physical v))) _ k2 k' tt e2 in
    let (name, k4, a4, e4) =
      >>=-eq-some (or_fault (strcpy (k.q c).name (current k).name)) _ k3 k' tt e3 in
    let (dir, k5, a5, e5) =
      >>=-eq-some (or_fault (strcpy (k.q c).curr_dir (current k).curr_dir)) _ k4 k' tt e4 in
    let (u6, k6, a6, e6) =
      >>=-eq-some (on_memory (copytables (current k).pml4e (physical v))) _ k5 k' tt e5 in
    let (vm, k7, a7, e7) = >>=-eq-some (on_memory (copy_areas (current k).vm)) _ k6 k' tt e6 in
    let at2 = on_memory-Same allocate_page_for_process k k2 v a2 in
    let at3 = then_Same k k2 k3 at2 (on_memory-Same (clear_table (physical v)) k2 k3 u3 a3) in
    let at4 =
      then_Same k k3 k4 at3 (or_fault-Same (strcpy (k.q c).name (current k).name) k3 k4 name a4) in
    let at5 =
      then_Same k k4 k5 at4
        (or_fault-Same (strcpy (k.q c).curr_dir (current k).curr_dir) k4 k5 dir a5) in
    let at6 =
      then_Same k k5 k6 at5
        (on_memory-Same (copytables (current k).pml4e (physical v)) k5 k6 u6 a6) in
    let at7 = then_Same k k6 k7 at6 (on_memory-Same (copy_areas (current k).vm) k6 k7 vm a7) in
    assign-Copied c _ k k7 k' at7 refl refl refl e7

-- A running process's `fork` that comes back has taken a free slot `c`. There the child runs with pid `c` and the parent's pid
-- as its ppid; the other slots keep what the table says of processes, and the parent stays the current one.
pub record Child (c : ℕ) (k k' : Kernel) : Type 0 where
  pub least : new_pid k.q ≡ some c
  pub apart : c ≢ k.r
  pub same : k'.r ≡ k.r
  pub pid : (k'.q c).pid ≡ c
  pub ppid : (k'.q c).ppid ≡ (current k).pid
  pub runs : (k'.q c).state ≡ running
  pub returns : (k'.q c).kstack 14 ≡ 9999
  pub others :
      (j : ℕ)
      → j ≢ c
      → ((k'.q j).pid ≡ (k.q j).pid)
        × ((k'.q j).ppid ≡ (k.q j).ppid)
        × ((k'.q j).state ≡ (k.q j).state)

-- The last three assignments of `fork`.
abbrev entered : ℕ → Kernel → Kernel
entered p k =
    put p (record (k.q p) { ustack = stack_base; rsp = stack_base + 511 * 8; state = running }) k

abbrev counted : Kernel → Kernel
counted k = put k.r (record (current k) { child_count = (current k).child_count + 1 }) k

abbrev stacked : Machine → ℕ → Kernel → Kernel
stacked m p k =
    put p
      (record (k.q p) {
        kstack = λ i.
            if i == 14 then 9999 else if ltb i 512 then (current k).kstack i else (k.q p).kstack i;
        reg_rip = m.rip;
        reg_rsp = child_rsp m k.r p;
      })
      k

stacked_pid :
    (m : Machine) (p j : ℕ) (k : Kernel)
    → ((stacked m p (counted (entered p k))).q j).pid ≡ (k.q j).pid
stacked_pid m p j k = ground arith

stacked_ppid :
    (m : Machine) (p j : ℕ) (k : Kernel)
    → ((stacked m p (counted (entered p k))).q j).ppid ≡ (k.q j).ppid
stacked_ppid m p j k = ground arith

stacked_other :
    (m : Machine) (p j : ℕ) (k : Kernel)
    → j ≢ p
    → ((stacked m p (counted (entered p k))).q j).state ≡ (k.q j).state
stacked_other m p j k ne = ground arith

stacked_runs :
    (m : Machine) (p : ℕ) (k : Kernel) → ((stacked m p (counted (entered p k))).q p).state ≡ running
stacked_runs m p k = ground arith

stacked_returns :
    (m : Machine) (p : ℕ) (k : Kernel)
    → ((stacked m p (counted (entered p k))).q p).kstack 14 ≡ 9999
stacked_returns m p k = ground arith

or_fault-inv :
    {A : Type 0} (o : Option A) (k k' : Kernel) (a : A)
    → ◌≡◌ {A = Option (A × Kernel)} (or_fault o k) (some (a, k'))
    → (o ≡ some a) × (k' ≡ k)
unfolding or_fault
or_fault-inv none k k' a e = absurd (cc)
or_fault-inv (some b) k k' a e = (cc, cc)

both :
    {A S : Type 0} (a b : A) (s t : S)
    → ◌≡◌ {A = Option (A × S)} (some (a, s)) (some (b, t))
    → (a ≡ b) × (s ≡ t)
both a b s t e = (cc, cc)

-- `q[pid].pid = pid`.
abbrev marked : ℕ → Kernel → Kernel
marked p k = put p (record (k.q p) { pid = p }) k

there : (p j : ℕ) (k k2 : Kernel) (d : Copied p (marked p k) k2) → j ≢ p → k2.q j ≡ k.q j
there p j k k2 d other =
    ap (λ q. q j) d.table
    ∙ update_other (marked p k).q p d.task j (λ e. other (sym e))
    ∙ update_other k.q p (record (k.q p) { pid = p }) j (λ e. other (sym e))

stacked-Child :
    (m : Machine) (p : ℕ) (k k2 : Kernel)
    → p ≢ k.r
    → new_pid k.q ≡ some p
    → Copied p (marked p k) k2
    → Child p k (stacked m p (counted (entered p k2)))
stacked-Child m p k k2 ne fresh d = record {
  least = fresh;
  apart = ne;
  same = d.same;
  pid =
      stacked_pid m p p k2
      ∙ ap (λ (x : Task). x.pid) (ap (λ q. q p) d.table ∙ update_self (marked p k).q p d.task)
      ∙ d.pid
      ∙ ap (λ (x : Task). x.pid) (update_self k.q p (record (k.q p) { pid = p }));
  ppid =
      stacked_ppid m p p k2
      ∙ ap (λ (x : Task). x.ppid) (ap (λ q. q p) d.table ∙ update_self (marked p k).q p d.task)
      ∙ d.ppid
      ∙ ap (λ (x : Task). x.pid) (update_other k.q p (record (k.q p) { pid = p }) k.r ne);
  runs = stacked_runs m p k2;
  returns = stacked_returns m p k2;
  others = λ j other. (
    stacked_pid m p j k2 ∙ ap (λ (x : Task). x.pid) (there p j k k2 d other),
    stacked_ppid m p j k2 ∙ ap (λ (x : Task). x.ppid) (there p j k k2 d other),
    stacked_other m p j k2 other ∙ ap (λ (x : Task). x.state) (there p j k k2 d other),
  );
}

free_other : (k : Kernel) (p : ℕ) → (current k).state ≡ running → new_pid k.q ≡ some p → p ≢ k.r
free_other k p runs fresh same = absurd (busy (new_pid k.q) fresh (new_pid-LeastFree k.q))
  where
    busy : (o : Option ℕ) → o ≡ some p → LeastFree k.q o → ⊥
    busy o e (found i lt free least) =
        let at : i ≡ k.r = cc in
        let idle : is (current k).state ready ≡ true =
          subst (λ x. is (k.q x).state ready ≡ true) at free in
        absurd (cc (rw runs at idle))
    busy o e (full none_free) = absurd (cc)

pub fork-Child :
    (m : Machine) (k k' : Kernel) (c : ℕ)
    → (current k).state ≡ running
    → fork m k ≡ some (c, k')
    → Child c k k'
unfolding fork get assign
fork-Child m k k' c runs e =
    let (p, k1, a1, e1) = >>=-eq-some (or_fault (new_pid k.q)) _ k k' c e in
    let (u2, k2, a2, e2) =
      >>=-eq-some (copytask p) _ (put p (record (k.q p) { pid = p }) k1) k' c e1 in
    let (fresh, at1) = or_fault-inv (new_pid k.q) k k1 p a1 in
    let d = copytask-Copied p (put p (record (k.q p) { pid = p }) k1) k2 a2 in
    let all : ◌≡◌ {A = Option (ℕ × Kernel)} (some (p, stacked m p (counted (entered p k2))))
        (some (c, k')) =
      e2 in
    let (same, end) = both p c (stacked m p (counted (entered p k2))) k' all in
    subst (λ x. Child c k x) end
      (subst (λ x. Child x k (stacked m p (counted (entered p k2)))) same
        (stacked-Child m p k k2 (free_other k p runs fresh) fresh
          (subst (λ x. Copied p (put p (record (k.q p) { pid = p }) x) k2) at1 d)))
