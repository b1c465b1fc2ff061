-- ===== src/Proc/Life.antt =====
-- `allocproc`, `fork`, `clone`, `exit`, `wait` and `kill` of proc.c, as far as they concern the
-- process table: the open files, the trap frame and the contents of memory are left out.
use operating_systems_three.Prelude.{
  ℕ, zero, suc, ◌+◌, ◌==◌, if◌then◌else◌, Bool, true, false, ◌&&◌, ◌||◌, not, List, [], ◌∷◌, Option,
  none, some, Outcome, ok, ◌>>=◌, ◌>>◌, panic_if, get_or, length,
}
use operating_systems_three.Proc.{
  unused, embryo, sleeping, runnable, zombie, null, proc, Proc, Ptable, is_unused, is_sleeping,
  is_zombie, is_parent, parent_chan, acquire, release, modify, find_from, wakeup1,
}

-- A slot as the zeroed memory of the kernel has it.
abbrev pub blank : Proc
blank = record {
  state = unused;
  pid = 0;
  parent = none;
  chan = null;
  killed = false;
  kstack = 0;
  pgdir = 0;
  sz = 0;
  inuse = false;
  tickets = 0;
  ticks = 0;
}

unfoldable pub slot : ℕ → Ptable → Proc
slot i t = get_or t.procs i blank

abbrev pub embryo_of : ℕ → Proc → Proc
embryo_of pid p = record p { state = embryo; pid = pid; tickets = 1; inuse = true }

-- The end of `allocproc`: `stack` is what `kalloc` returned for the kernel stack.
unfoldable pub give_stack : ℕ → ℕ → Ptable → Option ℕ × Ptable
give_stack stack i t =
    if stack == 0
    then (none, modify i (λ p. record p { kstack = 0; state = unused }) t)
    else (some i, modify i (λ p. record p { kstack = stack }) t)

unfoldable pub alloc_found : ℕ → Option ℕ → Ptable → Outcome (Option ℕ × Ptable)
unfolding release give_stack
alloc_found stack none t = release t >>= λ t. ok (none, t)
alloc_found stack (some i) t =
    release (record (modify i (embryo_of t.nextpid) t) { nextpid = t.nextpid + 1 }) >>= λ t.
    ok (give_stack stack i t)

unfoldable pub allocproc : ℕ → Ptable → Outcome (Option ℕ × Ptable)
unfolding acquire is_unused find_from alloc_found
allocproc stack t =
    acquire t >>= λ t. alloc_found stack (find_from 0 (λ p. is_unused p.state) t.procs) t

-- What `fork` and `clone` copy from the parent, before and under the lock.
abbrev pub child_of : ℕ → Proc → ℕ → Proc → Proc
child_of cur parent pgdir p = record p { pgdir = pgdir; sz = parent.sz; parent = some cur }

abbrev pub started : Proc → Proc → Proc
started parent p = record p { state = runnable; tickets = parent.tickets }

unfoldable pub start_child : (cur pgdir np : ℕ) → Ptable → Outcome (Option ℕ × Ptable)
unfolding acquire release slot
start_child cur pgdir np t = do
  let t = modify np (child_of cur (slot cur t) pgdir) t
  let pid = (slot np t).pid
  t ← acquire t
  t ← release (modify np (started (slot cur t)) t)
  ok (some pid, t)

-- `fork` behind `allocproc`: `pgdir` is what `copyuvm` returned.
unfoldable pub fork_child : (pgdir cur : ℕ) → Option ℕ → Ptable → Outcome (Option ℕ × Ptable)
unfolding start_child slot
fork_child pgdir cur none t = ok (none, t)
fork_child pgdir cur (some np) t =
    if pgdir == 0
    then ok (
      none,
      record (modify np (λ p. record p { kstack = 0; state = unused }) t) {
        freed = (slot np t).kstack ∷ t.freed;
      },
    )
    else start_child cur pgdir np t

-- `fork` by process `cur`: the child's pid, or nothing for -1.
unfoldable pub fork : (stack pgdir cur : ℕ) → Ptable → Outcome (Option ℕ × Ptable)
unfolding allocproc fork_child
fork stack pgdir cur t = allocproc stack t >>= λ (np, t). fork_child pgdir cur np t

unfoldable pub clone_child : ℕ → Option ℕ → Ptable → Outcome (Option ℕ × Ptable)
unfolding start_child slot
clone_child cur none t = ok (none, t)
clone_child cur (some np) t = start_child cur (slot cur t).pgdir np t

-- `clone` by process `cur`: the thread shares the page table.
unfoldable pub clone : (stack cur : ℕ) → Ptable → Outcome (Option ℕ × Ptable)
unfolding allocproc clone_child
clone stack cur t = allocproc stack t >>= λ (np, t). clone_child cur np t

-- The loop of `exit` that passes abandoned children to init.
unfoldable pub reparent : (rounds i cur : ℕ) → Ptable → Ptable
unfolding slot is_parent is_zombie
reparent zero i cur t = t
reparent (suc r) i cur t =
    let t' = modify i (λ p. record p { parent = some t.init }) t in
    reparent r (i + 1) cur (
      if is_parent cur (slot i t).parent
      then (if is_zombie (slot i t).state then wakeup1 (proc t.init) t' else t')
      else t)

-- `exit` of process `cur`, up to the switch in `sched`.
unfoldable pub exit : ℕ → Ptable → Outcome Ptable
unfolding acquire slot parent_chan reparent
exit cur t = do
  panic_if (cur == t.init)
  t ← acquire t
  let t = wakeup1 (parent_chan (slot cur t).parent) t
  let t = reparent (length t.procs) 0 cur t
  ok (modify cur (λ p. record p { state = zombie }) t)

-- The scan of `wait`: whether `cur` has children, and the first that is a zombie.
unfoldable pub scan_kids : ℕ → ℕ → Bool → List Proc → Bool × Option ℕ
unfolding is_parent is_zombie
scan_kids cur i havekids [] = (havekids, none)
scan_kids cur i havekids (p ∷ ps) =
    let rest = scan_kids cur (i + 1) (is_parent cur p.parent || havekids) ps in
    if is_parent cur p.parent && is_zombie p.state then (true, some i) else rest

pub data Waited : Type 0 where
  reaped : ℕ → Waited
  failed asleep : Waited

abbrev pub cleared : Proc → Proc
cleared p = record p {
  kstack = 0;
  pid = 0;
  parent = none;
  killed = false;
  state = unused;
  tickets = 0;
  ticks = 0;
  inuse = false;
}

unfoldable pub wait_found : ℕ → Bool × Option ℕ → Ptable → Outcome (Waited × Ptable)
unfolding slot release
wait_found cur (havekids, some i) t =
    release (record (modify i cleared t) { freed = (slot i t).kstack ∷ (slot i t).pgdir ∷ t.freed })
    >>= λ t'. ok (reaped (slot i t).pid, t')
wait_found cur (havekids, none) t =
    if not havekids || (slot cur t).killed
    then (release t >>= λ t. ok (failed, t))
    else ok (asleep, modify cur (λ p. record p { chan = proc cur; state = sleeping }) t)

-- One turn of the loop of `wait`, with the lock held, up to the switch if it sleeps.
unfoldable pub wait_turn : ℕ → Ptable → Outcome (Waited × Ptable)
unfolding scan_kids wait_found
wait_turn cur t = wait_found cur (scan_kids cur 0 false t.procs) t

unfoldable pub wait : ℕ → Ptable → Outcome (Waited × Ptable)
unfolding acquire wait_turn
wait cur t = acquire t >>= wait_turn cur

abbrev pub killed_of : Proc → Proc
killed_of p = record p { killed = true; state = if is_sleeping p.state then runnable else p.state }

unfoldable pub kill_found : Option ℕ → Ptable → Outcome (Bool × Ptable)
unfolding release is_sleeping
kill_found none t = release t >>= λ t. ok (false, t)
kill_found (some i) t = release (modify i killed_of t) >>= λ t. ok (true, t)

-- `kill`: whether there is a process with that pid.
unfoldable pub kill : ℕ → Ptable → Outcome (Bool × Ptable)
unfolding acquire find_from kill_found
kill pid t = acquire t >>= λ t. kill_found (find_from 0 (λ p. p.pid == pid) t.procs) t
