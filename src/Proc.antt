-- ===== src/Proc.antt =====
-- src/proc.c: the process table. Processes are named by their index in `ptable.proc`; `locked` says
-- that the caller holds `ptable.lock`.
pub mod Sched
pub mod Life
pub mod Lottery
pub mod Wakeups
pub mod Family
pub mod Exit
pub mod Kids
pub mod Wait
mod Examples
use operating_systems_three.Prelude.{
  ℕ, zero, suc, ◌+◌, ◌==◌, if◌then◌else◌, Bool, true, false, ◌&&◌, ◌||◌, not, List, [], ◌∷◌, map,
  Option, none, some, Outcome, ok, panic, ◌>>=◌, ◌>>◌, panic_if,
}

-- `enum procstate`.
pub data State : Type 0 where
  unused embryo sleeping runnable running zombie : State

-- What a process can sleep on: nothing, a process, or the address of another kernel object.
pub data Chan : Type 0 where
  null : Chan
  proc : ℕ → Chan
  object : ℕ → Chan

-- The fields of `struct proc` that the table's code uses; 0 is the null pointer of `kstack` and
-- `pgdir`.
pub record Proc : Type 0 where
  pub state : State
  pub pid : ℕ
  pub parent : Option ℕ
  pub chan : Chan
  pub killed : Bool
  pub kstack : ℕ
  pub pgdir : ℕ
  pub sz : ℕ
  pub inuse : Bool
  pub tickets : ℕ
  pub ticks : ℕ

-- `ptable`, `nextpid`, `seed` and `initproc`; `freed` collects the kernel stacks and page tables
-- that are given to `kfree` and `freevm`.
pub record Ptable : Type 0 where
  pub locked : Bool
  pub procs : List Proc
  pub nextpid : ℕ
  pub seed : ℕ
  pub init : ℕ
  pub freed : List ℕ

unfoldable pub is_unused : State → Bool
is_unused unused = true
is_unused _ = false

unfoldable pub is_sleeping : State → Bool
is_sleeping sleeping = true
is_sleeping _ = false

unfoldable pub is_runnable : State → Bool
is_runnable runnable = true
is_runnable _ = false

unfoldable pub is_running : State → Bool
is_running running = true
is_running _ = false

unfoldable pub is_zombie : State → Bool
is_zombie zombie = true
is_zombie _ = false

-- Equality of pointers.
unfoldable pub same_chan : Chan → Chan → Bool
same_chan null null = true
same_chan (proc i) (proc j) = i == j
same_chan (object a) (object b) = a == b
same_chan _ _ = false

unfoldable pub is_parent : ℕ → Option ℕ → Bool
is_parent i none = false
is_parent i (some j) = j == i

-- A process pointer as a channel.
unfoldable pub parent_chan : Option ℕ → Chan
parent_chan none = null
parent_chan (some i) = proc i

unfoldable pub acquire : Ptable → Outcome Ptable
acquire t = if t.locked then panic else ok (record t { locked = true })

unfoldable pub release : Ptable → Outcome Ptable
release t = if t.locked then ok (record t { locked = false }) else panic

-- Changes the process with index `i`.
unfoldable pub modify_at : ℕ → (Proc → Proc) → List Proc → List Proc
modify_at i f [] = []
modify_at zero f (p ∷ ps) = f p ∷ ps
modify_at (suc i) f (p ∷ ps) = p ∷ modify_at i f ps

abbrev pub modify : ℕ → (Proc → Proc) → Ptable → Ptable
modify i f t = record t { procs = modify_at i f t.procs }

-- The first process from index `i` on that passes a test.
unfoldable pub find_from : ℕ → (Proc → Bool) → List Proc → Option ℕ
find_from i test [] = none
find_from i test (p ∷ ps) = if test p then some i else find_from (i + 1) test ps

-- `wakeup1`.
unfoldable pub wake : Chan → Proc → Proc
unfolding is_sleeping same_chan
wake c p = if is_sleeping p.state && same_chan p.chan c then record p { state = runnable } else p

abbrev pub wakeup1 : Chan → Ptable → Ptable
wakeup1 c t = record t { procs = map (wake c) t.procs }

unfoldable pub wakeup : Chan → Ptable → Outcome Ptable
unfolding acquire release
wakeup c t = acquire t >>= λ t. release (wakeup1 c t)
