-- ===== src/Proc/Examples.antt =====
-- The process table at a concrete state with init, a parent and its two children.
use operating_systems_three.Prelude.{
  ◌+◌, ◌^◌, ℕ, ◌≡◌, ◌≢◌, ◌<◌, ◌⊎◌, ◌↔◌, refl, List, [], ◌∷◌, arith, true, false, none, some, ok,
}
use operating_systems_three.Proc.{
  sleeping, runnable, unused, zombie, proc, Proc, Ptable, wakeup, modify_at, wake, is_runnable,
  is_parent, is_zombie,
}
use operating_systems_three.Proc.Life.{blank, slot, exit, wait, reaped}
use operating_systems_three.Proc.Sched.{reaches, pick, schedule, sleep, dispatch, next_seed}
use operating_systems_three.Proc.Lottery.{sum_of, Ready, HasTicket, pick_iff, schedule_lem}
use operating_systems_three.Proc.Family.{Kept}
use operating_systems_three.Proc.Exit.{exit_lem}
use operating_systems_three.Proc.Kids.{Child, Dead}
use operating_systems_three.Proc.Wait.{Reaps, Fails, Sleeps, wait_lem, exit-wait}
use operating_systems_three.Proc.Wakeups.{waits_on, wakeup-sleep}

abbrev init_proc : Proc
init_proc = record blank {
  state = sleeping;
  pid = 1;
  chan = proc 0;
  kstack = 4096;
  pgdir = 8192;
  inuse = true;
  tickets = 1;
}

abbrev shell : Proc
shell = record blank {
  state = runnable;
  pid = 2;
  parent = some 0;
  kstack = 12288;
  pgdir = 16384;
  inuse = true;
  tickets = 3;
}

abbrev job : Proc
job = record blank {
  state = runnable;
  pid = 3;
  parent = some 1;
  kstack = 20480;
  pgdir = 24576;
  inuse = true;
  tickets = 5;
}

abbrev corpse : Proc
corpse = record blank {
  state = zombie;
  pid = 4;
  parent = some 1;
  kstack = 28672;
  pgdir = 32768;
  inuse = true;
  tickets = 1;
}

abbrev procs : List Proc
procs = init_proc ∷ shell ∷ job ∷ corpse ∷ blank ∷ []

abbrev table : Ptable
table = record { locked = false; procs = procs; nextpid = 5; seed = 7; init = 0; freed = [] }

-- Both runnable processes get a turn, depending on the ticket.
picks : (pick 3 0 0 procs ≡ some 1) × (pick 4 0 0 procs ≡ some 2)
unfolding pick reaches is_runnable
picks = (refl, refl)

-- The shell waits for its zombie child and gets its pid.
reap :
    wait 1 table
    ≡ ok (
      reaped 4,
      record table {
        procs = init_proc ∷ shell ∷ job ∷ record blank { pgdir = 32768 } ∷ blank ∷ [];
        freed = 28672 ∷ 32768 ∷ [];
      },
    )
unfolding wait modify_at
reap = refl

-- When the shell exits, init is woken up and inherits both children.
orphans :
    exit 1 table
    ≡ ok (record table {
      locked = true;
      procs =
          record init_proc { state = runnable }
          ∷ record shell { state = zombie }
          ∷ record job { parent = some 0 }
          ∷ record corpse { parent = some 0 }
          ∷ blank
          ∷ [];
    })
unfolding exit wake modify_at
orphans = refl

few : sum_of procs < 2 ^ 31
unfolding sum_of is_runnable
few = omega arith

few_more : sum_of procs + 1 < 2 ^ 31
unfolding sum_of is_runnable
few_more = omega arith

pick_iff_example : (pick 4 0 0 procs ≡ some 2) ↔ HasTicket 4 0 2 job procs
unfolding is_runnable
pick_iff_example = pick_iff procs 4 2 job few (refl, refl)

schedule_lem_example :
    ((j : ℕ) (p : Proc)
      → Ready j p procs
      → (k : ℕ) × (q : Proc) × Ready k q procs
        × (schedule table
            ≡ ok (
              some k,
              record table {
                locked = true;
                seed = next_seed 7;
                procs = modify_at k dispatch procs;
              },
            )))
    × (((j : ℕ) (p : Proc) → ¬ Ready j p procs)
        → schedule table ≡ ok (none, record table { locked = false; seed = next_seed 7 }))
schedule_lem_example = schedule_lem table refl few_more

wakeup-sleep_example :
    (s : Ptable) × (u : Ptable) × (sleep false 1 (proc 1) table ≡ ok s)
    × (wakeup (proc 1) (record s { locked = false }) ≡ ok u)
    × (u.locked ≡ false)
    × ((slot 1 u).state ≡ runnable)
    × ((j : ℕ) → waits_on (proc 1) (slot j u) ≡ false)
    × ((j : ℕ) → j ≢ 1 → waits_on (proc 1) (slot j table) ≡ false → slot j u ≡ slot j table)
wakeup-sleep_example = wakeup-sleep 1 (proc 1) table refl (omega arith)

exit_lem_example :
    (u : Ptable) × (exit 1 table ≡ ok u)
    × (u.locked ≡ true)
    × ((slot 1 u).state ≡ zombie)
    × ((slot 1 u).pid ≡ (slot 1 table).pid)
    × (is_parent 1 (slot 1 table).parent ≡ false → (slot 1 u).parent ≡ (slot 1 table).parent)
    × ((j : ℕ) → j < 5 → j ≢ 1 → Kept 1 0 true (slot j table) (slot j u))
    × ((i : ℕ)
        → (slot 1 table).parent ≡ some i
        → i ≢ 1
        → i < 5
        → waits_on (proc i) (slot i u) ≡ false)
    × ((j : ℕ)
        → j < 5
        → is_parent 1 (slot j table).parent ≡ true
        → is_zombie (slot j table).state ≡ true
        → waits_on (proc 0) (slot 0 u) ≡ false)
exit_lem_example = exit_lem 1 table refl (omega arith) (omega arith) (omega arith)

wait_lem_example :
    Reaps 1 table
    ⊎ (((j : ℕ) → Child 1 j procs → ¬ Dead j procs) × (Fails 1 table ⊎ Sleeps 1 table))
wait_lem_example = wait_lem 1 table refl

exit-wait_example :
    (u v : Ptable) × (j : ℕ) × (exit 2 table ≡ ok u)
    × (wait 1 (record u { locked = false }) ≡ ok (reaped (slot j u).pid, v))
    × Child 1 j u.procs
    × Dead j u.procs
    × ((slot j v).state ≡ unused)
    × ((slot j v).pid ≡ 0)
    × ((slot j v).parent ≡ none)
    × ((k : ℕ) → k ≢ j → slot k v ≡ slot k u)
    × (v.freed ≡ (slot j u).kstack ∷ (slot j u).pgdir ∷ u.freed)
    × (v.locked ≡ false)
unfolding slot
exit-wait_example =
    exit-wait 2 1 table refl (omega arith) (omega arith) (omega arith) refl (omega arith)
