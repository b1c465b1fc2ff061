-- ===== src/Locks.antt =====
-- src/sleeplock.c and src/spinlock.c. A spin lock is `cpu`, the CPU that holds it, or nothing; the
-- program counters that it keeps for debugging are left out.
pub mod Sleep
pub mod Spin
mod Examples
use operating_systems_three.Prelude.{
  ℕ, zero, suc, ◌+◌, ◌-◌, ◌==◌, ltb, if◌then◌else◌, Bool, true, false, not, ◌&&◌, ◌||◌, Option,
  none, some, Outcome, ok, panic, ◌>>=◌, ◌>>◌, panic_if, update,
}

-- `struct sleeplock`, without the spin lock that every call holds while it runs.
pub record SleepLock : Type 0 where
  pub locked : Bool
  pub pid : ℕ

abbrev pub initsleeplock : SleepLock
initsleeplock = record { locked = false; pid = 0 }

-- One turn of the loop of `acquiresleep` by process `cur`: `false` if it sleeps, and will try again.
unfoldable pub acquiresleep : ℕ → SleepLock → Bool × SleepLock
acquiresleep cur lk = if lk.locked then (false, lk) else (true, record { locked = true; pid = cur })

unfoldable pub releasesleep : SleepLock → SleepLock
releasesleep lk = record { locked = false; pid = 0 }

unfoldable pub holdingsleep : ℕ → SleepLock → Bool
holdingsleep cur lk = lk.locked && lk.pid == cur

-- The fields of `struct cpu` that `pushcli` uses, and whether interrupts are enabled.
pub record Cpu : Type 0 where
  pub ncli : ℕ
  pub intena : Bool
  pub enabled : Bool

unfoldable pub pushcli : Cpu → Cpu
pushcli c = record {
  ncli = c.ncli + 1;
  intena = if c.ncli == 0 then c.enabled else c.intena;
  enabled = false;
}

unfoldable pub popcli : Cpu → Outcome Cpu
popcli c = do
  panic_if c.enabled
  panic_if (c.ncli == 0)
  ok (record c { ncli = c.ncli - 1; enabled = c.ncli == 1 && c.intena })

-- `struct spinlock`.
pub record SpinLock : Type 0 where
  pub locked : Bool
  pub cpu : Option ℕ

abbrev pub initlock : SpinLock
initlock = record { locked = false; cpu = none }

abbrev pub same_cpu : Option ℕ → ℕ → Bool
same_cpu none me = false
same_cpu (some i) me = i == me

-- The value that `holding` returns; its `pushcli` and `popcli` cancel out.
unfoldable pub holding : ℕ → SpinLock → Cpu → Outcome (Bool × Cpu)
unfolding pushcli popcli
holding me lk c = popcli (pushcli c) >>= λ c. ok (lk.locked && same_cpu lk.cpu me, c)

-- `acquire` up to its loop.
unfoldable pub acquire_begin : ℕ → SpinLock → Cpu → Outcome Cpu
unfolding pushcli holding
acquire_begin me lk c = do (held, c) ← holding me lk (pushcli c); panic_if held; ok c

-- One round of the loop of `acquire`, an atomic exchange: whether the lock was free.
unfoldable pub xchg : SpinLock → Bool × SpinLock
xchg lk = (not lk.locked, record lk { locked = true })

-- `lk->cpu = mycpu()`, behind the loop.
unfoldable pub set_cpu : ℕ → SpinLock → SpinLock
set_cpu me lk = record lk { cpu = some me }

-- `release` up to `lk->cpu = 0`.
unfoldable pub release_begin : ℕ → SpinLock → Cpu → Outcome (SpinLock × Cpu)
unfolding holding
release_begin me lk c = do
  (held, c) ← holding me lk c
  panic_if (not held)
  ok (record lk { cpu = none }, c)

-- `movl $0, lk->locked`; `popcli` is what is left of `release`.
unfoldable pub unlock : SpinLock → SpinLock
unlock lk = record lk { locked = false }
