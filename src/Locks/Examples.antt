-- ===== src/Locks/Examples.antt =====
-- Two CPUs at one spin lock, and two processes at one sleep lock.
use operating_systems_three.Prelude.{ℕ, ◌≡◌, ◌≢◌, none, refl, true, false, some, ok, update}
use operating_systems_three.Locks.{
  initsleeplock, acquiresleep, holdingsleep, Cpu, SpinLock, initlock, pushcli, acquire_begin,
  holding, popcli, xchg, set_cpu, release_begin,
}
use operating_systems_three.Locks.Sleep
use operating_systems_three.Locks.Spin
use operating_systems_three.Locks.Sleep.{sleep_exclusion}
use operating_systems_three.Locks.Spin.{
  Place, outside, spinning, winning, inside, unlocked, owns, moved, spin_exclusion,
}

abbrev idle : Cpu
idle = record { ncli = 0; intena = false; enabled = true }

abbrev at_start : Spin.Sys
at_start = record { lock = initlock; cpu = λ _. idle; place = λ _. outside }

abbrev spun : Spin.Sys
spun = moved at_start 1 initlock (record { ncli = 1; intena = true; enabled = false }) spinning

abbrev won : Spin.Sys
won = moved spun 1 (record { locked = true; cpu = none }) (spun.cpu 1) winning

abbrev taken : Spin.Sys
taken = moved won 1 (record { locked = true; cpu = some 1 }) (won.cpu 1) inside

taken-Reach : Spin.Reach (λ _. idle) taken
unfolding acquire_begin holding pushcli popcli xchg set_cpu update
taken-Reach =
    Spin.Reach.step
      (Spin.Reach.step (Spin.Reach.step Spin.Reach.start (Spin.Step.begins 1 _ refl refl refl))
        (Spin.Step.spins 1 true _ refl refl refl))
      (Spin.Step.wins 1 refl refl)

spin_exclusion_example :
    ((i j : ℕ) → owns (taken.place i) ≡ true → owns (taken.place j) ≡ true → i ≡ j)
    × ((i : ℕ)
        → taken.place i ≡ outside
        → ((taken.cpu i).enabled ≡ true)
          × ((c : Cpu) × (acquire_begin i taken.lock (taken.cpu i) ≡ ok c)))
    × ((i : ℕ) → taken.place i ≢ outside → (taken.cpu i).enabled ≡ false)
    × ((i : ℕ)
        → taken.place i ≡ inside
        → (lk : SpinLock) × (c : Cpu) × (release_begin i taken.lock (taken.cpu i) ≡ ok (lk, c)))
    × ((i : ℕ) → taken.place i ≡ unlocked → (c : Cpu) × (popcli (taken.cpu i) ≡ ok c))
spin_exclusion_example = spin_exclusion (λ _. idle) taken (λ i. refl) taken-Reach

abbrev asleep_at_start : Sleep.Sys
asleep_at_start = record { lock = initsleeplock; inside = λ _. false }

-- Process 4 has the lock, and process 5 has tried in vain.
abbrev contended : Sleep.Sys
contended = record {
  lock = record { locked = true; pid = 4 };
  inside = update (update (λ _. false) 4 true) 5 false;
}

contended-Reach : Sleep.Reach contended
unfolding acquiresleep update
contended-Reach =
    Sleep.Reach.step (Sleep.Reach.step Sleep.Reach.start (Sleep.Step.tries 4 true _ refl refl refl))
      (Sleep.Step.tries 5 false _ refl refl refl)

sleep_exclusion_example :
    ((p : ℕ) → holdingsleep p contended.lock ≡ contended.inside p)
    × ((p q : ℕ) → contended.inside p ≡ true → contended.inside q ≡ true → p ≡ q)
sleep_exclusion_example = sleep_exclusion contended contended-Reach
