-- ===== src/Locks/Sleep.antt =====
-- Processes that take and give back one sleep lock, in any order.
use operating_systems_three.Prelude.{ℕ, ◌≡◌, refl, sym, arith, Bool, true, false, update}
use operating_systems_three.Locks.{
  SleepLock, initsleeplock, acquiresleep, releasesleep, holdingsleep,
}

-- The lock, and whether a process is between its `acquiresleep` and its `releasesleep`.
pub record Sys : Type 0 where
  pub lock : SleepLock
  pub inside : ℕ → Bool

pub data Step (s : Sys) (t : Sys) : Type 0 where
  tries :
      (p : ℕ) (got : Bool) (lk : SleepLock)
      → s.inside p ≡ false
      → acquiresleep p s.lock ≡ (got, lk)
      → t ≡ (record { lock = lk; inside = update s.inside p got })
      → Step s t
  leaves :
      (p : ℕ)
      → s.inside p ≡ true
      → t ≡ (record { lock = releasesleep s.lock; inside = update s.inside p false })
      → Step s t

pub data Reach : Sys → Type 0 where
  start : Reach (record { lock = initsleeplock; inside = λ _. false })
  step : {s t : Sys} → Reach s → Step s t → Reach t

-- The lock knows who is inside.
Inv : Sys → Type 0
Inv s = (p : ℕ) → s.inside p ≡ holdingsleep p s.lock

Step-Inv : {s t : Sys} → Step s t → Inv s → Inv t
unfolding Inv acquiresleep releasesleep holdingsleep update
Step-Inv {s} (tries p got lk out e is) h q = rw is (ground (arith, h p, h q))
Step-Inv {s} (leaves p was is) h q = rw is (ground (arith, h p, h q))

Reach-Inv : {s : Sys} → Reach s → Inv s
unfolding Inv holdingsleep
Reach-Inv start = λ p. refl
Reach-Inv (step r st) = Step-Inv st (Reach-Inv r)

-- However processes take and give back a sleep lock, two are never inside at once, and
-- `holdingsleep` tells each whether it is the one.
pub sleep_exclusion :
    (s : Sys)
    → Reach s
    → ((p : ℕ) → holdingsleep p s.lock ≡ s.inside p)
      × ((p q : ℕ) → s.inside p ≡ true → s.inside q ≡ true → p ≡ q)
unfolding Inv holdingsleep
sleep_exclusion s r = let h = Reach-Inv r in (λ p. sym (h p), λ p q i j. ground (arith, h p, h q))
