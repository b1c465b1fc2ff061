-- ===== src/Proc/Wakeups.antt =====
-- Slots of the process table under the changes of proc.c, and `sleep` against `wakeup`.
use operating_systems_three.Prelude.{
  ℕ, zero, suc, ◌≡◌, ◌≢◌, ◌<◌, refl, ap, ◌∙◌, arith, Bool, true, false, ◌&&◌, List, [], ◌∷◌, map,
  ok, get_or, length,
}
use operating_systems_three.Proc.{
  sleeping, runnable, Chan, null, proc, object, Proc, Ptable, is_sleeping, same_chan, modify,
  modify_at, wake, wakeup1, wakeup,
}
use operating_systems_three.Proc.Life.{blank, slot}
use operating_systems_three.Proc.Sched.{sleep}

module _ (f : Proc → Proc) where
  get_or-modify_at_self :
      (ps : List Proc) (i : ℕ)
      → i < length ps
      → get_or (modify_at i f ps) i blank ≡ f (get_or ps i blank)
  unfolding modify_at
  get_or-modify_at_self [] i h = absurd (omega arith)
  get_or-modify_at_self (p ∷ ps) zero h = refl
  get_or-modify_at_self (p ∷ ps) (suc i) h = get_or-modify_at_self ps i (omega arith)

  get_or-modify_at_ne :
      (ps : List Proc) (i j : ℕ) → j ≢ i → get_or (modify_at i f ps) j blank ≡ get_or ps j blank
  unfolding modify_at
  get_or-modify_at_ne [] i j h = refl
  get_or-modify_at_ne (p ∷ ps) zero zero h = absurd (h refl)
  get_or-modify_at_ne (p ∷ ps) zero (suc j) h = refl
  get_or-modify_at_ne (p ∷ ps) (suc i) zero h = refl
  get_or-modify_at_ne (p ∷ ps) (suc i) (suc j) h = get_or-modify_at_ne ps i j (λ e. h (ap suc e))

  pub length-modify_at : (ps : List Proc) (i : ℕ) → length (modify_at i f ps) ≡ length ps
  unfolding modify_at
  length-modify_at [] i = refl
  length-modify_at (p ∷ ps) zero = refl
  length-modify_at (p ∷ ps) (suc i) = ap suc (length-modify_at ps i)

  pub slot-modify_self :
      (t : Ptable) (i : ℕ) → i < length t.procs → slot i (modify i f t) ≡ f (slot i t)
  unfolding slot
  slot-modify_self t i = get_or-modify_at_self t.procs i

  pub slot-modify_ne : (t : Ptable) (i j : ℕ) → j ≢ i → slot j (modify i f t) ≡ slot j t
  unfolding slot
  slot-modify_ne t i j = get_or-modify_at_ne t.procs i j

get_or-wake :
    (c : Chan) (ps : List Proc) (j : ℕ)
    → get_or (map (wake c) ps) j blank ≡ wake c (get_or ps j blank)
unfolding wake
get_or-wake c [] j = refl
get_or-wake c (p ∷ ps) zero = refl
get_or-wake c (p ∷ ps) (suc j) = get_or-wake c ps j

pub slot-wakeup1 : (c : Chan) (t : Ptable) (j : ℕ) → slot j (wakeup1 c t) ≡ wake c (slot j t)
unfolding slot
slot-wakeup1 c t j = get_or-wake c t.procs j

pub same_chan_refl : (c : Chan) → same_chan c c ≡ true
unfolding same_chan
same_chan_refl null = refl
same_chan_refl (proc i) = ground arith
same_chan_refl (object a) = ground arith

-- A sleeper on `c`.
abbrev pub waits_on : Chan → Proc → Bool
waits_on c p = is_sleeping p.state && same_chan p.chan c

pub waits_on-wake : (c : Chan) (p : Proc) → waits_on c (wake c p) ≡ false
unfolding wake is_sleeping
waits_on-wake c p = ground arith

wake_other : (c : Chan) (p : Proc) → waits_on c p ≡ false → wake c p ≡ p
unfolding wake
wake_other c p e = rw e

-- Where the lock is free, a process goes to sleep on a channel; its lock is handed over, and another
-- CPU that takes it wakes the channel up: both calls return, the lock is free at the end, the
-- process is runnable and nobody sleeps on the channel any more. A process that did not sleep on
-- the channel before is as it was.
pub wakeup-sleep :
    (cur : ℕ) (c : Chan) (t : Ptable)
    → t.locked ≡ false
    → cur < length t.procs
    → (s : Ptable) × (u : Ptable) × (sleep false cur c t ≡ ok s)
      × (wakeup c (record s { locked = false }) ≡ ok u)
      × (u.locked ≡ false)
      × ((slot cur u).state ≡ runnable)
      × ((j : ℕ) → waits_on c (slot j u) ≡ false)
      × ((j : ℕ) → j ≢ cur → waits_on c (slot j t) ≡ false → slot j u ≡ slot j t)
unfolding wakeup sleep
wakeup-sleep cur c t free h =
    let f : Proc → Proc = λ p. record p { chan = c; state = sleeping } in
    let s : Ptable = record (modify cur f t) { locked = true } in
    let after : (j : ℕ) → slot j (wakeup1 c s) ≡ wake c (slot j s) = λ j. slot-wakeup1 c s j in
    (
      s,
      record (wakeup1 c s) { locked = false },
      rw free,
      refl,
      refl,
      unfold slot wake is_sleeping in
          ap (λ (p : Proc). p.state) (after cur ∙ ap (wake c) (slot-modify_self f t cur h))
          ∙ rw (same_chan_refl c),
      unfold slot in λ j. ap (waits_on c) (after j) ∙ waits_on-wake c (slot j s),
      unfold slot in
          λ j ne calm.
            after j ∙ ap (wake c) (slot-modify_ne f t cur j ne) ∙ wake_other c (slot j t) calm,
    )
