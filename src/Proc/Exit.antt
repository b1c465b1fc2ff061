-- ===== src/Proc/Exit.antt =====
-- `exit` of proc.c: children go to init, and whoever has to reap is awake.
use operating_systems_three.Prelude.{
  ℕ, zero, suc, ◌+◌, ◌≡◌, ◌≢◌, ◌≤◌, ◌<◌, refl, sym, ap, subst, ◌∙◌, arith, inl, inr, ◌==◌, leb,
  Bool, true, false, some, ok, length, length-map, ℕ_discrete,
}
use operating_systems_three.Proc.{
  zombie, Chan, proc, Proc, Ptable, is_sleeping, is_zombie, is_parent, parent_chan, modify, wake,
  wakeup1,
}
use operating_systems_three.Proc.Life.{slot, reparent, exit}
use operating_systems_three.Proc.Wakeups.{
  slot-modify_self, slot-modify_ne, slot-wakeup1, waits_on, waits_on-wake,
}
use operating_systems_three.Proc.Family.{
  Kept, Kept-trans, wake-Kept, reparent-Kept, reparent-turn, turn, turn-slot, turn-init,
  turn-length,
}

-- Nobody falls asleep by such a change, and no zombie comes back to life.
Kept-awake :
    (cur init : ℕ) (h : Bool) (c : Chan) (p q : Proc)
    → Kept cur init h p q
    → waits_on c p ≡ false
    → waits_on c q ≡ false
unfolding is_sleeping
Kept-awake cur init h c p q k e = elim k.state [
  | inl same ↦ rw (same, k.chan) e
  | inr (was, is) ↦ rw is
]

Kept-zombie :
    (cur init : ℕ) (h : Bool) (p q : Proc)
    → Kept cur init h p q
    → is_zombie p.state ≡ true
    → is_zombie q.state ≡ true
unfolding is_zombie
Kept-zombie cur init h p q k e = ground arith

turn-wakes :
    (i cur : ℕ) (t : Ptable)
    → is_parent cur (slot i t).parent ≡ true
    → is_zombie (slot i t).state ≡ true
    → waits_on (proc t.init) (slot t.init (turn i cur t)) ≡ false
unfolding turn
turn-wakes i cur t e z =
    let f : Proc → Proc = λ p. record p { parent = some t.init } in
    rw (e, z)
      (ap (waits_on (proc t.init)) (slot-wakeup1 (proc t.init) (modify i f t) t.init)
        ∙ waits_on-wake (proc t.init) (slot t.init (modify i f t)))

-- The loop wakes init up if it meets a zombie among the children.
reparent-wakes :
    (r i j cur : ℕ) (t : Ptable)
    → i + r ≡ length t.procs
    → t.init < length t.procs
    → i ≤ j
    → j < length t.procs
    → is_parent cur (slot j t).parent ≡ true
    → is_zombie (slot j t).state ≡ true
    → waits_on (proc t.init) (slot t.init (reparent r i cur t)) ≡ false
reparent-wakes zero i j cur t e hi lo h kid dead = absurd (omega arith)
reparent-wakes (suc r) i j cur t e hi lo h kid dead =
    let u = turn i cur t in
    let same = turn-init i cur t in
    let long = turn-length i cur t in
    rw (reparent-turn r i cur t) (
      subst (λ k. waits_on (proc k) (slot k (reparent r (i + 1) cur u)) ≡ false) same
        (elim (ℕ_discrete j i) [
          | yes now ↦
              Kept-awake cur u.init (leb (i + 1) u.init) (proc u.init) (slot u.init u)
                (slot u.init (reparent r (i + 1) cur u))
                (reparent-Kept r (i + 1) u.init cur u (omega arith) (omega arith))
                (subst (λ k. waits_on (proc k) (slot k u) ≡ false) (sym same)
                  (turn-wakes i cur t (subst (λ k. is_parent cur (slot k t).parent ≡ true) now kid)
                    (subst (λ k. is_zombie (slot k t).state ≡ true) now dead)))
          | no ne ↦
              let k = turn-slot i j cur t (omega arith) in
              let other : (j == i) ≡ false = ground arith in
              reparent-wakes r (i + 1) j cur u (omega arith) (omega arith) (omega arith)
                (omega arith) (ground arith)
                (Kept-zombie cur t.init (j == i) (slot j t) (slot j u) k dead)
        ]))

reparent-locked :
    (r i cur : ℕ) (t : Ptable)
    → ((reparent r i cur t).locked ≡ t.locked)
      × (length (reparent r i cur t).procs ≡ length t.procs)
unfolding reparent
reparent-locked zero i cur t = (refl, refl)
reparent-locked (suc r) i cur t =
    let (a, b) = reparent-locked r (i + 1) cur (turn i cur t) in
    (
      rw (reparent-turn r i cur t) (a ∙ (unfold turn in ground arith)),
      rw (reparent-turn r i cur t) (b ∙ turn-length i cur t),
    )

-- Process `cur`, which is not init, exits where the lock is free: the call returns, up to the switch, and then
-- `cur` is a zombie, still with its pid and its parent, unless that is itself, and the table locked. Every other
-- process is awake if it was, and keeps its parent, but a child of `cur` is handed on to init. The
-- parent of `cur` does not sleep in `wait` any more, and neither does init if a child that was
-- handed on is a zombie.
pub exit_lem :
    (cur : ℕ) (t : Ptable)
    → t.locked ≡ false
    → cur ≢ t.init
    → cur < length t.procs
    → t.init < length t.procs
    → (u : Ptable) × (exit cur t ≡ ok u)
      × (u.locked ≡ true)
      × ((slot cur u).state ≡ zombie)
      × ((slot cur u).pid ≡ (slot cur t).pid)
      × (is_parent cur (slot cur t).parent ≡ false → (slot cur u).parent ≡ (slot cur t).parent)
      × ((j : ℕ) → j < length t.procs → j ≢ cur → Kept cur t.init true (slot j t) (slot j u))
      × ((i : ℕ)
          → (slot cur t).parent ≡ some i
          → i ≢ cur
          → i < length t.procs
          → waits_on (proc i) (slot i u) ≡ false)
      × ((j : ℕ)
          → j < length t.procs
          → is_parent cur (slot j t).parent ≡ true
          → is_zombie (slot j t).state ≡ true
          → waits_on (proc t.init) (slot t.init u) ≡ false)
unfolding exit
exit_lem cur t free ne h hi =
    let f : Proc → Proc = λ p. record p { state = zombie } in
    let c = parent_chan (slot cur t).parent in
    let s : Ptable = wakeup1 c (record t { locked = true }) in
    let long : length s.procs ≡ length t.procs = length-map t.procs (wake c) in
    let u = reparent (length s.procs) 0 cur s in
    let v = modify cur f u in
    let woken : (j : ℕ) → Kept cur t.init false (slot j t) (slot j s) = λ j.
      rw (slot-wakeup1 c (record t { locked = true }) j)
        (unfold slot in wake-Kept cur t.init c (slot j t)) in
    let early : (j : ℕ) → leb 0 j ≡ true = λ j. ground arith in
    let kept : (j : ℕ) → j < length t.procs → Kept cur t.init true (slot j s) (slot j u) = λ j l.
      subst (λ b. Kept cur t.init b (slot j s) (slot j u)) (early j)
        (reparent-Kept (length s.procs) 0 j cur s (omega arith) (omega (arith, long))) in
    let (lock, len) = reparent-locked (length s.procs) 0 cur s in
    let inside : cur < length u.procs = omega (arith, long, len) in
    let same : (j : ℕ) → j ≢ cur → slot j v ≡ slot j u = λ j. slot-modify_ne f u cur j in
    (
      v,
      (let other : (cur == t.init) ≡ false = ground arith in rw (other, free)),
      lock,
      ap (λ (p : Proc). p.state) (slot-modify_self f u cur inside),
      ap (λ (p : Proc). p.pid) (slot-modify_self f u cur inside)
          ∙ (kept cur h).pid
          ∙ (woken cur).pid,
      λ own.
          ap (λ (p : Proc). p.parent) (slot-modify_self f u cur inside)
          ∙ ground (arith, (kept cur h).parent, (woken cur).parent),
      λ j l no. rw (same j no) (
          Kept-trans cur t.init false true true (slot j t) (slot j s) (slot j u)
            (λ _. inr (refl, refl)) (λ e. ground arith) (woken j) (kept j l)),
      λ i e no l. rw (same i no) (
          Kept-awake cur t.init true (proc i) (slot i s) (slot i u) (kept i l) (
            rw (slot-wakeup1 c (record t { locked = true }) i, e)
              (unfold parent_chan in waits_on-wake (proc i) (slot i t)))),
      λ j l kid dead. rw (same t.init (λ e. ne (sym e))) (
          reparent-wakes (length s.procs) 0 j cur s (omega arith) (omega (arith, long))
            (omega arith) (omega (arith, long)) (rw (woken j).parent (ground arith))
            (Kept-zombie cur t.init false (slot j t) (slot j s) (woken j) dead)),
    )
