-- ===== src/Proc/Family.antt =====
-- What the loop of `exit` in proc.c does to each slot of the table.
use operating_systems_three.Prelude.{
  ℕ, zero, suc, ◌+◌, ◌≡◌, ◌<◌, ◌⊎◌, refl, subst, arith, inl, inr, ◌==◌, leb, if◌then◌else◌, Bool,
  true, false, Bool-cases, ◌&&◌, some, length, length-map, ℕ_discrete,
}
use operating_systems_three.Proc.{
  sleeping, runnable, Chan, proc, Proc, Ptable, is_sleeping, is_zombie, is_parent, modify,
  modify_at, wake, wakeup1,
}
use operating_systems_three.Proc.Life.{slot, reparent}
use operating_systems_three.Proc.Wakeups.{
  length-modify_at, slot-modify_self, slot-modify_ne, slot-wakeup1,
}

-- A process before and after a call that only wakes processes up and hands `cur`'s children to
-- `init`.
pub record Kept (cur init : ℕ) (handed : Bool) (p q : Proc) : Type 0 where
  pub parent : q.parent ≡ (if is_parent cur p.parent && handed then some init else p.parent)
  pub state : (q.state ≡ p.state) ⊎ ((p.state ≡ sleeping) × (q.state ≡ runnable))
  pub pid : q.pid ≡ p.pid
  pub chan : q.chan ≡ p.chan
  pub stack : (q.kstack ≡ p.kstack) × (q.pgdir ≡ p.pgdir)

pub wake-Kept : (cur init : ℕ) (c : Chan) (p : Proc) → Kept cur init false p (wake c p)
unfolding wake is_sleeping
wake-Kept cur init c p = ground arith

-- One round of the loop of `exit`.
unfoldable pub turn : ℕ → ℕ → Ptable → Ptable
turn i cur t =
    let t' = modify i (λ p. record p { parent = some t.init }) t in
    if is_parent cur (slot i t).parent
    then (if is_zombie (slot i t).state then wakeup1 (proc t.init) t' else t')
    else t

pub reparent-turn :
    (r i cur : ℕ) (t : Ptable) → reparent (suc r) i cur t ≡ reparent r (i + 1) cur (turn i cur t)
unfolding reparent turn
reparent-turn r i cur t = refl

pub turn-init : (i cur : ℕ) (t : Ptable) → (turn i cur t).init ≡ t.init
unfolding turn
turn-init i cur t = ground arith

pub turn-length : (i cur : ℕ) (t : Ptable) → length (turn i cur t).procs ≡ length t.procs
unfolding turn
turn-length i cur t =
    let f : Proc → Proc = λ p. record p { parent = some t.init } in
    ground
      (arith, length-modify_at f t.procs i, length-map (modify_at i f t.procs) (wake (proc t.init)))

pub Kept-same :
    (cur init : ℕ) (h : Bool) (p : Proc)
    → (is_parent cur p.parent && h) ≡ false
    → Kept cur init h p p
Kept-same cur init h p e = record {
  parent = rw e;
  state = inl refl;
  pid = refl;
  chan = refl;
  stack = (refl, refl);
}

-- First one change, and then another that hands nobody over, or only those that the first did not.
pub Kept-trans :
    (cur init : ℕ) (h k l : Bool) (p q r : Proc)
    → (l ≡ true → (h ≡ true) × (k ≡ false) ⊎ (h ≡ false) × (k ≡ true))
    → (l ≡ false → (h ≡ false) × (k ≡ false))
    → Kept cur init h p q
    → Kept cur init k q r
    → Kept cur init l p r
Kept-trans cur init h k true p q r one none_left a b = ground (arith, one refl)
Kept-trans cur init h k false p q r one none_left a b = ground (arith, none_left refl)

Kept-modify :
    (i j cur : ℕ) (t : Ptable)
    → i < length t.procs
    → is_parent cur (slot i t).parent ≡ true
    → Kept cur t.init
        (j == i)
        (slot j t)
        (slot j (modify i (λ p. record p { parent = some t.init }) t))
Kept-modify i j cur t h e =
    let f : Proc → Proc = λ p. record p { parent = some t.init } in
    elim (ℕ_discrete j i) [
      | yes same ↦
          let hit : (i == i) ≡ true = ground arith in
          rw (same, slot-modify_self f t i h)
            (record {
              parent = rw (e, hit);
              state = inl refl;
              pid = refl;
              chan = refl;
              stack = (refl, refl);
            })
      | no ne ↦
          let miss : (j == i) ≡ false = ground arith in
          rw (slot-modify_ne f t i j ne) (Kept-same cur t.init (j == i) (slot j t) (ground arith))
    ]

-- The slot that the round is about, and the others.
pub turn-slot :
    (i j cur : ℕ) (t : Ptable)
    → i < length t.procs
    → Kept cur t.init (j == i) (slot j t) (slot j (turn i cur t))
unfolding turn
turn-slot i j cur t h =
    let f : Proc → Proc = λ p. record p { parent = some t.init } in
    elim (Bool-cases (is_parent cur (slot i t).parent)) [
      | inl e ↦ elim (Bool-cases (is_zombie (slot i t).state)) [
        | inl z ↦
            rw (e, z, slot-wakeup1 (proc t.init) (modify i f t) j)
              (Kept-trans cur t.init (j == i) false (j == i) (slot j t) (slot j (modify i f t))
                (wake (proc t.init) (slot j (modify i f t))) (λ l. inl (l, refl)) (λ l. (l, refl))
                (Kept-modify i j cur t h e)
                (wake-Kept cur t.init (proc t.init) (slot j (modify i f t))))
        | inr z ↦ rw (e, z) (Kept-modify i j cur t h e)
      ]
      | inr e ↦ rw e (Kept-same cur t.init (j == i) (slot j t) (mine (ℕ_discrete j i) e))
    ]
  where
    mine :
        Dec (j ≡ i)
        → is_parent cur (slot i t).parent ≡ false
        → (is_parent cur (slot j t).parent && j == i) ≡ false
    mine (yes same) e = rw (same, e)
    mine (no ne) e = ground arith

pub reparent-Kept :
    (r i j cur : ℕ) (t : Ptable)
    → i + r ≡ length t.procs
    → j < length t.procs
    → Kept cur t.init (leb i j) (slot j t) (slot j (reparent r i cur t))
reparent-Kept zero i j cur t e h =
    let late : leb i j ≡ false = ground arith in
    unfold reparent in Kept-same cur t.init (leb i j) (slot j t) (ground arith)
reparent-Kept (suc r) i j cur t e h = rw (reparent-turn r i cur t) (
    Kept-trans cur t.init (j == i) (leb (i + 1) j) (leb i j) (slot j t) (slot j (turn i cur t))
      (slot j (reparent r (i + 1) cur (turn i cur t))) (λ l. ground arith) (λ l. ground arith)
      (turn-slot i j cur t (omega arith))
      (subst
        (λ k.
          Kept cur k (leb (i + 1) j) (slot j (turn i cur t))
            (slot j (reparent r (i + 1) cur (turn i cur t))))
        (turn-init i cur t)
        (reparent-Kept r (i + 1) j cur (turn i cur t) (omega (arith, turn-length i cur t))
          (omega (arith, turn-length i cur t)))))
