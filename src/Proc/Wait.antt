-- ===== src/Proc/Wait.antt =====
-- What `wait` of proc.c comes to, and that it finds a child that exits.
use operating_systems_three.Prelude.{
  ℕ, zero, suc, ◌≡◌, ◌≢◌, ◌<◌, ◌⊎◌, refl, ap, ◌∙◌, arith, inl, inr, Bool, true, false, Bool-cases,
  List, [], ◌∷◌, Option, some, none, Option-cases, ok, get_or, length,
}
use operating_systems_three.Proc.{
  sleeping, unused, zombie, proc, Proc, Ptable, is_zombie, is_parent, modify, release,
}
use operating_systems_three.Proc.Life.{
  blank, slot, exit, scan_kids, reaped, failed, asleep, cleared, wait_found, wait_turn, wait,
}
use operating_systems_three.Proc.Wakeups.{slot-modify_self, slot-modify_ne}
use operating_systems_three.Proc.Exit.{exit_lem}
use operating_systems_three.Proc.Kids.{Child, Dead, scan-found, scan-none}

-- What a call of `wait` by `cur` comes to: it reaps the first zombie among the children, ...
unfoldable pub Reaps : ℕ → Ptable → Type 0
Reaps cur t =
    (j : ℕ) × Child cur j t.procs
    × Dead j t.procs
    × ((m : ℕ) → m < j → Child cur m t.procs → ¬ Dead m t.procs)
    × (wait cur t
        ≡ ok (
          reaped (slot j t).pid,
          record (modify j cleared t) {
            locked = false;
            freed = (slot j t).kstack ∷ (slot j t).pgdir ∷ t.freed;
          },
        ))

-- ... fails without children or if it is killed, ...
unfoldable pub Fails : ℕ → Ptable → Type 0
Fails cur t =
    (((j : ℕ) → ¬ Child cur j t.procs) ⊎ ((slot cur t).killed ≡ true))
    × (wait cur t ≡ ok (failed, record t { locked = false }))

-- ... or sleeps on its own channel as long as there are children that live.
unfoldable pub Sleeps : ℕ → Ptable → Type 0
Sleeps cur t =
    ((j : ℕ) × Child cur j t.procs)
    × ((slot cur t).killed ≡ false)
    × (wait cur t
        ≡ ok (
          asleep,
          record (modify cur (λ p. record p { chan = proc cur; state = sleeping }) t) {
            locked = true;
          },
        ))

-- A call of `wait` that finds the lock free returns, or sleeps with the lock held to be handed
-- over: it reaps the first zombie child, gives its stack and page table back, clears its slot and
-- returns its pid; if no child is a zombie, it fails if there is no child or `cur` is killed, and
-- else sleeps on its own channel.
pub wait_lem :
    (cur : ℕ) (t : Ptable)
    → t.locked ≡ false
    → Reaps cur t
      ⊎ (((j : ℕ) → Child cur j t.procs → ¬ Dead j t.procs) × (Fails cur t ⊎ Sleeps cur t))
unfolding Reaps Fails Sleeps wait wait_turn wait_found release
wait_lem cur t free = elim (Option-cases (scan_kids cur 0 false t.procs).1) [
  | inr (k, e) ↦
      let (j, at, kid, dead, first) = scan-found cur 0 false t.procs k e in
      let same : k ≡ j = omega arith in
      inl (
        j,
        kid,
        dead,
        first,
        rw free
            (ap (λ s. wait_found cur s (record t { locked = true })) (both refl e) ∙ rw same refl),
      )
  | inl e ↦
      let (live, some_kid, no_kid) = scan-none cur 0 false t.procs e in
      inr (
        live,
        elim (Bool-cases (scan_kids cur 0 false t.procs).0) [
          | inr f ↦ inl (
            inl (no_kid f).1,
            rw free (ap (λ s. wait_found cur s (record t { locked = true })) (both f e)),
          )
          | inl h ↦ elim (Bool-cases (slot cur t).killed) [
            | inl dying ↦ inl (
              inr dying,
              rw free (
                  ap (λ s. wait_found cur s (record t { locked = true })) (both h e)
                  ∙ (unfold slot in rw dying refl)),
            )
            | inr going ↦ inr (
              kid_of (some_kid h),
              going,
              rw free (
                  ap (λ s. wait_found cur s (record t { locked = true })) (both h e)
                  ∙ (unfold slot in rw going refl)),
            )
          ]
        ],
      )
]
  where
    both :
        {b : Bool} {k : Option ℕ}
        → (scan_kids cur 0 false t.procs).0 ≡ b
        → (scan_kids cur 0 false t.procs).1 ≡ k
        → scan_kids cur 0 false t.procs ≡ (b, k)
    both h e = λ i. (h i, e i)

    kid_of : (false ≡ true) ⊎ ((j : ℕ) × Child cur j t.procs) → (j : ℕ) × Child cur j t.procs
    kid_of (inl e) = cc
    kid_of (inr kid) = kid

zombie-inside : (ps : List Proc) (j : ℕ) → (get_or ps j blank).state ≡ zombie → j < length ps
zombie-inside [] j e = cc
zombie-inside (p ∷ ps) zero e = omega arith
zombie-inside (p ∷ ps) (suc j) e = omega (arith, zombie-inside ps j e)

-- If a process other than init exits and its parent, another process of the table, then calls
-- `wait`, with the lock handed over and free in between, the parent does not sleep: the call returns
-- the pid of a child that is a zombie, takes the child out of the table, leaves every other slot
-- alone, gives the stack and the page table of the child back, and the lock is free.
pub exit-wait :
    (cur par : ℕ) (t : Ptable)
    → t.locked ≡ false
    → cur ≢ t.init
    → cur < length t.procs
    → t.init < length t.procs
    → (slot cur t).parent ≡ some par
    → par ≢ cur
    → (u v : Ptable) × (j : ℕ) × (exit cur t ≡ ok u)
      × (wait par (record u { locked = false }) ≡ ok (reaped (slot j u).pid, v))
      × Child par j u.procs
      × Dead j u.procs
      × ((slot j v).state ≡ unused)
      × ((slot j v).pid ≡ 0)
      × ((slot j v).parent ≡ none)
      × ((k : ℕ) → k ≢ j → slot k v ≡ slot k u)
      × (v.freed ≡ (slot j u).kstack ∷ (slot j u).pgdir ∷ u.freed)
      × (v.locked ≡ false)
unfolding Reaps
exit-wait cur par t free ne h hi mine other =
    let (u, run, lock, dead, pid, parent, _, _, _) = exit_lem cur t free ne h hi in
    let own : (slot cur u).parent ≡ some par =
      parent (rw mine (unfold is_parent in ground arith)) ∙ mine in
    let kid : is_parent par (slot cur u).parent ≡ true =
      rw own (unfold is_parent in ground arith) in
    let inside : cur < length u.procs = unfold slot in zombie-inside u.procs cur dead in
    elim (wait_lem par (record u { locked = false }) refl) [
      | inl (j, kid, dead, _, found) ↦
          let v = record (modify j cleared u) {
            locked = false;
            freed = (slot j u).kstack ∷ (slot j u).pgdir ∷ u.freed;
          } in
          let now : slot j v ≡ cleared (slot j u) =
            unfold slot in slot-modify_self cleared u j kid.0 in
          (
            u,
            v,
            j,
            run,
            (unfold slot in found),
            kid,
            dead,
            ap (λ p. p.state) now,
            ap (λ p. p.pid) now,
            ap (λ p. p.parent) now,
            λ k ne. (unfold slot in slot-modify_ne cleared u j k ne),
            refl,
            refl,
          )
      | inr (live, _) ↦
          absurd (live cur (inside, (unfold slot in kid)) (unfold slot is_zombie in rw dead))
    ]
