-- ===== src/Locks/Spin.antt =====
-- CPUs that take and give back one spin lock, one store at a time and in any order.
use operating_systems_three.Prelude.{
  ℕ, ◌≡◌, ◌≢◌, refl, sym, ap, ◌∙◌, arith, if◌then◌else◌, Bool, true, false, ◌&&◌, Bool-cases, none,
  subst, Outcome, ok, inl, inr, update, ℕ_discrete,
}
use operating_systems_three.Locks.{
  Cpu, pushcli, popcli, SpinLock, initlock, same_cpu, holding, acquire_begin, xchg, set_cpu,
  release_begin, unlock,
}

-- Where a CPU is: outside; in the loop of `acquire`; behind the loop; behind `acquire`; in `release`,
-- behind `lk->cpu = 0`; and there behind the store to `lk->locked`.
pub data Place : Type 0 where
  outside spinning winning inside leaving unlocked : Place

pub record Sys : Type 0 where
  pub lock : SpinLock
  pub cpu : ℕ → Cpu
  pub place : ℕ → Place

abbrev pub moved : (s : Sys) → (i : ℕ) → SpinLock → Cpu → Place → Sys
moved s i lk c p = record { lock = lk; cpu = update s.cpu i c; place = update s.place i p }

-- Each step reads the lock or makes one store to it. Interrupts can only be taken while they are
-- enabled, so a CPU runs the code of the lock alone; `pushcli` and `popcli` of other locks and
-- handlers go on outside of it.
pub data Step (s : Sys) (t : Sys) : Type 0 where
  begins :
      (i : ℕ) (c : Cpu)
      → s.place i ≡ outside
      → acquire_begin i s.lock (s.cpu i) ≡ ok c
      → t ≡ moved s i s.lock c spinning
      → Step s t
  spins :
      (i : ℕ) (got : Bool) (lk : SpinLock)
      → s.place i ≡ spinning
      → xchg s.lock ≡ (got, lk)
      → t ≡ moved s i lk (s.cpu i) (if got then winning else spinning)
      → Step s t
  wins :
      (i : ℕ) → s.place i ≡ winning → t ≡ moved s i (set_cpu i s.lock) (s.cpu i) inside → Step s t
  leaves :
      (i : ℕ) (lk : SpinLock) (c : Cpu)
      → s.place i ≡ inside
      → release_begin i s.lock (s.cpu i) ≡ ok (lk, c)
      → t ≡ moved s i lk c leaving
      → Step s t
  unlocks :
      (i : ℕ) → s.place i ≡ leaving → t ≡ moved s i (unlock s.lock) (s.cpu i) unlocked → Step s t
  ends :
      (i : ℕ) (c : Cpu)
      → s.place i ≡ unlocked
      → popcli (s.cpu i) ≡ ok c
      → t ≡ moved s i s.lock c outside
      → Step s t

pub data Reach (cpus : ℕ → Cpu) : Sys → Type 0 where
  start : Reach cpus (record { lock = initlock; cpu = cpus; place = λ _. outside })
  step : {s t : Sys} → Reach cpus s → Step s t → Reach cpus t

-- Whether the lock names the CPU, and whether the CPU has the lock.
abbrev is_inside : Place → Bool
is_inside inside = true
is_inside _ = false

abbrev is_outside : Place → Bool
is_outside outside = true
is_outside _ = false

abbrev pub owns : Place → Bool
owns winning = true
owns inside = true
owns leaving = true
owns _ = false

acquire_begin_lem :
    (me : ℕ) (lk : SpinLock) (c : Cpu)
    → c.ncli ≡ 0
    → (lk.locked && same_cpu lk.cpu me) ≡ false
    → acquire_begin me lk c ≡ ok (record { ncli = 1; intena = c.enabled; enabled = false })
unfolding acquire_begin holding pushcli popcli
acquire_begin_lem me lk c z free = rw (z, free) refl

release_begin_lem :
    (me : ℕ) (lk : SpinLock) (c : Cpu)
    → c.ncli ≡ 1
    → c.enabled ≡ false
    → (lk.locked && same_cpu lk.cpu me) ≡ true
    → release_begin me lk c ≡ ok (record lk { cpu = none }, c)
unfolding release_begin holding pushcli popcli
release_begin_lem me lk c one off held = rw (one, off, held) refl

popcli_lem :
    (c : Cpu)
    → c.ncli ≡ 1
    → c.enabled ≡ false
    → popcli c ≡ ok (record { ncli = 0; intena = c.intena; enabled = c.intena })
unfolding popcli
popcli_lem c one off = rw (one, off) refl

-- CPU `i`, which had interrupts enabled or not before, fits its place and the lock.
record Fits (before : Bool) (i : ℕ) (lk : SpinLock) (c : Cpu) (p : Place) : Type 0 where
  out : is_outside p ≡ true → (c.ncli ≡ 0) × (c.enabled ≡ before)
  busy : is_outside p ≡ false → (c.ncli ≡ 1) × (c.enabled ≡ false) × (c.intena ≡ before)
  named : same_cpu lk.cpu i ≡ is_inside p
  locked : owns p ≡ true → lk.locked ≡ true

record Inv (cpus : ℕ → Cpu) (s : Sys) : Type 0 where
  fits : (i : ℕ) → Fits (cpus i).enabled i s.lock (s.cpu i) (s.place i)
  alone : (i j : ℕ) → owns (s.place i) ≡ true → owns (s.place j) ≡ true → i ≡ j

ok_inj : {A : Type 0} {a b : A} {x : Outcome A} → x ≡ ok a → x ≡ ok b → a ≡ b
ok_inj e f = cc

both : {a b : Bool} → a ≡ true → b ≡ true → (a && b) ≡ true
both e f = rw (e, f) refl

-- A CPU moves; the others keep fitting, and nobody else has the lock if it has.
move-Inv :
    (cpus : ℕ → Cpu) (s : Sys) (i : ℕ) (lk : SpinLock) (c : Cpu) (p : Place)
    → Inv cpus s
    → Fits (cpus i).enabled i lk c p
    → ((j : ℕ) → j ≢ i → Fits (cpus j).enabled j lk (s.cpu j) (s.place j))
    → ((j : ℕ) → j ≢ i → owns p ≡ true → owns (s.place j) ≡ false)
    → Inv cpus (moved s i lk c p)
unfolding update
move-Inv cpus s i lk c p v mine theirs only = record {
  fits = λ j. elim (ℕ_discrete j i) [
    | yes e ↦ ground (arith, subst (λ k. Fits (cpus k).enabled k lk c p) (sym e) mine)
    | no ne ↦ ground (arith, theirs j ne)
  ];
  alone = λ j k a b. elim (ℕ_discrete j i) [
    | yes e ↦ elim (ℕ_discrete k i) [
      | yes f ↦ e ∙ sym f
      | no nf ↦ absurd (ground (arith, only k nf))
    ]
    | no ne ↦ elim (ℕ_discrete k i) [
      | yes f ↦ absurd (ground (arith, only j ne))
      | no nf ↦ v.alone j k (ground arith) (ground arith)
    ]
  ];
}

module _ (cpus : ℕ → Cpu) (s : Sys) (v : Inv cpus s) (i : ℕ) where
  -- Nobody else has the lock if CPU `i` has it, and the lock then names nobody else.
  apart : owns (s.place i) ≡ true → (j : ℕ) → j ≢ i → owns (s.place j) ≡ false
  apart h j ne = elim (Bool-cases (owns (s.place j))) [
    | inl e ↦ absurd (ne (v.alone j i e h))
    | inr e ↦ e
  ]

  begins-Inv :
      (c : Cpu)
      → s.place i ≡ outside
      → acquire_begin i s.lock (s.cpu i) ≡ ok c
      → Inv cpus (moved s i s.lock c spinning)
  begins-Inv c at e =
      let fit = v.fits i in
      let named : same_cpu s.lock.cpu i ≡ false = fit.named ∙ ap is_inside at in
      let (none_off, on) = fit.out (ap is_outside at) in
      let now = ok_inj e (acquire_begin_lem i s.lock (s.cpu i) none_off (ground (arith, named))) in
      move-Inv cpus s i s.lock c spinning v (ground arith) (λ j ne. v.fits j)
        (λ j ne h. absurd (ground arith))

  spins-Inv :
      s.place i ≡ spinning
      → Inv cpus
          (moved s i (xchg s.lock).1 (s.cpu i) (if (xchg s.lock).0 then winning else spinning))
  unfolding xchg
  spins-Inv at =
      let fit = v.fits i in
      move-Inv cpus s i (xchg s.lock).1 (s.cpu i) (if (xchg s.lock).0 then winning else spinning) v
        (ground arith) (λ j ne. let f = v.fits j in (ground arith))
        (λ j ne h. let f = v.fits j in (ground arith))

  wins-Inv : s.place i ≡ winning → Inv cpus (moved s i (set_cpu i s.lock) (s.cpu i) inside)
  unfolding set_cpu
  wins-Inv at =
      let fit = v.fits i in
      let own : owns (s.place i) ≡ true = ap owns at in
      move-Inv cpus s i (set_cpu i s.lock) (s.cpu i) inside v (ground arith)
        (λ j ne. let f = v.fits j in let a = apart own j ne in (ground arith))
        (λ j ne _. apart own j ne)

  leaves-Inv :
      (lk : SpinLock) (c : Cpu)
      → s.place i ≡ inside
      → release_begin i s.lock (s.cpu i) ≡ ok (lk, c)
      → Inv cpus (moved s i lk c leaving)
  leaves-Inv lk c at e =
      let fit = v.fits i in
      let own : owns (s.place i) ≡ true = ap owns at in
      let (one, off, kept) = fit.busy (ap is_outside at) in
      let held = both (fit.locked own) (fit.named ∙ ap is_inside at) in
      let now = ok_inj e (release_begin_lem i s.lock (s.cpu i) one off held) in
      move-Inv cpus s i lk c leaving v (ground arith)
        (λ j ne. let f = v.fits j in let a = apart own j ne in (ground arith))
        (λ j ne _. apart own j ne)

  unlocks-Inv : s.place i ≡ leaving → Inv cpus (moved s i (unlock s.lock) (s.cpu i) unlocked)
  unfolding unlock
  unlocks-Inv at =
      let fit = v.fits i in
      let own : owns (s.place i) ≡ true = ap owns at in
      move-Inv cpus s i (unlock s.lock) (s.cpu i) unlocked v (ground arith)
        (λ j ne. let f = v.fits j in let a = apart own j ne in (ground arith))
        (λ j ne h. absurd (ground arith))

  ends-Inv :
      (c : Cpu)
      → s.place i ≡ unlocked
      → popcli (s.cpu i) ≡ ok c
      → Inv cpus (moved s i s.lock c outside)
  ends-Inv c at e =
      let fit = v.fits i in
      let (one, off, kept) = fit.busy (ap is_outside at) in
      let now = ok_inj e (popcli_lem (s.cpu i) one off) in
      move-Inv cpus s i s.lock c outside v (ground arith) (λ j ne. v.fits j)
        (λ j ne h. absurd (ground arith))

Step-Inv : (cpus : ℕ → Cpu) {s t : Sys} → Step s t → Inv cpus s → Inv cpus t
Step-Inv cpus {s} (begins i c at e is) v = rw is (begins-Inv cpus s v i c at e)
Step-Inv cpus {s} (spins i got lk at e is) v =
    let P : Bool × SpinLock → Type 0 =
      λ x. Inv cpus (moved s i x.1 (s.cpu i) (if x.0 then winning else spinning)) in
    rw is (subst P e (spins-Inv cpus s v i at))
Step-Inv cpus {s} (wins i at is) v = rw is (wins-Inv cpus s v i at)
Step-Inv cpus {s} (leaves i lk c at e is) v = rw is (leaves-Inv cpus s v i lk c at e)
Step-Inv cpus {s} (unlocks i at is) v = rw is (unlocks-Inv cpus s v i at)
Step-Inv cpus {s} (ends i c at e is) v = rw is (ends-Inv cpus s v i c at e)

Reach-Inv : (cpus : ℕ → Cpu) {s : Sys} → ((i : ℕ) → (cpus i).ncli ≡ 0) → Reach cpus s → Inv cpus s
Reach-Inv cpus idle start = record {
  fits = λ i. record {
    out = λ _. (idle i, refl);
    busy = λ e. ground arith;
    named = refl;
    locked = λ e. ground arith;
  };
  alone = λ i j a b. ground arith;
}
Reach-Inv cpus idle (step r st) = Step-Inv cpus st (Reach-Inv cpus idle r)

-- However CPUs that hold no lock at first take and give back a spin lock, one store at a time: two
-- never have the lock at once, from the exchange that finds it free to the store that frees it; a CPU
-- that is outside has its interrupts enabled exactly if it had at first, and any other has them
-- disabled; and neither `acquire`, nor `release`, nor the `popcli` at its end panics.
pub spin_exclusion :
    (cpus : ℕ → Cpu) (s : Sys)
    → ((i : ℕ) → (cpus i).ncli ≡ 0)
    → Reach cpus s
    → ((i j : ℕ) → owns (s.place i) ≡ true → owns (s.place j) ≡ true → i ≡ j)
      × ((i : ℕ)
          → s.place i ≡ outside
          → ((s.cpu i).enabled ≡ (cpus i).enabled)
            × ((c : Cpu) × (acquire_begin i s.lock (s.cpu i) ≡ ok c)))
      × ((i : ℕ) → s.place i ≢ outside → (s.cpu i).enabled ≡ false)
      × ((i : ℕ)
          → s.place i ≡ inside
          → (lk : SpinLock) × (c : Cpu) × (release_begin i s.lock (s.cpu i) ≡ ok (lk, c)))
      × ((i : ℕ) → s.place i ≡ unlocked → (c : Cpu) × (popcli (s.cpu i) ≡ ok c))
spin_exclusion cpus s idle r =
    let v = Reach-Inv cpus idle r in
    (
      v.alone,
      λ i at.
          let fit = v.fits i in
          let (z, same) = fit.out (ap is_outside at) in
          let named = fit.named ∙ ap is_inside at in
          (same, (_, acquire_begin_lem i s.lock (s.cpu i) z (ground (arith, named)))),
      λ i ne. let (_, off, _) = (v.fits i).busy (not_outside (s.place i) ne) in off,
      λ i at.
          let fit = v.fits i in
          let (one, off, _) = fit.busy (ap is_outside at) in
          let held = both (fit.locked (ap owns at)) (fit.named ∙ ap is_inside at) in
          (_, _, release_begin_lem i s.lock (s.cpu i) one off held),
      λ i at.
          let (one, off, _) = (v.fits i).busy (ap is_outside at) in
          (_, popcli_lem (s.cpu i) one off),
    )
  where
    not_outside : (p : Place) → p ≢ outside → is_outside p ≡ false
    not_outside p ne = ground arith
