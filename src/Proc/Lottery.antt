-- ===== src/Proc/Lottery.antt =====
-- Whom the lottery of `scheduler` picks.
use operating_systems_three.Prelude.{
  ℕ, zero, suc, ◌+◌, ◌%◌, ◌^◌, ltb, ◌≡◌, ◌≢◌, ◌≤◌, ◌<◌, ◌⊎◌, ◌↔◌, refl, sym, ap, subst, ◌∙◌, arith,
  inl, inr, ◌==◌, leb, if◌then◌else◌, Bool, true, false, Bool-cases, List, [], ◌∷◌, none, some,
  get_elem?, take, Option, Option-cases, ok,
}
use operating_systems_three.Proc.{Proc, Ptable, is_runnable, modify_at}
use operating_systems_three.Proc.Sched.{
  total, next_seed, draw, reaches, pick, schedule, run_picked, dispatch,
}

-- The tickets of the runnable processes, and the loop that finds a ticket, in numbers without bound.
unfoldable pub sum_of : List Proc → ℕ
sum_of [] = 0
sum_of (p ∷ ps) = if is_runnable p.state then p.tickets + sum_of ps else sum_of ps

unfoldable pub winner : (r count i : ℕ) → List Proc → Option ℕ
winner r count i [] = none
winner r count i (p ∷ ps) =
    let skip = winner r count (i + 1) ps in
    let pass = winner r (count + p.tickets) (i + 1) ps in
    if is_runnable p.state then (if leb r (count + p.tickets) then some i else pass) else skip

-- The tickets of the runnable processes in front of index `j`.
abbrev pub before : ℕ → List Proc → ℕ
before j ps = sum_of (take j ps)

-- Process `j` is in the table and runnable.
abbrev pub Ready : ℕ → Proc → List Proc → Type 0
Ready j p ps = (get_elem? ps j ≡ some p) × (is_runnable p.state ≡ true)

-- No process in front of index `j` is runnable.
unfoldable pub none_before : ℕ → List Proc → Bool
none_before zero ps = true
none_before (suc j) [] = true
none_before (suc j) (p ∷ ps) = if is_runnable p.state then false else none_before j ps

-- Ticket `r`, where `c` are passed, is one of process `j` of the rest.
abbrev pub HasTicket : ℕ → ℕ → ℕ → Proc → List Proc → Type 0
HasTicket r c j p ps =
    ((none_before j ps ≡ true) ⊎ (c + before j ps < r)) × (r ≤ c + before j ps + p.tickets)

winner-shift : (ps : List Proc) (r c i k : ℕ) → winner r c i ps ≡ some k → i ≤ k
unfolding winner
winner-shift [] r c i k e = cc
winner-shift (p ∷ ps) r c i k e =
    ground (arith, winner-shift ps r c (i + 1) k, winner-shift ps r (c + p.tickets) (i + 1) k)

pub none_before-zero : (j : ℕ) (ps : List Proc) → none_before j ps ≡ true → before j ps ≡ 0
unfolding none_before sum_of
none_before-zero zero ps h = refl
none_before-zero (suc j) [] h = refl
none_before-zero (suc j) (p ∷ ps) h = ground (arith, none_before-zero j ps)

-- Whoever has the ticket is picked.
ticket-picked :
    (ps : List Proc) (r c i j : ℕ) (p : Proc)
    → Ready j p ps
    → HasTicket r c j p ps
    → winner r c i ps ≡ some (i + j)
unfolding winner sum_of none_before
ticket-picked [] r c i j p ready h = cc
ticket-picked (x ∷ ps) r c i zero p ready h = ground arith
ticket-picked (x ∷ ps) r c i (suc j) p ready h =
    ground (arith, ticket-picked ps r c (i + 1) j p, ticket-picked ps r (c + x.tickets) (i + 1) j p)

-- Whoever is picked has the ticket.
picked-ticket :
    (ps : List Proc) (r c i j : ℕ) (p : Proc)
    → Ready j p ps
    → winner r c i ps ≡ some (i + j)
    → HasTicket r c j p ps
unfolding winner sum_of none_before
picked-ticket [] r c i j p ready h = cc
picked-ticket (x ∷ ps) r c i zero p ready h =
    ground (arith, winner-shift ps r (c + x.tickets) (i + 1) (i + 0))
picked-ticket (x ∷ ps) r c i (suc j) p ready h = ground (
  arith,
  picked-ticket ps r c (i + 1) j p,
  picked-ticket ps r (c + x.tickets) (i + 1) j p,
  none_before-zero j ps,
)

-- Only a runnable process of the table is picked.
pub winner-Ready :
    (ps : List Proc) (r c i k : ℕ)
    → winner r c i ps ≡ some k
    → (j : ℕ) × (p : Proc) × (k ≡ i + j) × Ready j p ps
unfolding winner
winner-Ready [] r c i k e = cc
winner-Ready (x ∷ ps) r c i k e = elim (Bool-cases (is_runnable x.state)) [
  | inl live ↦ elim (Bool-cases (leb r (c + x.tickets))) [
    | inl hit ↦ (0, x, ground arith, (refl, live))
    | inr miss ↦
        let (j, p, at, ready) = winner-Ready ps r (c + x.tickets) (i + 1) k (ground arith) in
        (suc j, p, omega arith, ready)
  ]
  | inr idle ↦
      let (j, p, at, ready) = winner-Ready ps r c (i + 1) k (ground arith) in
      (suc j, p, omega arith, ready)
]

-- Somebody holds a ticket that is neither passed nor beyond the last.
winner_rest : (ps : List Proc) (r c i : ℕ) → c < r → r ≤ c + sum_of ps → winner r c i ps ≢ none
unfolding winner sum_of
winner_rest [] r c i lo hi e = omega arith
winner_rest (x ∷ ps) r c i lo hi e =
    ground (arith, winner_rest ps r c (i + 1), winner_rest ps r (c + x.tickets) (i + 1))

-- Somebody is picked if somebody is runnable and the ticket is not beyond the last.
winner_some :
    (ps : List Proc) (r c i j : ℕ) (p : Proc)
    → Ready j p ps
    → r ≤ c + sum_of ps
    → winner r c i ps ≢ none
unfolding winner sum_of
winner_some [] r c i j p ready h e = cc
winner_some (x ∷ ps) r c i zero p ready h e =
    ground (arith, winner_rest ps r (c + x.tickets) (i + 1))
winner_some (x ∷ ps) r c i (suc j) p ready h e =
    ground (arith, winner_some ps r c (i + 1) j p, winner_some ps r (c + x.tickets) (i + 1) j p)

total_lem : (ps : List Proc) → sum_of ps < 2 ^ 31 → total ps ≡ sum_of ps
unfolding total sum_of
total_lem [] h = refl
total_lem (p ∷ ps) h = ground (arith, total_lem ps)

pick_lem : (ps : List Proc) (r c i : ℕ) → c + sum_of ps < 2 ^ 31 → pick r c i ps ≡ winner r c i ps
unfolding pick winner sum_of reaches
pick_lem [] r c i h = refl
pick_lem (p ∷ ps) r c i h = elim (Bool-cases (is_runnable p.state)) [
  | inl live ↦
      let small : c + p.tickets + sum_of ps < 2 ^ 31 = ground arith in
      let same : (c + p.tickets) % 2 ^ 32 ≡ c + p.tickets = omega (arith, small) in
      let low : ltb (c + p.tickets) (2 ^ 31) ≡ true = ground (arith, small) in
      rw (live, same, low, pick_lem ps r (c + p.tickets) (i + 1) small) refl
  | inr idle ↦
      let small : c + sum_of ps < 2 ^ 31 = ground arith in
      rw (idle, pick_lem ps r c (i + 1) small) refl
]

-- The ticket that is drawn is none beyond the last.
draw_lem : (seed count : ℕ) → count + 1 < 2 ^ 31 → (r : ℕ) × (draw seed count ≡ ok r) × (r ≤ count)
unfolding draw
draw_lem seed count h = elim (Bool-cases (count == 0)) [
  | inl e ↦ (0, rw e refl, omega arith)
  | inr e ↦
      let same : (count + 1) % 2 ^ 32 ≡ count + 1 = omega arith in
      let some_by : (count + 1 == 0) ≡ false = ground arith in
      let low : ltb (count + 1) (2 ^ 31) ≡ true = ground arith in
      (seed % (count + 1), rw (e, same, some_by, low) refl, omega arith)
]

-- Where the runnable processes have fewer than 2 ^ 31 tickets: a runnable process runs next exactly if
-- the drawn ticket is one of its own, which are as many as it holds, behind those of the runnable
-- processes in front of it; the first runnable process has ticket 0 as well.
pub pick_iff :
    (ps : List Proc) (r j : ℕ) (p : Proc)
    → sum_of ps < 2 ^ 31
    → Ready j p ps
    → (pick r 0 0 ps ≡ some j) ↔ HasTicket r 0 j p ps
pick_iff ps r j p small ready = (
  λ e. picked-ticket ps r 0 0 j p ready (sym same ∙ e ∙ ap (λ k. some k) front),
  λ h. same ∙ ticket-picked ps r 0 0 j p ready h ∙ ap (λ k. some k) (sym front),
)
  where
    front : j ≡ 0 + j
    front = omega arith

    same : pick r 0 0 ps ≡ winner r 0 0 ps
    same = pick_lem ps r 0 0 (omega (arith, small))

-- A round of `scheduler` that finds the lock free draws the next seed, where the runnable processes
-- have fewer than 2 ^ 31 - 1 tickets, so that no `int` overflows. If a process is runnable, it
-- makes one of the runnable processes running, counts a tick for it, leaves the others alone and
-- keeps the lock for the switch; otherwise it changes no process and releases the lock.
pub schedule_lem :
    (t : Ptable)
    → t.locked ≡ false
    → sum_of t.procs + 1 < 2 ^ 31
    → ((j : ℕ) (p : Proc)
        → Ready j p t.procs
        → (k : ℕ) × (q : Proc) × Ready k q t.procs
          × (schedule t
              ≡ ok (
                some k,
                record t {
                  locked = true;
                  seed = next_seed t.seed;
                  procs = modify_at k dispatch t.procs;
                },
              )))
      × (((j : ℕ) (p : Proc) → ¬ Ready j p t.procs)
          → schedule t ≡ ok (none, record t { locked = false; seed = next_seed t.seed }))
unfolding schedule run_picked
schedule_lem t free small =
    let ps = t.procs in
    let sums = total_lem ps (omega (arith, small)) in
    let (r, drawn, up_to) = draw_lem (next_seed t.seed) (sum_of ps) small in
    let same = pick_lem ps r 0 0 (omega (arith, small)) in
    (
      λ j p ready. elim (Option-cases (winner r 0 0 ps)) [
        | inl e ↦ absurd (winner_some ps r 0 0 j p ready (omega (arith, up_to)) e)
        | inr (k, e) ↦
            let (j', q, at, is) = winner-Ready ps r 0 0 k e in
            let here : j' ≡ k = omega arith in
            (k, q, subst (λ i. Ready i q ps) here is, rw (free, sums, drawn, same, e) refl)
      ],
      λ nobody. elim (Option-cases (winner r 0 0 ps)) [
        | inl e ↦ rw (free, sums, drawn, same, e) refl
        | inr (k, e) ↦ let (j, q, at, is) = winner-Ready ps r 0 0 k e in absurd (nobody j q is)
      ],
    )
