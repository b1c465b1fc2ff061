-- ===== src/Proc/Sched.antt =====
-- The lottery of `scheduler`, and `yield`, `sleep` and `getpstat` of proc.c.
use operating_systems_three.Prelude.{
  ℕ, ◌+◌, ◌-◌, ◌*◌, ◌%◌, ◌^◌, ◌==◌, ltb, leb, ◌&&◌, if◌then◌else◌, Bool, true, List, [], ◌∷◌,
  Option, none, some, Outcome, ok, panic, ◌>>=◌,
}
use operating_systems_three.Proc.{
  sleeping, runnable, running, Chan, null, Proc, Ptable, is_runnable, is_unused, acquire, release,
  modify,
}

-- The first loop of `scheduler`: the tickets of the runnable processes, in an `int`, which is kept
-- modulo 2 ^ 32; the numbers from 2 ^ 31 on are the negative ones.
unfoldable pub total : List Proc → ℕ
unfolding is_runnable
total [] = 0
total (p ∷ ps) =
    let rest = total ps in if is_runnable p.state then (p.tickets + rest) % 2 ^ 32 else rest

-- `seed = (8121 * seed + 28411) % 134456`.
unfoldable pub next_seed : ℕ → ℕ
next_seed seed = (8121 * seed + 28411) % 134456

-- The ticket that is drawn: the rest of a number that is not negative by a signed one has the
-- magnitude of the latter for its modulus. Where that is 0 the division traps, which ends in `panic`.
unfoldable pub draw : ℕ → ℕ → Outcome ℕ
draw seed count =
    let by = (count + 1) % 2 ^ 32 in
    if count == 0
    then ok 0
    else (if by == 0 then panic else ok (seed % (if ltb by (2 ^ 31) then by else 2 ^ 32 - by)))

-- `count >= r` for the tickets passed with those of the process; `r` is not negative.
unfoldable pub reaches : (r count : ℕ) → Bool
reaches r count = ltb count (2 ^ 31) && leb r count

-- The second loop, from index `i` on and with `count` tickets passed: the process that runs next.
unfoldable pub pick : (r count i : ℕ) → List Proc → Option ℕ
unfolding is_runnable reaches
pick r count i [] = none
pick r count i (p ∷ ps) =
    let skip = pick r count (i + 1) ps in
    let pass = pick r ((count + p.tickets) % 2 ^ 32) (i + 1) ps in
    if is_runnable p.state
    then (if reaches r ((count + p.tickets) % 2 ^ 32) then some i else pass)
    else skip

-- What `scheduler` does to the chosen process before `swtch`.
abbrev pub dispatch : Proc → Proc
dispatch p = record p { state = running; ticks = p.ticks + 1 }

-- The end of a round: a chosen process is switched to with the lock held, otherwise the lock is
-- released.
unfoldable pub run_picked : Option ℕ → Ptable → Outcome (Option ℕ × Ptable)
unfolding release
run_picked none t = release t >>= λ t. ok (none, t)
run_picked (some i) t = ok (some i, modify i dispatch t)

-- One round of `scheduler`, up to the switch if a process is chosen, and which one that is.
unfoldable pub schedule : Ptable → Outcome (Option ℕ × Ptable)
unfolding acquire total next_seed draw pick run_picked
schedule t = do
  t ← acquire t
  let seed = next_seed t.seed
  r ← draw seed (total t.procs)
  run_picked (pick r 0 0 t.procs) (record t { seed = seed })

-- `yield`, up to the switch in `sched`.
unfoldable pub yield : ℕ → Ptable → Outcome Ptable
unfolding acquire
yield cur t = acquire t >>= λ t. ok (modify cur (λ p. record p { state = runnable }) t)

-- `sleep` of the current process, up to the switch in `sched`; `own_lock` says that the lock that is
-- handed over is `ptable.lock`, which is then held already.
unfoldable pub sleep : Bool → ℕ → Chan → Ptable → Outcome Ptable
unfolding acquire
sleep own_lock cur c t =
    (if own_lock then (if t.locked then ok t else panic) else acquire t) >>= λ t.
    ok (modify cur (λ p. record p { chan = c; state = sleeping }) t)

-- `sleep` after the switch back.
unfoldable pub awake : Bool → ℕ → Ptable → Outcome Ptable
unfolding release
awake own_lock cur t =
    let t = modify cur (λ p. record p { chan = null }) t in if own_lock then ok t else release t

-- A row of `struct pstat`.
pub record Stat : Type 0 where
  pub inuse : Bool
  pub pid : ℕ
  pub tickets : ℕ
  pub ticks : ℕ

-- The loop of `getpstat`: the row of an unused process stays as it was.
unfoldable pub stats : List Proc → List Stat → List Stat
unfolding is_unused
stats [] rows = rows
stats (p ∷ ps) [] = []
stats (p ∷ ps) (r ∷ rows) =
    (if is_unused p.state
      then r
      else record { inuse = true; pid = p.pid; tickets = p.tickets; ticks = p.ticks })
    ∷ stats ps rows

unfoldable pub getpstat : List Stat → Ptable → Outcome (List Stat × Ptable)
unfolding acquire release stats
getpstat rows t = do t ← acquire t; let rows = stats t.procs rows; t ← release t; ok (rows, t)
