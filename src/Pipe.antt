-- ===== src/Pipe.antt =====
-- src/pipe.c: the ring buffer of a pipe. A call that sleeps is cut at the sleep: it returns
-- `asleep`, the lock is given up, and the call goes on with what is left when it is woken.
pub mod Inv
pub mod Writes
pub mod Reads
pub mod Stream
mod Examples
use operating_systems_three.Prelude.{
  ℕ, zero, suc, ◌+◌, ◌%◌, ◌^◌, ◌==◌, if◌then◌else◌, Bool, true, false, not, ◌&&◌, ◌||◌, List, [],
  ◌∷◌, ◌++◌, update, Outcome, ok, panic, ◌>>=◌,
}

-- PIPESIZE.
abbrev pub pipe_size : ℕ
pipe_size = 512

-- The channels `&p->nread` and `&p->nwrite`, on which readers and writers sleep.
pub data Chan : Type 0 where
  readers writers : Chan

-- `struct pipe`. `locked` says that the caller holds `p->lock`; `woken` collects the `wakeup` calls.
pub record Pipe : Type 0 where
  pub locked : Bool
  pub buf : ℕ → ℕ
  pub nread : ℕ
  pub nwrite : ℕ
  pub readopen : Bool
  pub writeopen : Bool
  pub woken : List Chan

-- How a call leaves the processor.
pub data Stop : Type 0 where
  returned failed : Stop
  asleep : Chan → Stop

acquire : Pipe → Outcome Pipe
acquire p = if p.locked then panic else ok (record p { locked = true })

release : Pipe → Outcome Pipe
release p = if p.locked then ok (record p { locked = false }) else panic

-- `release(&p->lock)`, and the result.
leave : {A : Type 0} → Stop → A → Pipe → Outcome (Stop × A × Pipe)
leave stop a p = release p >>= λ p. ok (stop, a, p)

wakeup : Chan → Pipe → Pipe
wakeup c p = record p { woken = c ∷ p.woken }

-- The fields that `pipealloc` sets, on the page that `kalloc` returned.
unfoldable pub init : Pipe → Pipe
init p = record p {
  readopen = true;
  writeopen = true;
  nwrite = 0;
  nread = 0;
  locked = false;
  woken = [];
}

-- `pipeclose`: the pipe, and whether its page was freed.
unfoldable pub close : Bool → Pipe → Outcome (Bool × Pipe)
unfolding acquire release wakeup
close writable p = do
  p ← acquire p
  let p =
      if writable
      then wakeup readers (record p { writeopen = false })
      else wakeup writers (record p { readopen = false })
  p ← release p
  ok (not p.readopen && not p.writeopen, p)

-- The test for a full ring, in 32-bit arithmetic.
abbrev pub full : Pipe → Bool
full p = p.nwrite == (p.nread + pipe_size) % 2 ^ 32

-- `p->data[p->nwrite++ % PIPESIZE] = c`.
unfoldable pub put : ℕ → Pipe → Pipe
put c p = record p { buf = update p.buf (p.nwrite % pipe_size) c; nwrite = (p.nwrite + 1) % 2 ^ 32 }

-- `pipewrite` at a full ring.
unfoldable pub blocked : Bool → ℕ → Pipe → Outcome (Stop × ℕ × Pipe)
unfolding leave release wakeup
blocked killed i p =
    if not p.readopen || killed
    then leave failed i p
    else leave (asleep writers) i (wakeup readers p)

-- The loops of `pipewrite` over the bytes that are left, with the number of those written.
unfoldable pub write_loop : Bool → List ℕ → ℕ → Pipe → Outcome (Stop × ℕ × Pipe)
unfolding leave release wakeup put blocked
write_loop killed [] i p = leave returned i (wakeup readers p)
write_loop killed (c ∷ cs) i p =
    let next = write_loop killed cs (i + 1) (put c p) in if full p then blocked killed i p else next

-- `pipewrite` from its start, or from where it was woken, until it returns or sleeps.
unfoldable pub write : Bool → List ℕ → Pipe → Outcome (Stop × ℕ × Pipe)
unfolding acquire write_loop
write killed cs p = acquire p >>= λ p. write_loop killed cs 0 p

-- The copying loop of `piperead`, for at most `n` bytes.
unfoldable pub copy : ℕ → Pipe → List ℕ × Pipe
copy zero p = ([], p)
copy (suc n) p =
    let (cs, p') = copy n (record p { nread = (p.nread + 1) % 2 ^ 32 }) in
    if p.nread == p.nwrite then ([], p) else (p.buf (p.nread % pipe_size) ∷ cs, p')

-- `piperead` from its start, or from where it was woken, until it returns or sleeps.
unfoldable pub read : Bool → ℕ → Pipe → Outcome (Stop × List ℕ × Pipe)
unfolding acquire release wakeup leave copy
read killed n p = do
  p ← acquire p
  let (cs, p') = copy n p
  let wait = if killed then leave failed [] p else leave (asleep readers) [] p
  if p.nread == p.nwrite && p.writeopen then wait else leave returned cs (wakeup writers p')
