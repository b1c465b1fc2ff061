-- ===== src/Log/Ops.antt =====
-- `begin_op`, `end_op` and `log_write` of log.c.
use operating_systems_three.Prelude.{
  ℕ, zero, suc, ◌+◌, ◌-◌, ◌*◌, ltb, leb, ◌==◌, if◌then◌else◌, Bool, true, false, ◌||◌, update,
  Outcome, ok, panic, ◌>>=◌, ◌>>◌, panic_if,
}
use operating_systems_three.Log.{Log, max_op_blocks, log_size, commit}

unfoldable pub acquire : Log → Outcome Log
acquire s = if s.locked then panic else ok (record s { locked = true })

unfoldable pub release : Log → Outcome Log
release s = if s.locked then ok (record s { locked = false }) else panic

-- One turn of the loop of `begin_op`: `true` if the operation has begun, `false` if the process
-- sleeps, which gives the lock up, and will try again when it is woken.
unfoldable pub begin_op : Log → Outcome (Bool × Log)
unfolding acquire release
begin_op s = do
  s ← acquire s
  let full = ltb log_size (s.n + (s.outstanding + 1) * max_op_blocks)
  let begun = s.committing || full
  s ← release (if begun then s else record s { outstanding = s.outstanding + 1 })
  ok (if begun then false else true, s)

-- `end_op` up to its first release of the lock, and whether this call has to commit. The
-- count stops at zero here; it has its `begin_op` before each `end_op`.
unfoldable pub end_begin : Log → Outcome (Bool × Log)
unfolding acquire release
end_begin s = do
  s ← acquire s
  let left = s.outstanding - 1
  panic_if s.committing
  let last = s.outstanding == 1
  s ← release (
      if last
      then record s { outstanding = left; committing = true }
      else record s { outstanding = left; wakeups = s.wakeups + 1 })
  ok (last, s)

-- The end of an `end_op` that has committed.
unfoldable pub end_commit : Log → Outcome Log
unfolding acquire release
end_commit s = do s ← acquire s; release (record s { committing = false; wakeups = s.wakeups + 1 })

unfoldable pub end_op : Log → Outcome Log
unfolding end_begin end_commit
end_op s = do (last, s) ← end_begin s; if last then end_commit (commit s) else ok s

-- The search of `log_write`: the index of the first entry for `b` from `i` on, or `n`.
unfoldable pub find_loop : (rounds i b : ℕ) → (ℕ → ℕ) → ℕ
find_loop zero i b block = i
find_loop (suc r) i b block =
    let rest = find_loop r (i + 1) b block in if block i == b then i else rest

-- `log_write` of the buffer of block `b`.
unfoldable pub log_write : ℕ → Log → Outcome Log
unfolding acquire release find_loop
log_write b s = do
  panic_if (leb log_size s.n || leb (s.size - 1) s.n)
  panic_if (ltb s.outstanding 1)
  s ← acquire s
  let i = find_loop s.n 0 b s.block
  release (record s {
    block = update s.block i b;
    n = if i == s.n then s.n + 1 else s.n;
    dirty = update s.dirty b true;
  })
