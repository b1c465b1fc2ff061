-- ===== src/Log/Counters.antt =====
-- What a commit does to the counters of the log.
use operating_systems_three.Prelude.{
  ℕ, zero, suc, ◌+◌, ◌≡◌, refl, ◌∙◌, arith, inl, inr, Bool-cases, ltb,
}
use operating_systems_three.Log.{
  Log, modify, bwrite, install_loop, install_trans, write_head, write_log_loop, write_log, commit,
}

-- The fields that a commit leaves alone.
record Same (s s' : Log) : Type 0 where
  pub count : s'.outstanding ≡ s.outstanding
  pub busy : s'.committing ≡ s.committing
  pub lock : s'.locked ≡ s.locked
  pub extent : s'.size ≡ s.size
  pub entries : s'.n ≡ s.n

install_loop-Same : (r t : ℕ) (s : Log) → Same s (install_loop r t s)
unfolding install_loop bwrite modify
install_loop-Same zero t s = record {
  count = refl;
  busy = refl;
  lock = refl;
  extent = refl;
  entries = refl;
}
install_loop-Same (suc r) t s =
    let w =
      install_loop-Same r (t + 1)
        (bwrite (s.block t) (modify (s.block t) (s.cached (s.start + t + 1)) s)) in
    record { count = w.count; busy = w.busy; lock = w.lock; extent = w.extent; entries = w.entries }

write_log_loop-Same : (r t : ℕ) (s : Log) → Same s (write_log_loop r t s)
unfolding write_log_loop bwrite modify
write_log_loop-Same zero t s = record {
  count = refl;
  busy = refl;
  lock = refl;
  extent = refl;
  entries = refl;
}
write_log_loop-Same (suc r) t s =
    let w =
      write_log_loop-Same r (t + 1)
        (bwrite (s.start + t + 1) (modify (s.start + t + 1) (s.cached (s.block t)) s)) in
    record { count = w.count; busy = w.busy; lock = w.lock; extent = w.extent; entries = w.entries }

-- A commit empties the log and leaves the counters alone.
pub record Emptied (s s' : Log) : Type 0 where
  pub count : s'.outstanding ≡ s.outstanding
  pub busy : s'.committing ≡ s.committing
  pub lock : s'.locked ≡ s.locked
  pub extent : s'.size ≡ s.size
  pub entries : s'.n ≡ 0

pub commit-Emptied : (s : Log) → Emptied s (commit s)
unfolding commit write_head install_trans write_log bwrite modify
commit-Emptied s = elim (Bool-cases (ltb 0 s.n)) [
  | inl e ↦
      let logged = write_log s in
      let installed = install_loop-Same logged.n 0 (write_head logged) in
      let l = write_log_loop-Same s.n 0 s in
      rw e (record {
        count = installed.count ∙ l.count;
        busy = installed.busy ∙ l.busy;
        lock = installed.lock ∙ l.lock;
        extent = installed.extent ∙ l.extent;
        entries = refl;
      })
  | inr e ↦
      rw e
        (record { count = refl; busy = refl; lock = refl; extent = refl; entries = ground arith })
]
