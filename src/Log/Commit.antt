-- ===== src/Log/Commit.antt =====
-- `commit`: the log is written, the header commits it, and the blocks are installed.
use native.Mathlib.Numerals.{add-one}
use operating_systems_three.Prelude.{
  ℕ, zero, suc, ◌+◌, ◌≡◌, ◌≢◌, ◌<◌, sym, ap, ◌∙◌, arith, inl, inr, ℕ_discrete, ltb, lt→ltb, true,
  ◌⊎◌,
}
use operating_systems_three.Log.{
  Log, Block, Disk, modify, bwrite, write_log_loop, write_log, write_head, install_trans, commit,
}
use operating_systems_three.Log.Txn.{
  put, disk-put, cached-put, disk-put_ne, cached-put_ne, All, Layout, AllNew, Empty, Committed,
  Before, After,
}
use operating_systems_three.Log.Recover.{
  Installing, install_trans-Installing, header, header-words, clear_head,
}

module _ (start size n : ℕ) (block : ℕ → ℕ) (new : ℕ → Block) (old : Disk)
    (lay : Layout start size n block) where
  abbrev Untouched : Disk → Type 0
  Untouched = Before start size n block new old

  -- What every disk satisfies that the machine goes through.
  abbrev pub Passing : Disk → Type 0
  Passing d = Untouched d ⊎ After start size n block new old d

  -- The state of `write_log` after `t` rounds.
  pub record Writing (t : ℕ) (s : Log) : Type 0 where
    pub start_eq : s.start ≡ start
    pub n_eq : s.n ≡ n
    pub block_eq : (i : ℕ) → i < n → s.block i ≡ block i
    pub source : (i : ℕ) → i < n → s.cached (block i) ≡ new i
    pub log_cached : (i : ℕ) → i < t → s.cached (start + i + 1) ≡ new i
    pub log_disk : (i : ℕ) → i < t → s.disk (start + i + 1) ≡ new i
    pub before : Untouched s.disk
    pub passed : All Passing s.history

  -- Writing a block of the log leaves the header and the blocks outside.
  put-Before :
      (s : Log) (t to : ℕ) (d : Block)
      → t < n
      → to ≡ start + t + 1
      → Untouched s.disk
      → Untouched (put to d s).disk
  put-Before s t to d h e (empty, rest) =
      let keep = disk-put_ne to d s in
      (
        ap (λ (b : Block). b 0) (keep start (omega arith)) ∙ empty,
        λ b o. keep b (λ same. omega (arith, lay.small)) ∙ rest b o,
      )

  Writing-step :
      (t to : ℕ) (d : Block) (s : Log)
      → Writing t s
      → t < n
      → to ≡ start + t + 1
      → d ≡ new t
      → Writing (suc t) (put to d s)
  unfolding bwrite modify
  Writing-step t to d s w h e v =
      let now = put-Before s t to d h e w.before in
      record {
        start_eq = w.start_eq;
        n_eq = w.n_eq;
        block_eq = w.block_eq;
        source = λ i hi.
            cached-put_ne to d s (block i) (λ same. omega (arith, lay.small, lay.outside i hi))
            ∙ w.source i hi;
        log_cached = λ i hi. elim (ℕ_discrete i t) [
          | yes same ↦
              ap (put to d s).cached (ap (λ k. start + k + 1) same ∙ sym e)
              ∙ cached-put to d s
              ∙ v
              ∙ ap new (sym same)
          | no ne ↦
              cached-put_ne to d s (start + i + 1) (omega arith) ∙ w.log_cached i (omega arith)
        ];
        log_disk = λ i hi. elim (ℕ_discrete i t) [
          | yes same ↦
              ap (put to d s).disk (ap (λ k. start + k + 1) same ∙ sym e)
              ∙ disk-put to d s
              ∙ v
              ∙ ap new (sym same)
          | no ne ↦ disk-put_ne to d s (start + i + 1) (omega arith) ∙ w.log_disk i (omega arith)
        ];
        before = now;
        passed = (inl now, w.passed);
      }

  write_log_loop-Writing :
      (r t : ℕ) (s : Log) → Writing t s → t + r ≡ n → Writing n (write_log_loop r t s)
  unfolding write_log_loop
  write_log_loop-Writing zero t s w e = let end : t ≡ n = omega arith in rw (← end) w
  write_log_loop-Writing (suc r) t s w e =
      write_log_loop-Writing r (t + 1) (put (s.start + t + 1) (s.cached (s.block t)) s)
        (rw add-one (
          Writing-step t (s.start + t + 1) (s.cached (s.block t)) s w (omega arith)
            (ap (λ k. k + t + 1) w.start_eq)
            (ap s.cached (w.block_eq t (omega arith)) ∙ w.source t (omega arith))))
        (omega arith)

  -- Writing the header turns the written log into a committed one.
  write_head-Committed :
      (s : Log) → Writing n s → Committed start size n block new old (write_head s).disk
  unfolding write_head
  write_head-Committed s w =
      let keep : (c : ℕ) → c ≢ start → (put s.start (header s) s).disk c ≡ s.disk c =
        λ c ne. disk-put_ne s.start (header s) s c (λ same. ne (same ∙ w.start_eq)) in
      let head : (put s.start (header s) s).disk start ≡ header s =
        ap (put s.start (header s) s).disk (sym w.start_eq) ∙ disk-put s.start (header s) s in
      (
        (
          ap (λ (b : Block). b 0) head ∙ (header-words s).0 ∙ w.n_eq,
          λ i hi.
              ap (λ (b : Block). b (i + 1)) head
              ∙ (header-words s).1 i (omega (arith, w.n_eq))
              ∙ w.block_eq i hi,
        ),
        λ i hi. keep (start + i + 1) (omega arith) ∙ w.log_disk i hi,
        λ b o others. keep b (λ same. omega (arith, lay.small)) ∙ w.before.1 b o,
      )

  write_head-Installing :
      (s : Log)
      → Writing n s
      → Installing start size n block new old lay Passing (λ d. inr) 0 (write_head s)
  write_head-Installing s w = record {
    start_eq = unfold write_head modify bwrite in w.start_eq;
    n_eq = unfold write_head modify bwrite in w.n_eq;
    block_eq = unfold write_head modify bwrite in w.block_eq;
    log_cached =
        unfold write_head in
        λ i hi.
          cached-put_ne s.start (header s) s (start + i + 1) (omega (arith, w.start_eq))
          ∙ w.log_cached i hi;
    committed = write_head-Committed s w;
    installed = λ i hi. absurd (omega arith);
    passed = unfold write_head modify bwrite in (inr (inl (write_head-Committed s w)), w.passed);
  }

  -- A commit passes through disks that are still untouched or already hold the transaction, and
  -- ends with the new blocks installed and the header cleared.
  pub commit-Passing :
      (s : Log)
      → 0 < n
      → Writing 0 s
      → let d = (commit s).disk in
        (Empty start size n block new old d × AllNew start size n block new old d)
        × All Passing (commit s).history
  unfolding commit
  commit-Passing s pos w =
      let busy : ltb 0 s.n ≡ true = lt→ltb 0 s.n (omega (arith, w.n_eq)) in
      rw busy (
        clear_head start size n block new old lay Passing (λ d. inr)
          (install_trans (write_head (write_log s)))
          (install_trans-Installing start size n block new old lay Passing (λ d. inr)
            (write_head (write_log s)) (write_head-Installing (write_log s) written)))
    where
      written : Writing n (write_log s)
      written = unfold write_log in write_log_loop-Writing s.n 0 s w (omega (arith, w.n_eq))
