-- ===== src/Log/Recover.antt =====
-- `install_trans`, `write_head` and `recover_from_log` on a committed transaction.
use operating_systems_three.Prelude.{
  ℕ, zero, suc, ◌+◌, ◌≡◌, ◌≢◌, ◌≤◌, ◌<◌, refl, sym, ap, ◌∙◌, arith, update, update_self, update_ne,
  inl, inr, ℕ_discrete,
}
use native.Mathlib.Numerals.{add-one}
use operating_systems_three.Log.{
  Log, Block, Disk, modify, bwrite, install_loop, install_trans, head_loop, read_loop, write_head,
}
use operating_systems_three.Log.Txn.{
  put, disk-put, disk-put_ne, cached-put_ne, All, Layout, AllNew, Empty, Committed, After,
}

-- `P` holds of the disks that are passed: it has to hold of those after the commit.
module _ (start size n : ℕ) (block : ℕ → ℕ) (new : ℕ → Block) (old : Disk)
    (lay : Layout start size n block) (P : Disk → Type 0)
    (late : (d : Disk) → After start size n block new old d → P d) where
  abbrev Done : Disk → Type 0
  Done = Committed start size n block new old

  -- The state of `install_trans` after `t` rounds.
  pub record Installing (t : ℕ) (s : Log) : Type 0 where
    pub start_eq : s.start ≡ start
    pub n_eq : s.n ≡ n
    pub block_eq : (i : ℕ) → i < n → s.block i ≡ block i
    pub log_cached : (i : ℕ) → i < n → s.cached (start + i + 1) ≡ new i
    pub committed : Done s.disk
    pub installed : (i : ℕ) → i < t → s.disk (block i) ≡ new i
    pub passed : All P s.history

  -- Writing a block of the transaction keeps the disk committed.
  put-Committed :
      (s : Log) (t b : ℕ) (d : Block) → t < n → b ≡ block t → Done s.disk → Done (put b d s).disk
  put-Committed s t b d h e (head, logged, rest) =
      let out : (c : ℕ) → start ≤ c → c < start + size → c ≢ b =
        λ c lo hi same. omega (arith, lay.outside t h) in
      let keep = disk-put_ne b d s in
      (
        rw (keep start (out start (omega arith) (omega (arith, lay.small)))) head,
        λ i hi.
            keep (start + i + 1) (out (start + i + 1) (omega arith) (omega (arith, lay.small)))
            ∙ logged i hi,
        λ c o others. keep c (λ same. others t h (sym (same ∙ e))) ∙ rest c o others,
      )

  Installing-step :
      (t b : ℕ) (d : Block) (s : Log)
      → Installing t s
      → t < n
      → b ≡ block t
      → d ≡ new t
      → Installing (suc t) (put b d s)
  unfolding bwrite modify
  Installing-step t b d s w h e v =
      let done = put-Committed s t b d h e w.committed in
      record {
        start_eq = w.start_eq;
        n_eq = w.n_eq;
        block_eq = w.block_eq;
        log_cached = λ i hi.
            cached-put_ne b d s (start + i + 1) (λ same. omega (arith, lay.small, lay.outside t h))
            ∙ w.log_cached i hi;
        committed = done;
        installed = λ i hi. elim (ℕ_discrete i t) [
          | yes same ↦
              ap (put b d s).disk (ap block same ∙ sym e) ∙ disk-put b d s ∙ v ∙ ap new (sym same)
          | no ne ↦
              disk-put_ne b d s (block i) (λ same. lay.distinct i t (omega arith) h ne (same ∙ e))
              ∙ w.installed i (omega arith)
        ];
        passed = (late _ (inl done), w.passed);
      }

  install_loop-Installing :
      (r t : ℕ) (s : Log) → Installing t s → t + r ≡ n → Installing n (install_loop r t s)
  unfolding install_loop
  install_loop-Installing zero t s w e = let end : t ≡ n = omega arith in rw (← end) w
  install_loop-Installing (suc r) t s w e =
      install_loop-Installing r (t + 1) (put (s.block t) (s.cached (s.start + t + 1)) s)
        (rw add-one (
          Installing-step t (s.block t) (s.cached (s.start + t + 1)) s w (omega arith)
            (w.block_eq t (omega arith))
            (ap s.cached (ap (λ k. k + t + 1) w.start_eq) ∙ w.log_cached t (omega arith))))
        (omega arith)

  pub install_trans-Installing : (s : Log) → Installing 0 s → Installing n (install_trans s)
  unfolding install_trans
  install_trans-Installing s w = install_loop-Installing s.n 0 s w (omega (arith, w.n_eq))

-- The words that `write_head` puts into the header block.
head_loop-words :
    (r t : ℕ) (blk : ℕ → ℕ) (hb : Block)
    → ((i : ℕ) → i < t → hb (i + 1) ≡ blk i)
    → (head_loop r t blk hb 0 ≡ hb 0) × ((i : ℕ) → i < t + r → head_loop r t blk hb (i + 1) ≡ blk i)
unfolding head_loop
head_loop-words zero t blk hb h = (refl, λ i hi. h i (omega arith))
head_loop-words (suc r) t blk hb h =
    let done : (i : ℕ) → i < t + 1 → update hb (t + 1) (blk t) (i + 1) ≡ blk i = λ i hi.
      elim (ℕ_discrete i t) [
        | yes same ↦ rw same (update_self hb (t + 1) (blk t))
        | no ne ↦ update_ne hb (t + 1) (i + 1) (blk t) (omega arith) ∙ h i (omega arith)
      ] in
    let (zeroth, rest) = head_loop-words r (t + 1) blk (update hb (t + 1) (blk t)) done in
    (zeroth ∙ update_ne hb (t + 1) 0 (blk t) (omega arith), λ i hi. rest i (omega arith))

-- The entries that `read_head` reads.
pub read_loop-words :
    (r t : ℕ) (lh : Block) (blk : ℕ → ℕ)
    → ((i : ℕ) → i < t → blk i ≡ lh (i + 1))
    → (i : ℕ) → i < t + r
    → read_loop r t lh blk i ≡ lh (i + 1)
unfolding read_loop
read_loop-words zero t lh blk h i hi = h i (omega arith)
read_loop-words (suc r) t lh blk h i hi =
    read_loop-words r (t + 1) lh (update blk t (lh (t + 1)))
      (λ j hj. elim (ℕ_discrete j t) [
        | yes same ↦ rw same (update_self blk t (lh (t + 1)))
        | no ne ↦ update_ne blk t j (lh (t + 1)) ne ∙ h j (omega arith)
      ])
      i (omega arith)

-- The block that `write_head` writes.
abbrev pub header : Log → Block
header s = head_loop s.n 0 s.block (update (s.cached s.start) 0 s.n)

pub header-words :
    (s : Log) → (header s 0 ≡ s.n) × ((i : ℕ) → i < s.n → header s (i + 1) ≡ s.block i)
header-words s =
    let (zeroth, rest) =
      head_loop-words s.n 0 s.block (update (s.cached s.start) 0 s.n)
        (λ i hi. absurd (omega arith)) in
    (zeroth ∙ update_self (s.cached s.start) 0 s.n, λ i hi. rest i (omega arith))

pub write_head_lem : (s : Log) → write_head s ≡ put s.start (header s) s
unfolding write_head
write_head_lem s = refl

-- `P` holds of the disks that are passed: it has to hold of those after the commit.
module _ (start size n : ℕ) (block : ℕ → ℕ) (new : ℕ → Block) (old : Disk)
    (lay : Layout start size n block) (P : Disk → Type 0)
    (late : (d : Disk) → After start size n block new old d → P d) where
  -- Clearing the header of an installed transaction leaves the new blocks.
  pub clear_head :
      (s : Log)
      → Installing start size n block new old lay P late n s
      → let s' = write_head (record s { n = 0 }) in
        (Empty start size n block new old s'.disk × AllNew start size n block new old s'.disk)
        × All P s'.history
  unfolding write_head bwrite modify
  clear_head s w =
      let s0 : Log = record s { n = 0 } in
      let keep : (c : ℕ) → c ≢ start → (put s.start (header s0) s0).disk c ≡ s.disk c =
        λ c ne. disk-put_ne s.start (header s0) s0 c (λ same. ne (same ∙ w.start_eq)) in
      let empty : (put s.start (header s0) s0).disk start 0 ≡ 0 =
        ap (λ k. (put s.start (header s0) s0).disk k 0) (sym w.start_eq)
        ∙ ap (λ (b : Block). b 0) (disk-put s.start (header s0) s0)
        ∙ (header-words s0).0 in
      let fresh : AllNew start size n block new old (put s.start (header s0) s0).disk = (
        λ i hi.
            keep (block i) (λ same. omega (arith, lay.small, lay.outside i hi)) ∙ w.installed i hi,
        λ b o others. keep b (λ same. omega (arith, lay.small)) ∙ w.committed.2 b o others,
      ) in
      ((empty, fresh), (late _ (inr (empty, fresh)), w.passed))
