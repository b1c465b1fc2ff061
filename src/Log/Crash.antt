-- ===== src/Log/Crash.antt =====
-- Power failures during a commit and during the recoveries that follow.
use operating_systems_three.Prelude.{
  ℕ, zero, suc, ◌≡◌, ◌≢◌, ◌<◌, ◌⊎◌, refl, ap, subst, ◌∙◌, List, [], ◌∷◌, arith, inl, inr, some,
  get_elem?,
}
use operating_systems_three.Log.{
  Log, Block, Disk, boot, modify, bwrite, read_head, install_trans, install_loop, write_head,
  initlog, commit,
}
use operating_systems_three.Log.Txn.{
  put, disk-put, disk-put_ne, All, Out, Layout, AllNew, Empty, Committed, Before, After,
}
use operating_systems_three.Log.Recover.{
  Installing, install_trans-Installing, header, header-words, read_loop-words, clear_head,
}
use mathlib.Core.Option.{some-injective}
use operating_systems_three.Log.Commit.{Writing, commit-Passing}

get_elem?-All :
    (P : Disk → Type 0) (ds : List Disk) (k : ℕ) {d : Disk}
    → All P ds
    → get_elem? ds k ≡ some d
    → P d
get_elem?-All P [] k h e = cc
get_elem?-All P (x ∷ ds) zero h e = subst P (some-injective x _ e) h.0
get_elem?-All P (x ∷ ds) (suc k) h e = get_elem?-All P ds k h.1 e

-- The state in which a restart that finds nothing committed writes the header.
abbrev restarted : Disk → Log → Log
restarted d s = record (read_head (boot d s)) { n = 0 }

initlog-empty :
    (s : Log) (d : Disk)
    → d s.start 0 ≡ 0
    → initlog d s ≡ put s.start (header (restarted d s)) (restarted d s)
unfolding initlog read_head
initlog-empty s d e =
    let r = read_head (boot d s) in
    ap (λ (t : Log). write_head (record t { n = 0 })) (ap (λ k. install_loop k 0 r) e)

-- A restart that finds nothing committed clears the header again, and writes nothing else.
initlog_keeps :
    (s : Log) (d : Disk)
    → d s.start 0 ≡ 0
    → ((initlog d s).disk s.start 0 ≡ 0)
      × ((b : ℕ) → b ≢ s.start → (initlog d s).disk b ≡ d b)
      × ((initlog d s).history ≡ (initlog d s).disk ∷ d ∷ [])
unfolding read_head bwrite modify
initlog_keeps s d e =
    let r = restarted d s in
    rw (initlog-empty s d e) (
      ap (λ (b : Block). b 0) (disk-put s.start (header r) r) ∙ (header-words r).0,
      λ b ne. disk-put_ne s.start (header r) r b ne,
      refl,
    )

module _ (s : Log) (n : ℕ) (block : ℕ → ℕ) (new : ℕ → Block) (old : Disk)
    (lay : Layout s.start s.size n block) where
  abbrev Late : Disk → Type 0
  Late = After s.start s.size n block new old

  abbrev Early : Disk → Type 0
  Early = Before s.start s.size n block new old

  abbrev Fresh : Disk → Type 0
  Fresh d = Empty s.start s.size n block new old d × AllNew s.start s.size n block new old d

  -- Recovery of a committed transaction installs it.
  initlog-Committed :
      (d : Disk)
      → Committed s.start s.size n block new old d
      → Fresh (initlog d s).disk × All Late (initlog d s).history
  unfolding initlog
  initlog-Committed d done =
      clear_head s.start s.size n block new old lay Late (λ d h. h)
        (install_trans (read_head (boot d s)))
        (install_trans-Installing s.start s.size n block new old lay Late (λ d h. h)
          (read_head (boot d s)) start)
    where
      start : Installing s.start s.size n block new old lay Late (λ d h. h) 0 (read_head (boot d s))
      start =
          unfold read_head in
          record {
            start_eq = refl;
            n_eq = done.0.0;
            block_eq = λ i hi.
                read_loop-words (d s.start 0) 0 (d s.start) (λ _. 0) (λ j hj. absurd (omega arith))
                  i (omega (arith, done.0.0))
                ∙ done.0.1 i hi;
            log_cached = done.1;
            committed = done;
            installed = λ i hi. absurd (omega arith);
            passed = (inl done, tt);
          }

  -- The same from a disk on which it is installed already.
  initlog-After : (d : Disk) → Late d → Fresh (initlog d s).disk × All Late (initlog d s).history
  initlog-After d (inl done) = initlog-Committed d done
  initlog-After d (inr (empty, fresh)) =
      let (zeroth, keep, hist) = initlog_keeps s d empty in
      let kept : Fresh (initlog d s).disk = (
        zeroth,
        (
          λ i hi.
              keep (block i) (λ same. omega (arith, lay.small, lay.outside i hi)) ∙ fresh.0 i hi,
          λ b o others. keep b (λ same. omega (arith, lay.small)) ∙ fresh.1 b o others,
        ),
      ) in
      (kept, rw hist (inr kept, (inr (empty, fresh), tt)))

  -- Recovery of a disk with nothing committed changes nothing outside the log.
  initlog-Before : (d : Disk) → Early d → Early (initlog d s).disk × All Early (initlog d s).history
  initlog-Before d (empty, rest) =
      let (zeroth, keep, hist) = initlog_keeps s d empty in
      let kept : Early (initlog d s).disk =
        (zeroth, λ b o. keep b (λ same. omega (arith, lay.small)) ∙ rest b o) in
      (kept, rw hist (kept, ((empty, rest), tt)))

-- From disk `d`, the machine restarts, and fails again during the recovery, any number of times.
pub data Reboots (s : Log) (d : Disk) : Disk → Type 0 where
  here : Reboots s d d
  again :
      {e f : Disk}
      → Reboots s d e
      → (k : ℕ) → get_elem? (initlog e s).history k ≡ some f
      → Reboots s d f

-- The state in which `end_op` calls `commit`: blocks to commit, well laid out, with an empty header
-- on the disk. The history starts there.
pub record Ready (s : Log) : Type 0 where
  pub busy : 0 < s.n
  pub layout : Layout s.start s.size s.n s.block
  pub empty : s.disk s.start 0 ≡ 0
  pub fresh : s.history ≡ s.disk ∷ []

-- No block outside the log has changed.
abbrev pub Unchanged : Log → Disk → Type 0
Unchanged s d = (b : ℕ) → Out s.start s.size b → d b ≡ s.disk b

-- The blocks of the transaction are those of the buffers, and no other block outside has changed.
abbrev pub Applied : Log → Disk → Type 0
Applied s d =
    ((i : ℕ) → i < s.n → d (s.block i) ≡ s.cached (s.block i))
    × ((b : ℕ) → Out s.start s.size b → ((i : ℕ) → i < s.n → s.block i ≢ b) → d b ≡ s.disk b)

module _ (s : Log) (ready : Ready s) where
  abbrev new_blocks : ℕ → Block
  new_blocks i = s.cached (s.block i)

  abbrev Started : Disk → Type 0
  Started = Before s.start s.size s.n s.block new_blocks s.disk

  abbrev Written : Disk → Type 0
  Written = After s.start s.size s.n s.block new_blocks s.disk

  ready-Writing : Writing s.start s.size s.n s.block new_blocks s.disk ready.layout 0 s
  ready-Writing = record {
    start_eq = refl;
    n_eq = refl;
    block_eq = λ i hi. refl;
    source = λ i hi. refl;
    log_cached = λ i hi. absurd (omega arith);
    log_disk = λ i hi. absurd (omega arith);
    before = (ready.empty, λ b o. refl);
    passed = rw ready.fresh (inl (ready.empty, λ b o. refl), tt);
  }

  Reboots-After : {d e : Disk} → Written d → Reboots s d e → Written e
  Reboots-After w here = w
  Reboots-After w (again {e} r k at) =
      get_elem?-All Written (initlog e s).history k
        (initlog-After s s.n s.block new_blocks s.disk ready.layout e (Reboots-After w r)).1 at

  Reboots-Before : {d e : Disk} → Started d → Reboots s d e → Started e
  Reboots-Before w here = w
  Reboots-Before w (again {e} r k at) =
      get_elem?-All Started (initlog e s).history k
        (initlog-Before s s.n s.block new_blocks s.disk ready.layout e (Reboots-Before w r)).1 at

  -- Let a power failure cut a commit off after any of its disk writes, and let any number of
  -- further failures cut off the recoveries. When a recovery at last runs to its end, the header on
  -- the disk is empty, and outside the log either nothing has changed or all blocks of the
  -- transaction, and no others, have their new contents.
  pub crash_atomic :
      (k : ℕ) (d e : Disk)
      → get_elem? (commit s).history k ≡ some d
      → Reboots s d e
      → ((initlog e s).disk s.start 0 ≡ 0)
        × (Unchanged s (initlog e s).disk ⊎ Applied s (initlog e s).disk)
  crash_atomic k d e at r = elim passed [
    | inl w ↦
        let t =
          initlog-Before s s.n s.block new_blocks s.disk ready.layout e (Reboots-Before w r) in
        (t.0.0, inl t.0.1)
    | inr w ↦
        let t = initlog-After s s.n s.block new_blocks s.disk ready.layout e (Reboots-After w r) in
        (t.0.0, inr t.0.1)
  ]
    where
      passed : Started d ⊎ Written d
      passed =
          get_elem?-All (λ d. Started d ⊎ Written d) (commit s).history k
            (commit-Passing s.start s.size s.n s.block new_blocks s.disk ready.layout s ready.busy
              ready-Writing).1
            at

  -- A commit that runs to its end has applied the transaction and cleared the header, and so it
  -- stays through any number of restarts, whether their recoveries are cut off or not.
  pub commit_durable :
      (e : Disk)
      → Reboots s (commit s).disk e
      → Applied s (commit s).disk
        × ((commit s).disk s.start 0 ≡ 0)
        × Applied s (initlog e s).disk
        × ((initlog e s).disk s.start 0 ≡ 0)
  commit_durable e r =
      let done =
        (commit-Passing s.start s.size s.n s.block new_blocks s.disk ready.layout s ready.busy
          ready-Writing).0 in
      let t =
        initlog-After s s.n s.block new_blocks s.disk ready.layout e (Reboots-After (inr done) r) in
      (done.1, done.0, t.0.1, t.0.0)
