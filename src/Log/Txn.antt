-- ===== src/Log/Txn.antt =====
-- A transaction of `n` blocks, and what a disk holds of it.
use operating_systems_three.Prelude.{
  ℕ, ◌+◌, ◌≡◌, ◌≢◌, ◌≤◌, ◌<◌, ◌⊎◌, ◌∙◌, List, [], ◌∷◌, update, update_self, update_ne,
}
use operating_systems_three.Log.{Log, Block, Disk, modify, bwrite}

-- Changes a buffer and writes it to the disk.
abbrev pub put : ℕ → Block → Log → Log
put b d s = bwrite b (modify b d s)

module _ (b : ℕ) (d : Block) (s : Log) where
  pub disk-put : (put b d s).disk b ≡ d
  unfolding bwrite modify
  disk-put = update_self s.disk b (update s.cached b d b) ∙ update_self s.cached b d

  pub cached-put : (put b d s).cached b ≡ d
  unfolding bwrite modify
  cached-put = update_self s.cached b d

  pub disk-put_ne : (c : ℕ) → c ≢ b → (put b d s).disk c ≡ s.disk c
  unfolding bwrite modify
  disk-put_ne c h = update_ne s.disk b c (update s.cached b d b) h

  pub cached-put_ne : (c : ℕ) → c ≢ b → (put b d s).cached c ≡ s.cached c
  unfolding bwrite modify
  cached-put_ne c h = update_ne s.cached b c d h

abbrev pub All : (Disk → Type 0) → List Disk → Type 0
All P [] = Unit
All P (d ∷ ds) = P d × All P ds

-- Block `b` lies outside the log, which has `size` blocks from `start` on.
abbrev pub Out : ℕ → ℕ → ℕ → Type 0
Out start size b = (b < start) ⊎ (start + size ≤ b)

-- The blocks of the transaction fit into the log, lie outside of it, and are distinct.
pub record Layout (start size n : ℕ) (block : ℕ → ℕ) : Type 0 where
  pub small : n < size
  pub outside : (i : ℕ) → i < n → Out start size (block i)
  pub distinct : (i j : ℕ) → i < n → j < n → i ≢ j → block i ≢ block j

module _ (start size n : ℕ) (block : ℕ → ℕ) (new : ℕ → Block) (old : Disk) where
  -- A block that is neither in the log nor in the transaction is the old one.
  abbrev pub Rest : Disk → Type 0
  Rest d = (b : ℕ) → Out start size b → ((i : ℕ) → i < n → block i ≢ b) → d b ≡ old b

  -- All blocks outside the log are the old ones.
  abbrev pub AllOld : Disk → Type 0
  AllOld d = (b : ℕ) → Out start size b → d b ≡ old b

  -- All blocks of the transaction are the new ones, and the others the old ones.
  abbrev pub AllNew : Disk → Type 0
  AllNew d = ((i : ℕ) → i < n → d (block i) ≡ new i) × Rest d

  -- The header says that nothing is committed.
  abbrev pub Empty : Disk → Type 0
  Empty d = d start 0 ≡ 0

  -- The header block lists the blocks of the transaction.
  abbrev pub Header : Block → Type 0
  Header hb = (hb 0 ≡ n) × ((i : ℕ) → i < n → hb (i + 1) ≡ block i)

  -- The log holds the new blocks, and its header lists them.
  abbrev pub Committed : Disk → Type 0
  Committed d = Header (d start) × ((i : ℕ) → i < n → d (start + i + 1) ≡ new i) × Rest d

  abbrev pub Before : Disk → Type 0
  Before d = Empty d × AllOld d

  abbrev pub After : Disk → Type 0
  After d = Committed d ⊎ (Empty d × AllNew d)
