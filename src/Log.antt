-- ===== src/Log.antt =====
-- src/log.c: the redo log of the file system. `cached b` is what `bread` returns for block `b`: the
-- buffer's copy, which is the disk's unless the block is dirty. Each `bwrite` is one atomic disk
-- write; `history` lists the disks that the machine has gone through, the present one first, so it
-- holds every disk that a power failure can leave.
pub mod Ops
pub mod Txn
pub mod Commit
pub mod Recover
pub mod Crash
pub mod Absorb
pub mod Counters
pub mod Reserve
mod Examples
use operating_systems_three.Prelude.{
  ℕ, zero, suc, ◌+◌, ◌-◌, ◌*◌, ltb, leb, ◌==◌, if◌then◌else◌, Bool, true, false, ◌||◌, List, [],
  ◌∷◌, update, Outcome, ok, panic, ◌>>=◌, ◌>>◌, panic_if,
}

-- A block as its 32-bit words, and a disk as its blocks.
abbrev pub Block : Type 0
Block = ℕ → ℕ

abbrev pub Disk : Type 0
Disk = ℕ → Block

-- LOGSIZE and MAXOPBLOCKS of param.h.
abbrev pub max_op_blocks : ℕ
max_op_blocks = 10

abbrev pub log_size : ℕ
log_size = max_op_blocks * 3

-- `struct log` with its header, the disk, the buffers and their B_DIRTY flags; `wakeups` counts the
-- calls of `wakeup(&log)`.
pub record Log : Type 0 where
  pub start : ℕ
  pub size : ℕ
  pub outstanding : ℕ
  pub committing : Bool
  pub n : ℕ
  pub block : ℕ → ℕ
  pub locked : Bool
  pub disk : Disk
  pub cached : Disk
  pub dirty : ℕ → Bool
  pub history : List Disk
  pub wakeups : ℕ

-- Changes the data of a buffer.
unfoldable pub modify : ℕ → Block → Log → Log
modify b d s = record s { cached = update s.cached b d }

-- `bwrite`: the buffer goes to the disk, and is no longer dirty.
unfoldable pub bwrite : ℕ → Log → Log
bwrite b s =
    let disk = update s.disk b (s.cached b) in
    record s { disk = disk; dirty = update s.dirty b false; history = disk ∷ s.history }

-- The loop of `install_trans`, with the rounds that are left.
unfoldable pub install_loop : (rounds tail : ℕ) → Log → Log
install_loop zero tail s = s
install_loop (suc r) tail s =
    let dst = s.block tail in
    install_loop r (tail + 1) (bwrite dst (modify dst (s.cached (s.start + tail + 1)) s))

unfoldable pub install_trans : Log → Log
unfolding install_loop
install_trans s = install_loop s.n 0 s

-- The loop of `read_head`, over the words of the header block.
unfoldable pub read_loop : (rounds i : ℕ) → Block → (ℕ → ℕ) → ℕ → ℕ
read_loop zero i lh block = block
read_loop (suc r) i lh block = read_loop r (i + 1) lh (update block i (lh (i + 1)))

unfoldable pub read_head : Log → Log
unfolding read_loop
read_head s =
    let lh = s.cached s.start in record s { n = lh 0; block = read_loop (lh 0) 0 lh s.block }

-- The loop of `write_head`, over the words of the header block.
unfoldable pub head_loop : (rounds i : ℕ) → (ℕ → ℕ) → Block → Block
head_loop zero i block hb = hb
head_loop (suc r) i block hb = head_loop r (i + 1) block (update hb (i + 1) (block i))

unfoldable pub write_head : Log → Log
unfolding head_loop modify bwrite
write_head s =
    let hb = update (s.cached s.start) 0 s.n in
    bwrite s.start (modify s.start (head_loop s.n 0 s.block hb) s)

unfoldable pub recover_from_log : Log → Log
unfolding read_head install_trans write_head
recover_from_log s = let s1 = install_trans (read_head s) in write_head (record s1 { n = 0 })

-- The machine after a restart: the disk is left, and `readsb` finds where the log is.
abbrev pub boot : Disk → Log → Log
boot d s = record s {
  outstanding = 0;
  committing = false;
  n = 0;
  block = λ _. 0;
  locked = false;
  disk = d;
  cached = d;
  dirty = λ _. false;
  history = d ∷ [];
  wakeups = 0;
}

-- `initlog` after a restart with disk `d`.
unfoldable pub initlog : Disk → Log → Log
unfolding recover_from_log
initlog d s = recover_from_log (boot d s)

-- The loop of `write_log`.
unfoldable pub write_log_loop : (rounds tail : ℕ) → Log → Log
write_log_loop zero tail s = s
write_log_loop (suc r) tail s =
    let to = s.start + tail + 1 in
    write_log_loop r (tail + 1) (bwrite to (modify to (s.cached (s.block tail)) s))

unfoldable pub write_log : Log → Log
unfolding write_log_loop
write_log s = write_log_loop s.n 0 s

unfoldable pub commit : Log → Log
unfolding write_log write_head install_trans
commit s =
    if ltb 0 s.n
    then (let s1 = install_trans (write_head (write_log s)) in write_head (record s1 { n = 0 }))
    else s
