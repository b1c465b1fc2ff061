-- ===== src/Fs.antt =====
-- src/fs.c: the free map of the file system. `blocks` are the blocks as the kernel sees them
-- through the buffer cache, as bytes; `logged` collects the `log_write` calls, the last one first.
pub mod Bits
pub mod Free
pub mod Alloc
pub mod Names
pub mod Split
mod Examples
use operating_systems_three.Prelude.{
  ℕ, zero, suc, ◌+◌, ◌-◌, ◌*◌, ◌/◌, ◌%◌, ◌^◌, ◌==◌, ltb, leb, if◌then◌else◌, Bool, true, false, not,
  ◌&&◌, ◌||◌, List, [], ◌∷◌, Option, none, some, update, Outcome, ok, panic, ◌>>=◌, ◌>>◌, panic_if,
}

-- BSIZE and BPB of fs.h.
abbrev pub bsize : ℕ
bsize = 512

abbrev pub bpb : ℕ
bpb = bsize * 8

-- The fields of the super block that the free map needs, and the disk.
pub record Disk : Type 0 where
  pub size : ℕ
  pub bmapstart : ℕ
  pub blocks : ℕ → ℕ → ℕ
  pub logged : List ℕ

-- BBLOCK.
unfoldable pub bblock : ℕ → Disk → ℕ
bblock b d = b / bpb + d.bmapstart

-- A change of a block that is logged.
unfoldable pub log_block : ℕ → (ℕ → ℕ) → Disk → Disk
log_block b bytes d = record d { blocks = update d.blocks b bytes; logged = b ∷ d.logged }

-- `1 << (bi % 8)`.
unfoldable pub mask : ℕ → ℕ
mask bi = 2 ^ (bi % 8)

-- `(byte & m) != 0` for a mask of one bit.
unfoldable pub has : ℕ → ℕ → Bool
has byte m = byte / m % 2 == 1

unfoldable pub bzero : ℕ → Disk → Disk
unfolding log_block
bzero b d = log_block b (λ _. 0) d

-- The inner loop of `balloc`: the first free bit of a block of the map, which is that of block `b`.
unfoldable pub find_bit : (rounds bi b : ℕ) → (bytes : ℕ → ℕ) → (size : ℕ) → Option ℕ
unfolding has mask
find_bit zero bi b bytes size = none
find_bit (suc r) bi b bytes size =
    let rest = find_bit r (bi + 1) b bytes size in
    if ltb (b + bi) size
    then (if not (has (bytes (bi / 8)) (mask bi)) then some bi else rest)
    else none

-- The body of the inner loop that marks the block as in use.
unfoldable pub mark : ℕ → ℕ → Disk → Disk
unfolding bblock log_block mask update
mark b bi d =
    let bytes = d.blocks (bblock b d) in
    log_block (bblock b d) (update bytes (bi / 8) (bytes (bi / 8) + mask bi)) d

unfoldable pub taken : (b : ℕ) → Option ℕ → Outcome (ℕ × Disk) → Disk → Outcome (ℕ × Disk)
unfolding mark bzero
taken b none rest d = rest
taken b (some bi) rest d = ok (b + bi, bzero (b + bi) (mark b bi d))

-- The outer loop of `balloc`, from block `b` on.
unfoldable pub balloc_from : (rounds b : ℕ) → Disk → Outcome (ℕ × Disk)
unfolding taken
balloc_from zero b d = panic
balloc_from (suc r) b d =
    let rest = balloc_from r (b + bpb) d in
    if ltb b d.size then taken b (find_bit bpb 0 b (d.blocks (bblock b d)) d.size) rest d else panic

-- `balloc`, with a round for each block of the map.
unfoldable pub balloc : Disk → Outcome (ℕ × Disk)
unfolding balloc_from
balloc d = balloc_from (d.size / bpb + 1) 0 d

unfoldable pub bfree : ℕ → Disk → Outcome Disk
unfolding bblock log_block mask has update
bfree b d = do
  let bytes = d.blocks (bblock b d)
  let bi = b % bpb
  panic_if (not (has (bytes (bi / 8)) (mask bi)))
  ok (log_block (bblock b d) (update bytes (bi / 8) (bytes (bi / 8) - mask bi)) d)
