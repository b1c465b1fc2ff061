-- ===== src/Cache.antt =====
-- src/bio.c: the buffer cache, over the disk in memory of src/memide.c. Buffers are named by their
-- index in `bcache.buf`; `order` is the linked list, from `head.next` on. A process that has to wait
-- for the lock of a buffer is cut there.
pub mod Order
pub mod Gets
pub mod Views
pub mod Reads
mod Examples
use operating_systems_three.Prelude.{
  ℕ, zero, suc, ◌+◌, ◌-◌, ◌==◌, ltb, leb, if◌then◌else◌, Bool, true, false, not, ◌&&◌, ◌||◌, List,
  [], ◌∷◌, ◌++◌, Option, none, some, update, Outcome, ok, panic, ◌>>=◌, ◌>>◌, panic_if,
}
use operating_systems_three.Locks.{
  SleepLock, initsleeplock, acquiresleep, releasesleep, holdingsleep,
}

-- The 512 bytes of a block.
abbrev pub Data : Type 0
Data = ℕ → ℕ

-- NBUF of param.h.
abbrev pub nbuf : ℕ
nbuf = 30

-- `struct buf`, with B_VALID and B_DIRTY of `flags`.
pub record Buf : Type 0 where
  pub valid : Bool
  pub dirty : Bool
  pub dev : ℕ
  pub blockno : ℕ
  pub lock : SleepLock
  pub refcnt : ℕ
  pub contents : Data

-- `bcache`, and `memdisk` with `disksize` blocks.
pub record Bcache : Type 0 where
  pub locked : Bool
  pub buf : ℕ → Buf
  pub order : List ℕ
  pub disk : ℕ → Data
  pub disksize : ℕ

abbrev pub change : ℕ → (Buf → Buf) → Bcache → Bcache
change b f c = record c { buf = update c.buf b (f (c.buf b)) }

unfoldable pub acquire : Bcache → Outcome Bcache
acquire c = if c.locked then panic else ok (record c { locked = true })

unfoldable pub release : Bcache → Outcome Bcache
release c = if c.locked then ok (record c { locked = false }) else panic

-- The loop of `binit` over the buffers from `b` on: each becomes the first of the list.
unfoldable pub link_all : (rounds b : ℕ) → Bcache → Bcache
unfolding update
link_all zero b c = c
link_all (suc r) b c =
    link_all r (b + 1)
      (change b (λ f. record f { lock = initsleeplock }) (record c { order = b ∷ c.order }))

unfoldable pub binit : Bcache → Bcache
unfolding link_all
binit c = link_all nbuf 0 (record c { locked = false; order = [] })

-- The first buffer of a list that passes a test.
unfoldable pub find_buf : (Buf → Bool) → (ℕ → Buf) → List ℕ → Option ℕ
find_buf test buf [] = none
find_buf test buf (b ∷ bs) = if test (buf b) then some b else find_buf test buf bs

abbrev pub holds : (dev blockno : ℕ) → Buf → Bool
holds dev blockno b = b.dev == dev && b.blockno == blockno

abbrev pub unused : Buf → Bool
unused b = b.refcnt == 0 && not b.dirty

unfoldable pub backward : List ℕ → List ℕ
backward [] = []
backward (b ∷ bs) = backward bs ++ b ∷ []

abbrev pub fresh : (dev blockno : ℕ) → Buf → Buf
fresh dev blockno b = record b {
  dev = dev;
  blockno = blockno;
  valid = false;
  dirty = false;
  refcnt = 1;
}

-- The second loop of `bget`.
unfoldable pub recycle : (dev blockno : ℕ) → Option ℕ → Bcache → Outcome (ℕ × Bcache)
unfolding release
recycle dev blockno none c = panic
recycle dev blockno (some b) c = release (change b (fresh dev blockno) c) >>= λ c. ok (b, c)

unfoldable pub found : (dev blockno : ℕ) → Option ℕ → Bcache → Outcome (ℕ × Bcache)
unfolding release recycle find_buf backward
found dev blockno (some b) c =
    release (change b (λ f. record f { refcnt = f.refcnt + 1 }) c) >>= λ c. ok (b, c)
found dev blockno none c = recycle dev blockno (find_buf unused c.buf (backward c.order)) c

-- `bget` up to its `acquiresleep`.
unfoldable pub bget : (dev blockno : ℕ) → Bcache → Outcome (ℕ × Bcache)
unfolding acquire found find_buf
bget dev blockno c =
    acquire c >>= λ c. found dev blockno (find_buf (holds dev blockno) c.buf c.order) c

-- `iderw` of memide.c.
unfoldable pub iderw : (cur b : ℕ) → Bcache → Outcome Bcache
unfolding holdingsleep
iderw cur b c = do
  let f = c.buf b
  panic_if (not (holdingsleep cur f.lock))
  panic_if (f.valid && not f.dirty)
  panic_if (not (f.dev == 1))
  panic_if (leb c.disksize f.blockno)
  ok (
      if f.dirty
      then record (change b (λ f. record f { dirty = false; valid = true }) c) {
        disk = update c.disk f.blockno f.contents;
      }
      else change b (λ g. record g { contents = c.disk f.blockno; valid = true }) c)

-- The rest of `bread` by process `cur`, behind the loop of `acquiresleep`.
unfoldable pub fill : (cur b : ℕ) → Bcache → Outcome Bcache
unfolding iderw
fill cur b c = if not (c.buf b).valid then iderw cur b c else ok c

-- `acquiresleep(&b->lock)`: `false` if the process sleeps.
unfoldable pub lock_buf : (cur b : ℕ) → Bcache → Bool × Bcache
unfolding acquiresleep
lock_buf cur b c =
    let (got, lk) = acquiresleep cur (c.buf b).lock in
    (got, change b (λ f. record f { lock = lk }) c)

unfoldable pub read_locked : (cur b : ℕ) → Bool × Bcache → Outcome (Option ℕ × Bcache)
unfolding fill
read_locked cur b (true, c) = fill cur b c >>= λ c. ok (some b, c)
read_locked cur b (false, c) = ok (none, c)

-- `bread` where the lock of the buffer is free; where it is not, nothing, and the process waits.
unfoldable pub bread : (cur dev blockno : ℕ) → Bcache → Outcome (Option ℕ × Bcache)
unfolding bget lock_buf read_locked
bread cur dev blockno c = bget dev blockno c >>= λ (b, c). read_locked cur b (lock_buf cur b c)

unfoldable pub bwrite : (cur b : ℕ) → Bcache → Outcome Bcache
unfolding iderw holdingsleep
bwrite cur b c = do
  panic_if (not (holdingsleep cur (c.buf b).lock))
  iderw cur b (change b (λ f. record f { dirty = true }) c)

-- The list without a buffer.
unfoldable pub unlink : ℕ → List ℕ → List ℕ
unlink b [] = []
unlink b (a ∷ bs) = if a == b then unlink b bs else a ∷ unlink b bs

unfoldable pub brelse : (cur b : ℕ) → Bcache → Outcome Bcache
unfolding acquire release holdingsleep releasesleep unlink
brelse cur b c = do
  panic_if (not (holdingsleep cur (c.buf b).lock))
  let c = change b (λ f. record f { lock = releasesleep f.lock }) c
  c ← acquire c
  let c = change b (λ f. record f { refcnt = f.refcnt - 1 }) c
  release (if (c.buf b).refcnt == 0 then record c { order = b ∷ unlink b c.order } else c)
