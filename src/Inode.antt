-- ===== src/Inode.antt =====
-- src/fs.c: inodes and their cache. `dinode` is the table of inodes on the disk, as the kernel sees
-- its blocks, by number; that a change of it is logged is not recorded. The processes name an entry
-- of the cache by its index.
pub mod Scan
pub mod Refs
pub mod Frees
pub mod Loops
pub mod Trunc
pub mod Drops
pub mod Puts
pub mod Ialloc
pub mod Reads
pub mod Dirs
pub mod Lookup
pub mod Writei
pub mod Writes
pub mod ReadWrite
pub mod Bmap
pub mod Words
pub mod Slots
pub mod Laid
pub mod Maps
pub mod Mapping
mod Examples
use operating_systems_three.Prelude.{
  ℕ, zero, suc, ◌+◌, ◌-◌, ◌*◌, ◌==◌, ltb, if◌then◌else◌, Bool, true, false, not, ◌&&◌, ◌||◌, Option,
  none, some, update, Outcome, ok, panic, ◌>>=◌, ◌>>◌, panic_if,
}
use operating_systems_three.Locks.{
  SleepLock, initsleeplock, acquiresleep, releasesleep, holdingsleep,
}
use operating_systems_three.Fs.{Disk, bfree}
use operating_systems_three.Syscall.{word}

-- NDIRECT and NINDIRECT of fs.h.
abbrev pub ndirect : ℕ
ndirect = 12

abbrev pub nindirect : ℕ
nindirect = 128

-- NINODE of param.h.
abbrev pub ninode : ℕ
ninode = 50

-- `struct dinode`; `kind` is its `type`.
pub record Dinode : Type 0 where
  pub kind : ℕ
  pub major : ℕ
  pub minor : ℕ
  pub nlink : ℕ
  pub size : ℕ
  pub addrs : ℕ → ℕ

-- `struct inode`, with the copy of the inode on the disk.
pub record Inode : Type 0 where
  pub dev : ℕ
  pub inum : ℕ
  pub ref : ℕ
  pub lock : SleepLock
  pub valid : Bool
  pub copy : Dinode

-- `icache`, the inodes on the disk and the rest of the disk.
pub record Icache : Type 0 where
  pub locked : Bool
  pub inode : ℕ → Inode
  pub dinode : ℕ → Dinode
  pub disk : Disk

abbrev pub change : ℕ → (Inode → Inode) → Icache → Icache
change i f t = record t { inode = update t.inode i (f (t.inode i)) }

unfoldable pub acquire : Icache → Outcome Icache
acquire t = if t.locked then panic else ok (record t { locked = true })

unfoldable pub release : Icache → Outcome Icache
release t = if t.locked then ok (record t { locked = false }) else panic

-- What the loop of `iget` finds: the inode, or the first empty slot if there is one.
pub data Slot : Type 0 where
  cached : ℕ → Slot
  vacant : Option ℕ → Slot

unfoldable pub is_for : (dev inum : ℕ) → Inode → Bool
is_for dev inum ip = ltb 0 ip.ref && (ip.dev == dev && ip.inum == inum)

-- `if(empty == 0 && ip->ref == 0) empty = ip`.
unfoldable pub remember : Option ℕ → ℕ → Inode → Option ℕ
remember (some e) i ip = some e
remember none i ip = if ip.ref == 0 then some i else none

unfoldable pub iget_scan : (rounds i : ℕ) → Option ℕ → (dev inum : ℕ) → (ℕ → Inode) → Slot
unfolding is_for remember
iget_scan zero i empty dev inum inode = vacant empty
iget_scan (suc r) i empty dev inum inode =
    let rest = iget_scan r (i + 1) (remember empty i (inode i)) dev inum inode in
    if is_for dev inum (inode i) then cached i else rest

abbrev pub recycled : (dev inum : ℕ) → Inode → Inode
recycled dev inum ip = record ip { dev = dev; inum = inum; ref = 1; valid = false }

abbrev pub one_more : Inode → Inode
one_more ip = record ip { ref = ip.ref + 1 }

unfoldable pub iget_found : (dev inum : ℕ) → Slot → Icache → Outcome (ℕ × Icache)
unfolding release
iget_found dev inum (cached i) t = release (change i one_more t) >>= λ t. ok (i, t)
iget_found dev inum (vacant (some i)) t =
    release (change i (recycled dev inum) t) >>= λ t. ok (i, t)
iget_found dev inum (vacant none) t = panic

unfoldable pub iget : (dev inum : ℕ) → Icache → Outcome (ℕ × Icache)
unfolding acquire iget_found
iget dev inum t =
    acquire t >>= λ t. iget_found dev inum (iget_scan ninode 0 none dev inum t.inode) t

unfoldable pub idup : ℕ → Icache → Outcome Icache
unfolding acquire release
idup i t = acquire t >>= λ t. release (change i one_more t)

-- `ilock` by process `cur` behind `acquiresleep`: the copy is read if it is not valid.
unfoldable pub load : ℕ → Icache → Outcome Icache
load i t =
    let read = change i (λ ip. record ip { copy = t.dinode ip.inum; valid = true }) t in
    if not (t.inode i).valid then (panic_if ((read.inode i).copy.kind == 0) >> ok read) else ok t

unfoldable pub locked_by : (cur i : ℕ) → Bool × SleepLock → Icache → Outcome (Bool × Icache)
unfolding load
locked_by cur i (true, lk) t =
    load i (change i (λ ip. record ip { lock = lk }) t) >>= λ t. ok (true, t)
locked_by cur i (false, lk) t = ok (false, t)

-- `ilock`: `false` if the process sleeps in `acquiresleep`, and will try again.
unfoldable pub ilock : (cur i : ℕ) → Icache → Outcome (Bool × Icache)
unfolding locked_by acquiresleep
ilock cur i t = do
  panic_if (ltb (t.inode i).ref 1)
  locked_by cur i (acquiresleep cur (t.inode i).lock) t

unfoldable pub iunlock : (cur i : ℕ) → Icache → Outcome Icache
unfolding holdingsleep releasesleep
iunlock cur i t = do
  panic_if (not (holdingsleep cur (t.inode i).lock) || ltb (t.inode i).ref 1)
  ok (change i (λ ip. record ip { lock = releasesleep ip.lock }) t)

-- `iupdate`: the copy goes to the disk.
unfoldable pub iupdate : ℕ → Icache → Icache
unfolding update
iupdate i t = record t { dinode = update t.dinode (t.inode i).inum (t.inode i).copy }

-- The loop of `itrunc` over the direct blocks.
unfoldable pub free_direct : (rounds j : ℕ) → (ℕ → ℕ) → Disk → Outcome ((ℕ → ℕ) × Disk)
unfolding bfree update
free_direct zero j addrs d = ok (addrs, d)
free_direct (suc r) j addrs d =
    if not (addrs j == 0)
    then (bfree (addrs j) d >>= λ d. free_direct r (j + 1) (update addrs j 0) d)
    else free_direct r (j + 1) addrs d

-- The loop over the block numbers in an indirect block.
unfoldable pub free_indirect : (rounds j : ℕ) → (ℕ → ℕ) → Disk → Outcome Disk
unfolding bfree word
free_indirect zero j bytes d = ok d
free_indirect (suc r) j bytes d =
    let a = word bytes (4 * j) in
    if not (a == 0)
    then (bfree a d >>= free_indirect r (j + 1) bytes)
    else free_indirect r (j + 1) bytes d

-- `itrunc` behind that loop, up to `ip->size = 0`.
unfoldable pub free_last : (ℕ → ℕ) × Disk → Outcome ((ℕ → ℕ) × Disk)
free_last (addrs, d) =
    let last = addrs ndirect in
    if not (last == 0)
    then (free_indirect nindirect 0 (d.blocks last) d >>= bfree last >>= λ d.
        ok (update addrs ndirect 0, d))
    else ok (addrs, d)

unfoldable pub free_blocks : (ℕ → ℕ) → Disk → Outcome ((ℕ → ℕ) × Disk)
free_blocks addrs d = free_direct ndirect 0 addrs d >>= free_last

unfoldable pub itrunc : ℕ → Icache → Outcome Icache
unfolding free_blocks iupdate
itrunc i t = do
  (addrs, d) ← free_blocks (t.inode i).copy.addrs t.disk
  ok (
      iupdate i (
        change i (λ ip. record ip { copy = record ip.copy { addrs = addrs; size = 0 } })
          (record t { disk = d })))

-- The part of `iput` that frees an inode without links, with the lock of the inode held.
unfoldable pub drop_last : ℕ → Icache → Outcome Icache
drop_last i t =
    if (t.inode i).ref == 1
    then (itrunc i t >>= λ t. ok (
        change i (λ ip. record ip { valid = false })
          (iupdate i (change i (λ ip. record ip { copy = record ip.copy { kind = 0 } }) t))))
    else ok t

unfoldable pub drop_inode : ℕ → Icache → Outcome Icache
drop_inode i t =
    if (t.inode i).valid && (t.inode i).copy.nlink == 0
    then (acquire t >>= release >>= drop_last i)
    else ok t

-- `iput` from its `releasesleep` on.
unfoldable pub put_done : ℕ → Icache → Outcome (Bool × Icache)
put_done i t = do
  t ← acquire (change i (λ ip. record ip { lock = releasesleep ip.lock }) t)
  t ← release (change i (λ ip. record ip { ref = ip.ref - 1 }) t)
  ok (true, t)

-- The rest of `iput`, behind a turn of the loop of `acquiresleep`.
unfoldable pub put_locked : ℕ → Bool × SleepLock → Icache → Outcome (Bool × Icache)
put_locked i (true, lk) t = drop_inode i (change i (λ ip. record ip { lock = lk }) t) >>= put_done i
put_locked i (false, lk) t = ok (false, t)

-- `iput` by process `cur`: `false` if it sleeps in `acquiresleep`, and will try again.
unfoldable pub iput : (cur i : ℕ) → Icache → Outcome (Bool × Icache)
iput cur i t = put_locked i (acquiresleep cur (t.inode i).lock) t
