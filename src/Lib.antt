-- ===== src/Lib.antt =====
-- Parts of the repository of exercises on operating systems: the kernel (a variant of xv6 with a
-- lottery scheduler, threads and page protection) under src/, and the stand-alone programs under
-- P1a/, P3a/, P4a/ and P5/.
--
-- How the parts interact in the source: a system call of a process runs in the kernel against the
-- process table (src/proc.c); reads and writes go to pipes (src/pipe.c) or to files, whose blocks are
-- written through the log (src/log.c); kernel stacks, page tables and pipes live in pages from
-- src/kalloc.c; whoever has to wait calls `sleep` of src/proc.c on a channel, and `wakeup` on it makes
-- him runnable. The programs under P1a/, P3a/, P4a/ and P5/ do not use the kernel; P5/xcheck.c reads an
-- image of its file system.
--
-- Which file models which part:
--   Prelude    names of the libraries, Boolean tests, lists over native numbers, C arrays, texts, and
--              the outcome of kernel code, which returns or stops in `panic`
--   Kalloc     src/kalloc.c: the memory of the pages is a part of the state, and the free list runs
--              through it; FreeList, Frees and Range hold its theory
--   Pipe       src/pipe.c: counters modulo 2 ^ 32; a call that sleeps is cut at the sleep, and goes on
--              with what is left of it; Inv, Writes, Reads and Stream hold its theory
--   Log        src/log.c with `bwrite` of src/bio.c; Log.Ops has begin_op, end_op and log_write.
--              Every `bwrite` is an atomic write of one block, and the state keeps all the disks that
--              it went through; Txn, Recover, Commit and Crash are about power failures, Absorb,
--              Counters and Reserve about the room in the log
--   Proc       src/proc.c: Proc.Sched has scheduler, yield, sleep and getpstat, Proc.Life allocproc,
--              fork, clone, exit, wait and kill; a function that switches to the scheduler is cut at
--              the switch; Lottery is about the scheduler, Wakeups, Family, Exit, Kids
--              and Wait about the others
--   File       src/file.c: the reference counts of the table of open files; Refs holds the theory
--   Bytes      src/string.c over a memory of bytes; `rep stosb` and `rep stosl` of src/x86.h store
--              bytes and words; Moves, Sets, Lengths, Copies and Safe hold the theory
--   Syscall    src/syscall.c: how the arguments of a system call are fetched from the memory of the
--              process; Args has the theory
--   Locks      src/spinlock.c and src/sleeplock.c; Spin and Sleep are about mutual exclusion over
--              interleavings of the single steps
--   Cache      src/bio.c over the disk in memory of src/memide.c: buffers are named by their index,
--              and the linked list is the list of these indices; Order, Gets, Views and Reads hold
--              the theory
--   Fs         src/fs.c: the free map of blocks; Fs.Names has the path names; Bits, Free, Alloc and
--              Split hold the theory. Blocks are taken as the kernel sees them through Cache
--   Inode      src/fs.c: inodes and their cache; Scan and Refs are about the references to its
--              entries, Frees, Loops, Trunc, Drops and Puts about what is freed with the last one.
--              Inode.Bmap has `bmap`, with Words, Slots, Maps and Mapping about it; Ialloc has
--              `ialloc`, Reads `readi`, and Writei `writei`, which take the table of devices as an
--              argument; Laid, Writes and ReadWrite are about a read behind a write; Dirs has
--              `dirlookup`, and Lookup is about what it finds
--   Xcheck     P5/xcheck.c: Xcheck.Inodes has the checks of inodes and directories, Xcheck.Blocks
--              those of the bitmap; Marks, Bits, Accepts and Rejects are about what is accepted
--   MapReduce  P4a/mapreduce.c, and P4a/wordcount.c in MapReduce.WordCount: a string is the list of its
--              bytes; Strings, Slots, Values and Operations are about the table of values, Keys and
--              Links about the sorted lists, Emits about a whole call of `MR_Emit`, Rounds about the
--              threads that `MR_Run` starts, Words and Counts about the word count; MapReduce.Reducers
--              has the reducers side by side, Races and Moves their theory
--   Zip        P1a/wzip/wzip.c and P1a/wunzip/wunzip.c; Zip.Parallel has P3a/pzip.c, Runs, RoundTrip,
--              Chunks, Parts and Short the theory
--
-- Numbers are natural numbers; where the source relies on wrap-around (the counters of a pipe), it
-- is written out, and where an `int` would overflow, a theorem has the bound as a hypothesis. Loops
-- recurse on the list that they walk through, or on the number of rounds that their bound gives
-- (the entries of the log, the slots of a table, the pages of a range), so no round is cut off;
-- `strlen`, the loop of `Reduce` and the rounds of `MR_Run` have a bound, and a theorem says when it
-- is enough.
--
-- Outside of Locks, a spin lock is a flag: `acquire` of a held lock and `release` of a free one
-- panic, as they do on one CPU; other CPUs come in as interleavings of whole critical sections, in
-- Pipe.Stream and Log.Reserve. A sleep lock is that of Locks. Trap frames, page tables and the C
-- library are not modelled; the latter is read as its standard says (getline, fread, fwrite, strcmp,
-- strsep). Of the file system, `dirlink` and the look-ups of `namex` are not modelled; neither
-- are reads and writes of open files, virtual memory, the drivers and the shells.
--
-- In MapReduce, how much a block of `malloc` can hold and where the unset link of a new node leads are
-- arguments; a search that leaves the table, and a copy that leaves its block, are `none`; the lists of
-- the partitions are taken as `MR_Emit` leaves them, since `MR_Run` does not clear their heads. In
-- pzip.c a thread that leaves its arrays is `none`. The counts of `scheduler` wrap around as an `int`
-- does. In fs.c the room in the log is not checked, and in xcheck.c the arrays have no bounds.
pub mod Prelude
pub mod Kalloc
pub mod MapReduce
pub mod Pipe
pub mod Log
pub mod Zip
pub mod Bytes
pub mod File
pub mod Syscall
pub mod Locks
pub mod Cache
pub mod Fs
pub mod Inode
pub mod Xcheck
pub mod Proc
