-- ===== src/File.antt =====
-- src/file.c: the table of open files, as far as it counts references. `locked` is `ftable.lock`.
pub mod Refs
mod Examples
use operating_systems_three.Prelude.{
  ℕ, zero, suc, ◌+◌, ◌-◌, ◌==◌, ltb, if◌then◌else◌, Bool, true, false, Option, none, some, update,
  Outcome, ok, panic, ◌>>=◌, ◌>>◌, panic_if,
}

pub data Kind : Type 0 where
  fd_none fd_pipe fd_inode : Kind

-- `struct file`, with `kind` for its `type`; pipes and inodes are named by addresses.
pub record File : Type 0 where
  pub kind : Kind
  pub ref : ℕ
  pub readable : Bool
  pub writable : Bool
  pub pipe : ℕ
  pub ip : ℕ
  pub off : ℕ

-- NFILE of param.h.
abbrev pub nfile : ℕ
nfile = 100

pub record Ftable : Type 0 where
  pub locked : Bool
  pub file : ℕ → File

unfoldable pub acquire : Ftable → Outcome Ftable
acquire t = if t.locked then panic else ok (record t { locked = true })

unfoldable pub release : Ftable → Outcome Ftable
release t = if t.locked then ok (record t { locked = false }) else panic

-- The loop of `filealloc` from index `i` on.
unfoldable pub find_free : (rounds i : ℕ) → (ℕ → File) → Option ℕ
find_free zero i file = none
find_free (suc r) i file =
    let rest = find_free r (i + 1) file in if (file i).ref == 0 then some i else rest

unfoldable pub alloc_found : Option ℕ → Ftable → Outcome (Option ℕ × Ftable)
unfolding release update
alloc_found none t = release t >>= λ t. ok (none, t)
alloc_found (some i) t =
    release (record t { file = update t.file i (record (t.file i) { ref = 1 }) }) >>= λ t.
    ok (some i, t)

unfoldable pub filealloc : Ftable → Outcome (Option ℕ × Ftable)
unfolding acquire find_free alloc_found
filealloc t = acquire t >>= λ t. alloc_found (find_free nfile 0 t.file) t

unfoldable pub filedup : ℕ → Ftable → Outcome Ftable
unfolding acquire release update
filedup i t = do
  t ← acquire t
  panic_if (ltb (t.file i).ref 1)
  release (record t { file = update t.file i (record (t.file i) { ref = (t.file i).ref + 1 }) })

-- What `fileclose` does behind the lock: it closes an end of a pipe, or puts an inode back in an
-- operation of the log.
pub data Closing : Type 0 where
  still_open nothing : Closing
  close_pipe : ℕ → Bool → Closing
  put_inode : ℕ → Closing

unfoldable pub closing : File → Closing
closing f = elim f.kind [
  | fd_none ↦ nothing
  | fd_pipe ↦ close_pipe f.pipe f.writable
  | fd_inode ↦ put_inode f.ip
]

unfoldable pub fileclose : ℕ → Ftable → Outcome (Closing × Ftable)
unfolding acquire release update closing
fileclose i t = do
  t ← acquire t
  let f = t.file i
  let left = f.ref - 1
  panic_if (ltb f.ref 1)
  t ← release (
      if ltb 0 left
      then record t { file = update t.file i (record f { ref = left }) }
      else record t { file = update t.file i (record f { ref = 0; kind = fd_none }) })
  ok (if ltb 0 left then still_open else closing f, t)
