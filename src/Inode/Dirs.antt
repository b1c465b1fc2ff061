-- ===== src/Inode/Dirs.antt =====
-- Directories in fs.c: `namecmp` and `dirlookup`.
use operating_systems_three.Prelude.{
  ℕ, zero, suc, ◌+◌, ◌*◌, ◌==◌, ltb, if◌then◌else◌, Bool, true, false, not, List, [], ◌∷◌, Option,
  none, some, Outcome, ok, panic, ◌>>=◌, ◌>>◌, panic_if, length, get_or, drop,
}
use operating_systems_three.Fs.{Disk}
use operating_systems_three.Fs.Names.{dirsiz}
use operating_systems_three.Inode.{Dinode, Icache, change, iget}
use operating_systems_three.Inode.Reads.{readi}

-- `strncmp(s, t, n) == 0` for two arrays; what is behind a list's end counts as NUL.
unfoldable pub same_name : (n : ℕ) → List ℕ → List ℕ → Bool
same_name zero s t = true
same_name (suc n) [] [] = true
same_name (suc n) [] (c ∷ t) = c == 0
same_name (suc n) (c ∷ s) [] = c == 0
same_name (suc n) (c ∷ s) (e ∷ t) =
    let rest = same_name n s t in if c == e then (if c == 0 then true else rest) else false

-- `sizeof(struct dirent)`, and the fields of one in a list of its bytes.
abbrev pub dirent_size : ℕ
dirent_size = 16

unfoldable pub dirent_inum : List ℕ → ℕ
dirent_inum de = get_or de 0 0 + 256 * get_or de 1 0

unfoldable pub dirent_name : List ℕ → List ℕ
dirent_name de = drop 2 de

-- `de.inum != 0` and `namecmp(name, de.name) == 0`.
unfoldable pub matches : List ℕ → List ℕ → Bool
matches name de = if dirent_inum de == 0 then false else same_name dirsiz name (dirent_name de)

abbrev pub Found : Type 0
Found = Option (ℕ × ℕ) × (ℕ → ℕ) × Disk

-- The loop of `dirlookup` behind its `readi`, which left the addresses and the disk behind.
unfoldable pub look_at :
    (name : List ℕ)
    → (off : ℕ) → (next : (ℕ → ℕ) → Disk → Outcome Found) → Option (List ℕ) × (ℕ → ℕ) × Disk
    → Outcome Found
look_at name off next (none, addrs, d) = panic
look_at name off next (some de, addrs, d) = do
  panic_if (not (length de == dirent_size))
  if matches name de then ok (some (dirent_inum de, off), addrs, d) else next addrs d

-- The loop: the number of the inode and the offset of its entry, if there is one.
unfoldable pub look :
    (devsw : ℕ → Option (ℕ → Option (List ℕ)))
    → (rounds off : ℕ) → (name : List ℕ) → Dinode
    → Disk
    → Outcome Found
look devsw zero off name ip d = ok (none, ip.addrs, d)
look devsw (suc r) off name ip d =
    let next = λ (addrs : ℕ → ℕ) (d : Disk).
      look devsw r (off + dirent_size) name (record ip { addrs = addrs }) d in
    if ltb off ip.size
    then (readi devsw off dirent_size ip d >>= look_at name off next)
    else ok (none, ip.addrs, d)

-- What follows the loop: `iget`, for an entry that was found.
unfoldable pub look_done : (dev : ℕ) → Option (ℕ × ℕ) → Icache → Outcome (Option (ℕ × ℕ) × Icache)
look_done dev none t = ok (none, t)
look_done dev (some (inum, off)) t = iget dev inum t >>= λ (j, t). ok (some (j, off), t)

-- `dirlookup` in the directory of entry `i`: the entry of the cache for the inode found, and the
-- offset.
unfoldable pub dirlookup :
    (devsw : ℕ → Option (ℕ → Option (List ℕ)))
    → (i : ℕ) → (name : List ℕ) → Icache
    → Outcome (Option (ℕ × ℕ) × Icache)
dirlookup devsw i name t = do
  panic_if (not ((t.inode i).copy.kind == 1))
  (found, addrs, d) ← look devsw (t.inode i).copy.size 0 name (t.inode i).copy t.disk
  look_done (t.inode i).dev found (
      change i (λ ip. record ip { copy = record ip.copy { addrs = addrs } })
        (record t { disk = d }))
