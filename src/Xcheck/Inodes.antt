-- ===== src/Xcheck/Inodes.antt =====
-- xcheck.c: types, addresses and directories of the inodes.
use operating_systems_three.Prelude.{
  ℕ, zero, suc, ◌+◌, ◌-◌, ◌*◌, ◌%◌, ◌^◌, ◌==◌, ltb, if◌then◌else◌, Bool, not, ◌&&◌, update,
}
use operating_systems_three.Xcheck.{
  bad_inode, bad_direct, bad_indirect, bad_directory, no_root, marked_free, listed_twice,
  bad_references, unlisted, Check, pass, fail, ◌>>=◌, fail_if, Image, get_short, Super, Node,
  node_at, inuse_at,
}

-- `inuse_inode[i]++` and `inuse_inode[i]--`.
unfoldable pub more : ℕ → (ℕ → ℕ) → ℕ → ℕ
more i inuse = update inuse i ((inuse i + 1) % 2 ^ 32)

unfoldable pub less : ℕ → (ℕ → ℕ) → ℕ → ℕ
less i inuse = update inuse i ((inuse i + 2 ^ 32 - 1) % 2 ^ 32)

unfoldable pub check_inode_type : Node → Check (Unit {0})
check_inode_type n =
    fail_if (not (n.kind == 3) && not (n.kind == 2) && not (n.kind == 1) && not (n.kind == 0))
      bad_inode

-- The loop of `check_inode_data_blocks`.
unfoldable pub check_direct : (rounds i : ℕ) → Super → Node → Check (Unit {0})
check_direct zero i sb n = pass tt
check_direct (suc r) i sb n =
    fail_if (ltb sb.size (n.addrs i)) bad_direct >>= λ _. check_direct r (i + 1) sb n

unfoldable pub check_inode_data_blocks : Super → Node → Check (Unit {0})
check_inode_data_blocks sb n =
    check_direct 12 0 sb n >>= λ _. fail_if (ltb sb.size (n.addrs 12)) bad_indirect

-- `strcmp(name, ".") == 0` and `strcmp(name, "..") == 0` for the name at `p`.
unfoldable pub is_dot : Image → ℕ → Bool
is_dot m p = m p == 46 && m (p + 1) == 0

unfoldable pub is_dot_dot : Image → ℕ → Bool
is_dot_dot m p = m p == 46 && m (p + 1) == 46 && m (p + 2) == 0

-- What a loop of `check_dir` comes to: it is through, or the function has returned.
pub data Scan : Type 0 where
  through returned : (ℕ → ℕ) → Scan

-- One entry of a directory, that of inode `inum`, which is not 0, with its name at `p`.
unfoldable pub check_entry : (node inum p : ℕ) → Image → (ℕ → ℕ) → Check (ℕ → ℕ)
check_entry node inum p m inuse =
    let counted = more inum inuse in
    if is_dot m p
    then (if not (node == inum) then fail bad_directory else pass (less inum counted))
    else (if is_dot_dot m p
        then (if node == 1 && not (node == inum) then fail no_root else pass (less inum counted))
        else pass counted)

-- The inner loop of `check_dir`, over the entries of a block.
unfoldable pub check_entries : (rounds p node : ℕ) → Image → (ℕ → ℕ) → Check Scan
check_entries zero p node m inuse = pass (through inuse)
check_entries (suc r) p node m inuse =
    let inum = get_short m p in
    if inum == 0
    then pass (returned inuse)
    else (check_entry node inum (p + 2) m inuse >>= check_entries r (p + 16) node m)

unfoldable pub next_block : Scan → ((ℕ → ℕ) → Check (ℕ → ℕ)) → Check (ℕ → ℕ)
next_block (through inuse) rest = rest inuse
next_block (returned inuse) rest = pass inuse

-- The outer loop, over the direct blocks.
unfoldable pub check_blocks : (rounds i node : ℕ) → Node → Image → (ℕ → ℕ) → Check (ℕ → ℕ)
check_blocks zero i node n m inuse = pass inuse
check_blocks (suc r) i node n m inuse =
    if n.addrs i == 0
    then pass inuse
    else (check_entries 32 (n.addrs i * 512) node m inuse >>= λ s.
        next_block s (check_blocks r (i + 1) node n m))

unfoldable pub check_dir : (node : ℕ) → Node → Image → (ℕ → ℕ) → Check (ℕ → ℕ)
check_dir node n m inuse =
    check_blocks 12 0 node n m (if not (node == 1) then less node inuse else inuse)

-- The first loop of `check_inodes`.
unfoldable pub visit : ℕ → Node → Image → (ℕ → ℕ) → Check (ℕ → ℕ)
visit i n m inuse =
    if n.kind == 0
    then pass inuse
    else (if n.kind == 1 then check_dir i n m inuse else pass (less i inuse))

unfoldable pub visit_all : (rounds i : ℕ) → Super → Image → (ℕ → ℕ) → Check (ℕ → ℕ)
visit_all zero i sb m inuse = pass inuse
visit_all (suc r) i sb m inuse = check_inode_type (node_at sb m i) >>= λ _.
    check_inode_data_blocks sb (node_at sb m i) >>= λ _.
    visit i (node_at sb m i) m inuse >>= visit_all r (i + 1) sb m

-- The second loop: the counts.
unfoldable pub check_count : Node → ℕ → Check (Unit {0})
check_count n c =
    if n.kind == 0
    then fail_if (ltb 0 c && ltb c (2 ^ 31)) marked_free
    else (if n.kind == 1
        then fail_if (not (c == 1)) listed_twice
        else (if n.kind == 2
            then fail_if (not (c == 1)) bad_references
            else fail_if (not (c == 1)) unlisted))

unfoldable pub check_counts : (rounds i : ℕ) → Super → Image → (ℕ → ℕ) → Check (Unit {0})
check_counts zero i sb m inuse = pass tt
check_counts (suc r) i sb m inuse =
    check_count (node_at sb m i) (inuse i) >>= λ _. check_counts r (i + 1) sb m inuse

unfoldable pub check_inodes : Super → Image → (malloc : ℕ → ℕ) → Check (Unit {0})
check_inodes sb m malloc =
    visit_all sb.ninodes 0 sb m (inuse_at sb m malloc) >>= check_counts sb.ninodes 0 sb m
