-- ===== src/Xcheck/Blocks.antt =====
-- xcheck.c: the blocks that inodes use against the bitmap.
use operating_systems_three.Prelude.{
  ℕ, zero, suc, ◌+◌, ◌*◌, ◌^◌, ◌==◌, ltb, leb, if◌then◌else◌, not, ◌&&◌, update,
}
use operating_systems_three.Fs.{has}
use operating_systems_three.Xcheck.{
  Error, direct_twice, indirect_twice, used_but_free, free_but_used, Check, pass, fail, ◌>>=◌,
  fail_if, Image, get_int, Super, node_at,
}

-- `mark_eserved_blocks`, on what `malloc` found.
unfoldable pub mark_reserved : Super → (ℕ → ℕ) → ℕ → ℕ
mark_reserved sb malloc i = if leb i sb.bmapstart then 1 else malloc i

-- `inuse_block[x] += 1`, and the test behind it.
unfoldable pub mark : Error → ℕ → (ℕ → ℕ) → Check (ℕ → ℕ)
mark e x inuse =
    let inuse' = update inuse x (inuse x + 1) in if ltb 1 (inuse' x) then fail e else pass inuse'

-- The loop of `mark_indirect_add`, with the addresses at `p`.
unfoldable pub mark_indirect : (rounds k : ℕ) → (p : ℕ) → Image → (ℕ → ℕ) → Check (ℕ → ℕ)
mark_indirect zero k p m inuse = pass inuse
mark_indirect (suc r) k p m inuse =
    let x = get_int m (p + k * 4) in
    (if not (x == 0) then mark indirect_twice x inuse else pass inuse)
    >>= mark_indirect r (k + 1) p m

-- The inner loop of `mark_add`.
unfoldable pub mark_node : (rounds j : ℕ) → (addrs : ℕ → ℕ) → Image → (ℕ → ℕ) → Check (ℕ → ℕ)
mark_node zero j addrs m inuse = pass inuse
mark_node (suc r) j addrs m inuse =
    let x = addrs j in
    (if not (x == 0)
      then (mark direct_twice x inuse >>= λ inuse.
          if j == 12 then mark_indirect 128 0 (512 * x) m inuse else pass inuse)
      else pass inuse)
    >>= mark_node r (j + 1) addrs m

-- The outer loop of `mark_add`.
unfoldable pub mark_add : (rounds i : ℕ) → Super → Image → (ℕ → ℕ) → Check (ℕ → ℕ)
mark_add zero i sb m inuse = pass inuse
mark_add (suc r) i sb m inuse =
    mark_node 13 0 (node_at sb m i).addrs m inuse >>= mark_add r (i + 1) sb m

unfoldable pub mark_used_blocks : Super → Image → (malloc : ℕ → ℕ) → Check (ℕ → ℕ)
mark_used_blocks sb m malloc = mark_add sb.ninodes 0 sb m (mark_reserved sb malloc)

-- The inner loop of `check_bitmap`, on a byte of the bitmap for the blocks from `i` on.
unfoldable pub check_byte : (rounds j i val : ℕ) → (ℕ → ℕ) → Check (Unit {0})
check_byte zero j i val inuse = pass tt
check_byte (suc r) j i val inuse =
    (if not (has val (2 ^ j)) && inuse (i + j) == 1
      then fail used_but_free
      else fail_if (has val (2 ^ j) && inuse (i + j) == 0) free_but_used)
    >>= λ _. check_byte r (j + 1) i val inuse

-- The outer loop, from block `i` on, whose byte is at `p`.
unfoldable pub check_bytes : (rounds i p : ℕ) → Image → (ℕ → ℕ) → Check (Unit {0})
check_bytes zero i p m inuse = pass tt
check_bytes (suc r) i p m inuse =
    check_byte 8 0 i (m p) inuse >>= λ _. check_bytes r (i + 8) (p + 1) m inuse

unfoldable pub check_bitmap : Super → Image → (malloc : ℕ → ℕ) → Check (Unit {0})
check_bitmap sb m malloc = mark_used_blocks sb m malloc >>= check_bytes 125 0 (sb.bmapstart * 512) m
