-- ===== src/Xcheck/Rejects.antt =====
-- Which images xcheck.c rejects.
use operating_systems_three.Prelude.{
  ℕ, zero, suc, ◌+◌, ◌≡◌, ◌≢◌, ◌≤◌, ◌<◌, ◌⊎◌, refl, sym, subst, arith, inl, inr, ◌==◌, ltb, not,
  ◌&&◌, true, false, Bool-cases, ℕ_discrete,
}
use operating_systems_three.Xcheck.{
  Error, bad_inode, bad_direct, bad_indirect, Check, pass, fail, ◌>>=◌, fail_if, Image, Super,
  construct_super_block, Node, node_at, inuse_at,
}
use operating_systems_three.Xcheck.Blocks.{check_bitmap}
use operating_systems_three.Xcheck.Inodes.{
  check_inode_type, check_direct, check_inode_data_blocks, visit, visit_all, check_inodes,
}
use operating_systems_three.Xcheck.Accepts.{IsConsistent, check_bitmap_iff}

-- `check`, on the image and what `malloc` finds for its two arrays of counters.
unfoldable pub check : Image → (inode_malloc block_malloc : ℕ → ℕ) → Check (Unit {0})
check m inode_malloc block_malloc =
    let sb = construct_super_block m 512 in
    check_inodes sb m inode_malloc >>= λ _. check_bitmap sb m block_malloc

-- The type of the inode is none that is known, or one of its addresses is behind the end of the
-- file system.
abbrev pub IsBad : Super → Node → Type 0
IsBad sb n = (3 < n.kind) ⊎ ((j : ℕ) × (j ≤ 12) × (sb.size < n.addrs j))

bind-fail :
    {A B : Type 0} (m : Check A) (f : A → Check B)
    → ((a : A) → (e : Error) × (f a ≡ fail e))
    → (e : Error) × (m >>= f ≡ fail e)
bind-fail (pass a) f h = h a
bind-fail (fail e) f h = (e, refl)

check_direct-fail :
    (r i j : ℕ) (sb : Super) (n : Node)
    → i ≤ j
    → j < i + r
    → sb.size < n.addrs j
    → check_direct r i sb n ≡ fail bad_direct
unfolding check_direct
check_direct-fail zero i j sb n lo hi far = absurd (omega arith)
check_direct-fail (suc r) i j sb n lo hi far = elim (Bool-cases (ltb sb.size (n.addrs i))) [
  | inl e ↦ rw e refl
  | inr e ↦ elim (ℕ_discrete i j) [
    | yes same ↦
        absurd (let e' = subst (λ k. ltb sb.size (n.addrs k) ≡ false) same e in ground arith)
    | no ne ↦ rw e (check_direct-fail r (i + 1) j sb n (omega arith) (omega arith) far)
  ]
]

blocks-fail :
    (j : ℕ) (sb : Super) (n : Node)
    → j ≤ 12
    → sb.size < n.addrs j
    → (e : Error) × (check_inode_data_blocks sb n ≡ fail e)
unfolding check_inode_data_blocks
blocks-fail j sb n l far = elim (ℕ_discrete j 12) [
  | yes e ↦
      bind-fail (check_direct 12 0 sb n) (λ _. fail_if (ltb sb.size (n.addrs 12)) bad_indirect)
        (λ _.
          let far' = subst (λ j. sb.size < n.addrs j) e far in
          let hit : ltb sb.size (n.addrs 12) ≡ true = ground arith in (bad_indirect, rw hit refl))
  | no ne ↦ (bad_direct, rw (check_direct-fail 12 0 j sb n (omega arith) (omega arith) far) refl)
]

fail_of : (c : Check (Unit {0})) → (c ≢ pass tt) → (e : Error) × (c ≡ fail e)
fail_of (pass tt) h = absurd (h refl)
fail_of (fail e) h = (e, refl)

type_fail : (n : Node) → 3 < n.kind → check_inode_type n ≡ fail bad_inode
unfolding check_inode_type
type_fail n l =
    let unknown : (not (n.kind == 3) && not (n.kind == 2) && not (n.kind == 1) && not (n.kind == 0))
        ≡ true =
      ground arith in
    rw unknown refl

visit_all-fail :
    (r i k : ℕ) (sb : Super) (m : Image) (u : ℕ → ℕ)
    → i ≤ k
    → k < i + r
    → IsBad sb (node_at sb m k)
    → (e : Error) × (visit_all r i sb m u ≡ fail e)
unfolding visit_all
visit_all-fail zero i k sb m u lo hi bad = absurd (omega arith)
visit_all-fail (suc r) i k sb m u lo hi bad = elim (ℕ_discrete i k) [
  | no ne ↦
      bind-fail (check_inode_type (node_at sb m i))
        (λ _. check_inode_data_blocks sb (node_at sb m i) >>= λ _.
          visit i (node_at sb m i) m u >>= visit_all r (i + 1) sb m)
        (λ _.
          bind-fail (check_inode_data_blocks sb (node_at sb m i))
            (λ _. visit i (node_at sb m i) m u >>= visit_all r (i + 1) sb m)
            (λ _.
              bind-fail (visit i (node_at sb m i) m u) (visit_all r (i + 1) sb m)
                (λ u'. visit_all-fail r (i + 1) k sb m u' (omega arith) (omega arith) bad)))
  | yes same ↦ here (subst (λ k. IsBad sb (node_at sb m k)) (sym same) bad)
]
  where
    here :
        IsBad sb (node_at sb m i)
        → (e : Error) × ((check_inode_type (node_at sb m i) >>= λ _.
              check_inode_data_blocks sb (node_at sb m i) >>= λ _.
              visit i (node_at sb m i) m u >>= visit_all r (i + 1) sb m)
            ≡ fail e)
    here (inl unknown) = (bad_inode, rw (type_fail (node_at sb m i) unknown) refl)
    here (inr (j, l, far)) =
        let (e, run) = blocks-fail j sb (node_at sb m i) l far in
        bind-fail (check_inode_type (node_at sb m i))
          (λ _. check_inode_data_blocks sb (node_at sb m i) >>= λ _.
            visit i (node_at sb m i) m u >>= visit_all r (i + 1) sb m)
          (λ _. (e, rw run refl))

-- `check` reports an error for an image if one of its inodes has an unknown type or an address
-- behind the end of the file system, and also if a block is used twice or the first 1000 bits of
-- the bitmap are not those of the used blocks, where `malloc` finds a cleared array for the blocks
-- behind the bitmap.
pub check-fail :
    (m : Image) (inode_malloc block_malloc : ℕ → ℕ)
    → ((x : ℕ) → (construct_super_block m 512).bmapstart < x → block_malloc x ≡ 0)
    → ((k : ℕ) × (k < (construct_super_block m 512).ninodes)
        × IsBad (construct_super_block m 512) (node_at (construct_super_block m 512) m k))
      ⊎ (¬ IsConsistent (construct_super_block m 512) m)
    → (e : Error) × (check m inode_malloc block_malloc ≡ fail e)
unfolding check check_inodes
check-fail m inode_malloc block_malloc clear (inl (k, l, bad)) =
    let sb = construct_super_block m 512 in
    let (e, run) =
      visit_all-fail sb.ninodes 0 k sb m (inuse_at sb m inode_malloc) (omega arith) (omega arith)
        bad in
    (e, rw run refl)
check-fail m inode_malloc block_malloc clear (inr bad) =
    let sb = construct_super_block m 512 in
    bind-fail (check_inodes sb m inode_malloc) (λ _. check_bitmap sb m block_malloc)
      (λ _.
        fail_of (check_bitmap sb m block_malloc)
          (λ ok. bad ((check_bitmap_iff sb m block_malloc clear).0 ok)))
