-- ===== src/Inode/Slots.antt =====
-- The block numbers of a file by their place in it, and what one step of `bmap` does to them.
use operating_systems_three.Prelude.{
  ℕ, ◌-◌, ◌*◌, ◌^◌, ◌≡◌, ◌≢◌, ◌≤◌, ◌<◌, refl, sym, ap, ◌∙◌, arith, ◌==◌, ltb, if◌then◌else◌, true,
  false, update_ne, ℕ_discrete,
}
use operating_systems_three.Fs.{Disk, bblock, log_block}
use operating_systems_three.Fs.Free.{used}
use operating_systems_three.Fs.Alloc.{IsMarked, Taken}
use operating_systems_three.Syscall.{word}
use operating_systems_three.Inode.{ndirect}

-- The number of block `n` of a file, or 0.
unfoldable pub slot : ℕ → (ℕ → ℕ) → Disk → ℕ
unfolding word
slot n addrs d =
    if ltb n ndirect
    then addrs n
    else (if addrs ndirect == 0 then 0 else word (d.blocks (addrs ndirect)) (4 * (n - ndirect)))

-- The free map marks its own blocks and the boot block, and they are on the disk.
pub record IsMapped (d : Disk) : Type 0 where
  pub marked : IsMarked d
  pub inside : (a : ℕ) → a < d.size → bblock a d < d.size
  pub boot : used 0 d ≡ true
  pub small : d.size ≤ 2 ^ 32

-- The indirect block, if there is one, is on the disk, in use, and not a block of the map.
pub record IsPlaced (last : ℕ) (d : Disk) : Type 0 where
  pub inside : last < d.size
  pub busy : used last d ≡ true
  pub apart : (a : ℕ) → a < d.size → bblock a d ≢ last

true-false : true ≡ false → ⊥
true-false e = cc

pub taken_ne : (a b : ℕ) (d : Disk) → used a d ≡ true → used b d ≡ false → a ≢ b
taken_ne a b d u f e = true-false (sym u ∙ ap (λ a. used a d) e ∙ f)

bblock_same : (b : ℕ) (d d' : Disk) → d'.bmapstart ≡ d.bmapstart → bblock b d' ≡ bblock b d
unfolding bblock
bblock_same b d d' e = omega arith

-- The other blocks after `balloc`.
pub Taken-IsMapped : (b : ℕ) (d d' : Disk) → Taken d b d' → IsMapped d → IsMapped d'
unfolding IsMarked
Taken-IsMapped b d d' t h =
    let (size, start) = t.layout in
    let still : (a : ℕ) → a < d.size → used a d ≡ true → used a d' ≡ true =
      λ a l u. t.others a l (taken_ne a b d u t.free) ∙ u in
    record {
      marked = λ a l.
          rw (bblock_same a d d' start)
            (still (bblock a d) (h.inside a (omega arith)) (h.marked a (omega arith)));
      inside = λ a l. rw (bblock_same a d d' start, size) (h.inside a (omega arith));
      boot = elim (ℕ_discrete b 0) [
        | yes e ↦ absurd (taken_ne 0 b d h.boot t.free (sym e))
        | no ne ↦ still 0 (let l = t.inside in omega arith) h.boot
      ];
      small = let s = h.small in omega arith;
    }

pub Taken-IsPlaced : (b last : ℕ) (d d' : Disk) → Taken d b d' → IsPlaced last d → IsPlaced last d'
Taken-IsPlaced b last d d' t h =
    let (size, start) = t.layout in
    record {
      inside = let l = h.inside in omega arith;
      busy = t.others last h.inside (taken_ne last b d h.busy t.free) ∙ h.busy;
      apart = λ a l. rw (bblock_same a d d' start) (h.apart a (omega arith));
    }

-- The block that `balloc` takes as an indirect block.
pub Taken-IsPlaced_self : (b : ℕ) (d d' : Disk) → Taken d b d' → IsMapped d → IsPlaced b d'
unfolding IsMarked
Taken-IsPlaced_self b d d' t h =
    let (size, start) = t.layout in
    record {
      inside = let l = t.inside in omega arith;
      busy = t.bit;
      apart = λ a l.
          rw (bblock_same a d d' start)
            (taken_ne (bblock a d) b d (h.marked a (omega arith)) t.free);
    }

-- An indirect block keeps its bytes when another block is taken.
pub Taken-kept :
    (b last : ℕ) (d d' : Disk) → Taken d b d' → IsPlaced last d → d'.blocks last ≡ d.blocks last
Taken-kept b last d d' t h =
    t.blocks last (taken_ne last b d h.busy t.free) (λ e. h.apart b t.inside (sym e))

pub used-log_block :
    (a n : ℕ) (bytes : ℕ → ℕ) (d : Disk) → bblock a d ≢ n → used a (log_block n bytes d) ≡ used a d
unfolding used log_block bblock
used-log_block a n bytes d ne = rw (update_ne d.blocks n (bblock a d) bytes ne) refl
