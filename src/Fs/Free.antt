-- ===== src/Fs/Free.antt =====
-- The free map as a set of blocks, and `bfree`.
use operating_systems_three.Prelude.{
  ℕ, ◌+◌, ◌-◌, ◌/◌, ◌%◌, ◌≡◌, ◌≢◌, refl, ◌∙◌, arith, ℕ_discrete, Bool, true, false, update,
  update_self, update_ne, ok, panic,
}
use operating_systems_three.Fs.{bpb, Disk, bblock, log_block, mask, has, bfree}
use operating_systems_three.Fs.Bits.{has-set_self, has-set_ne, has-clear_self, has-clear_ne}

-- The bit of block `b` is set.
unfoldable pub used : ℕ → Disk → Bool
used b d = has (d.blocks (bblock b d) (b % bpb / 8)) (mask (b % bpb))

-- A change of the byte of block `b` in the map that changes its bit alone.
unfoldable pub flip : ℕ → ℕ → Disk → Disk
flip b byte d = log_block (bblock b d) (update (d.blocks (bblock b d)) (b % bpb / 8) byte) d

used-flip_self : (b byte : ℕ) (d : Disk) → used b (flip b byte d) ≡ has byte (mask (b % bpb))
unfolding used flip log_block bblock
used-flip_self b byte d =
    let block = b / bpb + d.bmapstart in
    let at : update d.blocks block (update (d.blocks block) (b % bpb / 8) byte) block
        ≡ update (d.blocks block) (b % bpb / 8) byte =
      update_self d.blocks block (update (d.blocks block) (b % bpb / 8) byte) in
    rw (at, update_self (d.blocks block) (b % bpb / 8) byte) refl

used-flip_ne :
    (a b byte : ℕ) (d : Disk)
    → a ≢ b
    → ((c : ℕ)
        → (b % bpb) % 8 ≢ c % 8
        → has byte (mask c) ≡ has (d.blocks (bblock b d) (b % bpb / 8)) (mask c))
    → used a (flip b byte d) ≡ used a d
unfolding used flip log_block bblock
used-flip_ne a b byte d ne kept = elim (ℕ_discrete (a / bpb) (b / bpb)) [
  | no far ↦
      let apart : a / bpb + d.bmapstart ≢ b / bpb + d.bmapstart = omega arith in
      rw
        (update_ne d.blocks (b / bpb + d.bmapstart) (a / bpb + d.bmapstart)
          (update (d.blocks (b / bpb + d.bmapstart)) (b % bpb / 8) byte) apart)
        refl
  | yes near ↦
      let bytes = d.blocks (b / bpb + d.bmapstart) in
      rw (near, update_self d.blocks (b / bpb + d.bmapstart) (update bytes (b % bpb / 8) byte))
        (elim (ℕ_discrete (a % bpb / 8) (b % bpb / 8)) [
          | no other ↦ rw (update_ne bytes (b % bpb / 8) (a % bpb / 8) byte other) refl
          | yes same ↦
              rw (same, update_self bytes (b % bpb / 8) byte) (kept (a % bpb) (omega arith))
        ])
]

flip_other : (b byte n : ℕ) (d : Disk) → n ≢ bblock b d → (flip b byte d).blocks n ≡ d.blocks n
unfolding flip log_block
flip_other b byte n d ne =
    update_ne d.blocks (bblock b d) n (update (d.blocks (bblock b d)) (b % bpb / 8) byte) ne

-- The free map after block `b` has changed to `now`: the bits of all others, and the blocks that
-- do not hold the bit, are as before.
pub record Flipped (b : ℕ) (now : Bool) (d d' : Disk) : Type 0 where
  pub bit : used b d' ≡ now
  pub others : (a : ℕ) → a ≢ b → used a d' ≡ used a d
  pub blocks : (n : ℕ) → n ≢ bblock b d → d'.blocks n ≡ d.blocks n
  pub layout : (d'.size ≡ d.size) × (d'.bmapstart ≡ d.bmapstart)

pub set-Flipped :
    (b : ℕ) (d : Disk)
    → used b d ≡ false
    → Flipped b true d (flip b (d.blocks (bblock b d) (b % bpb / 8) + mask (b % bpb)) d)
set-Flipped b d h =
    let x = d.blocks (bblock b d) (b % bpb / 8) in
    let clear : has x (mask (b % bpb)) ≡ false = unfold used in h in
    record {
      bit = used-flip_self b (x + mask (b % bpb)) d ∙ has-set_self x (b % bpb) clear;
      others = λ a ne.
          used-flip_ne a b (x + mask (b % bpb)) d ne (λ c nc. has-set_ne x (b % bpb) c nc clear);
      blocks = λ n ne. flip_other b (x + mask (b % bpb)) n d ne;
      layout = unfold flip log_block in (refl, refl);
    }

clear-Flipped :
    (b : ℕ) (d : Disk)
    → used b d ≡ true
    → Flipped b false d (flip b (d.blocks (bblock b d) (b % bpb / 8) - mask (b % bpb)) d)
clear-Flipped b d h =
    let x = d.blocks (bblock b d) (b % bpb / 8) in
    let set : has x (mask (b % bpb)) ≡ true = unfold used in h in
    record {
      bit = used-flip_self b (x - mask (b % bpb)) d ∙ has-clear_self x (b % bpb) set;
      others = λ a ne.
          used-flip_ne a b (x - mask (b % bpb)) d ne (λ c nc. has-clear_ne x (b % bpb) c nc set);
      blocks = λ n ne. flip_other b (x - mask (b % bpb)) n d ne;
      layout = unfold flip log_block in (refl, refl);
    }

-- `bfree` of a block in use clears its bit, and leaves the bits of all other blocks and every block
-- but that of the bit alone; of a free block it panics.
pub bfree_lem :
    (b : ℕ) (d : Disk)
    → (used b d ≡ true → (d' : Disk) × (bfree b d ≡ ok d') × Flipped b false d d')
      × (used b d ≡ false → bfree b d ≡ panic)
unfolding bfree
bfree_lem b d = (
  λ h. (
    flip b (d.blocks (bblock b d) (b % bpb / 8) - mask (b % bpb)) d,
    unfold used flip in rw h refl,
    clear-Flipped b d h,
  ),
  λ h. unfold used in rw h refl,
)
