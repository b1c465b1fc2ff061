-- ===== src/Xcheck.antt =====
-- P5/xcheck.c: the checker of file-system images. An image is its bytes; what `malloc` finds in a
-- new array is an argument, since the program does not clear it. Numbers that are `int` in the
-- source and can fall below 0 are words of 32 bits.
pub mod Inodes
mod Examples
pub mod Blocks
pub mod Marks
pub mod Bits
pub mod Accepts
pub mod Rejects
use operating_systems_three.Prelude.{
  ℕ, zero, suc, ◌+◌, ◌-◌, ◌*◌, ◌==◌, if◌then◌else◌, Bool, ◌&&◌, ◌||◌, not,
}
use Prim.Native.Nat.{bit_or}

-- What the program reports before it exits with 1.
pub data Error : Type 0 where
  bad_inode bad_direct bad_indirect bad_directory no_root : Error
  marked_free listed_twice bad_references unlisted : Error
  direct_twice indirect_twice used_but_free free_but_used : Error

pub data Check {ℓ} (A : Type ℓ) : Type ℓ where
  pass : A → Check A
  fail : Error → Check A

infixl 5 ◌>>=◌
abbrev pub ◌>>=◌ {ℓ κ} : {A : Type ℓ} {B : Type κ} → Check A → (A → Check B) → Check B
pass a >>= f = f a
fail e >>= f = fail e

-- `if(b) { fprintf(stderr, ...); exit(1); }`.
abbrev pub fail_if : Bool → Error → Check (Unit {0})
fail_if b e = if b then fail e else pass tt

abbrev pub Image : Type 0
Image = ℕ → ℕ

-- `get_int_from_mem`, whose last three bytes are all shifted by 8, behind the first.
unfoldable pub get_int : Image → ℕ → ℕ
get_int m p = m p + 256 * bit_or (bit_or (m (p + 1)) (m (p + 2))) (m (p + 3))

-- `get_short_from_mem`.
unfoldable pub get_short : Image → ℕ → ℕ
get_short m p = m p + 256 * m (p + 1)

pub record Super : Type 0 where
  pub size : ℕ
  pub nblocks : ℕ
  pub ninodes : ℕ
  pub inodestart : ℕ
  pub bmapstart : ℕ

unfoldable pub construct_super_block : Image → ℕ → Super
construct_super_block m p = record {
  size = get_int m p;
  nblocks = get_int m (p + 4);
  ninodes = get_int m (p + 8);
  inodestart = get_int m (p + 20);
  bmapstart = get_int m (p + 24);
}

-- `struct dinode`, with `kind` for its `type`.
pub record Node : Type 0 where
  pub kind : ℕ
  pub major : ℕ
  pub minor : ℕ
  pub nlink : ℕ
  pub size : ℕ
  pub addrs : ℕ → ℕ

-- What `construct_inodes` stores for inode `i`, ...
unfoldable pub node_at : Super → Image → ℕ → Node
node_at sb m i =
    let p = sb.inodestart * 512 + 64 * i in
    record {
      kind = get_short m p;
      major = get_short m (p + 2);
      minor = get_short m (p + 4);
      nlink = get_short m (p + 6);
      size = get_int m (p + 8);
      addrs = λ j. get_int m (p + 12 + j * 4);
    }

-- ... and in `inuse_inode`.
unfoldable pub inuse_at : Super → Image → (malloc : ℕ → ℕ) → ℕ → ℕ
inuse_at sb m malloc i = if not ((node_at sb m i).kind == 0) then 1 else malloc i
