-- ===== src/Inode/Words.antt =====
-- Words that are stored in a block and read back.
use operating_systems_three.Prelude.{ℕ, ◌+◌, ◌/◌, ◌%◌, ◌^◌, ◌≡◌, ◌<◌, ◌⊎◌, refl, arith, update}
use operating_systems_three.Bytes.{Mem, store_word}
use operating_systems_three.Syscall.{word}

-- The four bytes of a stored word.
store_word-bytes :
    (a v : ℕ) (m : Mem)
    → (store_word a v m a ≡ v % 256)
      × (store_word a v m (a + 1) ≡ v / 256 % 256)
      × (store_word a v m (a + 2) ≡ v / 65536 % 256)
      × (store_word a v m (a + 3) ≡ v / 16777216 % 256)
unfolding store_word update
store_word-bytes a v m = (ground arith, ground arith, ground arith, ground arith)

store_word-other : (a v b : ℕ) (m : Mem) → (b < a) ⊎ (a + 3 < b) → store_word a v m b ≡ m b
unfolding store_word update
store_word-other a v b m h = ground arith

pub word-store_self : (a v : ℕ) (m : Mem) → v < 2 ^ 32 → word (store_word a v m) a ≡ v
unfolding word
word-store_self a v m l = let (p, q, r, s) = store_word-bytes a v m in rw (p, q, r, s) (omega arith)

pub word-store_ne :
    (a v b : ℕ) (m : Mem) → (b + 3 < a) ⊎ (a + 3 < b) → word (store_word a v m) b ≡ word m b
unfolding word
word-store_ne a v b m h =
    rw
      (
        store_word-other a v b m (omega arith),
        store_word-other a v (b + 1) m (omega arith),
        store_word-other a v (b + 2) m (omega arith),
        store_word-other a v (b + 3) m (omega arith),
      )
      refl
