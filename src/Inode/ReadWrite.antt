-- ===== src/Inode/ReadWrite.antt =====
-- A `readi` behind a `writei`.
use operating_systems_three.Prelude.{
  ℕ, ◌+◌, ◌≡◌, ◌≤◌, ◌<◌, ◌⊎◌, ltb, if◌then◌else◌, ◌&&◌, List, Option, some, ok,
}
use operating_systems_three.Inode.{Inode, Icache}
use operating_systems_three.Inode.Laid.{IsLaid}
use operating_systems_three.Inode.Reads.{readi, bytes_from, IsDense}
use operating_systems_three.Inode.Writes.{byte}

-- The size of a file behind `writei`.
abbrev pub size_after : (off n size : ℕ) → ℕ
size_after off n size = if ltb 0 n && ltb size (off + n) then off + n else size

-- The cache after `writei` of `n` bytes from `off` on.
pub record Stored (i off n : ℕ) (src : ℕ → ℕ) (t t' : Icache) : Type 0 where
  pub laid : IsLaid (t'.inode i).copy.addrs t'.disk
  pub dense : IsDense (t'.inode i).copy.size (t'.inode i).copy.addrs t'.disk
  pub size : (t'.inode i).copy.size ≡ size_after off n (t.inode i).copy.size
  pub others :
      (x : ℕ)
      → x < (t.inode i).copy.size
      → (x < off) ⊎ (off + n ≤ x)
      → byte x (t'.inode i).copy.addrs t'.disk ≡ byte x (t.inode i).copy.addrs t.disk
  pub back :
      (devsw : ℕ → Option (ℕ → Option (List ℕ)))
      → readi devsw off n (t'.inode i).copy t'.disk
        ≡ ok (some (bytes_from n 0 src), (t'.inode i).copy.addrs, t'.disk)
  pub written :
      (t.inode i).copy.size < (t'.inode i).copy.size
      → t'.dinode (t.inode i).inum ≡ (t'.inode i).copy
