-- ===== src/Inode/Bmap.antt =====
-- `bmap` of fs.c, on the block numbers of an inode and the disk.
use operating_systems_three.Prelude.{
  ℕ, ◌-◌, ◌*◌, ◌==◌, ltb, if◌then◌else◌, update, Outcome, ok, panic, ◌>>=◌,
}
use operating_systems_three.Bytes.{store_word}
use operating_systems_three.Fs.{Disk, log_block, balloc}
use operating_systems_three.Syscall.{word}
use operating_systems_three.Inode.{ndirect, nindirect}

-- `if((addr = ip->addrs[bn]) == 0) ip->addrs[bn] = addr = balloc(ip->dev)`.
unfoldable pub own_block : ℕ → (ℕ → ℕ) → Disk → Outcome (ℕ × (ℕ → ℕ) × Disk)
own_block bn addrs d =
    if addrs bn == 0
    then (balloc d >>= λ (a, d). ok (a, update addrs bn a, d))
    else ok (addrs bn, addrs, d)

-- The entry `bn` of the indirect block, which is block `last`.
unfoldable pub entry : ℕ → ℕ × (ℕ → ℕ) × Disk → Outcome (ℕ × (ℕ → ℕ) × Disk)
entry bn (last, addrs, d) =
    let a = word (d.blocks last) (4 * bn) in
    if a == 0
    then (balloc d >>= λ (a, d).
        ok (a, addrs, log_block last (store_word (4 * bn) a (d.blocks last)) d))
    else ok (a, addrs, d)

unfoldable pub bmap : ℕ → (ℕ → ℕ) → Disk → Outcome (ℕ × (ℕ → ℕ) × Disk)
bmap bn addrs d =
    if ltb bn ndirect
    then own_block bn addrs d
    else (if ltb (bn - ndirect) nindirect
        then (own_block ndirect addrs d >>= entry (bn - ndirect))
        else panic)
