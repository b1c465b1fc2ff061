-- ===== src/Inode/Reads.antt =====
-- `readi` of fs.c, block by block, against the bytes of the file.
use operating_systems_three.Prelude.{
  ℕ, zero, suc, ◌+◌, ◌-◌, ◌*◌, ◌/◌, ◌%◌, ◌^◌, ◌≡◌, ◌≢◌, ◌≤◌, ◌<◌, ◌⊎◌, refl, sym, ap, ◌∙◌, arith,
  inl, inr, ◌==◌, ltb, leb, if◌then◌else◌, true, false, Bool-cases, ◌||◌, List, [], ◌∷◌, ◌++◌,
  Option, none, some, Outcome, ok, ◌>>=◌,
}
use operating_systems_three.Fs.{bsize, Disk}
use operating_systems_three.Inode.{Dinode, ndirect, nindirect}
use operating_systems_three.Inode.Bmap.{bmap}
use operating_systems_three.Inode.Slots.{slot, IsMapped, IsPlaced}
use operating_systems_three.Inode.Mapping.{bmap_lem}

-- `memmove(dst, bp->data + i, m)`: the bytes that are copied.
unfoldable pub bytes_from : (m i : ℕ) → (ℕ → ℕ) → List ℕ
bytes_from zero i block = []
bytes_from (suc m) i block = block i ∷ bytes_from m (i + 1) block

-- `min(n - tot, BSIZE - off%BSIZE)`, with `n` bytes left.
unfoldable pub chunk : (n off : ℕ) → ℕ
chunk n off = if ltb n (bsize - off % bsize) then n else bsize - off % bsize

-- The loop of `readi`, with `n` bytes left from `off` on.
unfoldable pub read_loop : (rounds off n : ℕ) → (ℕ → ℕ) → Disk → Outcome (List ℕ × (ℕ → ℕ) × Disk)
read_loop zero off n addrs d = ok ([], addrs, d)
read_loop (suc r) off n addrs d =
    let m = chunk n off in
    if n == 0
    then ok ([], addrs, d)
    else (bmap (off / bsize) addrs d >>= λ (b, addrs, d).
        read_loop r (off + m) (n - m) addrs d >>= λ (rest, addrs, d').
        ok (bytes_from m (off % bsize) (d.blocks b) ++ rest, addrs, d'))

-- `readi`, with the read function of each device that has one: the bytes, or nothing for -1.
unfoldable pub readi :
    (devsw : ℕ → Option (ℕ → Option (List ℕ)))
    → (off n : ℕ) → Dinode
    → Disk
    → Outcome (Option (List ℕ) × (ℕ → ℕ) × Disk)
readi devsw off n ip d =
    if ip.kind == 3
    then ok (
      (if leb 10 ip.major then none else elim (devsw ip.major) [ none ↦ none | some f ↦ f n ]),
      ip.addrs,
      d,
    )
    else (if ltb ip.size off || ltb ((off + n) % 2 ^ 32) off
        then ok (none, ip.addrs, d)
        else (let n = if ltb ip.size ((off + n) % 2 ^ 32) then ip.size - off else n in
            read_loop n off n ip.addrs d >>= λ (bytes, addrs, d). ok (some bytes, addrs, d)))

-- The bytes of the file.
unfoldable pub file_bytes : (n off : ℕ) → (ℕ → ℕ) → Disk → List ℕ
unfolding slot
file_bytes zero off addrs d = []
file_bytes (suc n) off addrs d =
    d.blocks (slot (off / bsize) addrs d) (off % bsize) ∷ file_bytes n (off + 1) addrs d

file_bytes-add :
    (m n k off : ℕ) (addrs : ℕ → ℕ) (d : Disk)
    → k ≡ m + n
    → file_bytes k off addrs d ≡ file_bytes m off addrs d ++ file_bytes n (off + m) addrs d
unfolding file_bytes
file_bytes-add zero n k off addrs d e =
    let same : k ≡ n = omega arith in
    let start : off ≡ off + 0 = omega arith in
    ap (λ k. file_bytes k off addrs d) same ∙ ap (λ o. file_bytes n o addrs d) start
file_bytes-add (suc m) n zero off addrs d e = absurd (omega arith)
file_bytes-add (suc m) n (suc k) off addrs d e =
    let next : off + 1 + m ≡ off + suc m = omega arith in
    ap (λ xs. d.blocks (slot (off / bsize) addrs d) (off % bsize) ∷ xs)
      (file_bytes-add m n k (off + 1) addrs d (omega arith)
        ∙ ap (λ o. file_bytes m (off + 1) addrs d ++ file_bytes n o addrs d) next)

-- A part of one block.
bytes_from-file :
    (m off b : ℕ) (addrs : ℕ → ℕ) (d : Disk)
    → slot (off / bsize) addrs d ≡ b
    → off % bsize + m ≤ bsize
    → bytes_from m (off % bsize) (d.blocks b) ≡ file_bytes m off addrs d
unfolding bytes_from file_bytes
bytes_from-file zero off b addrs d e l = refl
bytes_from-file (suc zero) off b addrs d e l = rw e refl
bytes_from-file (suc (suc m)) off b addrs d e l =
    let next : (off + 1) % bsize ≡ off % bsize + 1 = omega arith in
    let same : (off + 1) / bsize ≡ off / bsize = omega arith in
    let rest =
      bytes_from-file (suc m) (off + 1) b addrs d (ap (λ k. slot k addrs d) same ∙ e)
        (omega arith) in
    ap (λ x. x ∷ bytes_from (suc m) (off % bsize + 1) (d.blocks b))
      (ap (λ k. d.blocks k (off % bsize)) (sym e))
    ∙ ap (λ xs. d.blocks (slot (off / bsize) addrs d) (off % bsize) ∷ xs)
        (ap (λ o. bytes_from (suc m) o (d.blocks b)) (sym next) ∙ rest)

-- Every block up to the end of the file has a number.
unfoldable pub IsDense : (size : ℕ) → (ℕ → ℕ) → Disk → Type 0
unfolding slot
IsDense size addrs d = (n : ℕ) → n * bsize < size → slot n addrs d ≢ 0

pub chunk_lem :
    (n off : ℕ)
    → n ≢ 0
    → (0 < chunk n off) × (chunk n off ≤ n) × (off % bsize + chunk n off ≤ bsize)
unfolding chunk
chunk_lem n off nz = elim (Bool-cases (ltb n (bsize - off % bsize))) [
  | inl e ↦ rw e (ground arith, ground arith, ground arith)
  | inr e ↦ rw e (omega arith, ground arith, omega arith)
]

-- `bmap` of a block that the file has.
bmap-old :
    (n : ℕ) (addrs : ℕ → ℕ) (d : Disk)
    → n < ndirect + nindirect
    → IsMapped d
    → (addrs ndirect ≢ 0 → IsPlaced (addrs ndirect) d)
    → slot n addrs d ≢ 0
    → bmap n addrs d ≡ ok (slot n addrs d, addrs, d)
bmap-old n addrs d l h p nz = elim (bmap_lem n addrs d l h p) [
  | inr (_, hole, _) ↦ absurd (nz hole)
  | inl (a, addrs', d', e, m) ↦
      let (same_addrs, same_d) = m.kept nz in
      let at : a ≡ slot n addrs d = sym m.here ∙ rw (same_addrs, same_d) refl in
      e ∙ rw (at, same_addrs, same_d) refl
]

read_loop_lem :
    (r off n size : ℕ) (addrs : ℕ → ℕ) (d : Disk)
    → n ≤ r
    → off + n ≤ size
    → size ≤ (ndirect + nindirect) * bsize
    → IsMapped d
    → (addrs ndirect ≢ 0 → IsPlaced (addrs ndirect) d)
    → IsDense size addrs d
    → read_loop r off n addrs d ≡ ok (file_bytes n off addrs d, addrs, d)
unfolding read_loop
read_loop_lem zero off zero size addrs d l fits small h p dense = unfold file_bytes in refl
read_loop_lem zero off (suc n) size addrs d l fits small h p dense = absurd (omega arith)
read_loop_lem (suc r) off n size addrs d l fits small h p dense = elim (Bool-cases (n == 0)) [
  | inl z ↦ let none_left : n ≡ 0 = ground arith in rw none_left (unfold file_bytes in refl)
  | inr nz ↦
      let (some_bytes, up_to, inside) = chunk_lem n off (ground arith) in
      let m = chunk n off in
      let mapped =
        bmap-old (off / bsize) addrs d (omega arith) h p
          (unfold IsDense in dense (off / bsize) (omega arith)) in
      let rest =
        read_loop_lem r (off + m) (n - m) size addrs d (omega arith) (omega arith) small h p
          dense in
      rw
        (
          nz,
          mapped,
          rest,
          bytes_from-file m off (slot (off / bsize) addrs d) addrs d refl inside,
          sym (file_bytes-add m (n - m) n off addrs d (omega arith)),
        )
        refl
]

-- How many bytes `readi` returns.
abbrev pub in_file : (off n size : ℕ) → ℕ
in_file off n size = if ltb size (off + n) then size - off else n

-- `readi` of a file that is not a device and no larger than MAXFILE blocks, whose blocks have numbers
-- up to its end, on a disk whose free map marks its own blocks, the boot block and the indirect block
-- of the file: it returns the bytes of the file from the offset on, as many as are asked for and in
-- the file, and changes nothing; for an offset behind the end, or a range that overflows 32 bits, it
-- returns -1.
pub readi_lem :
    (devsw : ℕ → Option (ℕ → Option (List ℕ)))
    → (off n : ℕ) (ip : Dinode) (d : Disk) → off < 2 ^ 32
    → n < 2 ^ 32
    → ip.kind ≢ 3
    → ip.size ≤ (ndirect + nindirect) * bsize
    → IsMapped d
    → (ip.addrs ndirect ≢ 0 → IsPlaced (ip.addrs ndirect) d)
    → IsDense ip.size ip.addrs d
    → (off ≤ ip.size
        → off + n < 2 ^ 32
        → readi devsw off n ip d
          ≡ ok (some (file_bytes (in_file off n ip.size) off ip.addrs d), ip.addrs, d))
      × ((ip.size < off) ⊎ (2 ^ 32 ≤ off + n) → readi devsw off n ip d ≡ ok (none, ip.addrs, d))
unfolding readi
readi_lem devsw off n ip d lo ln kind small h p dense = (inside, outside)
  where
    file : (ip.kind == 3) ≡ false
    file = ground arith

    inside :
        off ≤ ip.size
        → off + n < 2 ^ 32
        → readi devsw off n ip d
          ≡ ok (some (file_bytes (in_file off n ip.size) off ip.addrs d), ip.addrs, d)
    inside l fits =
        let same : (off + n) % 2 ^ 32 ≡ off + n = omega arith in
        let start : ltb ip.size off ≡ false = ground arith in
        let straight : ltb (off + n) off ≡ false = ground arith in
        let k = in_file off n ip.size in
        let end : off + k ≤ ip.size = ground arith in
        let run = read_loop_lem k off k ip.size ip.addrs d (omega arith) end small h p dense in
        rw (file, same, start, straight, run) refl

    outside : (ip.size < off) ⊎ (2 ^ 32 ≤ off + n) → readi devsw off n ip d ≡ ok (none, ip.addrs, d)
    outside bad =
        let refused : (ltb ip.size off || ltb ((off + n) % 2 ^ 32) off) ≡ true = ground arith in
        rw (file, refused) refl
