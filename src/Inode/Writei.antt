-- ===== src/Inode/Writei.antt =====
-- `writei` of fs.c.
use operating_systems_three.Prelude.{
  ℕ, zero, suc, ◌+◌, ◌-◌, ◌*◌, ◌/◌, ◌%◌, ◌^◌, ◌==◌, ltb, leb, if◌then◌else◌, ◌&&◌, ◌||◌, Option,
  none, some, Outcome, ok, ◌>>=◌,
}
use operating_systems_three.Fs.{bsize, Disk, log_block}
use operating_systems_three.Inode.{Icache, ndirect, nindirect, change, iupdate}
use operating_systems_three.Inode.Bmap.{bmap}
use operating_systems_three.Inode.Reads.{chunk}

-- `memmove(bp->data + i, src, m)`.
unfoldable pub put_bytes : (m i : ℕ) → (src block : ℕ → ℕ) → ℕ → ℕ
put_bytes m i src block k = if leb i k && ltb k (i + m) then src (k - i) else block k

-- The loop of `writei`, with `n` bytes left from `off` on, which start at `src`. `log_write` is taken
-- to find room in the log.
unfoldable pub write_loop :
    (rounds off n : ℕ) → (src addrs : ℕ → ℕ) → Disk → Outcome ((ℕ → ℕ) × Disk)
write_loop zero off n src addrs d = ok (addrs, d)
write_loop (suc r) off n src addrs d =
    let m = chunk n off in
    if n == 0
    then ok (addrs, d)
    else (bmap (off / bsize) addrs d >>= λ (b, addrs, d).
        write_loop r (off + m) (n - m) (λ k. src (m + k)) addrs
          (log_block b (put_bytes m (off % bsize) src (d.blocks b)) d))

-- `writei` behind its loop, which ends at offset `off`.
unfoldable pub grow : (i n off : ℕ) → Icache → Icache
grow i n off t =
    if ltb 0 n && ltb (t.inode i).copy.size off
    then iupdate i (change i (λ ip. record ip { copy = record ip.copy { size = off } }) t)
    else t

-- `writei` on entry `i` of the cache, with the write function of each device that has one: the
-- number of bytes, or nothing for -1.
unfoldable pub writei :
    (devsw : ℕ → Option (ℕ → Option ℕ))
    → (i off n : ℕ) → (src : ℕ → ℕ) → Icache
    → Outcome (Option ℕ × Icache)
writei devsw i off n src t =
    let ip = (t.inode i).copy in
    if ip.kind == 3
    then ok (
      (if leb 10 ip.major then none else elim (devsw ip.major) [ none ↦ none | some f ↦ f n ]),
      t,
    )
    else (if ltb ip.size off
          || ltb ((off + n) % 2 ^ 32) off
          || ltb ((ndirect + nindirect) * bsize) ((off + n) % 2 ^ 32)
        then ok (none, t)
        else (write_loop n off n src ip.addrs t.disk >>= λ (addrs, d). ok (
          some n,
          grow i n (off + n) (
              change i (λ ip. record ip { copy = record ip.copy { addrs = addrs } })
                (record t { disk = d })),
        )))
