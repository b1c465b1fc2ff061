-- ===== src/Cache/Reads.antt =====
-- `bread` returns a block as the kernel sees it, and does not change what it sees.
use operating_systems_three.Prelude.{
  ℕ, ◌+◌, ◌≡◌, ◌≢◌, ◌<◌, refl, sym, ap, subst, ◌∙◌, arith, inl, inr, ◌==◌, leb, true, false,
  Bool-cases, some, update_self, Outcome, ok,
}
use operating_systems_three.Locks.{acquiresleep, holdingsleep}
use operating_systems_three.Cache.{
  Buf, Bcache, change, holds, unused, fresh, bget, lock_buf, fill, iderw, read_locked, bread,
}
use operating_systems_three.Cache.Order.{In}
use operating_systems_three.Cache.Gets.{IsCache, change-IsCache, bget_lem}
use operating_systems_three.Cache.Views.{
  shown, view, view-of, change-view, fresh-view, change-IsCoherent, IsCoherent,
}

ok_inj : {A : Type 0} {a b : A} {x : Outcome A} → x ≡ ok a → x ≡ ok b → a ≡ b
ok_inj e f = cc

-- The cache after a step that has kept the view, with buffer `b` for block `n` in use.
record Kept (n b : ℕ) (c c' : Bcache) : Type 0 where
  coherent : IsCoherent c'
  listed : In b c'.order
  here : holds 1 n (c'.buf b) ≡ true
  used : (c'.buf b).refcnt ≢ 0
  same : (m : ℕ) → view c' m ≡ view c m
  size : c'.disksize ≡ c.disksize

hit-Kept :
    (n b : ℕ) (c : Bcache)
    → IsCoherent c
    → In b c.order
    → holds 1 n (c.buf b) ≡ true
    → Kept n b c (change b (λ f. record f { refcnt = f.refcnt + 1 }) c)
hit-Kept n b c h i e =
    let f : Buf → Buf = λ f. record f { refcnt = f.refcnt + 1 } in
    let now = update_self c.buf b (f (c.buf b)) in
    record {
      coherent =
          change-IsCoherent b f c h (change-IsCache b f c refl refl h.cache) (λ idle. ground arith)
            (h.dirty b i);
      listed = i;
      here = rw now e;
      used = rw now (λ z. omega arith);
      same = change-view b f c refl refl (λ m _. rw now refl);
      size = refl;
    }

old-Kept :
    (n b : ℕ) (c : Bcache)
    → IsCoherent c
    → ((a : ℕ) → In a c.order → holds 1 n (c.buf a) ≡ false)
    → In b c.order
    → unused (c.buf b) ≡ true
    → IsCache (change b (fresh 1 n) c)
    → Kept n b c (change b (fresh 1 n) c)
old-Kept n b c h absent i idle next =
    let now = update_self c.buf b (fresh 1 n (c.buf b)) in
    record {
      coherent = change-IsCoherent b (fresh 1 n) c h next (λ u. ground arith) (λ d. ground arith);
      listed = i;
      here = rw now (ground arith);
      used = rw now (λ z. omega arith);
      same = fresh-view b n c h absent i idle next;
      size = refl;
    }

bget-Kept : (n b : ℕ) (c c' : Bcache) → IsCoherent c → bget 1 n c ≡ ok (b, c') → Kept n b c c'
bget-Kept n b c c' h e = elim (bget_lem 1 n c h.cache) [
  | inr (bad, _) ↦ absurd (let q = sym e ∙ bad in cc)
  | inl (b', d, run, inl hit, next) ↦
      subst (λ x. Kept n x.0 c x.1) (ok_inj run e)
        (subst (λ d. Kept n b' c d) (sym hit.change) (hit-Kept n b' c h hit.listed hit.here))
  | inl (b', d, run, inr old, next) ↦
      subst (λ x. Kept n x.0 c x.1) (ok_inj run e)
        (subst (λ d. Kept n b' c d) (sym old.change)
          (old-Kept n b' c h old.absent old.listed old.last.hit (subst IsCache old.change next)))
]

-- A change of the buffer itself, which is in use.
step-Kept :
    (n b : ℕ) (f : Buf → Buf) (c d : Bcache)
    → Kept n b c d
    → (f (d.buf b)).dev ≡ (d.buf b).dev
    → (f (d.buf b)).blockno ≡ (d.buf b).blockno
    → (f (d.buf b)).refcnt ≡ (d.buf b).refcnt
    → ((f (d.buf b)).dirty ≡ true → (f (d.buf b)).valid ≡ true)
    → ((m : ℕ) → holds 1 m (d.buf b) ≡ true → shown (change b f d) m b ≡ shown d m b)
    → Kept n b c (change b f d)
step-Kept n b f c d k dev_same no_same ref_same dirty kept =
    let now = update_self d.buf b (f (d.buf b)) in
    record {
      coherent =
          change-IsCoherent b f d k.coherent
            (change-IsCache b f d dev_same no_same k.coherent.cache)
            (λ idle. absurd (k.used (ground arith))) dirty;
      listed = k.listed;
      here = rw (now, dev_same, no_same) k.here;
      used = rw (now, ref_same) k.used;
      same = λ m. change-view b f d dev_same no_same kept m ∙ k.same m;
      size = k.size;
    }

lock_buf-Kept :
    (cur n b : ℕ) (c c' : Bcache)
    → Kept n b c c'
    → (c'.buf b).lock.locked ≡ false
    → (d : Bcache) × (lock_buf cur b c' ≡ (true, d))
      × Kept n b c d
      × (holdingsleep cur (d.buf b).lock ≡ true)
unfolding lock_buf acquiresleep holdingsleep
lock_buf-Kept cur n b c c' k free =
    let f : Buf → Buf = λ g. record g { lock = record { locked = true; pid = cur } } in
    let now = update_self c'.buf b (f (c'.buf b)) in
    (
      change b f c',
      rw free refl,
      step-Kept n b f c c' k refl refl refl (k.coherent.dirty b k.listed) (λ m _. rw now refl),
      rw now (ground arith),
    )

fill-Kept :
    (cur n b : ℕ) (c d : Bcache)
    → Kept n b c d
    → holdingsleep cur (d.buf b).lock ≡ true
    → n < c.disksize
    → (e : Bcache) × (fill cur b d ≡ ok e)
      × Kept n b c e
      × (holdingsleep cur (e.buf b).lock ≡ true)
      × ((e.buf b).valid ≡ true)
unfolding fill iderw
fill-Kept cur n b c d k mine l = elim (Bool-cases (d.buf b).valid) [
  | inl v ↦ (d, rw v refl, k, mine, v)
  | inr v ↦
      let f : Buf → Buf = λ g. record g { contents = d.disk (d.buf b).blockno; valid = true } in
      let now = update_self d.buf b (f (d.buf b)) in
      let here = k.here in
      let size = k.size in
      let clean : (d.buf b).dirty ≡ false = ground (arith, k.coherent.dirty b k.listed) in
      let dev_one : ((d.buf b).dev == 1) ≡ true = ground arith in
      let fits : leb d.disksize (d.buf b).blockno ≡ false = ground arith in
      (
        change b f d,
        rw (v, mine, clean, dev_one, fits) refl,
        step-Kept n b f c d k refl refl refl (λ _. refl)
            (λ m hit. let same : (d.buf b).blockno ≡ m = ground arith in rw (now, v, same) refl),
        rw now mine,
        rw now refl,
      )
]

-- Let the cache be coherent: no block has two buffers, a dirty buffer is valid, and a valid buffer
-- that is neither referred to nor dirty holds what is on the disk. If `bget` returns a buffer for a
-- block of the disk and the lock of the buffer is free, then `bread` returns that buffer, locked for
-- the caller and valid, with the block as the kernel saw it before; it sees every block as it did,
-- and the cache is coherent.
pub bread-view :
    (cur n b : ℕ) (c c' : Bcache)
    → IsCoherent c
    → n < c.disksize
    → bget 1 n c ≡ ok (b, c')
    → (c'.buf b).lock.locked ≡ false
    → (d : Bcache) × (bread cur 1 n c ≡ ok (some b, d))
      × ((d.buf b).valid ≡ true)
      × ((d.buf b).contents ≡ view c n)
      × (holdingsleep cur (d.buf b).lock ≡ true)
      × ((m : ℕ) → view d m ≡ view c m)
      × IsCoherent d
unfolding bread read_locked
bread-view cur n b c c' h l got free =
    let k = bget-Kept n b c c' h got in
    let (d, locked, kd, mine) = lock_buf-Kept cur n b c c' k free in
    let (e, filled, ke, held, valid) = fill-Kept cur n b c d kd mine l in
    (
      e,
      rw got (ap (read_locked cur b) locked ∙ rw filled refl),
      valid,
      sym (view-of n b e ke.coherent.cache ke.listed ke.here ∙ rw valid refl) ∙ ke.same n,
      held,
      ke.same,
      ke.coherent,
    )
