-- ===== src/Inode/Drops.antt =====
-- `itrunc`, and what `iput` does to an inode without links.
use operating_systems_three.Prelude.{
  ℕ, ◌≡◌, ◌≢◌, ◌≤◌, refl, ap, ◌∙◌, false, update, update_self, update_ne, ok,
}
use operating_systems_three.Fs.{Disk}
use operating_systems_three.Inode.{
  Dinode, Inode, Icache, ndirect, change, iupdate, itrunc, drop_last,
}
use operating_systems_three.Inode.Frees.{Freed}
use operating_systems_three.Inode.Trunc.{file_blocks, IsFile, free_blocks_lem}

-- A step that keeps all other entries, and who refers to this one.
pub record Touched (i : ℕ) (t t' : Icache) : Type 0 where
  pub others : (j : ℕ) → j ≢ i → t'.inode j ≡ t.inode j
  pub dev : (t'.inode i).dev ≡ (t.inode i).dev
  pub inum : (t'.inode i).inum ≡ (t.inode i).inum
  pub ref : (t'.inode i).ref ≡ (t.inode i).ref
  pub locked : t'.locked ≡ t.locked

pub update-Touched :
    (i : ℕ) (ip : Inode) (t t' : Icache)
    → t'.inode ≡ update t.inode i ip
    → t'.locked ≡ t.locked
    → ip.dev ≡ (t.inode i).dev
    → ip.inum ≡ (t.inode i).inum
    → ip.ref ≡ (t.inode i).ref
    → Touched i t t'
update-Touched i ip t t' e l d n r =
    let now = ap (λ f. f i) e ∙ update_self t.inode i ip in
    record {
      others = λ j ne. ap (λ f. f j) e ∙ update_ne t.inode i j ip ne;
      dev = ap (λ ip. ip.dev) now ∙ d;
      inum = ap (λ ip. ip.inum) now ∙ n;
      ref = ap (λ ip. ip.ref) now ∙ r;
      locked = l;
    }

pub Touched-trans : (i : ℕ) (t u v : Icache) → Touched i t u → Touched i u v → Touched i t v
Touched-trans i t u v a b = record {
  others = λ j ne. b.others j ne ∙ a.others j ne;
  dev = b.dev ∙ a.dev;
  inum = b.inum ∙ a.inum;
  ref = b.ref ∙ a.ref;
  locked = b.locked ∙ a.locked;
}

-- The cache after `itrunc`, without the blocks of the file.
pub record Truncated (i : ℕ) (t t' : Icache) : Type 0 where
  pub touched : Touched i t t'
  pub freed : Freed (file_blocks (t.inode i).copy.addrs t.disk) t.disk t'.disk
  pub empty : ((t'.inode i).copy.size ≡ 0) × ((k : ℕ) → k ≤ ndirect → (t'.inode i).copy.addrs k ≡ 0)
  pub written : t'.dinode (t.inode i).inum ≡ (t'.inode i).copy
  pub dinodes : (n : ℕ) → n ≢ (t.inode i).inum → t'.dinode n ≡ t.dinode n

pub itrunc_lem :
    (i : ℕ) (t : Icache)
    → IsFile (t.inode i).copy.addrs t.disk
    → (t' : Icache) × (itrunc i t ≡ ok t') × Truncated i t t'
unfolding itrunc iupdate
itrunc_lem i t h =
    let (d, left, run, freed, zero) = free_blocks_lem (t.inode i).copy.addrs t.disk h in
    let f : Inode → Inode = λ ip. record ip { copy = record ip.copy { addrs = left; size = 0 } } in
    let now = update_self t.inode i (f (t.inode i)) in
    let t' = iupdate i (change i f (record t { disk = d })) in
    (
      t',
      rw run refl,
      record {
        touched = update-Touched i (f (t.inode i)) t t' refl refl refl refl refl;
        freed = freed;
        empty = (rw now refl, λ k l. rw now (zero k l));
        written = rw now (update_self t.dinode (t.inode i).inum (f (t.inode i)).copy);
        dinodes = λ n ne. rw now (update_ne t.dinode (t.inode i).inum n (f (t.inode i)).copy ne);
      },
    )

-- The disk, and the inodes on it, after an inode without links was freed.
pub record Dropped (inum : ℕ) (addrs : ℕ → ℕ) (d d' : Disk) (dinode dinode' : ℕ → Dinode)
    : Type 0 where
  pub freed : Freed (file_blocks addrs d) d d'
  pub kind : (dinode' inum).kind ≡ 0
  pub others : (n : ℕ) → n ≢ inum → dinode' n ≡ dinode n

pub drop_last_lem :
    (i : ℕ) (t : Icache)
    → (t.inode i).ref ≡ 1
    → IsFile (t.inode i).copy.addrs t.disk
    → (t' : Icache) × (drop_last i t ≡ ok t')
      × Touched i t t'
      × Dropped (t.inode i).inum (t.inode i).copy.addrs t.disk t'.disk t.dinode t'.dinode
unfolding drop_last iupdate
drop_last_lem i t one h =
    let (u, run, cut) = itrunc_lem i t h in
    let f : Inode → Inode = λ ip. record ip { copy = record ip.copy { kind = 0 } } in
    let g : Inode → Inode = λ ip. record ip { valid = false } in
    let v = iupdate i (change i f u) in
    let now = update_self u.inode i (f (u.inode i)) in
    let same = cut.touched.inum in
    (
      change i g v,
      rw (one, run) refl,
      Touched-trans i t u (change i g v) cut.touched (
          Touched-trans i u v (change i g v)
            (update-Touched i (f (u.inode i)) u v refl refl refl refl refl)
            (update-Touched i (g (v.inode i)) v (change i g v) refl refl refl refl refl)),
      record {
        freed = cut.freed;
        kind =
            rw (now, same)
              (ap (λ d. d.kind) (update_self u.dinode (t.inode i).inum (f (u.inode i)).copy));
        others = λ n ne.
            rw (now, same)
              (update_ne u.dinode (t.inode i).inum n (f (u.inode i)).copy ne ∙ cut.dinodes n ne);
      },
    )
