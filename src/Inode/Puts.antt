-- ===== src/Inode/Puts.antt =====
-- `iput` against the references to the entries of the cache and the free map.
use operating_systems_three.Prelude.{
  ℕ, ◌+◌, ◌-◌, ◌≡◌, ◌≢◌, ◌<◌, refl, sym, ap, subst, ◌∙◌, arith, inl, inr, ◌==◌, true, false, Bool,
  Bool-cases, ◌&&◌, List, ◌∷◌, update_self, update_ne, ok, ◌>>=◌, ℕ_discrete,
}
use operating_systems_three.Locks.{acquiresleep, releasesleep}
use operating_systems_three.File.Refs.{count, count_self, count_ne}
use operating_systems_three.Fs.{Disk}
use operating_systems_three.Inode.{
  Dinode, Inode, Icache, ninode, change, is_for, acquire, release, drop_last, drop_inode, put_done,
  put_locked, iput,
}
use operating_systems_three.Inode.Refs.{Holds}
use operating_systems_three.Inode.Trunc.{IsFile}
use operating_systems_three.Inode.Drops.{
  Touched, update-Touched, Touched-trans, Dropped, drop_last_lem,
}

relock : (t : Icache) → t.locked ≡ false → acquire t >>= release ≡ ok t
unfolding acquire release
relock t free = rw free refl

-- Whether `iput` frees the inode, of which `rest` references remain.
abbrev pub dies : (rest : ℕ) → Inode → Bool
dies rest ip = ip.valid && ip.copy.nlink == 0 && rest == 0

-- What `iput` does to the disk.
pub record Fate (dead : Bool) (inum : ℕ) (addrs : ℕ → ℕ) (d d' : Disk) (dinode dinode' : ℕ → Dinode)
    : Type 0 where
  pub dropped : dead ≡ true → Dropped inum addrs d d' dinode dinode'
  pub kept : dead ≡ false → (d' ≡ d) × (dinode' ≡ dinode)

drop_inode_lem :
    (i rest : ℕ) (t : Icache)
    → t.locked ≡ false
    → (t.inode i).ref ≡ rest + 1
    → (dies rest (t.inode i) ≡ true → IsFile (t.inode i).copy.addrs t.disk)
    → (t' : Icache) × (drop_inode i t ≡ ok t')
      × Touched i t t'
      × Fate
          (dies rest (t.inode i))
          (t.inode i).inum
          (t.inode i).copy.addrs
          t.disk
          t'.disk
          t.dinode
          t'.dinode
unfolding drop_inode
drop_inode_lem i rest t free refs file = elim (Bool-cases (dies rest (t.inode i))) [
  | inl dead ↦
      let live : ((t.inode i).valid && (t.inode i).copy.nlink == 0) ≡ true = ground arith in
      let (u, run, touched, dropped) = drop_last_lem i t (ground arith) (file dead) in
      (
        u,
        rw (live, relock t free) run,
        touched,
        record { dropped = λ _. dropped; kept = λ d. absurd (ground arith) },
      )
  | inr alive ↦ (
    t,
    elim (Bool-cases ((t.inode i).valid && (t.inode i).copy.nlink == 0)) [
      | inl live ↦ rw (live, relock t free) (stays (ground arith))
      | inr not_live ↦ rw not_live refl
    ],
    record { others = λ j ne. refl; dev = refl; inum = refl; ref = refl; locked = refl },
    record { dropped = λ d. absurd (ground arith); kept = λ _. (refl, refl) },
  )
]
  where
    stays : ((t.inode i).ref == 1) ≡ false → drop_last i t ≡ ok t
    stays e = unfold drop_last in rw e refl

-- One reference to the entry less.
less-Holds :
    (i : ℕ) (hs : List ℕ) (t t' : Icache)
    → Holds (i ∷ hs) t
    → t'.locked ≡ false
    → ((j : ℕ) → j ≢ i → t'.inode j ≡ t.inode j)
    → (t'.inode i).dev ≡ (t.inode i).dev
    → (t'.inode i).inum ≡ (t.inode i).inum
    → (t'.inode i).ref + 1 ≡ (t.inode i).ref
    → Holds hs t'
less-Holds i hs t t' h free others dev inum ref = record {
  free = free;
  counted = λ j l. elim (ℕ_discrete j i) [
    | yes e ↦
        let l' : i < ninode = omega arith in
        let now : (t'.inode i).ref ≡ count i hs =
          (let a = h.counted i l' in let b = count_self i hs in omega arith) in
        rw e now
    | no ne ↦ ap (λ ip. ip.ref) (others j ne) ∙ h.counted j l ∙ count_ne i j hs ne
  ];
  one = λ j k d n l m a b. h.one j k d n l m (was j d n a) (was k d n b);
}
  where
    mine : (d n : ℕ) → is_for d n (t'.inode i) ≡ true → is_for d n (t.inode i) ≡ true
    mine d n a = unfold is_for in ground arith

    was : (j d n : ℕ) → is_for d n (t'.inode j) ≡ true → is_for d n (t.inode j) ≡ true
    was j d n a = elim (ℕ_discrete j i) [
      | yes e ↦
          subst (λ j. is_for d n (t.inode j) ≡ true) (sym e)
            (mine d n (subst (λ j. is_for d n (t'.inode j) ≡ true) e a))
      | no ne ↦ ap (is_for d n) (sym (others j ne)) ∙ a
    ]

-- What is left of `iput` behind the part that may free the inode.
abbrev finished : ℕ → Icache → Icache
finished i t =
    record (change i (λ ip. record ip { ref = ip.ref - 1 })
      (change i (λ ip. record ip { lock = releasesleep ip.lock }) t)) { locked = false }

finish_lem :
    (i : ℕ) (hs : List ℕ) (t u : Icache)
    → i < ninode
    → Holds (i ∷ hs) t
    → u.locked ≡ false
    → ((j : ℕ) → j ≢ i → u.inode j ≡ t.inode j)
    → (u.inode i).dev ≡ (t.inode i).dev
    → (u.inode i).inum ≡ (t.inode i).inum
    → (u.inode i).ref ≡ (t.inode i).ref
    → (put_done i u ≡ ok (true, finished i u))
      × Holds hs (finished i u)
      × (((finished i u).inode i).lock.locked ≡ false)
unfolding put_done acquire release releasesleep
finish_lem i hs t u l h free others dev inum ref =
    let g : Inode → Inode = λ ip. record ip { lock = releasesleep ip.lock } in
    let v = change i g u in
    let less : Inode → Inode = λ ip. record ip { ref = ip.ref - 1 } in
    let now = update_self u.inode i (g (u.inode i)) in
    let then_now : (finished i u).inode i ≡ less (g (u.inode i)) =
      update_self v.inode i (less (v.inode i)) ∙ ap less now in
    let refs : (t.inode i).ref ≡ count i hs + 1 = h.counted i l ∙ count_self i hs in
    (
      rw free refl,
      less-Holds i hs t (finished i u) h refl
          (λ j ne.
            update_ne v.inode i j (less (v.inode i)) ne
            ∙ update_ne u.inode i j (g (u.inode i)) ne
            ∙ others j ne)
          (ap (λ ip. ip.dev) then_now ∙ dev) (ap (λ ip. ip.inum) then_now ∙ inum)
          (let r = ap (λ ip. ip.ref) then_now in omega arith),
      ap (λ ip. ip.lock.locked) then_now,
    )

-- `iput` by a process that does not have to wait: the reference is gone from the counts. If it was
-- the last to a valid inode without links, and every block of its file is named once and in use in
-- the free map, and its indirect block is none of the map, then the blocks of its file are free, all
-- other bits of the free map are as before, and the inode on the disk is free. If it was not, nothing
-- changes on the disk.
pub iput-Holds :
    (cur i : ℕ) (hs : List ℕ) (t : Icache)
    → i < ninode
    → Holds (i ∷ hs) t
    → (t.inode i).lock.locked ≡ false
    → (dies (count i hs) (t.inode i) ≡ true → IsFile (t.inode i).copy.addrs t.disk)
    → (t' : Icache) × (iput cur i t ≡ ok (true, t'))
      × Holds hs t'
      × ((t'.inode i).lock.locked ≡ false)
      × Fate
          (dies (count i hs) (t.inode i))
          (t.inode i).inum
          (t.inode i).copy.addrs
          t.disk
          t'.disk
          t.dinode
          t'.dinode
unfolding iput put_locked acquiresleep
iput-Holds cur i hs t l h unheld file =
    let f : Inode → Inode = λ ip. record ip { lock = record { locked = true; pid = cur } } in
    let now = update_self t.inode i (f (t.inode i)) in
    let refs : (t.inode i).ref ≡ count i hs + 1 = h.counted i l ∙ count_self i hs in
    let (u, run, touched, fate) =
      drop_inode_lem i (count i hs) (change i f t) h.free (ap (λ ip. ip.ref) now ∙ refs) (λ d.
        subst (λ ip. IsFile ip.copy.addrs t.disk) (sym now)
          (file (subst (λ ip. dies (count i hs) ip ≡ true) now d))) in
    let all =
      Touched-trans i t (change i f t) u
        (update-Touched i (f (t.inode i)) t (change i f t) refl refl refl refl refl) touched in
    let free = all.locked ∙ h.free in
    let (ran, less, unlocked) = finish_lem i hs t u l h free all.others all.dev all.inum all.ref in
    (
      finished i u,
      rw (unheld, run) ran,
      less,
      unlocked,
      subst
          (λ ip. Fate (dies (count i hs) ip) ip.inum ip.copy.addrs t.disk u.disk t.dinode u.dinode)
          now fate,
    )
