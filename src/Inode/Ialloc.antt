-- ===== src/Inode/Ialloc.antt =====
-- `ialloc` of fs.c: a free inode on the disk, and its entry in the cache.
use operating_systems_three.Prelude.{
  ℕ, zero, suc, ◌+◌, ◌-◌, ◌≡◌, ◌≢◌, ◌≤◌, ◌<◌, ◌⊎◌, refl, sym, ap, subst, ◌∙◌, arith, inl, inr, ◌==◌,
  if◌then◌else◌, true, false, Bool-cases, List, ◌∷◌, Option, none, some, Option-cases, update,
  update_self, update_ne, Outcome, ok, panic, ℕ_discrete,
}
use operating_systems_three.File.Refs.{count}
use operating_systems_three.Inode.{
  Dinode, Icache, ninode, is_for, Slot, cached, vacant, ninode, acquire, release, iget_scan,
  iget_found, iget,
}
use operating_systems_three.Inode.Refs.{Holds, iget-Holds}

-- `memset(dip, 0, sizeof(*dip))`, and the new type.
abbrev pub blank : ℕ → Dinode
blank kind = record { kind = kind; major = 0; minor = 0; nlink = 0; size = 0; addrs = λ _. 0 }

-- The loop of `ialloc` from inode `inum` on.
unfoldable pub free_inode : (rounds inum : ℕ) → (ℕ → Dinode) → Option ℕ
free_inode zero inum dinode = none
free_inode (suc r) inum dinode =
    let rest = free_inode r (inum + 1) dinode in if (dinode inum).kind == 0 then some inum else rest

unfoldable pub ialloc_found : (dev kind : ℕ) → Option ℕ → Icache → Outcome (ℕ × Icache)
ialloc_found dev kind none t = panic
ialloc_found dev kind (some inum) t =
    iget dev inum (record t { dinode = update t.dinode inum (blank kind) })

-- `ialloc` on a disk with `ninodes` inodes.
unfoldable pub ialloc : (dev kind ninodes : ℕ) → Icache → Outcome (ℕ × Icache)
ialloc dev kind ninodes t = ialloc_found dev kind (free_inode (ninodes - 1) 1 t.dinode) t

free_inode-some :
    (r i k : ℕ) (dinode : ℕ → Dinode)
    → free_inode r i dinode ≡ some k
    → (i ≤ k)
      × (k < i + r)
      × ((dinode k).kind ≡ 0)
      × ((j : ℕ) → i ≤ j → j < k → (dinode j).kind ≢ 0)
unfolding free_inode
free_inode-some zero i k dinode e = cc
free_inode-some (suc r) i k dinode e = elim (Bool-cases ((dinode i).kind == 0)) [
  | inl free ↦
      let here : i ≡ k = ground arith in
      (
        omega arith,
        omega arith,
        subst (λ k. (dinode k).kind ≡ 0) here (ground arith),
        λ j lo hi. absurd (omega arith),
      )
  | inr busy ↦
      let (lo, hi, free, before) = free_inode-some r (i + 1) k dinode (ground arith) in
      (
        omega arith,
        omega arith,
        free,
        λ j low high. elim (ℕ_discrete i j) [
          | yes same ↦ subst (λ j. (dinode j).kind ≢ 0) same (ground arith)
          | no ne ↦ before j (omega arith) high
        ],
      )
]

free_inode-none :
    (r i : ℕ) (dinode : ℕ → Dinode)
    → free_inode r i dinode ≡ none
    → (j : ℕ) → i ≤ j
    → j < i + r
    → (dinode j).kind ≢ 0
unfolding free_inode
free_inode-none zero i dinode e j lo hi = absurd (omega arith)
free_inode-none (suc r) i dinode e j lo hi = elim (ℕ_discrete i j) [
  | yes same ↦ subst (λ j. (dinode j).kind ≢ 0) same (ground arith)
  | no ne ↦ free_inode-none r (i + 1) dinode (ground arith) j (omega arith) (omega arith)
]

-- `iget` leaves the inodes on the disk alone.
found-dinode :
    (dev inum i : ℕ) (s : Slot) (t t' : Icache)
    → iget_found dev inum s t ≡ ok (i, t')
    → t'.dinode ≡ t.dinode
unfolding iget_found release
found-dinode dev inum i (cached k) t t' e = ground arith
found-dinode dev inum i (vacant (some k)) t t' e = ground arith
found-dinode dev inum i (vacant none) t t' e = ground arith

iget-dinode :
    (dev inum i : ℕ) (t t' : Icache)
    → t.locked ≡ false
    → iget dev inum t ≡ ok (i, t')
    → t'.dinode ≡ t.dinode
unfolding iget acquire
iget-dinode dev inum i t t' free e =
    found-dinode dev inum i (iget_scan ninode 0 none dev inum t.inode) (record t { locked = true })
      t' (sym (rw free refl) ∙ e)

-- What `ialloc` comes to.
abbrev pub Allocs : (dev kind ninodes : ℕ) → List ℕ → Icache → Type 0
Allocs dev kind ninodes hs t =
    ((i : ℕ) × (inum : ℕ) × (t' : Icache) × (ialloc dev kind ninodes t ≡ ok (i, t'))
      × (0 < inum)
      × (inum < ninodes)
      × ((t.dinode inum).kind ≡ 0)
      × ((j : ℕ) → 0 < j → j < inum → (t.dinode j).kind ≢ 0)
      × (t'.dinode inum ≡ blank kind)
      × ((n : ℕ) → n ≢ inum → t'.dinode n ≡ t.dinode n)
      × (is_for dev inum (t'.inode i) ≡ true)
      × Holds (i ∷ hs) t')
    ⊎ ((ialloc dev kind ninodes t ≡ panic)
        × (((j : ℕ) → 0 < j → j < ninodes → (t.dinode j).kind ≢ 0)
            ⊎ ((i : ℕ) → i < ninode → count i hs ≢ 0)))

-- `ialloc` returns a new reference to an entry of the cache for the first free inode of the disk,
-- which then has the type and nothing else, and all other inodes of the disk are as before; the
-- counts and the uniqueness of the entries hold. It panics only if no inode is free, or every entry
-- of the cache is referred to.
pub ialloc-Holds :
    (dev kind ninodes : ℕ) (hs : List ℕ) (t : Icache) → Holds hs t → Allocs dev kind ninodes hs t
unfolding ialloc ialloc_found
ialloc-Holds dev kind ninodes hs t h = elim (Option-cases (free_inode (ninodes - 1) 1 t.dinode)) [
  | inl e ↦
      let full = free_inode-none (ninodes - 1) 1 t.dinode e in
      inr (rw e refl, inl (λ j lo hi. full j (omega arith) (omega arith)))
  | inr (inum, e) ↦
      let (lo, hi, free, before) = free_inode-some (ninodes - 1) 1 inum t.dinode e in
      let u = record t { dinode = update t.dinode inum (blank kind) } in
      let same : Holds hs u = record { free = h.free; counted = h.counted; one = h.one } in
      elim (iget-Holds dev inum hs u same) [
        | inr (run, busy) ↦ inr (rw e run, inr (λ i l. (busy i l).1))
        | inl (i, t', run, _, here, _, next) ↦
            let kept = iget-dinode dev inum i u t' h.free run in
            inl (
              i,
              inum,
              t',
              rw e run,
              omega arith,
              omega arith,
              free,
              λ j low high. before j (omega arith) high,
              ap (λ f. f inum) kept ∙ update_self t.dinode inum (blank kind),
              λ n ne. ap (λ f. f n) kept ∙ update_ne t.dinode inum n (blank kind) ne,
              here,
              next,
            )
      ]
]
