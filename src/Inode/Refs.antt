-- ===== src/Inode/Refs.antt =====
-- The inode cache: an inode has one entry, and the entry counts who refers to it.
use operating_systems_three.Prelude.{
  ℕ, ◌+◌, ◌≡◌, ◌≢◌, ◌<◌, ◌⊎◌, refl, sym, ap, subst, subst₂, ◌∙◌, arith, inl, inr, true, false, List,
  ◌∷◌, none, some, update, update_self, update_ne, ok, panic, ℕ_discrete,
}
use operating_systems_three.File.Refs.{count, count_self, count_ne}
use operating_systems_three.Inode.{
  Inode, Icache, ninode, change, Slot, cached, vacant, is_for, iget_scan, one_more, recycled,
  iget_found, iget, acquire, release,
}
use operating_systems_three.Inode.Scan.{scan-cached, scan-absent, scan-vacant, scan-full}

-- The lock is free, the counts of the entries are those of the references `hs`, and no two entries
-- that are in use are for one inode.
pub record Holds (hs : List ℕ) (t : Icache) : Type 0 where
  pub free : t.locked ≡ false
  pub counted : (i : ℕ) → i < ninode → (t.inode i).ref ≡ count i hs
  pub one :
      (i j dev inum : ℕ)
      → i < ninode
      → j < ninode
      → is_for dev inum (t.inode i) ≡ true
      → is_for dev inum (t.inode j) ≡ true
      → i ≡ j

true-false : true ≡ false → ⊥
true-false e = cc

-- One entry more in use, or one reference more.
more-Holds :
    (i : ℕ) (f : Inode → Inode) (hs : List ℕ) (t : Icache)
    → i < ninode
    → Holds hs t
    → (f (t.inode i)).ref ≡ (t.inode i).ref + 1
    → ((dev inum : ℕ)
        → is_for dev inum (f (t.inode i)) ≡ true
        → (is_for dev inum (t.inode i) ≡ true)
          ⊎ ((j : ℕ) → j < ninode → is_for dev inum (t.inode j) ≡ false))
    → Holds (i ∷ hs) (change i f t)
more-Holds i f hs t l h up alone = record { free = h.free; counted = counted; one = one }
  where
    new : ℕ → Inode
    new = update t.inode i (f (t.inode i))

    counted : (j : ℕ) → j < ninode → (new j).ref ≡ count j (i ∷ hs)
    counted j m = elim (ℕ_discrete j i) [
      | yes e ↦
          rw (e, update_self t.inode i (f (t.inode i)))
            (up ∙ ap (λ n. n + 1) (h.counted i l) ∙ sym (count_self i hs))
      | no ne ↦
          rw (update_ne t.inode i j (f (t.inode i)) ne) (h.counted j m ∙ sym (count_ne i j hs ne))
    ]

    other :
        (j dev inum : ℕ)
        → j < ninode
        → j ≢ i
        → is_for dev inum (new i) ≡ true
        → is_for dev inum (new j) ≡ true
        → j ≡ i
    other j dev inum m ne a b =
        let old = ap (is_for dev inum) (sym (update_ne t.inode i j (f (t.inode i)) ne)) ∙ b in
        elim (alone dev inum
          (ap (is_for dev inum) (sym (update_self t.inode i (f (t.inode i)))) ∙ a)) [
            | inl same ↦ h.one j i dev inum m l old same
            | inr clear ↦ absurd (true-false (sym old ∙ clear j m))
          ]

    one :
        (j k dev inum : ℕ)
        → j < ninode
        → k < ninode
        → is_for dev inum (new j) ≡ true
        → is_for dev inum (new k) ≡ true
        → j ≡ k
    one j k dev inum m n a b = elim (ℕ_discrete j i) [
      | yes e ↦ elim (ℕ_discrete k i) [
        | yes f ↦ e ∙ sym f
        | no nf ↦
            e ∙ sym (other k dev inum n nf (subst (λ j. is_for dev inum (new j) ≡ true) e a) b)
      ]
      | no ne ↦ elim (ℕ_discrete k i) [
        | yes f ↦ other j dev inum m ne (subst (λ k. is_for dev inum (new k) ≡ true) f b) a ∙ sym f
        | no nf ↦
            h.one j k dev inum m n
              (ap (is_for dev inum) (sym (update_ne t.inode i j (f (t.inode i)) ne)) ∙ a)
              (ap (is_for dev inum) (sym (update_ne t.inode i k (f (t.inode i)) nf)) ∙ b)
      ]
    ]

one_more_lem :
    (dev inum : ℕ) (ip : Inode)
    → is_for dev inum ip ≡ true
    → (is_for dev inum (one_more ip) ≡ true)
      × ((d n : ℕ) → is_for d n (one_more ip) ≡ true → is_for d n ip ≡ true)
      × (ip.ref ≢ 0)
unfolding is_for
one_more_lem dev inum ip hit = (ground arith, λ d n a. ground arith, ground arith)

recycled_lem :
    (dev inum : ℕ) (ip : Inode)
    → (is_for dev inum (recycled dev inum ip) ≡ true)
      × ((d n : ℕ) → is_for d n (recycled dev inum ip) ≡ true → (dev ≡ d) × (inum ≡ n))
unfolding is_for
recycled_lem dev inum ip = (ground arith, λ d n a. ground arith)

-- What `iget` comes to.
abbrev pub Gets : (dev inum : ℕ) → List ℕ → Icache → Type 0
Gets dev inum hs t =
    ((i : ℕ) × (t' : Icache) × (iget dev inum t ≡ ok (i, t'))
      × (i < ninode)
      × (is_for dev inum (t'.inode i) ≡ true)
      × (count i hs ≡ 0 → (t'.inode i).valid ≡ false)
      × Holds (i ∷ hs) t')
    ⊎ ((iget dev inum t ≡ panic)
        × ((i : ℕ) → i < ninode → (is_for dev inum (t.inode i) ≡ false) × (count i hs ≢ 0)))

pub iget-Holds : (dev inum : ℕ) (hs : List ℕ) (t : Icache) → Holds hs t → Gets dev inum hs t
unfolding iget iget_found acquire release
iget-Holds dev inum hs t h = go (iget_scan ninode 0 none dev inum t.inode) refl
  where
    run :
        (s : Slot)
        → iget_scan ninode 0 none dev inum t.inode ≡ s
        → iget dev inum t ≡ iget_found dev inum s (record t { locked = true })
    run s e = rw h.free (ap (λ s. iget_found dev inum s (record t { locked = true })) e)

    hit_lem :
        (i : ℕ)
        → is_for dev inum (t.inode i) ≡ true
        → (is_for dev inum (one_more (t.inode i)) ≡ true)
          × ((d n : ℕ) → is_for d n (one_more (t.inode i)) ≡ true → is_for d n (t.inode i) ≡ true)
          × ((t.inode i).ref ≢ 0)
    hit_lem i hit = one_more_lem dev inum (t.inode i) hit

    empty_slot :
        (i : ℕ)
        → (none ≡ some i) ⊎ ((i < 0 + ninode) × ((t.inode i).ref ≡ 0))
        → (i < ninode) × ((t.inode i).ref ≡ 0)
    empty_slot i (inl e) = cc
    empty_slot i (inr (l, z)) = (omega arith, z)

    go : (s : Slot) → iget_scan ninode 0 none dev inum t.inode ≡ s → Gets dev inum hs t
    go (cached i) e =
        let (l, hit) = scan-cached ninode 0 none dev inum i t.inode e in
        let (again, same, busy) = hit_lem i hit in
        inl (
          i,
          change i one_more t,
          run (cached i) e ∙ rw h.free refl,
          omega arith,
          rw (update_self t.inode i (one_more (t.inode i))) again,
          λ z. absurd (busy (h.counted i (omega arith) ∙ z)),
          more-Holds i one_more hs t (omega arith) h refl (λ d n a. inl (same d n a)),
        )
    go (vacant (some i)) e =
        let absent : (j : ℕ) → j < ninode → is_for dev inum (t.inode j) ≡ false = λ j l.
          scan-absent ninode 0 none (some i) dev inum t.inode e j (omega arith) (omega arith) in
        let (l, idle) = empty_slot i (scan-vacant ninode 0 none dev inum i t.inode e) in
        let (now, only) = recycled_lem dev inum (t.inode i) in
        inl (
          i,
          change i (recycled dev inum) t,
          run (vacant (some i)) e ∙ rw h.free refl,
          l,
          rw (update_self t.inode i (recycled dev inum (t.inode i))) now,
          λ _. rw (update_self t.inode i (recycled dev inum (t.inode i))) refl,
          more-Holds i (recycled dev inum) hs t l h (omega arith) (λ d n a.
              let (same_dev, same_inum) = only d n a in
              inr (
                subst₂ (λ d n. (j : ℕ) → j < ninode → is_for d n (t.inode j) ≡ false) same_dev
                  same_inum absent)),
        )
    go (vacant none) e =
        let (_, busy) = scan-full ninode 0 none dev inum t.inode e in
        inr (
          run (vacant none) e ∙ refl,
          λ j l. (
            scan-absent ninode 0 none none dev inum t.inode e j (omega arith) (omega arith),
            λ z. busy j (omega arith) (omega arith) (h.counted j l ∙ z),
          ),
        )
