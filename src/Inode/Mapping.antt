-- ===== src/Inode/Mapping.antt =====
-- `bmap` as a whole.
use operating_systems_three.Prelude.{
  ℕ, ◌+◌, ◌-◌, ◌*◌, ◌≡◌, ◌≢◌, ◌≤◌, ◌<◌, ◌⊎◌, refl, sym, ap, ◌∙◌, arith, inl, inr, ◌==◌, ltb, true,
  false, Bool-cases, update, update_self, update_ne, Outcome, ok, panic, ◌>>=◌, ℕ_discrete, dec_lt,
}
use operating_systems_three.Bytes.{store_word}
use operating_systems_three.Fs.{Disk, log_block, balloc}
use operating_systems_three.Fs.Free.{used}
use operating_systems_three.Fs.Alloc.{Taken, balloc_lem}
use operating_systems_three.Syscall.{word}
use operating_systems_three.Inode.{ndirect, nindirect}
use operating_systems_three.Inode.Bmap.{own_block, entry, bmap}
use operating_systems_three.Inode.Slots.{
  slot, IsMapped, IsPlaced, taken_ne, Taken-IsMapped, Taken-IsPlaced, Taken-IsPlaced_self,
  Taken-kept,
}
use operating_systems_three.Inode.Laid.{IsLaid, Extended, placed_ne, grow-IsLaid}
use operating_systems_three.Inode.Maps.{
  slot-direct, slot-hole, slot-entry, Mapped, old-Mapped, direct-Mapped, entry-Mapped,
}

-- What `bmap` comes to; where it panics, at most one block of the disk is free.
abbrev pub MapsTo : (n : ℕ) → (ℕ → ℕ) → Disk → Outcome (ℕ × (ℕ → ℕ) × Disk) → Type 0
MapsTo n addrs d o =
    ((a : ℕ) × (addrs' : ℕ → ℕ) × (d' : Disk) × (o ≡ ok (a, addrs', d'))
      × Mapped n addrs d a addrs' d')
    ⊎ ((o ≡ panic)
        × (slot n addrs d ≡ 0)
        × ((x y : ℕ) → x < d.size → y < d.size → used x d ≡ false → used y d ≡ false → x ≡ y))

no_free :
    (d : Disk)
    → ((a : ℕ) → a < d.size → used a d ≡ true)
    → (x y : ℕ) → x < d.size
    → y < d.size
    → used x d ≡ false
    → used y d ≡ false
    → x ≡ y
no_free d full x y l m f g = absurd (taken_ne x x d (full x l) f refl)

-- Block `n` of the file was mapped, or there is no free block for it.
abbrev MapsOr : (n : ℕ) → (ℕ → ℕ) → Disk → Outcome (ℕ × (ℕ → ℕ) × Disk) → Type 0
MapsOr n addrs d o =
    ((a : ℕ) × (addrs' : ℕ → ℕ) × (d' : Disk) × (o ≡ ok (a, addrs', d'))
      × Mapped n addrs d a addrs' d')
    ⊎ ((o ≡ panic) × (slot n addrs d ≡ 0) × ((a : ℕ) → a < d.size → used a d ≡ true))

full-MapsTo :
    (n : ℕ) (addrs : ℕ → ℕ) (d : Disk) (o : Outcome (ℕ × (ℕ → ℕ) × Disk))
    → MapsOr n addrs d o
    → MapsTo n addrs d o
full-MapsTo n addrs d o (inl r) = inl r
full-MapsTo n addrs d o (inr (e, z, full)) = inr (e, z, no_free d full)

direct-MapsOr :
    (n : ℕ) (addrs : ℕ → ℕ) (d : Disk)
    → n < ndirect
    → IsMapped d
    → (addrs ndirect ≢ 0 → IsPlaced (addrs ndirect) d)
    → MapsOr n addrs d (own_block n addrs d)
unfolding own_block
direct-MapsOr n addrs d l h p = elim (Bool-cases (addrs n == 0)) [
  | inr nz ↦ inl (
    addrs n,
    addrs,
    d,
    rw nz refl,
    old-Mapped n (addrs n) addrs d (slot-direct n addrs d l) (ground arith),
  )
  | inl z ↦
      let hole : addrs n ≡ 0 = ground arith in
      elim (balloc_lem d h.marked) [
        | inl (b, d', run, t) ↦
            inl
              (b, update addrs n b, d', rw (z, run) refl, direct-Mapped n b addrs d d' l hole h p t)
        | inr (run, full) ↦ inr (rw (z, run) refl, slot-direct n addrs d l ∙ hole, full)
      ]
]

entry-MapsOr :
    (n last : ℕ) (addrs : ℕ → ℕ) (d : Disk)
    → ndirect ≤ n
    → addrs ndirect ≡ last
    → last ≢ 0
    → IsMapped d
    → IsPlaced last d
    → MapsOr n addrs d (entry (n - ndirect) (last, addrs, d))
unfolding entry
entry-MapsOr n last addrs d l e nz h p =
    let a = word (d.blocks last) (4 * (n - ndirect)) in
    let at = slot-entry n last addrs d l e nz in
    elim (Bool-cases (a == 0)) [
      | inr some_a ↦ inl (a, addrs, d, rw some_a refl, old-Mapped n a addrs d at (ground arith))
      | inl z ↦
          let hole : a ≡ 0 = ground arith in
          elim (balloc_lem d h.marked) [
            | inl (b, d', run, t) ↦ inl (
              b,
              addrs,
              log_block last (store_word (4 * (n - ndirect)) b (d'.blocks last)) d',
              rw (z, run)
                  (ap (λ f. ok (b, addrs, log_block last (store_word (4 * (n - ndirect)) b f) d'))
                    refl),
              entry-Mapped n last b addrs d d' l e nz h p hole t,
            )
            | inr (run, full) ↦ inr (rw (z, run) refl, at ∙ hole, full)
          ]
    ]

word_zero : (a : ℕ) → word (λ _. 0) a ≡ 0
unfolding word
word_zero a = refl

-- A new indirect block has no entries.
slot-grown :
    (m b : ℕ) (addrs : ℕ → ℕ) (d d' : Disk)
    → addrs ndirect ≡ 0
    → b ≢ 0
    → Taken d b d'
    → slot m (update addrs ndirect b) d' ≡ slot m addrs d
slot-grown m b addrs d d' z nz t = elim (dec_lt m ndirect) [
  | yes low ↦
      slot-direct m (update addrs ndirect b) d' low
      ∙ update_ne addrs ndirect m b (omega arith)
      ∙ sym (slot-direct m addrs d low)
  | no high ↦
      slot-entry m b (update addrs ndirect b) d' (omega arith) (update_self addrs ndirect b) nz
      ∙ ap (λ f. word f (4 * (m - ndirect))) t.zeroed
      ∙ word_zero (4 * (m - ndirect))
      ∙ sym (slot-hole m addrs d (omega arith) z)
]

grown-Extended :
    (b : ℕ) (addrs addrs'' : ℕ → ℕ) (d d' d'' : Disk)
    → addrs ndirect ≡ 0
    → b ≢ 0
    → Taken d b d'
    → IsLaid addrs d
    → ((m : ℕ) → slot m (update addrs ndirect b) d' ≡ slot m addrs d)
    → (IsLaid (update addrs ndirect b) d' → Extended (update addrs ndirect b) d' addrs'' d'')
    → Extended addrs d addrs'' d''
grown-Extended b addrs addrs'' d d' d'' z nz t laid same next =
    let at = update_self addrs ndirect b in
    let more = next (
      grow-IsLaid b addrs (update addrs ndirect b) d d' laid (Taken-IsMapped b d d' t laid.mapped)
        (λ c q. Taken-IsPlaced b c d d' t q) (Taken-IsPlaced_self b d d' t laid.mapped) t.free at
        same) in
    record {
      laid = more.laid;
      kept = λ c q ne.
          more.kept c (Taken-IsPlaced b c d d' t q) (λ e. placed_ne c b d q t.free (e ∙ at))
          ∙ Taken-kept b c d d' t q;
      placed = λ c q. more.placed c (Taken-IsPlaced b c d d' t q);
    }

-- An entry of a new indirect block.
grown-MapsTo :
    (n b : ℕ) (addrs : ℕ → ℕ) (d d' : Disk) (o : Outcome (ℕ × (ℕ → ℕ) × Disk))
    → ndirect ≤ n
    → addrs ndirect ≡ 0
    → b ≢ 0
    → Taken d b d'
    → MapsOr n (update addrs ndirect b) d' o
    → MapsTo n addrs d o
grown-MapsTo n b addrs d d' o l z nz t (inr (e, hole, full)) =
    inr (e, slot-hole n addrs d l z, λ x y lx ly fx fy. is_b x lx fx ∙ sym (is_b y ly fy))
  where
    is_b : (x : ℕ) → x < d.size → used x d ≡ false → x ≡ b
    is_b x lx fx = elim (ℕ_discrete x b) [
      | yes e ↦ e
      | no ne ↦ absurd (
          taken_ne x x d' (full x (let (s, _) = t.layout in omega arith)) (t.others x lx ne ∙ fx)
            refl)
    ]
grown-MapsTo n b addrs d d' o l z nz t (inl (a, addrs'', d'', e, mapped)) =
    let same = λ (m : ℕ). slot-grown m b addrs d d' z nz t in
    inl (
      a,
      addrs'',
      d'',
      e,
      record {
        here = mapped.here;
        nonzero = mapped.nonzero;
        others = λ m lm ne. mapped.others m lm ne ∙ same m;
        kept = λ some_n. absurd (some_n (slot-hole n addrs d l z));
        fresh = λ hole.
            let (inside, free, bit, zero) = mapped.fresh (same n ∙ hole) in
            let (s, _) = t.layout in
            let here : a < d.size = omega arith in
            let ne : a ≢ b = λ q. taken_ne b a d' t.bit free (sym q) in
            (here, sym (t.others a here ne) ∙ free, bit, zero);
        more = λ ln laid. grown-Extended b addrs addrs'' d d' d'' z nz t laid same (mapped.more ln);
      },
    )

own_block-old :
    (k : ℕ) (addrs : ℕ → ℕ) (d : Disk)
    → (addrs k == 0) ≡ false
    → own_block k addrs d ≡ ok (addrs k, addrs, d)
unfolding own_block
own_block-old k addrs d nz = rw nz refl

own_block-new :
    (k b : ℕ) (addrs : ℕ → ℕ) (d d' : Disk)
    → (addrs k == 0) ≡ true
    → balloc d ≡ ok (b, d')
    → own_block k addrs d ≡ ok (b, update addrs k b, d')
unfolding own_block
own_block-new k b addrs d d' z run = rw (z, run) refl

own_block-full :
    (k : ℕ) (addrs : ℕ → ℕ) (d : Disk)
    → (addrs k == 0) ≡ true
    → balloc d ≡ panic
    → own_block k addrs d ≡ panic
unfolding own_block
own_block-full k addrs d z run = rw (z, run) refl

far-MapsTo :
    (n : ℕ) (addrs : ℕ → ℕ) (d : Disk)
    → ndirect ≤ n
    → IsMapped d
    → (addrs ndirect ≢ 0 → IsPlaced (addrs ndirect) d)
    → MapsTo n addrs d (own_block ndirect addrs d >>= entry (n - ndirect))
far-MapsTo n addrs d far h p = elim (Bool-cases (addrs ndirect == 0)) [
  | inr nz ↦
      let some_last : addrs ndirect ≢ 0 = ground arith in
      rw (own_block-old ndirect addrs d nz) (
        full-MapsTo n addrs d (entry (n - ndirect) (addrs ndirect, addrs, d))
          (entry-MapsOr n (addrs ndirect) addrs d far refl some_last h (p some_last)))
  | inl z ↦
      let hole : addrs ndirect ≡ 0 = ground arith in
      elim (balloc_lem d h.marked) [
        | inr (run, full) ↦
            rw (own_block-full ndirect addrs d z run)
              (inr (refl, slot-hole n addrs d far hole, no_free d full))
        | inl (b, d', run, t) ↦
            let nz : b ≢ 0 = λ e. taken_ne 0 b d h.boot t.free (sym e) in
            rw (own_block-new ndirect b addrs d d' z run) (
              grown-MapsTo n b addrs d d' (entry (n - ndirect) (b, update addrs ndirect b, d')) far
                hole nz t
                (entry-MapsOr n b (update addrs ndirect b) d' far (update_self addrs ndirect b) nz
                  (Taken-IsMapped b d d' t h) (Taken-IsPlaced_self b d d' t h)))
      ]
]

-- `bmap` of a block within the bounds of a file, on a disk whose free map marks its own blocks and
-- the boot block, where the indirect block of the file, if there is one, is in use and none of the
-- map: it returns the number that the file then has for the block, which is not 0, and the file has
-- its old numbers for all other blocks. If the file had a number, nothing changes; if not, the new
-- block was free, is now in use, and is zeroed. It panics only for a block without a number on a disk
-- with at most one free block.
pub bmap_lem :
    (n : ℕ) (addrs : ℕ → ℕ) (d : Disk)
    → n < ndirect + nindirect
    → IsMapped d
    → (addrs ndirect ≢ 0 → IsPlaced (addrs ndirect) d)
    → MapsTo n addrs d (bmap n addrs d)
unfolding bmap
bmap_lem n addrs d l h p = elim (Bool-cases (ltb n ndirect)) [
  | inl low ↦
      let l' : n < ndirect = ground arith in
      rw low (full-MapsTo n addrs d (own_block n addrs d) (direct-MapsOr n addrs d l' h p))
  | inr high ↦
      let fits : ltb (n - ndirect) nindirect ≡ true = ground arith in
      rw (high, fits) (far-MapsTo n addrs d (ground arith) h p)
]
