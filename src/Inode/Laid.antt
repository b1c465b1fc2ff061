-- ===== src/Inode/Laid.antt =====
-- A file whose blocks lie apart from each other, from its indirect block and from the free map.
use operating_systems_three.Prelude.{
  ℕ, ◌+◌, ◌≡◌, ◌≢◌, ◌<◌, refl, sym, ap, subst, ◌∙◌, arith, false, update_ne, ℕ_discrete,
}
use operating_systems_three.Fs.{Disk, bblock, log_block}
use operating_systems_three.Fs.Free.{used}
use operating_systems_three.Fs.Alloc.{IsMarked}
use operating_systems_three.Inode.{ndirect, nindirect}
use operating_systems_three.Inode.Slots.{slot, IsMapped, IsPlaced, taken_ne, used-log_block}

pub record IsLaid (addrs : ℕ → ℕ) (d : Disk) : Type 0 where
  pub mapped : IsMapped d
  pub last : addrs ndirect ≢ 0 → IsPlaced (addrs ndirect) d
  pub block :
      (n : ℕ)
      → n < ndirect + nindirect
      → slot n addrs d ≢ 0
      → IsPlaced (slot n addrs d) d × (slot n addrs d ≢ addrs ndirect)
  pub distinct :
      (n m : ℕ)
      → n < ndirect + nindirect
      → m < ndirect + nindirect
      → slot n addrs d ≢ 0
      → slot n addrs d ≡ slot m addrs d
      → n ≡ m

-- What a step of `bmap` keeps of a file and of the other blocks.
pub record Extended (addrs : ℕ → ℕ) (d : Disk) (addrs' : ℕ → ℕ) (d' : Disk) : Type 0 where
  pub laid : IsLaid addrs' d'
  pub kept : (c : ℕ) → IsPlaced c d → c ≢ addrs ndirect → d'.blocks c ≡ d.blocks c
  pub placed : (c : ℕ) → IsPlaced c d → IsPlaced c d'

pub same-Extended : (addrs : ℕ → ℕ) (d : Disk) → IsLaid addrs d → Extended addrs d addrs d
same-Extended addrs d h = record { laid = h; kept = λ c p ne. refl; placed = λ c p. p }

pub placed_ne : (a b : ℕ) (d : Disk) → IsPlaced a d → used b d ≡ false → a ≢ b
placed_ne a b d p f = taken_ne a b d p.busy f

-- Block `n` is a new one, and all others are as before.
pub add-IsLaid :
    (n b : ℕ) (addrs addrs' : ℕ → ℕ) (d d' : Disk)
    → n < ndirect + nindirect
    → IsLaid addrs d
    → IsMapped d'
    → ((c : ℕ) → IsPlaced c d → IsPlaced c d')
    → IsPlaced b d'
    → used b d ≡ false
    → b ≢ addrs ndirect
    → addrs' ndirect ≡ addrs ndirect
    → slot n addrs' d' ≡ b
    → ((m : ℕ) → m < ndirect + nindirect → m ≢ n → slot m addrs' d' ≡ slot m addrs d)
    → IsLaid addrs' d'
add-IsLaid n b addrs addrs' d d' l h mapped placed new free apart last here others = record {
  mapped = mapped;
  last = λ nz.
      subst (λ c. IsPlaced c d') (sym last) (placed (addrs ndirect) (h.last (λ z. nz (last ∙ z))));
  block = λ m lm nz. elim (ℕ_discrete m n) [
    | yes e ↦
        let at : slot m addrs' d' ≡ b = ap (λ m. slot m addrs' d') e ∙ here in
        (subst (λ c. IsPlaced c d') (sym at) new, λ q. apart (sym at ∙ q ∙ last))
    | no ne ↦
        let at = others m lm ne in
        let (p, far) = h.block m lm (λ z. nz (at ∙ z)) in
        (
          subst (λ c. IsPlaced c d') (sym at) (placed (slot m addrs d) p),
          λ q. far (sym at ∙ q ∙ last),
        )
  ];
  distinct = λ m k lm lk nz e. elim (ℕ_discrete m n) [
    | yes em ↦ elim (ℕ_discrete k n) [
      | yes ek ↦ em ∙ sym ek
      | no nk ↦
          absurd (old_ne k lk nk (sym e ∙ ap (λ m. slot m addrs' d') em ∙ here) (λ z. nz (e ∙ z)))
    ]
    | no nm ↦ elim (ℕ_discrete k n) [
      | yes ek ↦ absurd (old_ne m lm nm (e ∙ ap (λ m. slot m addrs' d') ek ∙ here) nz)
      | no nk ↦
          h.distinct m k lm lk (λ z. nz (others m lm nm ∙ z))
            (sym (others m lm nm) ∙ e ∙ others k lk nk)
    ]
  ];
}
  where
    old_ne :
        (m : ℕ) → m < ndirect + nindirect → m ≢ n → slot m addrs' d' ≡ b → slot m addrs' d' ≢ 0 → ⊥
    old_ne m lm nm e nz =
        let at = others m lm nm in
        let (p, _) = h.block m lm (λ z. nz (at ∙ z)) in
        placed_ne (slot m addrs d) b d p free (sym at ∙ e)

-- The indirect block is a new one, without entries.
pub grow-IsLaid :
    (b : ℕ) (addrs addrs' : ℕ → ℕ) (d d' : Disk)
    → IsLaid addrs d
    → IsMapped d'
    → ((c : ℕ) → IsPlaced c d → IsPlaced c d')
    → IsPlaced b d'
    → used b d ≡ false
    → addrs' ndirect ≡ b
    → ((m : ℕ) → slot m addrs' d' ≡ slot m addrs d)
    → IsLaid addrs' d'
grow-IsLaid b addrs addrs' d d' h mapped placed new free last same = record {
  mapped = mapped;
  last = λ nz. subst (λ c. IsPlaced c d') (sym last) new;
  block = λ m lm nz.
      let (p, _) = h.block m lm (λ z. nz (same m ∙ z)) in
      (
        subst (λ c. IsPlaced c d') (sym (same m)) (placed (slot m addrs d) p),
        λ q. placed_ne (slot m addrs d) b d p free (sym (same m) ∙ q ∙ last),
      );
  distinct =
      λ m k lm lk nz e. h.distinct m k lm lk (λ z. nz (same m ∙ z)) (sym (same m) ∙ e ∙ same k);
}

-- Other bytes in a block that is not of the free map.
pub log-IsMapped :
    (b : ℕ) (bytes : ℕ → ℕ) (d : Disk) → IsPlaced b d → IsMapped d → IsMapped (log_block b bytes d)
unfolding IsMarked
log-IsMapped b bytes d p h = record {
  marked = λ a l.
      let at : bblock a (log_block b bytes d) ≡ bblock a d = unfold bblock log_block in refl in
      rw at (
        used-log_block (bblock a d) b bytes d
          (p.apart (bblock a d) (h.inside a (unfold log_block in l)))
        ∙ h.marked a (unfold log_block in l));
  inside = unfold log_block bblock in h.inside;
  boot = used-log_block 0 b bytes d (p.apart 0 (let l = p.inside in omega arith)) ∙ h.boot;
  small = unfold log_block in h.small;
}

pub log-IsPlaced :
    (b c : ℕ) (bytes : ℕ → ℕ) (d : Disk)
    → IsPlaced b d
    → IsPlaced c d
    → IsPlaced c (log_block b bytes d)
log-IsPlaced b c bytes d p q = record {
  inside = unfold log_block in q.inside;
  busy = used-log_block c b bytes d (p.apart c q.inside) ∙ q.busy;
  apart = unfold log_block bblock in q.apart;
}

pub slot-blocks :
    (n : ℕ) (addrs : ℕ → ℕ) (d d' : Disk)
    → d'.blocks (addrs ndirect) ≡ d.blocks (addrs ndirect)
    → slot n addrs d' ≡ slot n addrs d
unfolding slot
slot-blocks n addrs d d' e = rw e refl

-- Other bytes in a block of the file.
pub log-IsLaid :
    (b : ℕ) (bytes : ℕ → ℕ) (addrs : ℕ → ℕ) (d : Disk)
    → IsPlaced b d
    → b ≢ addrs ndirect
    → IsLaid addrs d
    → IsLaid addrs (log_block b bytes d)
      × ((n : ℕ) → slot n addrs (log_block b bytes d) ≡ slot n addrs d)
log-IsLaid b bytes addrs d p ne h =
    let same : (n : ℕ) → slot n addrs (log_block b bytes d) ≡ slot n addrs d = λ n.
      slot-blocks n addrs d (log_block b bytes d)
        (unfold log_block in update_ne d.blocks b (addrs ndirect) bytes (λ e. ne (sym e))) in
    (
      record {
        mapped = log-IsMapped b bytes d p h.mapped;
        last = λ nz. log-IsPlaced b (addrs ndirect) bytes d p (h.last nz);
        block = λ n l nz.
            let (q, far) = h.block n l (λ z. nz (same n ∙ z)) in
            (
              subst (λ c. IsPlaced c (log_block b bytes d)) (sym (same n))
                  (log-IsPlaced b (slot n addrs d) bytes d p q),
              λ e. far (sym (same n) ∙ e),
            );
        distinct =
            λ n m l k nz e. h.distinct n m l k (λ z. nz (same n ∙ z)) (sym (same n) ∙ e ∙ same m);
      },
      same,
    )
