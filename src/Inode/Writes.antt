-- ===== src/Inode/Writes.antt =====
-- The loop of `writei` against the bytes of the file.
use operating_systems_three.Prelude.{
  ℕ, zero, suc, ◌+◌, ◌-◌, ◌*◌, ◌/◌, ◌%◌, ◌≡◌, ◌≢◌, ◌≤◌, ◌<◌, ◌⊎◌, refl, sym, ap, subst, ◌∙◌, arith,
  inl, inr, ◌==◌, Bool-cases, update_self, update_ne, Outcome, ok, panic, ℕ_discrete, dec_lt,
}
use operating_systems_three.Fs.{bsize, Disk, log_block}
use operating_systems_three.Inode.{ndirect, nindirect}
use operating_systems_three.Inode.Slots.{slot, IsPlaced}
use operating_systems_three.Inode.Laid.{IsLaid, log-IsLaid}
use operating_systems_three.Inode.Maps.{Mapped}
use operating_systems_three.Inode.Mapping.{bmap_lem}
use operating_systems_three.Inode.Reads.{chunk, chunk_lem}
use operating_systems_three.Inode.Writei.{put_bytes, write_loop}

-- Byte `x` of a file.
unfoldable pub byte : ℕ → (ℕ → ℕ) → Disk → ℕ
unfolding slot
byte x addrs d = d.blocks (slot (x / bsize) addrs d) (x % bsize)

-- The file and the disk after `n` bytes were written from `off` on.
pub record Written (off n : ℕ) (src addrs : ℕ → ℕ) (d : Disk) (addrs' : ℕ → ℕ) (d' : Disk)
    : Type 0 where
  pub laid : IsLaid addrs' d'
  pub bytes : (k : ℕ) → k < n → byte (off + k) addrs' d' ≡ src k
  pub there : (k : ℕ) → k < n → slot ((off + k) / bsize) addrs' d' ≢ 0
  pub others :
      (x : ℕ)
      → x / bsize < ndirect + nindirect
      → (x < off) ⊎ (off + n ≤ x)
      → slot (x / bsize) addrs d ≢ 0
      → byte x addrs' d' ≡ byte x addrs d
  pub slots :
      (q : ℕ) → q < ndirect + nindirect → slot q addrs d ≢ 0 → slot q addrs' d' ≡ slot q addrs d

put_bytes-in :
    (m i k : ℕ) (src block : ℕ → ℕ) → i ≤ k → k < i + m → put_bytes m i src block k ≡ src (k - i)
unfolding put_bytes
put_bytes-in m i k src block l h = ground arith

put_bytes-out :
    (m i k : ℕ) (src block : ℕ → ℕ) → (k < i) ⊎ (i + m ≤ k) → put_bytes m i src block k ≡ block k
unfolding put_bytes
put_bytes-out m i k src block h = ground arith

-- One round: `m` bytes of one block.
abbrev round : (off m b : ℕ) → (src : ℕ → ℕ) → Disk → Disk
round off m b src d = log_block b (put_bytes m (off % bsize) src (d.blocks b)) d

round-Written :
    (off m b : ℕ) (src addrs addrs' : ℕ → ℕ) (d d' : Disk)
    → off / bsize < ndirect + nindirect
    → off % bsize + m ≤ bsize
    → IsLaid addrs d
    → Mapped (off / bsize) addrs d b addrs' d'
    → Written off m src addrs d addrs' (round off m b src d')
round-Written off m b src addrs addrs' d d' l fits h mapped =
    let more = mapped.more l h in
    let nz = mapped.nonzero in
    let (p₀, far₀) = more.laid.block (off / bsize) l (λ z. nz (sym mapped.here ∙ z)) in
    let p : IsPlaced b d' = subst (λ c. IsPlaced c d') mapped.here p₀ in
    let far : b ≢ addrs' ndirect = λ e. far₀ (mapped.here ∙ e) in
    let new = put_bytes m (off % bsize) src (d'.blocks b) in
    let d₂ = round off m b src d' in
    let (laid, same) = log-IsLaid b new addrs' d' p far more.laid in
    let now : d₂.blocks b ≡ new = unfold log_block in update_self d'.blocks b new in
    let at : (x : ℕ) → x / bsize ≡ off / bsize → slot (x / bsize) addrs' d₂ ≡ b =
      λ x e. same (x / bsize) ∙ ap (λ q. slot q addrs' d') e ∙ mapped.here in
    let kept : (q : ℕ)
        → q < ndirect + nindirect
        → slot q addrs d ≢ 0
        → slot q addrs' d' ≡ slot q addrs d =
      λ q lq nq. kept_slot q lq nq (ℕ_discrete q (off / bsize)) in
    record {
      laid = laid;
      bytes = λ k lk.
          let e : (off + k) / bsize ≡ off / bsize = omega arith in
          let i : (off + k) % bsize ≡ off % bsize + k = omega arith in
          let z : off % bsize + k - off % bsize ≡ k = omega arith in
          unfold byte in
          ap (λ c. d₂.blocks c ((off + k) % bsize)) (at (off + k) e)
          ∙ ap (λ f. f ((off + k) % bsize)) now
          ∙ ap new i
          ∙ put_bytes-in m (off % bsize) (off % bsize + k) src (d'.blocks b) (omega arith)
              (omega arith)
          ∙ ap src z;
      there = λ k lk.
          let e : (off + k) / bsize ≡ off / bsize = omega arith in
          λ z. nz (sym (at (off + k) e) ∙ z);
      others = λ x lx out some_x.
          unfold byte in
          elim (ℕ_discrete (x / bsize) (off / bsize)) [
            | yes e ↦
                let old : slot (x / bsize) addrs d ≡ b =
                  sym (kept (x / bsize) lx some_x) ∙ ap (λ q. slot q addrs' d') e ∙ mapped.here in
                ap (λ c. d₂.blocks c (x % bsize)) (at x e)
                ∙ ap (λ f. f (x % bsize)) now
                ∙ put_bytes-out m (off % bsize) (x % bsize) src (d'.blocks b) (omega arith)
                ∙ ap (λ c. d'.blocks c (x % bsize)) (sym old)
                ∙ ap (λ f. f (x % bsize)) (content (x / bsize) lx some_x)
            | no ne ↦
                let here = kept (x / bsize) lx some_x in
                let apart : slot (x / bsize) addrs' d' ≢ b = λ e. ne (
                  more.laid.distinct (x / bsize) (off / bsize) lx l (λ z. some_x (sym here ∙ z))
                    (e ∙ sym mapped.here)) in
                let untouched : d₂.blocks (slot (x / bsize) addrs' d')
                    ≡ d'.blocks (slot (x / bsize) addrs' d') =
                  unfold log_block in
                  update_ne d'.blocks b (slot (x / bsize) addrs' d') new apart in
                ap (λ c. d₂.blocks c (x % bsize)) (same (x / bsize))
                ∙ ap (λ f. f (x % bsize)) untouched
                ∙ ap (λ c. d'.blocks c (x % bsize)) here
                ∙ ap (λ f. f (x % bsize)) (content (x / bsize) lx some_x)
          ];
      slots = λ q lq nq. same q ∙ kept q lq nq;
    }
  where
    kept_slot :
        (q : ℕ)
        → q < ndirect + nindirect
        → slot q addrs d ≢ 0
        → Dec (q ≡ off / bsize)
        → slot q addrs' d' ≡ slot q addrs d
    kept_slot q lq nq (yes e) =
        let (sa, sd) = mapped.kept (λ z. nq (ap (λ q. slot q addrs d) e ∙ z)) in rw (sa, sd) refl
    kept_slot q lq nq (no ne) = mapped.others q lq ne

    content :
        (q : ℕ)
        → q < ndirect + nindirect
        → slot q addrs d ≢ 0
        → d'.blocks (slot q addrs d) ≡ d.blocks (slot q addrs d)
    content q lq nq =
        let (p, far) = h.block q lq nq in (mapped.more l h).kept (slot q addrs d) p far

-- What the loop comes to; where it panics, a block in the range has no number.
abbrev pub Writes : (off n : ℕ) → (src addrs : ℕ → ℕ) → Disk → Outcome ((ℕ → ℕ) × Disk) → Type 0
Writes off n src addrs d o =
    ((addrs' : ℕ → ℕ) × (d' : Disk) × (o ≡ ok (addrs', d')) × Written off n src addrs d addrs' d')
    ⊎ ((k : ℕ) × (o ≡ panic) × (k < n) × (slot ((off + k) / bsize) addrs d ≡ 0))

none-Written :
    (off : ℕ) (src addrs : ℕ → ℕ) (d : Disk) → IsLaid addrs d → Written off 0 src addrs d addrs d
none-Written off src addrs d h = record {
  laid = h;
  bytes = λ k l. absurd (omega arith);
  there = λ k l. absurd (omega arith);
  others = λ x l out nz. refl;
  slots = λ q l nz. refl;
}

-- Two ranges that follow each other.
Written-append :
    (off m n : ℕ) (src addrs addrs₁ addrs₂ : ℕ → ℕ) (d d₁ d₂ : Disk)
    → m ≤ n
    → off + n ≤ (ndirect + nindirect) * bsize
    → Written off m src addrs d addrs₁ d₁
    → Written (off + m) (n - m) (λ k. src (m + k)) addrs₁ d₁ addrs₂ d₂
    → Written off n src addrs d addrs₂ d₂
Written-append off m n src addrs addrs₁ addrs₂ d d₁ d₂ le top a b = record {
  laid = b.laid;
  bytes = λ k l. elim (dec_lt k m) [
    | yes low ↦ b.others (off + k) (omega arith) (inl (omega arith)) (a.there k low) ∙ a.bytes k low
    | no high ↦
        let at : off + m + (k - m) ≡ off + k = omega arith in
        let here : m + (k - m) ≡ k = omega arith in
        ap (λ x. byte x addrs₂ d₂) (sym at) ∙ b.bytes (k - m) (omega arith) ∙ ap src here
  ];
  there = λ k l. elim (dec_lt k m) [
    | yes low ↦
        λ z. a.there k low (sym (b.slots ((off + k) / bsize) (omega arith) (a.there k low)) ∙ z)
    | no high ↦
        let at : off + m + (k - m) ≡ off + k = omega arith in
        λ z. b.there (k - m) (omega arith) (ap (λ x. slot (x / bsize) addrs₂ d₂) at ∙ z)
  ];
  others = λ x l out nz.
      b.others x l (omega arith) (λ z. nz (sym (a.slots (x / bsize) l nz) ∙ z))
      ∙ a.others x l (omega arith) nz;
  slots = λ q l nz. b.slots q l (λ z. nz (sym (a.slots q l nz) ∙ z)) ∙ a.slots q l nz;
}

-- A number that is kept unless it is 0, and is 0 then.
was_hole : (a s : ℕ) → (a ≢ 0 → s ≡ a) → s ≡ 0 → a ≡ 0
was_hole a s kept z = elim (ℕ_discrete a 0) [ yes e ↦ e | no ne ↦ absurd (ne (sym (kept ne) ∙ z)) ]

pub write_loop_lem :
    (r off n : ℕ) (src addrs : ℕ → ℕ) (d : Disk)
    → n ≤ r
    → off + n ≤ (ndirect + nindirect) * bsize
    → IsLaid addrs d
    → Writes off n src addrs d (write_loop r off n src addrs d)
unfolding write_loop
write_loop_lem zero off zero src addrs d l top h =
    inl (addrs, d, refl, none-Written off src addrs d h)
write_loop_lem zero off (suc n) src addrs d l top h = absurd (omega arith)
write_loop_lem (suc r) off n src addrs d l top h = elim (Bool-cases (n == 0)) [
  | inl z ↦
      let none_left : n ≡ 0 = ground arith in
      inl (
        addrs,
        d,
        rw z refl,
        subst (λ n. Written off n src addrs d addrs d) (sym none_left)
            (none-Written off src addrs d h),
      )
  | inr nz ↦
      let (some_bytes, up_to, inside) = chunk_lem n off (ground arith) in
      let m = chunk n off in
      elim (bmap_lem (off / bsize) addrs d (omega arith) h.mapped h.last) [
        | inr (run, hole, _) ↦ inr (
          0,
          rw (nz, run) refl,
          omega arith,
          ap (λ x. slot (x / bsize) addrs d) (omega arith) ∙ hole,
        )
        | inl (b, addrs₁, d₁, run, mapped) ↦
            let here = round-Written off m b src addrs addrs₁ d d₁ (omega arith) inside h mapped in
            let d₂ = round off m b src d₁ in
            elim (write_loop_lem r (off + m) (n - m) (λ k. src (m + k)) addrs₁ d₂ (omega arith)
              (omega arith) here.laid) [
                | inl (addrs₃, d₃, rest, after) ↦ inl (
                  addrs₃,
                  d₃,
                  rw (nz, run) rest,
                  Written-append off m n src addrs addrs₁ addrs₃ d d₂ d₃ up_to top here after,
                )
                | inr (k, rest, lk, hole) ↦ inr (
                  m + k,
                  rw (nz, run) rest,
                  omega arith,
                  was_hole (slot ((off + (m + k)) / bsize) addrs d)
                      (slot ((off + (m + k)) / bsize) addrs₁ d₂)
                      (here.slots ((off + (m + k)) / bsize) (omega arith))
                      (ap (λ x. slot (x / bsize) addrs₁ d₂) (omega arith) ∙ hole),
                )
              ]
      ]
]
