-- ===== src/Fs/Alloc.antt =====
-- `balloc` against the free map as a set.
use operating_systems_three.Prelude.{
  ℕ, zero, suc, ◌+◌, ◌-◌, ◌*◌, ◌/◌, ◌%◌, ◌≡◌, ◌≢◌, ◌≤◌, ◌<◌, ◌⊎◌, refl, sym, ap, subst, ◌∙◌, arith,
  inl, inr, ltb, ℕ_discrete, true, false, Bool-cases, Option, none, some, Option-cases, update,
  update_self, update_ne, dec_lt, Outcome, ok, panic,
}
use operating_systems_three.Fs.{
  bpb, Disk, bblock, log_block, mask, has, bzero, find_bit, mark, taken, balloc_from, balloc,
}
use operating_systems_three.Fs.Free.{used, flip, set-Flipped}

-- The inner loop: the bit that it finds is clear and all in front of it are set, ...
find_bit-some :
    (r bi b k size : ℕ) (bytes : ℕ → ℕ)
    → find_bit r bi b bytes size ≡ some k
    → (bi ≤ k)
      × (k < bi + r)
      × (b + k < size)
      × (has (bytes (k / 8)) (mask k) ≡ false)
      × ((j : ℕ) → bi ≤ j → j < k → has (bytes (j / 8)) (mask j) ≡ true)
unfolding find_bit
find_bit-some zero bi b k size bytes e = cc
find_bit-some (suc r) bi b k size bytes e = elim (Bool-cases (ltb (b + bi) size)) [
  | inr out ↦ absurd (ground arith)
  | inl inside ↦ elim (Bool-cases (has (bytes (bi / 8)) (mask bi))) [
    | inr free ↦
        let here : bi ≡ k = ground arith in
        (
          omega arith,
          omega arith,
          ground arith,
          subst (λ k. has (bytes (k / 8)) (mask k) ≡ false) here free,
          λ j lo hi. absurd (omega arith),
        )
    | inl set ↦
        let (lo, hi, l, clear, before) = find_bit-some r (bi + 1) b k size bytes (ground arith) in
        (
          omega arith,
          omega arith,
          l,
          clear,
          λ j low high. elim (ℕ_discrete bi j) [
            | yes same ↦ subst (λ j. has (bytes (j / 8)) (mask j) ≡ true) same set
            | no ne ↦ before j (omega arith) high
          ],
        )
  ]
]

-- ... and if it finds none, all are set.
find_bit-none :
    (r bi b size : ℕ) (bytes : ℕ → ℕ)
    → find_bit r bi b bytes size ≡ none
    → (j : ℕ) → bi ≤ j
    → j < bi + r
    → b + j < size
    → has (bytes (j / 8)) (mask j) ≡ true
unfolding find_bit
find_bit-none zero bi b size bytes e j lo hi l = absurd (omega arith)
find_bit-none (suc r) bi b size bytes e j lo hi l =
    let inside : ltb (b + bi) size ≡ true = ground arith in
    elim (Bool-cases (has (bytes (bi / 8)) (mask bi))) [
      | inr free ↦ absurd (ground arith)
      | inl set ↦ elim (ℕ_discrete bi j) [
        | yes same ↦ subst (λ j. has (bytes (j / 8)) (mask j) ≡ true) same set
        | no ne ↦
            find_bit-none r (bi + 1) b size bytes (ground arith) j (omega arith) (omega arith) l
      ]
    ]

-- The first free block, and the disk when it is taken.
pub record Taken (d : Disk) (b : ℕ) (d' : Disk) : Type 0 where
  pub inside : b < d.size
  pub free : used b d ≡ false
  pub first : (a : ℕ) → a < b → used a d ≡ true
  pub zeroed : d'.blocks b ≡ (λ _. 0)
  pub bit : used b d' ≡ true
  pub others : (a : ℕ) → a < d.size → a ≢ b → used a d' ≡ used a d
  pub blocks : (n : ℕ) → n ≢ b → n ≢ bblock b d → d'.blocks n ≡ d.blocks n
  pub layout : (d'.size ≡ d.size) × (d'.bmapstart ≡ d.bmapstart)

-- The free map marks its own blocks.
unfoldable pub IsMarked : Disk → Type 0
IsMarked d = (a : ℕ) → a < d.size → used (bblock a d) d ≡ true

used-bzero :
    (n a byte : ℕ) (d : Disk)
    → bblock a d ≢ n
    → used a (bzero n (flip n byte d)) ≡ used a (flip n byte d)
unfolding used bzero log_block flip bblock
used-bzero n a byte d ne =
    let new =
      update d.blocks (n / bpb + d.bmapstart)
        (update (d.blocks (n / bpb + d.bmapstart)) (n % bpb / 8) byte) in
    rw (update_ne new n (a / bpb + d.bmapstart) (λ _. 0) ne) refl

-- A block that the map takes and `bzero` clears.
set-Taken :
    (n : ℕ) (d : Disk)
    → n < d.size
    → used n d ≡ false
    → ((a : ℕ) → a < n → used a d ≡ true)
    → IsMarked d
    → Taken d n (bzero n (flip n (d.blocks (bblock n d) (n % bpb / 8) + mask (n % bpb)) d))
unfolding IsMarked
set-Taken n d l free first marked =
    let byte = d.blocks (bblock n d) (n % bpb / 8) + mask (n % bpb) in
    let f = set-Flipped n d free in
    let apart : (a : ℕ) → a < d.size → bblock a d ≢ n =
      λ a la e. true-false (sym (marked a la) ∙ ap (λ k. used k d) e ∙ free) in
    record {
      inside = l;
      free = free;
      first = first;
      zeroed = unfold bzero log_block in update_self (flip n byte d).blocks n (λ _. 0);
      bit = used-bzero n n byte d (apart n l) ∙ f.bit;
      others = λ a la ne. used-bzero n a byte d (apart a la) ∙ f.others a ne;
      blocks = λ k nk nb.
          let same : (bzero n (flip n byte d)).blocks k ≡ (flip n byte d).blocks k =
            unfold bzero log_block in update_ne (flip n byte d).blocks n k (λ _. 0) nk in
          same ∙ f.blocks k nb;
      layout = unfold bzero log_block flip in (refl, refl);
    }
  where
    true-false : true ≡ false → ⊥
    true-false e = cc

mark-flip :
    (b bi : ℕ) (d : Disk)
    → b % bpb ≡ 0
    → bi < bpb
    → mark b bi d
      ≡ flip (b + bi) (d.blocks (bblock (b + bi) d) ((b + bi) % bpb / 8) + mask ((b + bi) % bpb)) d
unfolding mark flip bblock
mark-flip b bi d z l =
    let block : (b + bi) / bpb ≡ b / bpb = omega arith in
    let index : (b + bi) % bpb ≡ bi = omega arith in rw (block, index) refl

-- The bit that the inner loop looks at.
used-at :
    (b bi : ℕ) (d : Disk)
    → b % bpb ≡ 0
    → bi < bpb
    → used (b + bi) d ≡ has (d.blocks (bblock b d) (bi / 8)) (mask bi)
unfolding used bblock
used-at b bi d z l =
    let block : (b + bi) / bpb ≡ b / bpb = omega arith in
    let index : (b + bi) % bpb ≡ bi = omega arith in rw (block, index) refl

-- What `balloc` comes to.
abbrev pub Allocates : Disk → Outcome (ℕ × Disk) → Type 0
Allocates d o =
    ((b : ℕ) × (d' : Disk) × (o ≡ ok (b, d')) × Taken d b d')
    ⊎ ((o ≡ panic) × ((a : ℕ) → a < d.size → used a d ≡ true))

balloc_from-taken :
    (r b : ℕ) (o : Option ℕ) (d : Disk)
    → ltb b d.size ≡ true
    → find_bit bpb 0 b (d.blocks (bblock b d)) d.size ≡ o
    → balloc_from (suc r) b d ≡ taken b o (balloc_from r (b + bpb) d) d
unfolding balloc_from
balloc_from-taken r b o d inside e = rw inside (ap (λ o. taken b o (balloc_from r (b + bpb) d) d) e)

-- All blocks of the disk up to the end of a block of the map are in use.
all_used :
    (b k a : ℕ) (d : Disk)
    → b % bpb ≡ 0
    → k ≤ bpb
    → ((a : ℕ) → a < b → a < d.size → used a d ≡ true)
    → ((j : ℕ)
        → 0 ≤ j
        → j < k
        → b + j < d.size
        → has (d.blocks (bblock b d) (j / 8)) (mask j) ≡ true)
    → a < b + k
    → a < d.size
    → used a d ≡ true
all_used b k a d z small before set l inside = elim (dec_lt a b) [
  | yes low ↦ before a low inside
  | no high ↦
      let at : b + (a - b) ≡ a = omega arith in
      subst (λ a. used a d ≡ true) at
        (used-at b (a - b) d z (omega arith)
          ∙ set (a - b) (omega arith) (omega arith) (omega arith))
]

balloc_from-Allocates :
    (r b : ℕ) (d : Disk)
    → b % bpb ≡ 0
    → d.size < b + r * bpb
    → ((a : ℕ) → a < b → a < d.size → used a d ≡ true)
    → IsMarked d
    → Allocates d (balloc_from r b d)
balloc_from-Allocates zero b d z enough before marked =
    unfold balloc_from in inr (refl, λ a l. before a (omega arith) l)
balloc_from-Allocates (suc r) b d z enough before marked = elim (Bool-cases (ltb b d.size)) [
  | inr out ↦ inr ((unfold balloc_from in rw out refl), λ a l. before a (ground arith) l)
  | inl inside ↦ elim (Option-cases (find_bit bpb 0 b (d.blocks (bblock b d)) d.size)) [
    | inr (k, e) ↦
        let (_, l, small, clear, set) = find_bit-some bpb 0 b k d.size (d.blocks (bblock b d)) e in
        let free : used (b + k) d ≡ false = used-at b k d z (omega arith) ∙ clear in
        let first : (a : ℕ) → a < b + k → used a d ≡ true = λ a la.
          all_used b k a d z (omega arith) before (λ j lo hi _. set j lo hi) la (omega arith) in
        inl (
          b + k,
          bzero (b + k) (mark b k d),
          balloc_from-taken r b (some k) d inside e ∙ (unfold taken in refl),
          rw (mark-flip b k d z (omega arith)) (set-Taken (b + k) d small free first marked),
        )
    | inl e ↦
        let full = find_bit-none bpb 0 b d.size (d.blocks (bblock b d)) e in
        let same : balloc_from (suc r) b d ≡ balloc_from r (b + bpb) d =
          balloc_from-taken r b none d inside e ∙ (unfold taken in refl) in
        subst (Allocates d) (sym same) (
          balloc_from-Allocates r (b + bpb) d (omega arith) (omega arith)
            (λ a la inner. all_used b bpb a d z (omega arith) before full la inner) marked)
  ]
]

-- On a disk whose free map marks its own blocks as used, `balloc` returns the first free block,
-- sets its bit and no other bit of the disk, clears its bytes, and leaves all blocks but that one
-- and the block of the map with its bit alone, and the super block; it panics exactly if no block of
-- the disk is free.
pub balloc_lem : (d : Disk) → IsMarked d → Allocates d (balloc d)
unfolding balloc
balloc_lem d marked =
    balloc_from-Allocates (d.size / bpb + 1) 0 d (omega arith) (omega arith)
      (λ a l _. absurd (omega arith)) marked
