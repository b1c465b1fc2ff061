-- ===== src/Inode/Frees.antt =====
-- Blocks that are freed one after the other.
use operating_systems_three.Prelude.{
  ℕ, ◌+◌, ◌≡◌, ◌≢◌, ◌≤◌, refl, subst, ◌∙◌, arith, true, false, List, [], ◌∷◌, ◌++◌, Outcome, ok,
  panic, ◌>>=◌, ℕ_discrete,
}
use operating_systems_three.File.Refs.{count, count_self, count_ne}
use operating_systems_three.Fs.{Disk, bblock, bfree}
use operating_systems_three.Fs.Free.{used, bfree_lem}

-- `bfree` of each block of a list.
unfoldable pub free_all : List ℕ → Disk → Outcome Disk
free_all [] d = ok d
free_all (b ∷ bs) d = bfree b d >>= free_all bs

-- The disk after these blocks were freed.
pub record Freed (bs : List ℕ) (d d' : Disk) : Type 0 where
  pub gone : (b : ℕ) → count b bs ≢ 0 → used b d' ≡ false
  pub others : (b : ℕ) → count b bs ≡ 0 → used b d' ≡ used b d
  pub blocks : (n : ℕ) → ((b : ℕ) → count b bs ≢ 0 → n ≢ bblock b d) → d'.blocks n ≡ d.blocks n
  pub start : d'.bmapstart ≡ d.bmapstart

-- The blocks can be freed: each is listed once, and in use.
pub record CanFree (bs : List ℕ) (d : Disk) : Type 0 where
  pub once : (b : ℕ) → count b bs ≤ 1
  pub busy : (b : ℕ) → count b bs ≢ 0 → used b d ≡ true

pub count-append : (b : ℕ) (xs ys : List ℕ) → count b (xs ++ ys) ≡ count b xs + count b ys
unfolding count
count-append b [] ys = omega arith
count-append b (x ∷ xs) ys = ground (arith, count-append b xs ys)

bblock_same : (b : ℕ) (d d' : Disk) → d'.bmapstart ≡ d.bmapstart → bblock b d' ≡ bblock b d
unfolding bblock
bblock_same b d d' e = omega arith

pub free_all_lem :
    (bs : List ℕ) (d : Disk) → CanFree bs d → (d' : Disk) × (free_all bs d ≡ ok d') × Freed bs d d'
unfolding free_all count
free_all_lem [] d h = (
  d,
  refl,
  record {
    gone = λ b n. absurd (n refl);
    others = λ b z. refl;
    blocks = λ n h. refl;
    start = refl;
  },
)
free_all_lem (x ∷ xs) d h =
    let self = count_self x xs in
    let top = h.once x in
    let (d₁, freed, flipped) = (bfree_lem x d).0 (h.busy x (omega arith)) in
    let apart : (b : ℕ) → count b xs ≢ 0 → b ≢ x = λ b n e. n (rw e (omega arith)) in
    let more : (b : ℕ) → count b xs ≤ count b (x ∷ xs) = λ b. ground arith in
    let (d₂, rest, after) = free_all_lem xs d₁ (record {
      once = λ b. let m = more b in let o = h.once b in omega arith;
      busy = λ b n. flipped.others b (apart b n) ∙ h.busy b (let m = more b in omega arith);
    }) in
    (
      d₂,
      rw freed rest,
      record {
        gone = λ b n. elim (ℕ_discrete (count b xs) 0) [
          | yes z ↦ after.others b z ∙ elim (ℕ_discrete b x) [
            | yes e ↦ rw e flipped.bit
            | no ne ↦ absurd (n (count_ne x b xs ne ∙ z))
          ]
          | no m ↦ after.gone b m
        ];
        others = λ b z.
            let m = more b in
            after.others b (omega arith)
            ∙ flipped.others b (λ e. absurd (
                let c = count_self x xs in
                let z' = subst (λ c. count c (x ∷ xs) ≡ 0) e z in omega arith));
        blocks = λ n clear.
            after.blocks n (λ b k.
              rw (bblock_same b d d₁ (flipped.layout.1)) (clear b (let m = more b in omega arith)))
            ∙ flipped.blocks n (clear x (omega arith));
        start = after.start ∙ flipped.layout.1;
      },
    )

-- What can be freed in two parts.
pub CanFree-split :
    (xs ys : List ℕ) (d : Disk)
    → CanFree (xs ++ ys) d
    → CanFree xs d × ((d' : Disk) → Freed xs d d' → CanFree ys d')
CanFree-split xs ys d h = (
  record {
    once = λ b. let o = h.once b in let a = count-append b xs ys in omega arith;
    busy = λ b n. h.busy b (let a = count-append b xs ys in omega arith);
  },
  λ d' f. record {
    once = λ b. let o = h.once b in let a = count-append b xs ys in omega arith;
    busy = λ b n.
        let o = h.once b in
        let a = count-append b xs ys in f.others b (omega arith) ∙ h.busy b (omega arith);
  },
)

pub Freed-append :
    (xs ys : List ℕ) (d d₁ d₂ : Disk) → Freed xs d d₁ → Freed ys d₁ d₂ → Freed (xs ++ ys) d d₂
Freed-append xs ys d d₁ d₂ f g = record {
  gone = λ b n. elim (ℕ_discrete (count b ys) 0) [
    | yes z ↦ g.others b z ∙ f.gone b (let a = count-append b xs ys in omega arith)
    | no m ↦ g.gone b m
  ];
  others =
      λ b z. let a = count-append b xs ys in g.others b (omega arith) ∙ f.others b (omega arith);
  blocks = λ n clear.
      g.blocks n (λ b k.
        rw (bblock_same b d d₁ f.start) (clear b (let a = count-append b xs ys in omega arith)))
      ∙ f.blocks n (λ b k. clear b (let a = count-append b xs ys in omega arith));
  start = g.start ∙ f.start;
}

bind_ok : {A : Type 0} (m : Outcome A) → m >>= (λ x. ok x) ≡ m
bind_ok (ok x) = refl
bind_ok panic = refl

pub free_all_one : (b : ℕ) (d : Disk) → free_all (b ∷ []) d ≡ bfree b d
unfolding free_all
free_all_one b d = bind_ok (bfree b d)

pub nil-Freed : (d : Disk) → Freed [] d d
unfolding count
nil-Freed d = record {
  gone = λ b n. absurd (n refl);
  others = λ b z. refl;
  blocks = λ n h. refl;
  start = refl;
}
