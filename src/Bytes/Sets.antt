-- ===== src/Bytes/Sets.antt =====
-- `memset` by words and by bytes, and `memcmp`.
use operating_systems_three.Prelude.{
  ℕ, zero, suc, ◌+◌, ◌-◌, ◌*◌, ◌/◌, ◌%◌, ◌≡◌, ◌≢◌, ◌≤◌, ◌<◌, ◌⊎◌, ◌↔◌, refl, sym, ap, subst, ap₂,
  ◌∙◌, arith, inl, inr, ◌==◌, true, false, Bool-cases, ◌&&◌, update, update_self, update_ne,
  ℕ_discrete, dec_lt,
}
use operating_systems_three.Bytes.{
  Mem, stosb, store_word, stosl, word_of, memset, pos, diff, memcmp,
}

-- The bytes from `d` on are `b`, and no other byte changes.
pub record Filled (n d b : ℕ) (m m' : Mem) : Type 0 where
  pub inside : (k : ℕ) → k < n → m' (d + k) ≡ b
  pub outside : (a : ℕ) → (a < d) ⊎ (d + n ≤ a) → m' a ≡ m a

pub stosb-Filled : (n d c : ℕ) (m : Mem) → Filled n d (c % 256) m (stosb d c n m)
unfolding stosb
stosb-Filled zero d c m = record { inside = λ k l. absurd (omega arith); outside = λ a l. refl }
stosb-Filled (suc n) d c m =
    let rest = stosb-Filled n (d + 1) c (update m d (c % 256)) in
    record {
      inside = λ k l. elim (ℕ_discrete k 0) [
        | yes e ↦
            rest.outside (d + k) (omega arith)
            ∙ ap (update m d (c % 256)) (omega arith)
            ∙ update_self m d (c % 256)
        | no ne ↦
            ap (stosb (d + 1) c n (update m d (c % 256))) (omega arith)
            ∙ rest.inside (k - 1) (omega arith)
      ];
      outside = λ a l. rest.outside a (omega arith) ∙ update_ne m d a (c % 256) (omega arith);
    }

-- A word of four equal bytes.
store_word-Filled : (d c : ℕ) (m : Mem) → c < 256 → Filled 4 d c m (store_word d (word_of c) m)
unfolding store_word word_of update
store_word-Filled d c m h = record { inside = λ k l. ground arith; outside = λ a l. ground arith }

Filled-trans :
    (n l d b : ℕ) (m m' m'' : Mem)
    → Filled n d b m m'
    → Filled l (d + n) b m' m''
    → Filled (n + l) d b m m''
Filled-trans n l d b m m' m'' f g = record {
  inside = λ k h. elim (dec_lt k n) [
    | yes e ↦ g.outside (d + k) (omega arith) ∙ f.inside k e
    | no ne ↦ ap m'' (omega arith) ∙ g.inside (k - n) (omega arith)
  ];
  outside = λ a h. g.outside a (omega arith) ∙ f.outside a (omega arith);
}

stosl-Filled : (n d c : ℕ) (m : Mem) → c < 256 → Filled (4 * n) d c m (stosl d (word_of c) n m)
unfolding stosl
stosl-Filled zero d c m h = record { inside = λ k l. absurd (omega arith); outside = λ a l. refl }
stosl-Filled (suc n) d c m h =
    let m1 = store_word d (word_of c) m in
    subst (λ k. Filled k d c m (stosl (d + 4) (word_of c) n m1)) (omega arith)
      (Filled-trans 4 (4 * n) d c m m1 (stosl (d + 4) (word_of c) n m1) (store_word-Filled d c m h)
        (stosl-Filled n (d + 4) c m1 h))

-- By words or by bytes, `memset` sets the `n` bytes from `dst` on to the low byte of `c`, and
-- changes no other byte.
pub memset-Filled : (dst c n : ℕ) (m : Mem) → Filled n dst (c % 256) m (memset dst c n m)
unfolding memset
memset-Filled dst c n m = elim (Bool-cases (dst % 4 == 0 && n % 4 == 0)) [
  | inl e ↦
      let whole : 4 * (n / 4) ≡ n = ground arith in
      rw e (
        subst (λ k. Filled k dst (c % 256) m (stosl dst (word_of (c % 256)) (n / 4) m)) whole
          (stosl-Filled (n / 4) dst (c % 256) m (omega arith)))
  | inr e ↦ rw e (stosb-Filled n dst c m)
]

pub diff-zero : (a b : ℕ) → a ≢ b → diff a b ≢ pos 0
unfolding diff
diff-zero a b ne e = ground arith

-- The first `n` bytes at the two addresses are equal.
abbrev pub Same : ℕ → ℕ → ℕ → Mem → Type 0
Same n s1 s2 m = (k : ℕ) → k < n → m (s1 + k) ≡ m (s2 + k)

Same-cons :
    (n s1 s2 : ℕ) (m : Mem) → m s1 ≡ m s2 → Same n (s1 + 1) (s2 + 1) m → Same (suc n) s1 s2 m
Same-cons n s1 s2 m e h zero l =
    let there : (s : ℕ) → s + 0 ≡ s = λ s. omega arith in rw (there s1, there s2) e
Same-cons n s1 s2 m e h (suc k) l =
    let there : (s : ℕ) → s + suc k ≡ s + 1 + k = λ s. omega arith in
    rw (there s1, there s2) (h k (omega arith))

Same-head : (n s1 s2 : ℕ) (m : Mem) → Same (suc n) s1 s2 m → m s1 ≡ m s2
Same-head n s1 s2 m h = ap m (omega arith) ∙ h 0 (omega arith) ∙ ap m (omega arith)

Same-tail : (n s1 s2 : ℕ) (m : Mem) → Same (suc n) s1 s2 m → Same n (s1 + 1) (s2 + 1) m
Same-tail n s1 s2 m h k l = ap m (omega arith) ∙ h (suc k) (omega arith) ∙ ap m (omega arith)

memcmp-zero : (s1 s2 n : ℕ) (m : Mem) → (memcmp s1 s2 n m ≡ pos 0) ↔ Same n s1 s2 m
unfolding memcmp
memcmp-zero s1 s2 zero m = (λ _ k l. absurd (omega arith), λ _. refl)
memcmp-zero s1 s2 (suc n) m =
    let (same, zero_if) = memcmp-zero (s1 + 1) (s2 + 1) n m in
    elim (ℕ_discrete (m s1) (m s2)) [
      | yes e ↦
          let hit : (m s1 == m s2) ≡ true = ground arith in
          rw hit (λ z. Same-cons n s1 s2 m e (same z), λ h. zero_if (Same-tail n s1 s2 m h))
      | no ne ↦
          let miss : (m s1 == m s2) ≡ false = ground arith in
          rw miss
            (λ z. absurd (diff-zero (m s1) (m s2) ne z), λ h. absurd (ne (Same-head n s1 s2 m h)))
    ]

memcmp-diff :
    (k s1 s2 n : ℕ) (m : Mem)
    → k < n
    → m (s1 + k) ≢ m (s2 + k)
    → Same k s1 s2 m
    → memcmp s1 s2 n m ≡ diff (m (s1 + k)) (m (s2 + k))
unfolding memcmp
memcmp-diff k s1 s2 zero m l ne h = absurd (omega arith)
memcmp-diff zero s1 s2 (suc n) m l ne h =
    let there : (s : ℕ) → m (s + 0) ≡ m s = λ s. ap m (omega arith) in
    let miss : (m s1 == m s2) ≡ false = ground (arith, there s1, there s2) in
    rw (miss, there s1, there s2) refl
memcmp-diff (suc k) s1 s2 (suc n) m l ne h =
    let there : (s : ℕ) → m (s + 1 + k) ≡ m (s + suc k) = λ s. ap m (omega arith) in
    let same = Same-head k s1 s2 m h in
    let hit : (m s1 == m s2) ≡ true = ground arith in
    rw hit (
      memcmp-diff k (s1 + 1) (s2 + 1) n m (omega arith) (λ e. ne (sym (there s1) ∙ e ∙ there s2))
        (Same-tail k s1 s2 m h)
      ∙ ap₂ diff (there s1) (there s2))

-- `memcmp` returns 0 exactly if the `n` bytes at the two addresses are equal; if the first that
-- differ are those with index `k`, it returns their difference, which is not 0.
pub memcmp_lem :
    (s1 s2 n : ℕ) (m : Mem)
    → ((memcmp s1 s2 n m ≡ pos 0) ↔ Same n s1 s2 m)
      × ((k : ℕ)
          → k < n
          → m (s1 + k) ≢ m (s2 + k)
          → Same k s1 s2 m
          → (memcmp s1 s2 n m ≡ diff (m (s1 + k)) (m (s2 + k)))
            × (diff (m (s1 + k)) (m (s2 + k)) ≢ pos 0))
memcmp_lem s1 s2 n m = (
  memcmp-zero s1 s2 n m,
  λ k l ne h. (memcmp-diff k s1 s2 n m l ne h, diff-zero (m (s1 + k)) (m (s2 + k)) ne),
)
