-- ===== src/Bytes/Copies.antt =====
-- `strncpy` and `safestrcpy`.
use operating_systems_three.Prelude.{
  ℕ, zero, suc, ◌+◌, ◌-◌, ◌≡◌, ◌≢◌, ◌≤◌, ◌<◌, ◌⊎◌, refl, sym, ap, ◌∙◌, arith, ◌==◌, true, false,
  update, update_self, update_ne, ℕ_discrete,
}
use operating_systems_three.Bytes.{Mem, pad, stosb, strncpy}
use operating_systems_three.Bytes.Sets.{Filled, stosb-Filled}
use operating_systems_three.Bytes.Lengths.{Text, Text-tail}

-- The `n` bytes at `s` are those of the string at `t` that stood there before, up to the first NUL,
-- and NUL behind it; no other byte changes.
pub record Copied (n s t : ℕ) (m m' : Mem) : Type 0 where
  pub text : (k : ℕ) → k < n → Text m t k → m' (s + k) ≡ m (t + k)
  pub zeros : (k j : ℕ) → k < n → j < k → m (t + j) ≡ 0 → m' (s + k) ≡ 0
  pub outside : (a : ℕ) → (a < s) ⊎ (s + n ≤ a) → m' a ≡ m a

pad-stosb : (n s : ℕ) (m : Mem) → pad n s m ≡ stosb s 0 n m
unfolding pad stosb
pad-stosb zero s m = refl
pad-stosb (suc n) s m = pad-stosb n (s + 1) (update m s 0)

pad-Filled : (n s : ℕ) (m : Mem) → Filled n s 0 m (pad n s m)
pad-Filled n s m = rw (pad-stosb n s m) (stosb-Filled n s 0 m)

Copied-end :
    (n s t : ℕ) (m m' : Mem)
    → m t ≡ 0
    → Filled n (s + 1) 0 (update m s (m t)) m'
    → Copied (suc n) s t m m'
Copied-end n s t m m' e rest = record {
  text = λ k l text. elim (ℕ_discrete k 0) [
    | yes first ↦
        rest.outside (s + k) (omega arith)
        ∙ ap (update m s (m t)) (omega arith)
        ∙ update_self m s (m t)
        ∙ ap m (omega arith)
    | no ne ↦ absurd (text 0 (omega arith) (ap m (omega arith) ∙ e))
  ];
  zeros = λ k j l h z. ap m' (omega arith) ∙ rest.inside (k - 1) (omega arith);
  outside = λ a l. rest.outside a (omega arith) ∙ update_ne m s a (m t) (omega arith);
}

Copied-more :
    (n s t : ℕ) (m m' : Mem)
    → (s + suc n ≤ t) ⊎ (t + suc n ≤ s)
    → m t ≢ 0
    → Copied n (s + 1) (t + 1) (update m s (m t)) m'
    → Copied (suc n) s t m m'
Copied-more n s t m m' apart go rest = record {
  text = text;
  zeros = zeros;
  outside = λ a l. rest.outside a (omega arith) ∙ update_ne m s a (m t) (omega arith);
}
  where
    same : (k : ℕ) → k < n → update m s (m t) (t + 1 + k) ≡ m (t + 1 + k)
    same k l = update_ne m s (t + 1 + k) (m t) (omega arith)

    text : (k : ℕ) → k < suc n → Text m t k → m' (s + k) ≡ m (t + k)
    text zero l h =
        rest.outside (s + 0) (omega arith)
        ∙ ap (update m s (m t)) (omega arith)
        ∙ update_self m s (m t)
        ∙ ap m (omega arith)
    text (suc k) l h =
        ap m' (omega arith)
        ∙ rest.text k (omega arith)
            (λ i b e. Text-tail m t k h i b (sym (same i (omega arith)) ∙ e))
        ∙ same k (omega arith)
        ∙ ap m (omega arith)

    zeros : (k j : ℕ) → k < suc n → j < k → m (t + j) ≡ 0 → m' (s + k) ≡ 0
    zeros zero j l h z = absurd (omega arith)
    zeros (suc k) zero l h z = absurd (go (ap m (omega arith) ∙ z))
    zeros (suc k) (suc j) l h z =
        ap m' (omega arith)
        ∙ rest.zeros k j (omega arith) (omega arith) (same j (omega arith) ∙ ap m (omega arith) ∙ z)

-- If the `n` bytes at `s` and at `t` do not overlap, `strncpy` copies the string at `t` up to its
-- NUL or to `n` bytes, fills the rest of the `n` bytes at `s` with NUL, and changes no other byte.
pub strncpy-Copied :
    (s t n : ℕ) (m : Mem) → (s + n ≤ t) ⊎ (t + n ≤ s) → Copied n s t m (strncpy s t n m)
unfolding strncpy
strncpy-Copied s t zero m apart = record {
  text = λ k l h. absurd (omega arith);
  zeros = λ k j l h z. absurd (omega arith);
  outside = λ a l. refl;
}
strncpy-Copied s t (suc n) m apart = elim (ℕ_discrete (m t) 0) [
  | yes e ↦
      let hit : (m t == 0) ≡ true = ground arith in
      rw hit (
        Copied-end n s t m (pad n (s + 1) (update m s (m t))) e
          (pad-Filled n (s + 1) (update m s (m t))))
  | no ne ↦
      let miss : (m t == 0) ≡ false = ground arith in
      rw miss (
        Copied-more n s t m (strncpy (s + 1) (t + 1) n (update m s (m t))) apart ne
          (strncpy-Copied (s + 1) (t + 1) n (update m s (m t)) (omega arith)))
]
