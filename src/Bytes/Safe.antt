-- ===== src/Bytes/Safe.antt =====
-- `safestrcpy`, which ends the copy with a NUL in every case.
use operating_systems_three.Prelude.{
  ℕ, zero, suc, ◌+◌, ◌≡◌, ◌≢◌, ◌≤◌, ◌<◌, ◌⊎◌, refl, sym, ap, ◌∙◌, arith, inl, inr, ◌==◌, true,
  false, update, update_self, update_ne, ℕ_discrete,
}
use operating_systems_three.Bytes.{Mem, copy_safe, safestrcpy}
use operating_systems_three.Bytes.Lengths.{Text, Text-cons}

-- The first `len` bytes of the string at `t`, which are all of it or `n`, stand at `s`, a NUL behind
-- them, and no byte behind the first `n + 1` changes.
pub record Ended (n s t len : ℕ) (m m' : Mem) : Type 0 where
  pub short : len ≤ n
  pub text : Text m t len
  pub whole : (len ≡ n) ⊎ (m (t + len) ≡ 0)
  pub copy : (k : ℕ) → k < len → m' (s + k) ≡ m (t + k)
  pub end : m' (s + len) ≡ 0
  pub outside : (a : ℕ) → (a < s) ⊎ (s + n < a) → m' a ≡ m a

Ended-more :
    (n s t len : ℕ) (m m' : Mem)
    → (s + suc (suc n) ≤ t) ⊎ (t + suc (suc n) ≤ s)
    → m t ≢ 0
    → Ended n (s + 1) (t + 1) len (update m s (m t)) m'
    → Ended (suc n) s t (suc len) m m'
Ended-more n s t len m m' apart go rest = record {
  short = omega (arith, rest.short);
  text = Text-cons m t len go (λ k l e. rest.text k l (same k (omega (arith, rest.short)) ∙ e));
  whole = elim rest.whole [
    | inl full ↦ inl (ap suc full)
    | inr z ↦ inr (ap m (omega arith) ∙ sym (same len rest.short) ∙ z)
  ];
  copy = copy;
  end = ap m' (omega arith) ∙ rest.end;
  outside = λ a l. rest.outside a (omega arith) ∙ update_ne m s a (m t) (omega arith);
}
  where
    same : (k : ℕ) → k ≤ n → update m s (m t) (t + 1 + k) ≡ m (t + 1 + k)
    same k l = update_ne m s (t + 1 + k) (m t) (omega arith)

    copy : (k : ℕ) → k < suc len → m' (s + k) ≡ m (t + k)
    copy zero l =
        rest.outside (s + 0) (omega arith)
        ∙ ap (update m s (m t)) (omega arith)
        ∙ update_self m s (m t)
        ∙ ap m (omega arith)
    copy (suc k) l =
        ap m' (omega arith)
        ∙ rest.copy k (omega arith)
        ∙ same k (omega (arith, rest.short))
        ∙ ap m (omega arith)

copy_safe-Ended :
    (n s t : ℕ) (m : Mem)
    → (s + suc n ≤ t) ⊎ (t + suc n ≤ s)
    → (len : ℕ) × Ended n s t len m (copy_safe n s t m)
unfolding copy_safe
copy_safe-Ended zero s t m apart = (
  0,
  record {
    short = omega arith;
    text = λ k l. absurd (omega arith);
    whole = inl refl;
    copy = λ k l. absurd (omega arith);
    end = ap (update m s 0) (omega arith) ∙ update_self m s 0;
    outside = λ a l. update_ne m s a 0 (omega arith);
  },
)
copy_safe-Ended (suc n) s t m apart = elim (ℕ_discrete (m t) 0) [
  | yes e ↦
      let hit : (m t == 0) ≡ true = ground arith in
      let m1 : Mem = update m s (m t) in
      rw hit (
        0,
        record {
          short = omega arith;
          text = λ k l. absurd (omega arith);
          whole = inr (ap m (omega arith) ∙ e);
          copy = λ k l. absurd (omega arith);
          end =
              update_ne m1 (s + 1) (s + 0) 0 (omega arith)
              ∙ ap m1 (omega arith)
              ∙ update_self m s (m t)
              ∙ e;
          outside =
              λ a l. update_ne m1 (s + 1) a 0 (omega arith) ∙ update_ne m s a (m t) (omega arith);
        },
      )
  | no ne ↦
      let miss : (m t == 0) ≡ false = ground arith in
      let m1 : Mem = update m s (m t) in
      let (len, rest) = copy_safe-Ended n (s + 1) (t + 1) m1 (omega arith) in
      rw miss (suc len, Ended-more n s t len m (copy_safe n (s + 1) (t + 1) m1) apart ne rest)
]

-- If the `n + 1` bytes at `s` and at `t` do not overlap, `safestrcpy` with the size `n + 1` copies
-- the string at `t` up to its NUL or to `n` bytes, ends the copy with a NUL, and changes no byte
-- outside the `n + 1` at `s`.
pub safestrcpy-Ended :
    (s t n : ℕ) (m : Mem)
    → (s + suc n ≤ t) ⊎ (t + suc n ≤ s)
    → (len : ℕ) × Ended n s t len m (safestrcpy s t (suc n) m)
unfolding safestrcpy
safestrcpy-Ended s t n m apart = copy_safe-Ended n s t m apart
