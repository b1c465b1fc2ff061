-- ===== src/Xcheck/Bits.antt =====
-- How `check_bitmap` compares the bitmap to the marks.
use operating_systems_three.Prelude.{
  ℕ, zero, suc, ◌+◌, ◌*◌, ◌/◌, ◌%◌, ◌^◌, ◌≡◌, ◌≢◌, ◌≤◌, ◌<◌, ◌⊎◌, refl, ap, subst, ◌∙◌, arith, inl,
  inr, ◌==◌, not, ◌&&◌, Bool, true, false, Bool-cases, ℕ_discrete, dec_lt, ◌-◌,
}
use operating_systems_three.Fs.{has}
use operating_systems_three.Xcheck.{Error, used_but_free, free_but_used, pass, fail, Image}
use operating_systems_three.Xcheck.Blocks.{check_byte, check_bytes}

-- A bit of the bitmap agrees with the number of marks.
pub record Agrees (bit : Bool) (marks : ℕ) : Type 0 where
  pub unset : bit ≡ false → marks ≢ 1
  pub set : bit ≡ true → marks ≢ 0

check_byte_lem :
    (r j i val : ℕ) (u : ℕ → ℕ)
    → ((check_byte r j i val u ≡ pass tt)
        × ((k : ℕ) → j ≤ k → k < j + r → Agrees (has val (2 ^ k)) (u (i + k))))
      ⊎ ((e : Error) × (k : ℕ) × (check_byte r j i val u ≡ fail e)
          × (j ≤ k)
          × (k < j + r)
          × (¬ Agrees (has val (2 ^ k)) (u (i + k))))
unfolding check_byte
check_byte_lem zero j i val u = inl (refl, λ k lo hi. absurd (omega arith))
check_byte_lem (suc r) j i val u = elim (Bool-cases (not (has val (2 ^ j)) && u (i + j) == 1)) [
  | inl bad ↦ inr (
    used_but_free,
    j,
    rw bad refl,
    omega arith,
    omega arith,
    λ a. a.unset (ground arith) (ground arith),
  )
  | inr fine ↦ elim (Bool-cases (has val (2 ^ j) && u (i + j) == 0)) [
    | inl bad ↦ inr (
      free_but_used,
      j,
      rw (fine, bad) refl,
      omega arith,
      omega arith,
      λ a. a.set (ground arith) (ground arith),
    )
    | inr fine_too ↦ elim (check_byte_lem r (j + 1) i val u) [
      | inl (run, rest) ↦ inl (
        rw (fine, fine_too) run,
        λ k lo hi. elim (ℕ_discrete j k) [
          | yes e ↦
              subst (λ k. Agrees (has val (2 ^ k)) (u (i + k))) e
                (record { unset = λ b o. ground arith; set = λ b o. ground arith })
          | no ne ↦ rest k (omega arith) (omega arith)
        ],
      )
      | inr (e, k, run, lo, hi, bad) ↦
          inr (e, k, rw (fine, fine_too) run, omega arith, omega arith, bad)
    ]
  ]
]

-- The bit of a block in the bitmap whose first byte is at `p`.
unfoldable pub bit_at : ℕ → Image → ℕ → Bool
unfolding has
bit_at p m x = has (m (p + x / 8)) (2 ^ (x % 8))

pub check_bytes_lem :
    (r i p : ℕ) (m : Image) (u : ℕ → ℕ)
    → ((check_bytes r i p m u ≡ pass tt)
        × ((k : ℕ) → k < 8 * r → Agrees (bit_at p m k) (u (i + k))))
      ⊎ ((e : Error) × (k : ℕ) × (check_bytes r i p m u ≡ fail e)
          × (k < 8 * r)
          × (¬ Agrees (bit_at p m k) (u (i + k))))
unfolding check_bytes bit_at
check_bytes_lem zero i p m u = inl (refl, λ k l. absurd (omega arith))
check_bytes_lem (suc r) i p m u = elim (check_byte_lem 8 0 i (m p) u) [
  | inr (e, k, run, lo, hi, bad) ↦
      let byte : p + k / 8 ≡ p = omega arith in
      let bit : k % 8 ≡ k = omega arith in inr (e, k, rw run refl, omega arith, rw (byte, bit) bad)
  | inl (run, first) ↦ elim (check_bytes_lem r (i + 8) (p + 1) m u) [
    | inl (rest, good) ↦ inl (
      rw run rest,
      λ k l. elim (dec_lt k 8) [
        | yes low ↦
            let byte : p + k / 8 ≡ p = omega arith in
            let bit : k % 8 ≡ k = omega arith in
            rw (byte, bit) (first k (omega arith) (omega arith))
        | no high ↦
            let at : i + 8 + (k - 8) ≡ i + k = omega arith in
            let byte : p + 1 + (k - 8) / 8 ≡ p + k / 8 = omega arith in
            let bit : (k - 8) % 8 ≡ k % 8 = omega arith in
            subst (λ b. Agrees b (u (i + k)))
              (ap (λ a. has (m a) (2 ^ ((k - 8) % 8))) byte
                ∙ ap (λ j. has (m (p + k / 8)) (2 ^ j)) bit)
              (subst (λ a. Agrees (bit_at (p + 1) m (k - 8)) (u a)) at (good (k - 8) (omega arith)))
      ],
    )
    | inr (e, k, rest, l, bad) ↦
        let at : i + 8 + k ≡ i + (k + 8) = omega arith in
        let byte : p + 1 + k / 8 ≡ p + (k + 8) / 8 = omega arith in
        let bit : k % 8 ≡ (k + 8) % 8 = omega arith in
        inr (
          e,
          k + 8,
          rw run rest,
          omega arith,
          subst (λ b. ¬ Agrees b (u (i + (k + 8))))
              (ap (λ a. has (m a) (2 ^ (k % 8))) byte
                ∙ ap (λ j. has (m (p + (k + 8) / 8)) (2 ^ j)) bit)
              (subst (λ a. ¬ Agrees (bit_at (p + 1) m k) (u a)) at bad),
        )
  ]
]
