-- ===== src/Fs/Bits.antt =====
-- Bits of the free map.
use operating_systems_three.Prelude.{
  ℕ, zero, suc, ◌+◌, ◌-◌, ◌/◌, ◌%◌, ◌^◌, ◌≡◌, ◌≢◌, ◌<◌, refl, arith, true, false,
}
use operating_systems_three.Fs.{has, mask}

cases8 : (P : ℕ → Type 0) → P 0 → P 1 → P 2 → P 3 → P 4 → P 5 → P 6 → P 7 → (i : ℕ) → i < 8 → P i
cases8 P a b c d e f g h zero l = a
cases8 P a b c d e f g h (suc zero) l = b
cases8 P a b c d e f g h (suc (suc zero)) l = c
cases8 P a b c d e f g h (suc (suc (suc zero))) l = d
cases8 P a b c d e f g h (suc (suc (suc (suc zero)))) l = e
cases8 P a b c d e f g h (suc (suc (suc (suc (suc zero))))) l = f
cases8 P a b c d e f g h (suc (suc (suc (suc (suc (suc zero)))))) l = g
cases8 P a b c d e f g h (suc (suc (suc (suc (suc (suc (suc zero))))))) l = h
cases8 P a b c d e f g h (suc (suc (suc (suc (suc (suc (suc (suc n)))))))) l = absurd (omega arith)

-- A power of 2 whose exponent is known enough.
powers :
    (P : ℕ → ℕ → Type 0)
    → P 0 1
    → P 1 2
    → P 2 4
    → P 3 8
    → P 4 16
    → P 5 32
    → P 6 64
    → P 7 128
    → (i : ℕ) → i < 8
    → P i (2 ^ i)
powers P a b c d e f g h = cases8 (λ i. P i (2 ^ i)) a b c d e f g h

-- Setting one bit of a byte that is clear.
bit_set_self : (x i : ℕ) → i < 8 → x / (2 ^ i) % 2 ≡ 0 → (x + 2 ^ i) / (2 ^ i) % 2 ≡ 1
bit_set_self x =
    powers (λ i m. x / m % 2 ≡ 0 → (x + m) / m % 2 ≡ 1) (λ h. omega arith) (λ h. omega arith)
      (λ h. omega arith) (λ h. omega arith) (λ h. omega arith) (λ h. omega arith) (λ h. omega arith)
      (λ h. omega arith)

-- The other bits stay.
bit_set_ne :
    (x i j : ℕ)
    → i < 8
    → j < 8
    → i ≢ j
    → x / (2 ^ i) % 2 ≡ 0
    → (x + 2 ^ i) / (2 ^ j) % 2 ≡ x / (2 ^ j) % 2
bit_set_ne x i j li lj =
    powers
      (λ i m. (j : ℕ) → j < 8 → i ≢ j → x / m % 2 ≡ 0 → (x + m) / (2 ^ j) % 2 ≡ x / (2 ^ j) % 2)
      (powers (λ j k. 0 ≢ j → x / 1 % 2 ≡ 0 → (x + 1) / k % 2 ≡ x / k % 2)
        (λ ne _. absurd (ne refl)) (λ _ h. omega arith) (λ _ h. omega arith) (λ _ h. omega arith)
        (λ _ h. omega arith) (λ _ h. omega arith) (λ _ h. omega arith) (λ _ h. omega arith))
      (powers (λ j k. 1 ≢ j → x / 2 % 2 ≡ 0 → (x + 2) / k % 2 ≡ x / k % 2) (λ _ h. omega arith)
        (λ ne _. absurd (ne refl)) (λ _ h. omega arith) (λ _ h. omega arith) (λ _ h. omega arith)
        (λ _ h. omega arith) (λ _ h. omega arith) (λ _ h. omega arith))
      (powers (λ j k. 2 ≢ j → x / 4 % 2 ≡ 0 → (x + 4) / k % 2 ≡ x / k % 2) (λ _ h. omega arith)
        (λ _ h. omega arith) (λ ne _. absurd (ne refl)) (λ _ h. omega arith) (λ _ h. omega arith)
        (λ _ h. omega arith) (λ _ h. omega arith) (λ _ h. omega arith))
      (powers (λ j k. 3 ≢ j → x / 8 % 2 ≡ 0 → (x + 8) / k % 2 ≡ x / k % 2) (λ _ h. omega arith)
        (λ _ h. omega arith) (λ _ h. omega arith) (λ ne _. absurd (ne refl)) (λ _ h. omega arith)
        (λ _ h. omega arith) (λ _ h. omega arith) (λ _ h. omega arith))
      (powers (λ j k. 4 ≢ j → x / 16 % 2 ≡ 0 → (x + 16) / k % 2 ≡ x / k % 2) (λ _ h. omega arith)
        (λ _ h. omega arith) (λ _ h. omega arith) (λ _ h. omega arith) (λ ne _. absurd (ne refl))
        (λ _ h. omega arith) (λ _ h. omega arith) (λ _ h. omega arith))
      (powers (λ j k. 5 ≢ j → x / 32 % 2 ≡ 0 → (x + 32) / k % 2 ≡ x / k % 2) (λ _ h. omega arith)
        (λ _ h. omega arith) (λ _ h. omega arith) (λ _ h. omega arith) (λ _ h. omega arith)
        (λ ne _. absurd (ne refl)) (λ _ h. omega arith) (λ _ h. omega arith))
      (powers (λ j k. 6 ≢ j → x / 64 % 2 ≡ 0 → (x + 64) / k % 2 ≡ x / k % 2) (λ _ h. omega arith)
        (λ _ h. omega arith) (λ _ h. omega arith) (λ _ h. omega arith) (λ _ h. omega arith)
        (λ _ h. omega arith) (λ ne _. absurd (ne refl)) (λ _ h. omega arith))
      (powers (λ j k. 7 ≢ j → x / 128 % 2 ≡ 0 → (x + 128) / k % 2 ≡ x / k % 2) (λ _ h. omega arith)
        (λ _ h. omega arith) (λ _ h. omega arith) (λ _ h. omega arith) (λ _ h. omega arith)
        (λ _ h. omega arith) (λ _ h. omega arith) (λ ne _. absurd (ne refl)))
      i li j lj

-- Clearing one that is set.
bit_clear_self : (x i : ℕ) → i < 8 → x / (2 ^ i) % 2 ≡ 1 → (x - 2 ^ i) / (2 ^ i) % 2 ≡ 0
bit_clear_self x =
    powers (λ i m. x / m % 2 ≡ 1 → (x - m) / m % 2 ≡ 0) (λ h. omega arith) (λ h. omega arith)
      (λ h. omega arith) (λ h. omega arith) (λ h. omega arith) (λ h. omega arith) (λ h. omega arith)
      (λ h. omega arith)

-- The other bits stay.
bit_clear_ne :
    (x i j : ℕ)
    → i < 8
    → j < 8
    → i ≢ j
    → x / (2 ^ i) % 2 ≡ 1
    → (x - 2 ^ i) / (2 ^ j) % 2 ≡ x / (2 ^ j) % 2
bit_clear_ne x i j li lj =
    powers
      (λ i m. (j : ℕ) → j < 8 → i ≢ j → x / m % 2 ≡ 1 → (x - m) / (2 ^ j) % 2 ≡ x / (2 ^ j) % 2)
      (powers (λ j k. 0 ≢ j → x / 1 % 2 ≡ 1 → (x - 1) / k % 2 ≡ x / k % 2)
        (λ ne _. absurd (ne refl)) (λ _ h. omega arith) (λ _ h. omega arith) (λ _ h. omega arith)
        (λ _ h. omega arith) (λ _ h. omega arith) (λ _ h. omega arith) (λ _ h. omega arith))
      (powers (λ j k. 1 ≢ j → x / 2 % 2 ≡ 1 → (x - 2) / k % 2 ≡ x / k % 2) (λ _ h. omega arith)
        (λ ne _. absurd (ne refl)) (λ _ h. omega arith) (λ _ h. omega arith) (λ _ h. omega arith)
        (λ _ h. omega arith) (λ _ h. omega arith) (λ _ h. omega arith))
      (powers (λ j k. 2 ≢ j → x / 4 % 2 ≡ 1 → (x - 4) / k % 2 ≡ x / k % 2) (λ _ h. omega arith)
        (λ _ h. omega arith) (λ ne _. absurd (ne refl)) (λ _ h. omega arith) (λ _ h. omega arith)
        (λ _ h. omega arith) (λ _ h. omega arith) (λ _ h. omega arith))
      (powers (λ j k. 3 ≢ j → x / 8 % 2 ≡ 1 → (x - 8) / k % 2 ≡ x / k % 2) (λ _ h. omega arith)
        (λ _ h. omega arith) (λ _ h. omega arith) (λ ne _. absurd (ne refl)) (λ _ h. omega arith)
        (λ _ h. omega arith) (λ _ h. omega arith) (λ _ h. omega arith))
      (powers (λ j k. 4 ≢ j → x / 16 % 2 ≡ 1 → (x - 16) / k % 2 ≡ x / k % 2) (λ _ h. omega arith)
        (λ _ h. omega arith) (λ _ h. omega arith) (λ _ h. omega arith) (λ ne _. absurd (ne refl))
        (λ _ h. omega arith) (λ _ h. omega arith) (λ _ h. omega arith))
      (powers (λ j k. 5 ≢ j → x / 32 % 2 ≡ 1 → (x - 32) / k % 2 ≡ x / k % 2) (λ _ h. omega arith)
        (λ _ h. omega arith) (λ _ h. omega arith) (λ _ h. omega arith) (λ _ h. omega arith)
        (λ ne _. absurd (ne refl)) (λ _ h. omega arith) (λ _ h. omega arith))
      (powers (λ j k. 6 ≢ j → x / 64 % 2 ≡ 1 → (x - 64) / k % 2 ≡ x / k % 2) (λ _ h. omega arith)
        (λ _ h. omega arith) (λ _ h. omega arith) (λ _ h. omega arith) (λ _ h. omega arith)
        (λ _ h. omega arith) (λ ne _. absurd (ne refl)) (λ _ h. omega arith))
      (powers (λ j k. 7 ≢ j → x / 128 % 2 ≡ 1 → (x - 128) / k % 2 ≡ x / k % 2) (λ _ h. omega arith)
        (λ _ h. omega arith) (λ _ h. omega arith) (λ _ h. omega arith) (λ _ h. omega arith)
        (λ _ h. omega arith) (λ _ h. omega arith) (λ ne _. absurd (ne refl)))
      i li j lj

below8 : (a : ℕ) → a % 8 < 8
below8 a = omega arith

-- The same for masks.
module _ (x a : ℕ) where
  clear_bit : has x (mask a) ≡ false → x / (2 ^ (a % 8)) % 2 ≡ 0
  unfolding has mask
  clear_bit h = ground arith

  set_bit : has x (mask a) ≡ true → x / (2 ^ (a % 8)) % 2 ≡ 1
  unfolding has mask
  set_bit h = ground arith

  pub has-set_self : has x (mask a) ≡ false → has (x + mask a) (mask a) ≡ true
  unfolding has mask
  has-set_self h = let e = bit_set_self x (a % 8) (below8 a) (clear_bit h) in rw e refl

  pub has-set_ne :
      (c : ℕ) → a % 8 ≢ c % 8 → has x (mask a) ≡ false → has (x + mask a) (mask c) ≡ has x (mask c)
  unfolding has mask
  has-set_ne c ne h =
      let e = bit_set_ne x (a % 8) (c % 8) (below8 a) (below8 c) ne (clear_bit h) in rw e refl

  pub has-clear_self : has x (mask a) ≡ true → has (x - mask a) (mask a) ≡ false
  unfolding has mask
  has-clear_self h = let e = bit_clear_self x (a % 8) (below8 a) (set_bit h) in rw e refl

  pub has-clear_ne :
      (c : ℕ) → a % 8 ≢ c % 8 → has x (mask a) ≡ true → has (x - mask a) (mask c) ≡ has x (mask c)
  unfolding has mask
  has-clear_ne c ne h =
      let e = bit_clear_ne x (a % 8) (c % 8) (below8 a) (below8 c) ne (set_bit h) in rw e refl
