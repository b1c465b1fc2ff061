-- ===== src/Bytes/Moves.antt =====
-- `memmove` between overlapping objects.
use operating_systems_three.Prelude.{
  ℕ, zero, suc, ◌+◌, ◌-◌, ◌≡◌, ◌≤◌, ◌<◌, ◌⊎◌, refl, sym, ap, ◌∙◌, arith, inl, inr, ltb, Bool-cases,
  ◌&&◌, update, update_self, update_ne, ℕ_discrete,
}
use operating_systems_three.Bytes.{Mem, move_down, move_up, memmove}

-- The bytes at `s` before are those at `d` after, and no other byte changes.
pub record Moved (n s d : ℕ) (m m' : Mem) : Type 0 where
  pub inside : (k : ℕ) → k < n → m' (d + k) ≡ m (s + k)
  pub outside : (a : ℕ) → (a < d) ⊎ (d + n ≤ a) → m' a ≡ m a

-- One byte more in front, ...
Moved-front :
    (n s d : ℕ) (m m' : Mem)
    → (d ≤ s) ⊎ (s + suc n ≤ d)
    → Moved n (s + 1) (d + 1) (update m d (m s)) m'
    → Moved (suc n) s d m m'
Moved-front n s d m m' h rest = record {
  inside = there;
  outside = λ a l. rest.outside a (omega arith) ∙ update_ne m d a (m s) (omega arith);
}
  where
    there : (k : ℕ) → k < suc n → m' (d + k) ≡ m (s + k)
    there zero l =
        rest.outside (d + 0) (omega arith)
        ∙ ap (update m d (m s)) (omega arith)
        ∙ update_self m d (m s)
        ∙ ap m (omega arith)
    there (suc k) l =
        ap m' (omega arith)
        ∙ rest.inside k (omega arith)
        ∙ update_ne m d (s + 1 + k) (m s) (omega arith)
        ∙ ap m (omega arith)

-- ... or behind.
Moved-behind :
    (n s d : ℕ) (m m' : Mem)
    → s ≤ d
    → Moved n s d (update m (d + n) (m (s + n))) m'
    → Moved (suc n) s d m m'
Moved-behind n s d m m' h rest = record {
  inside = λ k l. there k l (ℕ_discrete k n);
  outside = λ a l. rest.outside a (omega arith) ∙ update_ne m (d + n) a (m (s + n)) (omega arith);
}
  where
    there : (k : ℕ) → k < suc n → Dec (k ≡ n) → m' (d + k) ≡ m (s + k)
    there k l (yes e) =
        rest.outside (d + k) (omega arith)
        ∙ ap (update m (d + n) (m (s + n))) (ap (λ i. d + i) e)
        ∙ update_self m (d + n) (m (s + n))
        ∙ ap (λ i. m (s + i)) (sym e)
    there k l (no ne) =
        rest.inside k (omega arith) ∙ update_ne m (d + n) (s + k) (m (s + n)) (omega arith)

move_up-Moved : (n s d : ℕ) (m : Mem) → (d ≤ s) ⊎ (s + n ≤ d) → Moved n s d m (move_up n s d m)
unfolding move_up
move_up-Moved zero s d m h = record { inside = λ k l. absurd (omega arith); outside = λ a l. refl }
move_up-Moved (suc n) s d m h =
    Moved-front n s d m (move_up n (s + 1) (d + 1) (update m d (m s))) h
      (move_up-Moved n (s + 1) (d + 1) (update m d (m s)) (omega arith))

move_down-Moved : (n s d : ℕ) (m : Mem) → s ≤ d → Moved n s d m (move_down n (s + n) (d + n) m)
unfolding move_down
move_down-Moved zero s d m h = record {
  inside = λ k l. absurd (omega arith);
  outside = λ a l. refl;
}
move_down-Moved (suc n) s d m h =
    let back : (a : ℕ) → a + suc n - 1 ≡ a + n = λ a. omega arith in
    rw (back s, back d)
      (Moved-behind n s d m (move_down n (s + n) (d + n) (update m (d + n) (m (s + n)))) h
        (move_down-Moved n s d (update m (d + n) (m (s + n))) h))

-- Whether the two objects overlap or not, `memmove` leaves at `dst` the `n` bytes that were at
-- `src`, and changes no other byte.
pub memmove-Moved : (dst src n : ℕ) (m : Mem) → Moved n src dst m (memmove dst src n m)
unfolding memmove
memmove-Moved dst src n m = elim (Bool-cases (ltb src dst && ltb dst (src + n))) [
  | inl e ↦ rw e (move_down-Moved n src dst m (ground arith))
  | inr e ↦ rw e (move_up-Moved n src dst m (ground arith))
]
