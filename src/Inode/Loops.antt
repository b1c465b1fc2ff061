-- ===== src/Inode/Loops.antt =====
-- The loops of `itrunc` as `bfree` of each block of a list.
use operating_systems_three.Prelude.{
  ℕ, zero, suc, ◌+◌, ◌*◌, ◌≡◌, ◌≤◌, ◌<◌, refl, sym, ap, ◌∙◌, fun_ext, arith, inl, inr, ◌==◌,
  if◌then◌else◌, not, Bool-cases, List, [], ◌∷◌, update, update_self, update_ne, Outcome, ok, panic,
  ◌>>=◌, ℕ_discrete,
}
use operating_systems_three.Fs.{Disk, bfree}
use operating_systems_three.Syscall.{word}
use operating_systems_three.Inode.{free_direct, free_indirect}
use operating_systems_three.Inode.Frees.{free_all}

-- The numbers that are not 0 in an array.
unfoldable pub pointers : (rounds j : ℕ) → (ℕ → ℕ) → List ℕ
pointers zero j f = []
pointers (suc r) j f = let rest = pointers r (j + 1) f in if f j == 0 then rest else f j ∷ rest

bind_assoc :
    {A B C : Type 0} (m : Outcome A) (f : A → Outcome B) (g : B → Outcome C)
    → m >>= f >>= g ≡ m >>= (λ x. f x >>= g)
bind_assoc (ok x) f g = refl
bind_assoc panic f g = refl

-- The pointers of an array after the loop over the direct blocks.
unfoldable pub cleared : (rounds j : ℕ) → (ℕ → ℕ) → ℕ → ℕ
unfolding update
cleared zero j f = f
cleared (suc r) j f =
    if not (f j == 0) then cleared r (j + 1) (update f j 0) else cleared r (j + 1) f

pub cleared-front : (r j : ℕ) (f : ℕ → ℕ) (k : ℕ) → k < j → cleared r j f k ≡ f k
unfolding cleared
cleared-front zero j f k l = refl
cleared-front (suc r) j f k l = elim (Bool-cases (f j == 0)) [
  | inl e ↦ rw e (cleared-front r (j + 1) f k (omega arith))
  | inr e ↦
      rw e
        (cleared-front r (j + 1) (update f j 0) k (omega arith) ∙ update_ne f j k 0 (omega arith))
]

pub cleared-behind : (r j : ℕ) (f : ℕ → ℕ) (k : ℕ) → j + r ≤ k → cleared r j f k ≡ f k
unfolding cleared
cleared-behind zero j f k l = refl
cleared-behind (suc r) j f k l = elim (Bool-cases (f j == 0)) [
  | inl e ↦ rw e (cleared-behind r (j + 1) f k (omega arith))
  | inr e ↦
      rw e
        (cleared-behind r (j + 1) (update f j 0) k (omega arith) ∙ update_ne f j k 0 (omega arith))
]

pub cleared-zero : (r j : ℕ) (f : ℕ → ℕ) (k : ℕ) → j ≤ k → k < j + r → cleared r j f k ≡ 0
unfolding cleared
cleared-zero zero j f k l m = absurd (omega arith)
cleared-zero (suc r) j f k l m = elim (ℕ_discrete k j) [
  | yes e ↦ elim (Bool-cases (f j == 0)) [
    | inl z ↦ rw z (cleared-front r (j + 1) f k (omega arith) ∙ ap f e ∙ ground arith)
    | inr z ↦
        rw z (cleared-front r (j + 1) (update f j 0) k (omega arith) ∙ rw e (update_self f j 0))
  ]
  | no ne ↦ elim (Bool-cases (f j == 0)) [
    | inl z ↦ rw z (cleared-zero r (j + 1) f k (omega arith) (omega arith))
    | inr z ↦ rw z (cleared-zero r (j + 1) (update f j 0) k (omega arith) (omega arith))
  ]
]

pointers-update : (r k j v : ℕ) (f : ℕ → ℕ) → j < k → pointers r k (update f j v) ≡ pointers r k f
unfolding pointers
pointers-update zero k j v f l = refl
pointers-update (suc r) k j v f l =
    rw (update_ne f j k v (omega arith), pointers-update r (k + 1) j v f (omega arith)) refl

pub free_direct-all :
    (r j : ℕ) (f : ℕ → ℕ) (d : Disk)
    → free_direct r j f d ≡ free_all (pointers r j f) d >>= (λ d. ok (cleared r j f, d))
unfolding free_direct free_all pointers cleared
free_direct-all zero j f d = refl
free_direct-all (suc r) j f d = elim (Bool-cases (f j == 0)) [
  | inl e ↦ rw e (free_direct-all r (j + 1) f d)
  | inr e ↦
      rw
        (
          e,
          sym (pointers-update r (j + 1) j 0 f (omega arith)),
          bind_assoc {C = (ℕ → ℕ) × Disk} (bfree (f j) d)
              (free_all (pointers r (j + 1) (update f j 0)))
              (λ d. ok (cleared r (j + 1) (update f j 0), d)),
        )
        (ap (λ g. bfree (f j) d >>= g) (fun_ext (λ d. free_direct-all r (j + 1) (update f j 0) d)))
]

pub free_indirect-all :
    (r j : ℕ) (bytes : ℕ → ℕ) (d : Disk)
    → free_indirect r j bytes d ≡ free_all (pointers r j (λ j. word bytes (4 * j))) d
unfolding free_indirect free_all pointers
free_indirect-all zero j bytes d = refl
free_indirect-all (suc r) j bytes d = elim (Bool-cases (word bytes (4 * j) == 0)) [
  | inl e ↦ rw e (free_indirect-all r (j + 1) bytes d)
  | inr e ↦ rw e (
      ap (λ g. bfree (word bytes (4 * j)) d >>= g)
        (fun_ext (λ d. free_indirect-all r (j + 1) bytes d)))
]
