-- ===== src/Cache/Order.antt =====
-- The list of the buffer cache, and searches in it.
use operating_systems_three.Prelude.{
  ℕ, ◌≡◌, ◌⊎◌, refl, sym, ap, subst, arith, inl, inr, Bool, true, false, Bool-cases, List, [], ◌∷◌,
  ◌++◌, none, some,
}
use operating_systems_three.Cache.{Buf, find_buf, backward}

unfoldable pub In : ℕ → List ℕ → Type 0
In a [] = ⊥
In a (b ∷ bs) = (a ≡ b) ⊎ In a bs

In-append : (a : ℕ) (xs ys : List ℕ) → In a (xs ++ ys) → In a xs ⊎ In a ys
unfolding In
In-append a [] ys h = inr h
In-append a (x ∷ xs) ys (inl e) = inl (inl e)
In-append a (x ∷ xs) ys (inr h) = elim (In-append a xs ys h) [ inl i ↦ inl (inr i) | inr j ↦ inr j ]

In-left : (a : ℕ) (xs ys : List ℕ) → In a xs → In a (xs ++ ys)
unfolding In
In-left a [] ys h = elim h [ ]
In-left a (x ∷ xs) ys (inl e) = inl e
In-left a (x ∷ xs) ys (inr h) = inr (In-left a xs ys h)

In-right : (a : ℕ) (xs ys : List ℕ) → In a ys → In a (xs ++ ys)
unfolding In
In-right a [] ys h = h
In-right a (x ∷ xs) ys h = inr (In-right a xs ys h)

pub In-backward : (a : ℕ) (xs : List ℕ) → In a (backward xs) → In a xs
unfolding In backward
In-backward a [] h = elim h [ ]
In-backward a (x ∷ xs) h = elim (In-append a (backward xs) (x ∷ []) h) [
  | inl i ↦ inr (In-backward a xs i)
  | inr (inl e) ↦ inl e
  | inr (inr e) ↦ elim e [ ]
]

pub backward-In : (a : ℕ) (xs : List ℕ) → In a xs → In a (backward xs)
unfolding In backward
backward-In a [] h = elim h [ ]
backward-In a (x ∷ xs) (inl e) = In-right a (backward xs) (x ∷ []) (inl e)
backward-In a (x ∷ xs) (inr h) = In-left a (backward xs) (x ∷ []) (backward-In a xs h)

pub find_buf-none :
    (test : Buf → Bool) (buf : ℕ → Buf) (xs : List ℕ)
    → find_buf test buf xs ≡ none
    → (a : ℕ) → In a xs
    → test (buf a) ≡ false
unfolding find_buf In
find_buf-none test buf [] e a h = elim h [ ]
find_buf-none test buf (x ∷ xs) e a (inl h) = elim (Bool-cases (test (buf x))) [
  | inl hit ↦ absurd (ground arith)
  | inr miss ↦ rw h miss
]
find_buf-none test buf (x ∷ xs) e a (inr h) = find_buf-none test buf xs (ground arith) a h

-- The first buffer that passes, and those in front of it that do not.
pub record First (test : Buf → Bool) (buf : ℕ → Buf) (xs : List ℕ) (b : ℕ) : Type 0 where
  pub front : List ℕ
  pub back : List ℕ
  pub split : xs ≡ front ++ b ∷ back
  pub hit : test (buf b) ≡ true
  pub miss : (a : ℕ) → In a front → test (buf a) ≡ false

pub find_buf-First :
    (test : Buf → Bool) (buf : ℕ → Buf) (xs : List ℕ) (b : ℕ)
    → find_buf test buf xs ≡ some b
    → First test buf xs b
unfolding find_buf In
find_buf-First test buf [] b e = cc
find_buf-First test buf (x ∷ xs) b e = elim (Bool-cases (test (buf x))) [
  | inl hit ↦
      let same : x ≡ b = ground arith in
      record {
        front = [];
        back = xs;
        split = ap (λ y. y ∷ xs) same;
        hit = rw (sym same) hit;
        miss = λ a h. absurd h;
      }
  | inr miss ↦
      let rest = find_buf-First test buf xs b (ground arith) in
      record {
        front = x ∷ rest.front;
        back = rest.back;
        split = ap (λ ys. x ∷ ys) rest.split;
        hit = rest.hit;
        miss = λ a h. elim h [ inl e ↦ rw e miss | inr i ↦ rest.miss a i ];
      }
]

pub First-In :
    {test : Buf → Bool} {buf : ℕ → Buf} {xs : List ℕ} {b : ℕ} → First test buf xs b → In b xs
unfolding In
First-In {b} f = subst (λ xs. In b xs) (sym f.split) (In-right b f.front (b ∷ f.back) (inl refl))
