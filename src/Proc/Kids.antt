-- ===== src/Proc/Kids.antt =====
-- What the scan of `wait` of proc.c finds among the children.
use operating_systems_three.Prelude.{
  ℕ, zero, suc, ◌+◌, ◌≡◌, ◌<◌, ◌⊎◌, arith, inl, inr, Bool, true, false, Bool-cases, ◌&&◌, ◌||◌,
  List, [], ◌∷◌, none, some, get_or, length,
}
use operating_systems_three.Proc.{Proc, is_zombie, is_parent}
use operating_systems_three.Proc.Life.{blank, scan_kids}

-- Process `j` of a list is a child of `cur`.
abbrev pub Child : ℕ → ℕ → List Proc → Type 0
Child cur j ps = (j < length ps) × (is_parent cur (get_or ps j blank).parent ≡ true)

abbrev pub Dead : ℕ → List Proc → Type 0
Dead j ps = is_zombie (get_or ps j blank).state ≡ true

-- The scan stops at the first dead child, if there is one.
pub scan-found :
    (cur i : ℕ) (h : Bool) (ps : List Proc) (k : ℕ)
    → (scan_kids cur i h ps).1 ≡ some k
    → (j : ℕ) × (k ≡ i + j)
      × Child cur j ps
      × Dead j ps
      × ((m : ℕ) → m < j → Child cur m ps → ¬ Dead m ps)
unfolding scan_kids
scan-found cur i h [] k e = cc
scan-found cur i h (p ∷ ps) k e = elim (Bool-cases (is_parent cur p.parent && is_zombie p.state)) [
  | inl hit ↦ (0, ground arith, (omega arith, ground arith), ground arith, λ m l c d. omega arith)
  | inr miss ↦
      let (j, at, (lt, kid), dead, first) =
        scan-found cur (i + 1) (is_parent cur p.parent || h) ps k (ground arith) in
      (suc j, omega arith, (omega arith, kid), dead, earlier miss j first)
]
  where
    earlier :
        (is_parent cur p.parent && is_zombie p.state) ≡ false
        → (j : ℕ) → ((m : ℕ) → m < j → Child cur m ps → ¬ Dead m ps)
        → (m : ℕ) → m < suc j
        → Child cur m (p ∷ ps)
        → ¬ Dead m (p ∷ ps)
    earlier miss j first zero l (_, kid) dead = ground arith
    earlier miss j first (suc m) l (lt, kid) dead = first m (omega arith) (omega arith, kid) dead

-- Otherwise it reports whether there are children.
pub scan-none :
    (cur i : ℕ) (h : Bool) (ps : List Proc)
    → (scan_kids cur i h ps).1 ≡ none
    → ((j : ℕ) → Child cur j ps → ¬ Dead j ps)
      × ((scan_kids cur i h ps).0 ≡ true → (h ≡ true) ⊎ ((j : ℕ) × Child cur j ps))
      × ((scan_kids cur i h ps).0 ≡ false → (h ≡ false) × ((j : ℕ) → ¬ Child cur j ps))
unfolding scan_kids
scan-none cur i h [] e =
    (λ j (lt, _) _. omega arith, λ t. inl t, λ f. (f, λ j (lt, _). omega arith))
scan-none cur i h (p ∷ ps) e = elim (Bool-cases (is_parent cur p.parent && is_zombie p.state)) [
  | inl hit ↦ absurd (ground arith)
  | inr miss ↦
      let (live, some_kid, no_kid) =
        scan-none cur (i + 1) (is_parent cur p.parent || h) ps (ground arith) in
      (
        alive miss live,
        λ t. seen (some_kid (ground arith)),
        λ f.
            let (clear, nobody) = no_kid (ground arith) in
            (ground arith, childless (ground arith) nobody),
      )
]
  where
    alive :
        (is_parent cur p.parent && is_zombie p.state) ≡ false
        → ((j : ℕ) → Child cur j ps → ¬ Dead j ps)
        → (j : ℕ) → Child cur j (p ∷ ps)
        → ¬ Dead j (p ∷ ps)
    alive miss live zero (_, kid) dead = ground arith
    alive miss live (suc j) (lt, kid) dead = live j (omega arith, kid) dead

    seen :
        ((is_parent cur p.parent || h) ≡ true) ⊎ ((j : ℕ) × Child cur j ps)
        → (h ≡ true) ⊎ ((j : ℕ) × Child cur j (p ∷ ps))
    seen (inr (j, (lt, kid))) = inr (suc j, (omega arith, kid))
    seen (inl e) = elim (Bool-cases (is_parent cur p.parent)) [
      | inl kid ↦ inr (0, (omega arith, kid))
      | inr not_kid ↦ inl (ground arith)
    ]

    childless :
        is_parent cur p.parent ≡ false
        → ((j : ℕ) → ¬ Child cur j ps)
        → (j : ℕ) → ¬ Child cur j (p ∷ ps)
    childless c nobody zero (_, kid) = ground arith
    childless c nobody (suc j) (lt, kid) = nobody j (omega arith, kid)
