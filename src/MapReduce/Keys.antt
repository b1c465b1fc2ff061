-- ===== src/MapReduce/Keys.antt =====
-- The sorted keys of a partition: what `MR_Emit` does while it holds `sort_lock`.
use operating_systems_three.Prelude.{ℕ, ◌≡◌, ◌⊎◌, ◌↔◌, inl, inr, refl, ◌∙◌, List, [], ◌∷◌}
use Prim.Native.Nat.{Ordering}
use operating_systems_three.MapReduce.{Str, strcmp, Node, link}
use operating_systems_three.MapReduce.Strings.{Less, strcmp_eq, strcmp_swap, strcmp_trans}

abbrev pub AllAbove : Str → List Node → Type 0
AllAbove k [] = Unit
AllAbove k (n ∷ ns) = Less k n.key × AllAbove k ns

-- The keys are in the order of `strcmp`, and no key is there twice.
abbrev pub IsAscending : List Node → Type 0
IsAscending [] = Unit
IsAscending (n ∷ ns) = AllAbove n.key ns × IsAscending ns

abbrev pub HasKey : Str → List Node → Type 0
HasKey k [] = ⊥
HasKey k (n ∷ ns) = (k ≡ n.key) ⊎ HasKey k ns

link-AllAbove :
    (a k : Str) (i : ℕ) (ns : List Node) → Less a k → AllAbove a ns → AllAbove a (link k i ns)
unfolding link
link-AllAbove a k i [] l h = (l, tt)
link-AllAbove a k i (n ∷ ns) l h =
    elim (strcmp k n.key)
      as (λ c. AllAbove a (elim c [
        | Ordering.gt ↦ n ∷ link k i ns
        | Ordering.eq ↦ n ∷ ns
        | Ordering.lt ↦ record { key = k; index = i } ∷ n ∷ ns
      ])) [
        | Ordering.gt ↦ (h.0, link-AllAbove a k i ns l h.1)
        | Ordering.eq ↦ h
        | Ordering.lt ↦ (l, h)
      ]

AllAbove-trans : (a b : Str) (ns : List Node) → Less a b → AllAbove b ns → AllAbove a ns
AllAbove-trans a b [] l h = tt
AllAbove-trans a b (n ∷ ns) l h = (strcmp_trans a b n.key l h.0, AllAbove-trans a b ns l h.1)

pub Ordering-cases : (o : Ordering) → (o ≡ Ordering.lt) ⊎ ((o ≡ Ordering.eq) ⊎ (o ≡ Ordering.gt))
Ordering-cases Ordering.lt = inl refl
Ordering-cases Ordering.eq = inr (inl refl)
Ordering-cases Ordering.gt = inr (inr refl)

pub link-IsAscending :
    (k : Str) (i : ℕ) (ns : List Node) → IsAscending ns → IsAscending (link k i ns)
unfolding link
link-IsAscending k i [] h = (tt, tt)
link-IsAscending k i (n ∷ ns) h = elim (Ordering-cases (strcmp k n.key)) [
  | inl e ↦ rw (e, link) ((e, AllAbove-trans k n.key ns e h.0), h)
  | inr (inl e) ↦ rw (e, link) h
  | inr (inr e) ↦
      rw (e, link)
        (link-AllAbove n.key k i ns (strcmp_swap k n.key e) h.0, link-IsAscending k i ns h.1)
]

pub HasKey-link :
    (j k : Str) (i : ℕ) (ns : List Node) → HasKey j (link k i ns) ↔ ((j ≡ k) ⊎ HasKey j ns)
unfolding link
HasKey-link j k i [] = (λ h. h, λ h. h)
HasKey-link j k i (n ∷ ns) = elim (Ordering-cases (strcmp k n.key)) [
  | inl e ↦ rw (e, link) (λ h. h, λ h. h)
  | inr (inl e) ↦
      rw (e, link) (λ h. inr h, λ h. elim h [ inl f ↦ inl (f ∙ strcmp_eq k n.key e) | inr f ↦ f ])
  | inr (inr e) ↦
      let ih = HasKey-link j k i ns in
      rw (e, link)
        (
          λ h. elim h [
            | inl f ↦ inr (inl f)
            | inr f ↦ elim (ih.0 f) [ inl g ↦ inl g | inr g ↦ inr (inr g) ]
          ],
          λ h. elim h [
            | inl f ↦ inr (ih.1 (inl f))
            | inr f ↦ elim f [ inl g ↦ inl g | inr g ↦ inr (ih.1 (inr g)) ]
          ],
        )
]
