-- ===== src/MapReduce/Links.antt =====
-- What `MR_Emit` does to the keys of a partition.
use operating_systems_three.Prelude.{
  ℕ, ◌≡◌, ◌≢◌, ◌⊎◌, ◌↔◌, inl, inr, refl, sym, ap, subst, ◌∙◌, Bool, true, false, Bool-cases,
  if◌then◌else◌, none, some, update, update_self, update_ne, List, [], ◌∷◌,
}
use Prim.Native.Nat.{Ordering}
use operating_systems_three.MapReduce.{Str, strcmp, fits, Node, listed, link, State, emit_key}
use operating_systems_three.MapReduce.Strings.{
  Less, Less-irrefl, strcmp_refl, strcmp_eq, strcmp_trans,
}
use operating_systems_three.MapReduce.Keys.{
  AllAbove, IsAscending, HasKey, HasKey-link, link-IsAscending, Ordering-cases,
}
use operating_systems_three.MapReduce.Operations.{HasRoom, fits_iff, true_ne_false}

listed-HasKey : (k : Str) (ns : List Node) → listed k ns ≡ true → HasKey k ns
unfolding listed
listed-HasKey k [] e = absurd (true_ne_false (sym e))
listed-HasKey k (n ∷ ns) e = elim (Ordering-cases (strcmp k n.key)) [
  | inl c ↦ absurd (true_ne_false (sym e ∙ rw (c, listed) refl))
  | inr (inl c) ↦ inl (strcmp_eq k n.key c)
  | inr (inr c) ↦ inr (listed-HasKey k ns (sym (rw (c, listed) refl) ∙ e))
]

HasKey-Less : (a k : Str) (ns : List Node) → AllAbove a ns → HasKey k ns → Less a k
HasKey-Less a k [] h z = elim z [ ]
HasKey-Less a k (n ∷ ns) h z = elim z [
  | inl e ↦ subst (Less a) (sym e) h.0
  | inr e ↦ HasKey-Less a k ns h.1 e
]

gt_ne_eq : Ordering.gt ≡ Ordering.eq → ⊥
gt_ne_eq e = cc

HasKey-listed : (k : Str) (ns : List Node) → IsAscending ns → HasKey k ns → listed k ns ≡ true
unfolding listed
HasKey-listed k [] asc z = elim z [ ]
HasKey-listed k (n ∷ ns) asc z = elim (Ordering-cases (strcmp k n.key)) [
  | inr (inl c) ↦ rw (c, listed) refl
  | inl c ↦ absurd (elim z [
    | inl e ↦ Less-irrefl k (subst (Less k) (sym e) c)
    | inr e ↦ Less-irrefl k (strcmp_trans k n.key k c (HasKey-Less n.key k ns asc.0 e))
  ])
  | inr (inr c) ↦ elim z [
    | inl e ↦ absurd (gt_ne_eq (sym c ∙ ap (λ j. strcmp k j) (sym e) ∙ strcmp_refl k))
    | inr e ↦ rw (c, listed) (HasKey-listed k ns asc.1 e)
  ]
]

emit_key-case :
    (room : ℕ → ℕ) (k : Str) (i p : ℕ) (s : State) (a b : Bool)
    → listed k (s.sorted_data p) ≡ a
    → fits room k ≡ b
    → emit_key room k i p s ≡ (
        if a
        then some s
        else (if b
            then some
                (record s { sorted_data = update s.sorted_data p (link k i (s.sorted_data p)) })
            else none))
unfolding emit_key
emit_key-case room k i p s a b e f = rw (e, f) refl

-- `MR_Emit` under its second lock, for a partition whose keys are in the order of `strcmp`, each once:
-- if the key is there already, or the block that `malloc` gives for it has room for the NUL, then the
-- keys are in order again, each once, and they are the old ones and the new one; the other partitions
-- and the values stay. Otherwise the copy of the key leaves its block.
pub emit_key_lem :
    (room : ℕ → ℕ) (k : Str) (i p : ℕ) (s : State)
    → IsAscending (s.sorted_data p)
    → ((u : State) × (emit_key room k i p s ≡ some u)
        × IsAscending (u.sorted_data p)
        × ((j : Str) → HasKey j (u.sorted_data p) ↔ ((j ≡ k) ⊎ HasKey j (s.sorted_data p)))
        × ((q : ℕ) → q ≢ p → u.sorted_data q ≡ s.sorted_data q)
        × (u.data_values ≡ s.data_values))
      ⊎ ((emit_key room k i p s ≡ none) × (¬ HasKey k (s.sorted_data p)) × (¬ HasRoom room k))
emit_key_lem room k i p s asc =
    let ns = s.sorted_data p in
    elim (Bool-cases (listed k ns)) [
      | inl e ↦
          let there = listed-HasKey k ns e in
          inl (
            s,
            emit_key-case room k i p s true (fits room k) e refl,
            asc,
            λ j. (
              λ h. inr h,
              λ h. elim h [ inl f ↦ subst (λ l. HasKey l ns) (sym f) there | inr g ↦ g ],
            ),
            λ q ne. refl,
            refl,
          )
      | inr e ↦ elim (Bool-cases (fits room k)) [
        | inl f ↦
            let now = update_self s.sorted_data p (link k i ns) in
            inl (
              record s { sorted_data = update s.sorted_data p (link k i ns) },
              emit_key-case room k i p s false true e f,
              rw now (link-IsAscending k i ns asc),
              λ j. rw now (HasKey-link j k i ns),
              λ q ne. update_ne s.sorted_data p q (link k i ns) ne,
              refl,
            )
        | inr f ↦ inr (
          emit_key-case room k i p s false false e f,
          λ h. true_ne_false (sym (HasKey-listed k ns asc h) ∙ e),
          λ r. true_ne_false (sym ((fits_iff room k).1 r) ∙ f),
        )
      ]
    ]
