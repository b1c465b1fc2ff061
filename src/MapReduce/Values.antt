-- ===== src/MapReduce/Values.antt =====
-- The table of P4a/mapreduce.c as a map from keys to lists of values.
use operating_systems_three.Prelude.{
  ℕ, ◌≡◌, ◌≢◌, inl, inr, refl, sym, ap, ◌∙◌, false, if◌then◌else◌, Bool-cases, none, some, update,
  update_self, update_ne, ℕ_discrete, subst, List, [],
}
use operating_systems_three.MapReduce.{Str, same, DataItem, Table, find}
use operating_systems_three.MapReduce.Strings.{same_eq, same_refl}
use operating_systems_three.MapReduce.Slots.{Claims, find-cases, find_kept, find_back, find_claimed}

-- The values that wait under each key, the last one first.
abbrev pub Values : Type 0
Values = Str → List Str

unfoldable pub set_values : Values → Str → List Str → Values
set_values m k vs k' = if same k' k then vs else m k'

-- Every key in the table is found in its slot, which has the key's values; a slot with no key has
-- none, and so has a key that is not found.
pub record Holds (t : Table) (m : Values) : Type 0 where
  pub found : (p : ℕ) (k : Str) → (t p).key ≡ some k → find k t ≡ some p
  pub held : (p : ℕ) (k : Str) → (t p).key ≡ some k → (t p).vals ≡ m k
  pub unused : (p : ℕ) → (t p).key ≡ none → (t p).vals ≡ []
  pub absent : (k : Str) (p : ℕ) → find k t ≡ some p → (t p).key ≡ none → m k ≡ []

pub vals-find :
    (t : Table) (m : Values) (k : Str) (p : ℕ) → Holds t m → find k t ≡ some p → (t p).vals ≡ m k
vals-find t m k p h f = elim (find-cases k t p f) [
  | inl e ↦ h.unused p e ∙ sym (h.absent k p f e)
  | inr e ↦ h.held p k e
]

pub set_values_self : (m : Values) (k : Str) (vs : List Str) → set_values m k vs k ≡ vs
unfolding set_values
set_values_self m k vs = rw (same_refl k) refl

pub set_values_ne :
    (m : Values) (k : Str) (vs : List Str) (k' : Str) → k' ≢ k → set_values m k vs k' ≡ m k'
unfolding set_values
set_values_ne m k vs k' ne = elim (Bool-cases (same k' k)) [
  | inl e ↦ absurd (ne (same_eq k' k e))
  | inr e ↦ rw e refl
]

set_values_other :
    (m : Values) (k : Str) (vs : List Str) (k' : Str)
    → same k' k ≡ false
    → set_values m k vs k' ≡ m k'
unfolding set_values
set_values_other m k vs k' e = rw e refl

pub none_ne_some : {A : Type 0} (a : A) → none ≢ some a
none_ne_some a e = cc

pub some-injective : {A : Type 0} (a b : A) → some a ≡ some b → a ≡ b
some-injective a b e = cc

-- One slot is written: it is its key's, and has the values `d.vals` from now on.
module _ (t : Table) (m : Values) (k : Str) (q : ℕ) (d : DataItem) (h : Holds t m)
    (f : find k t ≡ some q) (e : d.key ≡ some k) where
  pub claims : Claims t q d
  claims = elim (find-cases k t q f) [ inl z ↦ inl z | inr z ↦ inr (z ∙ sym e) ]

  put-found : (p : ℕ) (k' : Str) → (update t q d p).key ≡ some k' → find k' (update t q d) ≡ some p
  put-found p k' z = elim (ℕ_discrete p q) [
    | yes g ↦
        let key = ap (λ (x : DataItem). x.key) (ap (update t q d) g ∙ update_self t q d) in
        let same_key = some-injective k' k (sym z ∙ key ∙ e) in
        rw (same_key, g) (find_claimed k t q d f e)
    | no ne ↦
        let key = ap (λ (x : DataItem). x.key) (update_ne t q p d ne) in
        find_kept k' t p q d (h.found p k' (sym key ∙ z)) (sym key ∙ z) claims
  ]

  put-held :
      (p : ℕ) (k' : Str)
      → (update t q d p).key ≡ some k'
      → (update t q d p).vals ≡ set_values m k d.vals k'
  put-held p k' z = elim (ℕ_discrete p q) [
    | yes g ↦
        let here = ap (update t q d) g ∙ update_self t q d in
        let key = ap (λ (x : DataItem). x.key) here in
        let same_key = some-injective k' k (sym z ∙ key ∙ e) in
        ap (λ (x : DataItem). x.vals) here
        ∙ sym (set_values_self m k d.vals)
        ∙ ap (set_values m k d.vals) (sym same_key)
    | no ne ↦
        let here = update_ne t q p d ne in
        let z' = sym (ap (λ (x : DataItem). x.key) here) ∙ z in
        let other : k' ≢ k = λ g.
          ne (some-injective p q (sym (subst (λ j. find j t ≡ some p) g (h.found p k' z')) ∙ f)) in
        ap (λ (x : DataItem). x.vals) here
        ∙ h.held p k' z'
        ∙ sym (set_values_ne m k d.vals k' other)
  ]

  put-unused : (p : ℕ) → (update t q d p).key ≡ none → (update t q d p).vals ≡ []
  put-unused p z = elim (ℕ_discrete p q) [
    | yes g ↦
        let key = ap (λ (x : DataItem). x.key) (ap (update t q d) g ∙ update_self t q d) in
        absurd (none_ne_some k (sym z ∙ key ∙ e))
    | no ne ↦
        let here = update_ne t q p d ne in
        ap (λ (x : DataItem). x.vals) here
        ∙ h.unused p (sym (ap (λ (x : DataItem). x.key) here) ∙ z)
  ]

  put-absent :
      (k' : Str) (p : ℕ)
      → find k' (update t q d) ≡ some p
      → (update t q d p).key ≡ none
      → set_values m k d.vals k' ≡ []
  put-absent k' p g z =
      let back = find_back k' t p q d g z claims in
      elim (Bool-cases (same k' k)) [
        | inl y ↦
            let here = subst (λ j. find j (update t q d) ≡ some p) (same_eq k' k y) g in
            let p_q = some-injective p q (sym here ∙ find_claimed k t q d f e) in
            let key = ap (λ (x : DataItem). x.key) (ap (update t q d) p_q ∙ update_self t q d) in
            absurd (none_ne_some k (sym z ∙ key ∙ e))
        | inr y ↦ set_values_other m k d.vals k' y ∙ h.absent k' back.0 back.1 back.2
      ]

  pub put-Holds : Holds (update t q d) (set_values m k d.vals)
  put-Holds = record {
    found = put-found;
    held = put-held;
    unused = put-unused;
    absent = put-absent;
  }
