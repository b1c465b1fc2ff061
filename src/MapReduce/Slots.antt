-- ===== src/MapReduce/Slots.antt =====
-- Where the loops of `MR_Emit` and `get_next` find a key's slot.
use operating_systems_three.Prelude.{
  ℕ, zero, suc, ◌+◌, ◌-◌, ◌≡◌, ◌≢◌, ◌⊎◌, inl, inr, refl, sym, ap, ◌∙◌, arith, Bool, true, false,
  Bool-cases, Option, none, some, update, update_self, update_ne, ℕ_discrete, subst,
}
use operating_systems_three.MapReduce.{
  Str, DataItem, Table, stops, probe, find, mr_default_hash_partition, table_size,
}
use operating_systems_three.MapReduce.Strings.{same_eq, same_refl}

some-injective : {A : Type 0} (a b : A) → some a ≡ some b → a ≡ b
some-injective a b e = cc

none_ne_some : (k : Str) → none ≢ some k
none_ne_some k e = cc

stops_self : (k : Str) (o : Option Str) → o ≡ some k → stops k o ≡ true
unfolding stops
stops_self k o e = rw e (same_refl k)

stops-cases : (k : Str) (o : Option Str) → stops k o ≡ true → (o ≡ none) ⊎ (o ≡ some k)
unfolding stops
stops-cases k none h = inl refl
stops-cases k (some k') h = inr (ap some (sym (same_eq k k' h)))

stops-none : (k : Str) (o : Option Str) → o ≡ none → stops k o ≡ true
unfolding stops
stops-none k o e = rw e refl

probe-cases :
    (n i : ℕ) (k : Str) (t : Table) (p : ℕ)
    → probe n i k t ≡ some p
    → ((t p).key ≡ none) ⊎ ((t p).key ≡ some k)
unfolding probe
probe-cases zero i k t p h = cc
probe-cases (suc n) i k t p h = elim (Bool-cases (stops k (t i).key)) [
  | inl e ↦ ground (arith, stops-cases k (t i).key e)
  | inr e ↦ ground (arith, probe-cases n (i + 1) k t p)
]

-- A slot that is written keeps its key, or had none.
abbrev pub Claims : Table → ℕ → DataItem → Type 0
Claims t q d = ((t q).key ≡ none) ⊎ ((t q).key ≡ d.key)

keys_at :
    (t : Table) (q : ℕ) (d : DataItem) (i : ℕ)
    → Claims t q d
    → ((t i).key ≡ none) ⊎ ((update t q d i).key ≡ (t i).key)
keys_at t q d i u = elim (ℕ_discrete i q) [
  | yes e ↦
      let self = subst (λ j. update t q d j ≡ d) (sym e) (update_self t q d) in
      elim u [
        | inl z ↦ inl (ap (λ j. (t j).key) e ∙ z)
        | inr f ↦ inr (ap (λ (x : DataItem). x.key) self ∙ sym f ∙ ap (λ j. (t j).key) (sym e))
      ]
  | no ne ↦ inr (ap (λ (x : DataItem). x.key) (update_ne t q i d ne))
]

-- A key's slot stays where it is.
probe_kept :
    (n i : ℕ) (k : Str) (t : Table) (p q : ℕ) (d : DataItem)
    → probe n i k t ≡ some p
    → (t p).key ≡ some k
    → Claims t q d
    → probe n i k (update t q d) ≡ some p
unfolding probe
probe_kept zero i k t p q d h e u = cc
probe_kept (suc n) i k t p q d h e u = ground (
  arith,
  keys_at t q d i u,
  stops-none k (t i).key,
  stops_self k (t i).key,
  probe_kept n (i + 1) k t p q d,
)

-- Where a slot is written that kept its key, the search goes the same way there.
stops-kept :
    (k : Str) (t : Table) (q : ℕ) (d : DataItem) (i : ℕ) (b : Bool)
    → stops k (t i).key ≡ b
    → (update t q d i).key ≡ (t i).key
    → stops k (update t q d i).key ≡ b
stops-kept k t q d i b e f = ap (stops k) f ∙ e

-- A slot where a search ends without the key was one before.
probe_back :
    (n i : ℕ) (k : Str) (t : Table) (p q : ℕ) (d : DataItem)
    → probe n i k (update t q d) ≡ some p
    → (update t q d p).key ≡ none
    → Claims t q d
    → (r : ℕ) × (probe n i k t ≡ some r) × ((t r).key ≡ none)
unfolding probe
probe_back zero i k t p q d h e u = cc
probe_back (suc n) i k t p q d h e u = elim (keys_at t q d i u) [
  | inl z ↦ (i, rw (stops-none k (t i).key z) refl, z)
  | inr f ↦ elim (Bool-cases (stops k (t i).key)) [
    | inl y ↦
        let y' = stops-kept k t q d i true y f in
        let here : i ≡ p = ground arith in
        (i, rw y refl, sym f ∙ ap (λ j. (update t q d j).key) here ∙ e)
    | inr y ↦
        let y' = stops-kept k t q d i false y f in
        let later : probe n (i + 1) k (update t q d) ≡ some p = ground arith in
        let found = probe_back n (i + 1) k t p q d later e u in (found.0, rw y found.1, found.2)
  ]
]

pub find-cases :
    (k : Str) (t : Table) (p : ℕ) → find k t ≡ some p → ((t p).key ≡ none) ⊎ ((t p).key ≡ some k)
unfolding find
find-cases k t p h =
    let start = mr_default_hash_partition k table_size in
    probe-cases (table_size - start) start k t p h

pub find_kept :
    (k : Str) (t : Table) (p q : ℕ) (d : DataItem)
    → find k t ≡ some p
    → (t p).key ≡ some k
    → Claims t q d
    → find k (update t q d) ≡ some p
unfolding find
find_kept k t p q d =
    let start = mr_default_hash_partition k table_size in
    probe_kept (table_size - start) start k t p q d

pub find_back :
    (k : Str) (t : Table) (p q : ℕ) (d : DataItem)
    → find k (update t q d) ≡ some p
    → (update t q d p).key ≡ none
    → Claims t q d
    → (r : ℕ) × (find k t ≡ some r) × ((t r).key ≡ none)
unfolding find
find_back k t p q d =
    let start = mr_default_hash_partition k table_size in
    probe_back (table_size - start) start k t p q d

-- A key that a slot gets is found there.
probe_claimed :
    (n i : ℕ) (k : Str) (t : Table) (q : ℕ) (d : DataItem)
    → probe n i k t ≡ some q
    → d.key ≡ some k
    → probe n i k (update t q d) ≡ some q
unfolding probe
probe_claimed zero i k t q d h e = cc
probe_claimed (suc n) i k t q d h e = elim (ℕ_discrete i q) [
  | yes f ↦
      let self = subst (λ j. update t q d j ≡ d) (sym f) (update_self t q d) in
      let key = ap (λ (x : DataItem). x.key) self ∙ e in
      rw (stops_self k (update t q d i).key key) (ap some f)
  | no ne ↦
      let other = ap (λ (x : DataItem). x.key) (update_ne t q i d ne) in
      rw other (ground (arith, probe_claimed n (i + 1) k t q d))
]

pub find_claimed :
    (k : Str) (t : Table) (q : ℕ) (d : DataItem)
    → find k t ≡ some q
    → d.key ≡ some k
    → find k (update t q d) ≡ some q
unfolding find
find_claimed k t q d =
    let start = mr_default_hash_partition k table_size in
    probe_claimed (table_size - start) start k t q d

-- A key that has a slot keeps it.
pub key_kept :
    (t : Table) (q : ℕ) (d : DataItem) (p : ℕ) (k : Str)
    → (t p).key ≡ some k
    → Claims t q d
    → (update t q d p).key ≡ some k
key_kept t q d p k e u = elim (keys_at t q d p u) [
  | inl z ↦ absurd (none_ne_some k (sym z ∙ e))
  | inr z ↦ z ∙ e
]
