-- ===== src/MapReduce/Operations.antt =====
-- What `MR_Emit` and `get_next` of P4a/mapreduce.c do to the map that the table holds.
use operating_systems_three.Prelude.{
  ℕ, ◌<◌, ◌≡◌, ◌↔◌, ◌&&◌, if◌then◌else◌, arith, Bool, true, false, Bool-cases, length, ◌⊎◌, inl,
  inr, refl, sym, ap, ◌∙◌, Option, none, some, update, update_self, subst, List, [], ◌∷◌,
}
use operating_systems_three.MapReduce.{
  Str, DataItem, Table, find, fits, can_claim, claim, push, add_value, emit_value, pop, get_next,
}
use operating_systems_three.MapReduce.Slots.{find-cases, key_kept}
use operating_systems_three.MapReduce.Values.{
  Values, set_values, Holds, vals-find, claims, put-Holds, none_ne_some,
}

pub true_ne_false : true ≡ false → ⊥
true_ne_false e = cc

abbrev pub item : Str → List Str → DataItem
item k vs = record { key = some k; vals = vs }

claim-item :
    (k : Str) (o : Option Str) (vs : List Str)
    → (o ≡ none) ⊎ (o ≡ some k)
    → claim k (record { key = o; vals = vs }) ≡ item k vs
unfolding claim
claim-item k none vs h = refl
claim-item k (some k') vs h = elim h [
  | inl e ↦ absurd (none_ne_some k' (sym e))
  | inr e ↦ rw e refl
]

claim-find :
    (t : Table) (m : Values) (k : Str) (p : ℕ)
    → Holds t m
    → find k t ≡ some p
    → claim k (t p) ≡ item k (m k)
claim-find t m k p h f =
    claim-item k (t p).key (t p).vals (find-cases k t p f) ∙ ap (item k) (vals-find t m k p h f)

-- A block that `malloc` gives for a string has room for it and its NUL.
abbrev pub HasRoom : (room : ℕ → ℕ) → Str → Type 0
HasRoom room s = length s < room (length s)

pub fits_iff : (room : ℕ → ℕ) (s : Str) → (fits room s ≡ true) ↔ HasRoom room s
unfolding fits
fits_iff room s = ground arith

can_claim_yes :
    (room : ℕ → ℕ) (k : Str) (o : Option Str) (vs : List Str)
    → can_claim room k (record { key = o; vals = vs }) ≡ true
    → o ≡ none
    → HasRoom room k
unfolding can_claim
can_claim_yes room k none vs h e = (fits_iff room k).0 h
can_claim_yes room k (some k') vs h e = absurd (none_ne_some k' (sym e))

can_claim_not :
    (room : ℕ → ℕ) (k : Str) (o : Option Str) (vs : List Str)
    → can_claim room k (record { key = o; vals = vs }) ≡ false
    → (o ≡ none) × (¬ HasRoom room k)
unfolding can_claim
can_claim_not room k none vs h = (refl, λ r. true_ne_false (sym ((fits_iff room k).1 r) ∙ h))
can_claim_not room k (some k') vs h = absurd (true_ne_false h)

-- A table whose keys have kept their slots, `k` among them.
pub record Extends (t : Table) (k : Str) (u : Table) : Type 0 where
  pub keeps : (p : ℕ) (k' : Str) → (t p).key ≡ some k' → (u p).key ≡ some k'
  pub place : ℕ
  pub at_place : (u place).key ≡ some k

update-Extends :
    (t : Table) (m : Values) (k : Str) (q : ℕ) (vs : List Str)
    → Holds t m
    → find k t ≡ some q
    → Extends t k (update t q (item k vs))
update-Extends t m k q vs h f = record {
  keeps = λ p k' e. key_kept t q (item k vs) p k' e (claims t m k q (item k vs) h f refl);
  place = q;
  at_place = ap (λ (x : DataItem). x.key) (update_self t q (item k vs));
}

emit_value-case :
    (room : ℕ → ℕ) (stale : List Str) (k v : Str) (t : Table) (p : ℕ) (b : Bool)
    → find k t ≡ some p
    → (can_claim room k (t p) && fits room v) ≡ b
    → emit_value room stale k v t
      ≡ (if b then some (p, update t p (add_value stale v (claim k (t p)))) else none)
unfolding emit_value
emit_value-case room stale k v t p b f e = rw (f, e, emit_value) refl

get_next-case :
    (room : ℕ → ℕ) (k : Str) (t : Table) (p : ℕ) (b : Bool)
    → find k t ≡ some p
    → can_claim room k (t p) ≡ b
    → get_next room k t
      ≡ (if b then some ((pop (claim k (t p))).0, update t p (pop (claim k (t p))).1) else none)
unfolding get_next
get_next-case room k t p b f e = rw (f, e, get_next) refl

-- What follows a new value: those that its key has, or what the unset link of the node leads to.
unfoldable pub behind : (stale : List Str) → List Str → List Str
behind stale [] = stale
behind stale (w ∷ ws) = w ∷ ws

push-behind : (stale : List Str) (v : Str) (vs : List Str) → push stale v vs ≡ v ∷ behind stale vs
unfolding push behind
push-behind stale v [] = refl
push-behind stale v (w ∷ ws) = refl

-- Let every key of the table be found in its slot, and the values be `m`, and let the search for a key
-- end at a slot. If the blocks that `malloc` gives for the value and, where the slot has no key yet, for
-- the key have room for the NUL, `MR_Emit` puts the value in front of those of the key, or, if it has
-- none, of what the unset link of the new node leads to; it changes the values of no other key, and
-- every key keeps its slot. Otherwise a copy leaves its block.
pub emit_value-Holds :
    (room : ℕ → ℕ) (stale : List Str) (k v : Str) (t : Table) (m : Values) (p : ℕ)
    → Holds t m
    → find k t ≡ some p
    → ((u : Table) × (emit_value room stale k v t ≡ some (p, u))
        × Holds u (set_values m k (v ∷ behind stale (m k)))
        × Extends t k u
        × HasRoom room v
        × ((t p).key ≡ none → HasRoom room k))
      ⊎ ((emit_value room stale k v t ≡ none)
          × ((¬ HasRoom room v) ⊎ (((t p).key ≡ none) × (¬ HasRoom room k))))
unfolding add_value
emit_value-Holds room stale k v t m p h f = elim (Bool-cases (can_claim room k (t p))) [
  | inr e ↦
      let refused : (can_claim room k (t p) && fits room v) ≡ false = rw e refl in
      inr (
        emit_value-case room stale k v t p false f refused,
        inr (can_claim_not room k (t p).key (t p).vals e),
      )
  | inl e ↦ elim (Bool-cases (fits room v)) [
    | inr g ↦
        let refused : (can_claim room k (t p) && fits room v) ≡ false = rw (e, g) refl in
        inr (
          emit_value-case room stale k v t p false f refused,
          inl (λ r. true_ne_false (sym ((fits_iff room v).1 r) ∙ g)),
        )
    | inl g ↦
        let vs = v ∷ behind stale (m k) in
        let allowed : (can_claim room k (t p) && fits room v) ≡ true = rw (e, g) refl in
        inl (
          update t p (item k vs),
          emit_value-case room stale k v t p true f allowed
              ∙ rw (claim-find t m k p h f, push-behind stale v (m k)) refl,
          put-Holds t m k p (item k vs) h f refl,
          update-Extends t m k p vs h f,
          (fits_iff room v).0 g,
          can_claim_yes room k (t p).key (t p).vals e,
        )
  ]
]

unfoldable pub first : List Str → Option Str
first [] = none
first (v ∷ vs) = some v

unfoldable pub rest_of : List Str → List Str
rest_of [] = []
rest_of (v ∷ vs) = vs

pop-item : (k : Str) (vs : List Str) → pop (item k vs) ≡ (first vs, item k (rest_of vs))
unfolding pop first rest_of
pop-item k [] = refl
pop-item k (v ∷ vs) = refl

-- Let every key of the table be found in its slot, and the values be `m`, and let the search for a key
-- end at a slot. If the slot has the key, or the block that `malloc` gives for the key has room for the
-- NUL, `get_next` takes out the value of the key that was added last, and returns NULL if there is none;
-- it changes the values of no other key, and every key keeps its slot. Otherwise the copy of the key
-- leaves its block.
pub get_next-Holds :
    (room : ℕ → ℕ) (k : Str) (t : Table) (m : Values) (p : ℕ)
    → Holds t m
    → find k t ≡ some p
    → ((u : Table) × (get_next room k t ≡ some (first (m k), u))
        × Holds u (set_values m k (rest_of (m k)))
        × Extends t k u
        × ((t p).key ≡ none → HasRoom room k))
      ⊎ ((get_next room k t ≡ none) × ((t p).key ≡ none) × (¬ HasRoom room k))
get_next-Holds room k t m p h f = elim (Bool-cases (can_claim room k (t p))) [
  | inr e ↦
      let (new, tight) = can_claim_not room k (t p).key (t p).vals e in
      inr (get_next-case room k t p false f e, new, tight)
  | inl e ↦
      let vs = rest_of (m k) in
      inl (
        update t p (item k vs),
        get_next-case room k t p true f e ∙ rw (claim-find t m k p h f, pop-item k (m k)) refl,
        put-Holds t m k p (item k vs) h f refl,
        update-Extends t m k p vs h f,
        can_claim_yes room k (t p).key (t p).vals e,
      )
]

-- The same for a key that has its slot.
pub get_next-held :
    (room : ℕ → ℕ) (k : Str) (t : Table) (m : Values) (p : ℕ)
    → Holds t m
    → (t p).key ≡ some k
    → (u : Table) × (get_next room k t ≡ some (first (m k), u))
      × Holds u (set_values m k (rest_of (m k)))
      × Extends t k u
get_next-held room k t m p h e = elim (get_next-Holds room k t m p h (h.found p k e)) [
  | inl (u, run, holds, ext, _) ↦ (u, run, holds, ext)
  | inr (_, new, _) ↦ absurd (none_ne_some k (sym new ∙ e))
]

next-parts :
    (o o' : Option Str) (t u : Table)
    → ◌≡◌ {A = Option (Option Str × Table)} (some (o, t)) (some (o', u))
    → (o ≡ o') × (t ≡ u)
next-parts o o' t u e = (cc, cc)

-- The same, read from the result.
pub get_next-takes :
    (room : ℕ → ℕ) (k : Str) (t : Table) (m : Values) (p : ℕ) (o : Option Str) (u : Table)
    → Holds t m
    → (t p).key ≡ some k
    → ◌≡◌ {A = Option (Option Str × Table)} (get_next room k t) (some (o, u))
    → (first (m k) ≡ o) × Holds u (set_values m k (rest_of (m k))) × Extends t k u
get_next-takes room k t m p o u h e run =
    let (w, got, holds, ext) = get_next-held room k t m p h e in
    let (same, is_u) = next-parts (first (m k)) o w u (sym got ∙ run) in
    (
      same,
      subst (λ x. Holds x (set_values m k (rest_of (m k)))) is_u holds,
      subst (λ x. Extends t k x) is_u ext,
    )
