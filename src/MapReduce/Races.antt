-- ===== src/MapReduce/Races.antt =====
-- Reducers of P4a/wordcount.c that run side by side do not disturb each other.
use operating_systems_three.Prelude.{
  ℕ, suc, ◌+◌, ◌≡◌, ◌≢◌, inl, inr, refl, sym, ap, ap₂, ◌∙◌, arith, Option, none, some, List, [],
  ◌∷◌, ◌++◌, length, append_assoc,
}
use operating_systems_three.MapReduce.{Str, Table, Node, State}
use operating_systems_three.MapReduce.Keys.{IsAscending, HasKey}
use operating_systems_three.MapReduce.Values.{
  Values, set_values, set_values_ne, set_values_self, Holds,
}
use operating_systems_three.MapReduce.Operations.{Extends, first, rest_of}
use operating_systems_three.MapReduce.Counts.{counted, counted-same, AllAbove-ne}
use operating_systems_three.MapReduce.Reducers.{Worker, Sys}

some-injective : (a b : ℕ) → some a ≡ some b → a ≡ b
some-injective a b e = cc

-- What a reducer prints from where it stands, when the values are `m`.
abbrev pub to_print : Values → ℕ → List Node → List (Str × ℕ)
to_print m c [] = []
to_print m c (n ∷ ns) = (n.key, c + length (m n.key)) ∷ counted m ns

-- A reducer has the keys of its own partition left, in order, and what it has printed and will print
-- is `out`.
pub record Works (owner : Str → Option ℕ) (t : Table) (m : Values) (p : ℕ) (out : List (Str × ℕ))
    (w : Worker) : Type 0 where
  pub ascending : IsAscending w.todo
  pub placed : (k : Str) → HasKey k w.todo → (q : ℕ) × ((t q).key ≡ some k)
  pub owned : (k : Str) → HasKey k w.todo → owner k ≡ some p
  pub total : w.printed ++ to_print m w.count w.todo ≡ out

to_print-same :
    (m m' : Values) (c : ℕ) (ns : List Node)
    → ((k : Str) → HasKey k ns → m' k ≡ m k)
    → to_print m' c ns ≡ to_print m c ns
to_print-same m m' c [] h = refl
to_print-same m m' c (n ∷ ns) h =
    rw (h n.key (inl refl), counted-same m m' ns (λ k z. h k (inr z))) refl

pub to_print-zero : (m : Values) (ns : List Node) → to_print m 0 ns ≡ counted m ns
unfolding counted
to_print-zero m [] = refl
to_print-zero m (n ∷ ns) = ap (λ (c : ℕ). (n.key, c) ∷ counted m ns) (omega arith)

-- What holds as the reducers run.
pub record Working (owner : Str → Option ℕ) (s : State) (m0 : Values) (a : Sys) : Type 0 where
  pub left : Values
  pub table : Holds a.table left
  pub works : (p : ℕ) → Works owner a.table left p (counted m0 (s.sorted_data p)) (a.worker p)

-- The other reducers' keys are in other partitions, so a call for `k` leaves their values.
pub others-Works :
    (owner : Str → Option ℕ) (t u : Table) (m : Values) (k : Str) (i p : ℕ) (out : List (Str × ℕ))
    (w : Worker)
    → owner k ≡ some i
    → p ≢ i
    → Extends t k u
    → Works owner t m p out w
    → Works owner u (set_values m k (rest_of (m k))) p out w
others-Works owner t u m k i p out w own ne ext h =
    let other : (j : Str) → HasKey j w.todo → j ≢ k =
      λ j z e. ne (some-injective p i (sym (h.owned j z) ∙ ap owner e ∙ own)) in
    let keep = λ (j : Str) (z : HasKey j w.todo). set_values_ne m k (rest_of (m k)) j (other j z) in
    record {
      ascending = h.ascending;
      placed = λ j z. let was = h.placed j z in (was.0, ext.keeps was.0 j was.1);
      owned = h.owned;
      total =
          ap (λ l. w.printed ++ l)
            (to_print-same m (set_values m k (rest_of (m k))) w.count w.todo keep)
          ∙ h.total;
    }

-- The two ways a call of `get_next` ends, for the list of values that it finds.
first_some : (vs : List Str) (v : Str) → first vs ≡ some v → length vs ≡ suc (length (rest_of vs))
unfolding first rest_of
first_some [] v e = cc
first_some (w ∷ vs) v e = refl

first_none : (vs : List Str) → first vs ≡ none → length vs ≡ 0
unfolding first
first_none [] e = refl
first_none (w ∷ vs) e = cc

-- The reducer itself, whose first key is `n.key`.
module _ (owner : Str → Option ℕ) (t u : Table) (m : Values) (n : Node) (ns : List Node) (p : ℕ)
    (c : ℕ) (done out : List (Str × ℕ)) (ext : Extends t n.key u)
    (h : Works owner t m p out (record { todo = n ∷ ns; count = c; printed = done })) where
  still : (k : Str) → HasKey k (n ∷ ns) → (q : ℕ) × ((u q).key ≡ some k)
  still k z = let was = h.placed k z in (was.0, ext.keeps was.0 k was.1)

  rest : counted (set_values m n.key (rest_of (m n.key))) ns ≡ counted m ns
  rest =
      counted-same m (set_values m n.key (rest_of (m n.key))) ns (λ k z.
        set_values_ne m n.key (rest_of (m n.key)) k (AllAbove-ne n.key k ns h.ascending.0 z))

  now : length (set_values m n.key (rest_of (m n.key)) n.key) ≡ length (rest_of (m n.key))
  now = ap length (set_values_self m n.key (rest_of (m n.key)))

  pub counts-Works :
      (v : Str)
      → first (m n.key) ≡ some v
      → Works owner u
          (set_values m n.key (rest_of (m n.key)))
          p
          out
          (record { todo = n ∷ ns; count = c + 1; printed = done })
  counts-Works v e =
      let size = first_some (m n.key) v e in
      record {
        ascending = h.ascending;
        placed = still;
        owned = h.owned;
        total =
            ap (λ l. done ++ l) (ap₂ (λ (i : ℕ) l. (n.key, i) ∷ l) (omega (arith, size, now)) rest)
            ∙ h.total;
      }

  pub prints-Works :
      first (m n.key) ≡ none
      → Works owner u
          (set_values m n.key (rest_of (m n.key)))
          p
          out
          (record { todo = ns; count = 0; printed = done ++ ((n.key, c) ∷ []) })
  prints-Works e =
      let size = first_none (m n.key) e in
      let line : ◌≡◌ {A = List (Str × ℕ)} ((n.key, c) ∷ []) ((n.key, c + length (m n.key)) ∷ []) =
        ap (λ (i : ℕ). (n.key, i) ∷ []) (omega (arith, size)) in
      record {
        ascending = h.ascending.1;
        placed = λ k z. still k (inr z);
        owned = λ k z. h.owned k (inr z);
        total =
            append_assoc done ((n.key, c) ∷ [])
              (to_print (set_values m n.key (rest_of (m n.key))) 0 ns)
            ∙ ap₂ (λ l r. done ++ (l ++ r)) line
                (to_print-zero (set_values m n.key (rest_of (m n.key))) ns ∙ rest)
            ∙ h.total;
      }
