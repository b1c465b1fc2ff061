-- ===== src/MapReduce/Counts.antt =====
-- What the threads of P4a/mapreduce.c that run `Reduce` of P4a/wordcount.c print.
use operating_systems_three.Prelude.{
  ℕ, zero, suc, ◌+◌, ◌<◌, ◌≡◌, ◌≢◌, ◌⊎◌, inl, inr, refl, sym, ap, ◌∙◌, arith, Option, none, some,
  subst, List, [], ◌∷◌, ◌++◌, length, append_assoc, append-nil,
}
use operating_systems_three.MapReduce.{Str, Table, Node, get_next, reduce_all, State}
use operating_systems_three.MapReduce.Strings.{Less, Less-irrefl}
use operating_systems_three.MapReduce.Keys.{AllAbove, IsAscending, HasKey}
use operating_systems_three.MapReduce.Operations.{first, rest_of, get_next-held}
use operating_systems_three.MapReduce.Values.{
  Values, set_values, set_values_ne, set_values_self, Holds,
}
use operating_systems_three.MapReduce.WordCount.{count_values, Printed, reduce}

-- What calls of `get_next` for the keys `gone` leave: every key has its slot, and the other keys
-- their values.
pub record Drained (gone : Str → Type 0) (t : Table) (m : Values) (u : Table) : Type 0 where
  pub left : Values
  pub table : Holds u left
  pub keeps : (p : ℕ) (k' : Str) → (t p).key ≡ some k' → (u p).key ≡ some k'
  pub others : (k' : Str) → ¬ gone k' → left k' ≡ m k'

list-cases : (vs : List Str) → (vs ≡ []) ⊎ ((v : Str) × (ws : List Str) × (vs ≡ v ∷ ws))
list-cases [] = inl refl
list-cases (v ∷ vs) = inr (v, vs, refl)

abbrev Next : Type 0
Next = Option (Option Str × Table)

count_values-end :
    (room : ℕ → ℕ) (r : ℕ) (k : Str) (t : Table) (n : ℕ) (u : Table)
    → ◌≡◌ {A = Next} (get_next room k t) (some (none, u))
    → count_values room (suc r) k t n ≡ some (n, u)
unfolding count_values
count_values-end room r k t n u e = rw (e, count_values) refl

count_values-step :
    (room : ℕ → ℕ) (r : ℕ) (k : Str) (t : Table) (n : ℕ) (v : Str) (u : Table)
    → ◌≡◌ {A = Next} (get_next room k t) (some (some v, u))
    → count_values room (suc r) k t n ≡ count_values room r k u (n + 1)
unfolding count_values
count_values-step room r k t n v u e = rw (e, count_values) refl

-- The loop counts the values of its key and leaves none, in as many rounds as there are values and
-- one more.
count_values-lem :
    (room : ℕ → ℕ) (r : ℕ) (k : Str) (t : Table) (n p : ℕ) (m : Values)
    → Holds t m
    → (t p).key ≡ some k
    → length (m k) < r
    → (u : Table) × (count_values room r k t n ≡ some (n + length (m k), u))
      × Drained (λ j. j ≡ k) t m u
count_values-lem room zero k t n p m h e l = absurd (omega (arith, l))
count_values-lem room (suc r) k t n p m h e l =
    let got = get_next-held room k t m p h e in
    let others = λ (k' : Str) (ne : k' ≢ k). set_values_ne m k (rest_of (m k)) k' ne in
    elim (list-cases (m k)) [
      | inl z ↦
          let none_left : first (m k) ≡ none = unfold first in ap first z in
          let zero_left : length (m k) ≡ 0 = ap length z in
          (
            got.0,
            count_values-end room r k t n got.0 (
                  subst (λ o. ◌≡◌ {A = Next} (get_next room k t) (some (o, got.0))) none_left got.1)
                ∙ rw zero_left (ap (λ c. some (c, got.0)) (omega arith)),
            record {
              left = set_values m k (rest_of (m k));
              table = got.2;
              keeps = got.3.keeps;
              others = others;
            },
          )
      | inr (v, vs, z) ↦
          let one : first (m k) ≡ some v = unfold first in ap first z in
          let tail : rest_of (m k) ≡ vs = unfold rest_of in ap rest_of z in
          let lens : length (m k) ≡ suc (length vs) = ap length z in
          let now = set_values_self m k (rest_of (m k)) ∙ tail in
          let size : length (set_values m k (rest_of (m k)) k) ≡ length vs = ap length now in
          let more =
            count_values-lem room r k got.0 (n + 1) p (set_values m k (rest_of (m k))) got.2
              (got.3.keeps p k e) (omega (arith, l, lens, size)) in
          (
            more.0,
            count_values-step room r k t n v got.0
                  (subst (λ o. ◌≡◌ {A = Next} (get_next room k t) (some (o, got.0))) one got.1)
                ∙ more.1
                ∙ ap (λ c. some (c, more.0)) (omega (arith, lens, size)),
            record {
              left = more.2.left;
              table = more.2.table;
              keeps = λ q k' f. more.2.keeps q k' (got.3.keeps q k' f);
              others = λ k' ne. more.2.others k' ne ∙ others k' ne;
            },
          )
    ]

-- The keys of a partition with the numbers of their values.
unfoldable pub counted : Values → List Node → List (Str × ℕ)
counted m [] = []
counted m (n ∷ ns) = (n.key, length (m n.key)) ∷ counted m ns

pub counted-same :
    (m m' : Values) (ns : List Node)
    → ((k : Str) → HasKey k ns → m' k ≡ m k)
    → counted m' ns ≡ counted m ns
unfolding counted
counted-same m m' [] h = refl
counted-same m m' (n ∷ ns) h =
    rw (h n.key (inl refl), counted-same m m' ns (λ k z. h k (inr z))) refl

pub AllAbove-ne : (a k : Str) (ns : List Node) → AllAbove a ns → HasKey k ns → k ≢ a
AllAbove-ne a k [] h z e = z
AllAbove-ne a k (n ∷ ns) h z e = elim z [
  | inl f ↦ Less-irrefl a (subst (Less a) (sym f ∙ e) h.0)
  | inr f ↦ AllAbove-ne a k ns h.1 f e
]

reduce-counts :
    (room : ℕ → ℕ) (r : ℕ) (k : Str) (p : ℕ) (t u : Table) (out : List (Str × ℕ)) (n : ℕ)
    → count_values room r k t 0 ≡ some (0 + n, u)
    → reduce room r k p (t, out) ≡ some (u, out ++ ((k, n) ∷ []))
unfolding reduce
reduce-counts room r k p t u out n e =
    let e' : count_values room r k t 0 ≡ some (n, u) =
      e ∙ ap (λ (c : ℕ). some (c, u)) (omega arith) in
    rw (e', reduce) refl

reduce_all-step :
    (room : ℕ → ℕ) (r p : ℕ) (n : Node) (ns : List Node) (a b : Printed)
    → reduce room r n.key p a ≡ some b
    → reduce_all (reduce room r) p (n ∷ ns) a ≡ reduce_all (reduce room r) p ns b
unfolding reduce_all
reduce_all-step room r p n ns a b e = rw (e, reduce_all) refl

-- Whatever reducers of other partitions have done, one that runs prints the keys of its partition
-- with the numbers of their values.
pub reduce_all-lem :
    (room : ℕ → ℕ) (r p : ℕ) (ns : List Node) (t : Table) (out : List (Str × ℕ)) (m : Values)
    → Holds t m
    → IsAscending ns
    → ((k : Str) → HasKey k ns → (q : ℕ) × ((t q).key ≡ some k))
    → ((k : Str) → HasKey k ns → length (m k) < r)
    → (u : Table) × (reduce_all (reduce room r) p ns (t, out) ≡ some (u, out ++ counted m ns))
      × Drained (λ k. HasKey k ns) t m u
unfolding counted
reduce_all-lem room r p [] t out m h asc placed few = (
  t,
  unfold reduce_all in ap (λ o. some (t, o)) (sym (append-nil out)),
  record { left = m; table = h; keeps = λ q k e. e; others = λ k z. refl },
)
reduce_all-lem room r p (n ∷ ns) t out m h asc placed few =
    let slot = placed n.key (inl refl) in
    let now = count_values-lem room r n.key t 0 slot.0 m h slot.1 (few n.key (inl refl)) in
    let here = (n.key, length (m n.key)) ∷ [] in
    let same_left : (k : Str) → HasKey k ns → now.2.left k ≡ m k =
      λ k z. now.2.others k (AllAbove-ne n.key k ns asc.0 z) in
    let later =
      reduce_all-lem room r p ns now.0 (out ++ here) now.2.left now.2.table asc.1
        (λ k z. ((placed k (inr z)).0, now.2.keeps (placed k (inr z)).0 k (placed k (inr z)).1))
        (λ k z. subst (λ l. length l < r) (sym (same_left k z)) (few k (inr z))) in
    (
      later.0,
      reduce_all-step room r p n ns (t, out) (now.0, out ++ here)
            (reduce-counts room r n.key p t now.0 out (length (m n.key)) now.1)
          ∙ later.1
          ∙ ap (λ c. some (later.0, c))
              (rw (counted-same m now.2.left ns same_left) (append_assoc out here (counted m ns))),
      record {
        left = later.2.left;
        table = later.2.table;
        keeps = λ q k e. later.2.keeps q k (now.2.keeps q k e);
        others = λ k z. later.2.others k (λ y. z (inr y)) ∙ now.2.others k (λ y. z (inl y));
      },
    )

-- The table has the values `m`, the keys of each partition are in order, each once, they have their
-- slots in the table, and they belong to the partition.
pub record IsReady (owner : Str → Option ℕ) (m : Values) (s : State) : Type 0 where
  pub table : Holds s.data_values m
  pub ascending : (p : ℕ) → IsAscending (s.sorted_data p)
  pub placed :
      (p : ℕ) (k : Str) → HasKey k (s.sorted_data p) → (q : ℕ) × ((s.data_values q).key ≡ some k)
  pub owned : (p : ℕ) (k : Str) → HasKey k (s.sorted_data p) → owner k ≡ some p
