-- ===== src/MapReduce/Examples.antt =====
-- A run over the words "b a b".
use operating_systems_three.Prelude.{
  ℕ, ◌+◌, ◌*◌, ◌/◌, ◌≡◌, ◌≢◌, ◌↔◌, ◌⊎◌, ◌==◌, if◌then◌else◌, none, inl, inr, refl, true, false,
  Bool, Bool-cases, ℕ_discrete, subst, ap, sym, ◌∙◌, update_self, arith, Option, some, List, [],
  ◌∷◌, codes, update, lines, c_str,
}
use operating_systems_three.MapReduce.{
  Str, strcmp, same, hash, mr_default_hash_partition, Table, Node, State, stops, probe, find,
  can_claim, claim, DataItem, emit_value, pop, get_next, partition_of, emit_key, mr_emit, round,
  map_rounds,
}
use operating_systems_three.MapReduce.WordCount.{
  is_separator, join_token, tokens, with_ones, map_lines, map_file,
}
use operating_systems_three.MapReduce.Rounds.{all_started, AllFit, map_rounds-AllFit}
use operating_systems_three.MapReduce.Words.{Counts, map_file-Counts}
use operating_systems_three.MapReduce.Reducers.{Sys, set_out, counts, Runs, starts, steps}
use operating_systems_three.MapReduce.Values.{Values, Holds, set_values, put-Holds}
use operating_systems_three.MapReduce.Operations.{
  HasRoom, behind, Extends, first, rest_of, emit_value-Holds, get_next-Holds,
}
use operating_systems_three.MapReduce.Keys.{IsAscending, HasKey}
use operating_systems_three.MapReduce.Links.{emit_key_lem}
use operating_systems_three.MapReduce.Counts.{IsReady, counted}
use operating_systems_three.MapReduce.Emits.{mr_emit-IsReady}
use operating_systems_three.MapReduce.Moves.{reducers-print}

-- An allocator that hands out blocks of 16, 32, 48 ... bytes, and memory that is not cleared.
abbrev room : ℕ → ℕ
room n = n / 16 * 16 + 16

abbrev junk : List Str
junk = (120 ∷ []) ∷ []

abbrev empty_table : Table
empty_table _ = record { key = none; vals = [] }

abbrev start_state : State
start_state = record { data_values = empty_table; sorted_data = λ _. [] }

none_ne_some : (k : Str) → none ≢ some k
none_ne_some k e = cc

abbrev word_a : Str
word_a = 97 ∷ []

abbrev word_b : Str
word_b = 98 ∷ []

slot_a : find word_a empty_table ≡ some 77670
unfolding find probe stops mr_default_hash_partition hash
slot_a = refl

abbrev one_word : Str
one_word = 49 ∷ []

abbrev node_b : Node
node_b = record { key = word_b; index = 77671 }

-- What the slot of "b" has after "b" and "b": the unset link leads to `junk`.
abbrev two_values : DataItem
two_values = record { key = some word_b; vals = one_word ∷ one_word ∷ junk }

abbrev after_bb : State
after_bb = record {
  data_values = update empty_table 77671 two_values;
  sorted_data = λ p. if p == 1 then node_b ∷ [] else [];
}

abbrev owner : Str → Option ℕ
owner = partition_of mr_default_hash_partition 2

abbrev no_values : Values
no_values k = []

empty_Holds : Holds empty_table no_values
empty_Holds = record {
  found = λ p k e. absurd (none_ne_some k e);
  held = λ p k e. absurd (none_ne_some k e);
  unused = λ p e. refl;
  absent = λ k p f e. refl;
}

start-IsReady : IsReady owner no_values start_state
start-IsReady = record {
  table = empty_Holds;
  ascending = λ p. tt;
  placed = λ p k z. elim z [ ];
  owned = λ p k z. elim z [ ];
}

abbrev Emitted : State → Values → Str → Type 0
Emitted s m k =
    ((u : State) × (mr_emit room junk mr_default_hash_partition 2 k one_word s ≡ some u)
      × IsReady owner (set_values m k (one_word ∷ behind junk (m k))) u
      × ((p : ℕ) (j : Str)
          → HasKey j (u.sorted_data p)
            ↔ (((j ≡ k) × (owner k ≡ some p)) ⊎ HasKey j (s.sorted_data p))))
    ⊎ ((mr_emit room junk mr_default_hash_partition 2 k one_word s ≡ none)
        × ((owner k ≡ none)
            ⊎ ((find k s.data_values ≡ none) ⊎ ((¬ HasRoom room one_word) ⊎ (¬ HasRoom room k)))))

mr_emit-IsReady_example : Emitted start_state no_values word_b
mr_emit-IsReady_example =
    mr_emit-IsReady room junk mr_default_hash_partition 2 word_b one_word start_state no_values
      start-IsReady

abbrev pairs : List (Str × Str)
pairs = (word_b, one_word) ∷ (word_a, one_word) ∷ (word_b, one_word) ∷ []

emitted_pairs : map_file (codes "b a b") ≡ pairs
unfolding map_file map_lines with_ones tokens is_separator join_token lines c_str
emitted_pairs = refl

abbrev files : List Str
files = word_a ∷ word_b ∷ word_a ∷ []

map_rounds-AllFit_example :
    (rounds : List (List Str)) × (map_rounds 3 2 files ≡ some rounds)
    × (all_started rounds ≡ files)
    × AllFit 2 rounds
map_rounds-AllFit_example = map_rounds-AllFit 3 2 files (omega arith) (omega arith)

two_rounds : map_rounds 3 2 files ≡ some ((word_a ∷ word_b ∷ []) ∷ (word_a ∷ []) ∷ [])
unfolding map_rounds round
two_rounds = refl

emit_value-Holds_example :
    ((u : Table) × (emit_value room junk word_a one_word empty_table ≡ some (77670, u))
      × Holds u (set_values no_values word_a (one_word ∷ behind junk (no_values word_a)))
      × Extends empty_table word_a u
      × HasRoom room one_word
      × ((empty_table 77670).key ≡ none → HasRoom room word_a))
    ⊎ ((emit_value room junk word_a one_word empty_table ≡ none)
        × ((¬ HasRoom room one_word)
            ⊎ (((empty_table 77670).key ≡ none) × (¬ HasRoom room word_a))))
emit_value-Holds_example =
    emit_value-Holds room junk word_a one_word empty_table no_values 77670 empty_Holds slot_a

get_next-Holds_example :
    ((u : Table) × (get_next room word_a empty_table ≡ some (first (no_values word_a), u))
      × Holds u (set_values no_values word_a (rest_of (no_values word_a)))
      × Extends empty_table word_a u
      × ((empty_table 77670).key ≡ none → HasRoom room word_a))
    ⊎ ((get_next room word_a empty_table ≡ none)
        × ((empty_table 77670).key ≡ none)
        × (¬ HasRoom room word_a))
get_next-Holds_example = get_next-Holds room word_a empty_table no_values 77670 empty_Holds slot_a

emit_key_lem_example :
    ((u : State) × (emit_key room word_a 77670 1 after_bb ≡ some u)
      × IsAscending (u.sorted_data 1)
      × ((j : Str)
          → HasKey j (u.sorted_data 1) ↔ ((j ≡ word_a) ⊎ HasKey j (after_bb.sorted_data 1)))
      × ((q : ℕ) → q ≢ 1 → u.sorted_data q ≡ after_bb.sorted_data q)
      × (u.data_values ≡ after_bb.data_values))
    ⊎ ((emit_key room word_a 77670 1 after_bb ≡ none)
        × (¬ HasKey word_a (after_bb.sorted_data 1))
        × (¬ HasRoom room word_a))
emit_key_lem_example = emit_key_lem room word_a 77670 1 after_bb (tt, tt)

map_file-Counts_example : Counts (map_file (codes "b a b")) (lines (codes "b a b"))
map_file-Counts_example = map_file-Counts (codes "b a b") (omega arith)

slot_b : find word_b empty_table ≡ some 77671
unfolding find probe stops mr_default_hash_partition hash
slot_b = refl

abbrev bb_values : Values
bb_values = set_values no_values word_b (one_word ∷ one_word ∷ junk)

bb_keys : (p : ℕ) (k : Str) → HasKey k (after_bb.sorted_data p) → (p ≡ 1) × (k ≡ word_b)
bb_keys p k z = elim (ℕ_discrete p 1) [
  | yes e ↦
      let here : (p == 1) ≡ true = ground arith in
      let z' : HasKey k (node_b ∷ []) =
        subst (λ (b : Bool). HasKey k (if b then node_b ∷ [] else [])) here z in
      (e, elim z' [ inl f ↦ f | inr g ↦ elim g [ ] ])
  | no ne ↦
      let away : (p == 1) ≡ false = ground arith in
      absurd (subst (λ (b : Bool). HasKey k (if b then node_b ∷ [] else [])) away z)
]

bb-IsAscending : (p : ℕ) → IsAscending (after_bb.sorted_data p)
bb-IsAscending p = elim (Bool-cases (p == 1)) [ inl e ↦ rw e (tt, tt) | inr e ↦ rw e tt ]

owner_b : owner word_b ≡ some 1
unfolding partition_of mr_default_hash_partition hash
owner_b = refl

bb-IsReady : IsReady owner bb_values after_bb
bb-IsReady = record {
  table = put-Holds empty_table no_values word_b 77671 two_values empty_Holds slot_b refl;
  ascending = bb-IsAscending;
  placed = λ p k z. (
    77671,
    ap (λ (x : DataItem). x.key) (update_self empty_table 77671 two_values)
        ∙ ap some (sym (bb_keys p k z).1),
  );
  owned = λ p k z. ap owner (bb_keys p k z).1 ∙ owner_b ∙ ap some (sym (bb_keys p k z).0);
}

-- The table without the value of `word_b` that was added last.
abbrev without_last : Table → Table
without_last t = update t 77671 (pop (claim word_b (t 77671))).1

abbrev one_taken : Sys
one_taken = record {
  table = without_last after_bb.data_values;
  worker =
      update (set_out after_bb).worker 1 (record { todo = node_b ∷ []; count = 1; printed = [] });
}

one_step : Runs room after_bb one_taken
unfolding get_next find probe stops mr_default_hash_partition hash pop claim update same strcmp
    can_claim
one_step = steps starts (
    counts 1 node_b [] one_word (without_last after_bb.data_values)
      (record { todo = node_b ∷ []; count = 1; printed = [] }) refl refl refl)

reducers-print_example :
    (((one_taken.worker 1).todo ≡ [])
      × ((one_taken.worker 1).printed ≡ counted bb_values (after_bb.sorted_data 1)))
    ⊎ ((n : Node) × (ns : List Node) × ((one_taken.worker 1).todo ≡ n ∷ ns)
        × ((o : Option Str) × (u : Table) × (get_next room n.key one_taken.table ≡ some (o, u))))
reducers-print_example =
    reducers-print owner room bb_values after_bb one_taken 1 bb-IsReady one_step
