-- ===== src/MapReduce/Reducers.antt =====
-- The reducers of P4a/wordcount.c side by side, each a thread of `MR_Run` in P4a/mapreduce.c.
use operating_systems_three.Prelude.{ℕ, ◌+◌, ◌≡◌, Option, none, some, update, List, [], ◌∷◌, ◌++◌}
use operating_systems_three.MapReduce.{Str, Table, Node, State, get_next}

-- Where a reducer stands: the keys it still has, of which it counts the first, the count so far, and
-- the lines it has printed.
pub record Worker : Type 0 where
  pub todo : List Node
  pub count : ℕ
  pub printed : List (Str × ℕ)

pub record Sys : Type 0 where
  pub table : Table
  pub worker : ℕ → Worker

abbrev pub set_out : State → Sys
set_out s = record {
  table = s.data_values;
  worker = λ p. record { todo = s.sorted_data p; count = 0; printed = [] };
}

abbrev pub Taken : Type 0
Taken = Option (Option Str × Table)

-- A call of `get_next` and what `Reduce` does with its result: it counts a value, or it prints the
-- key's line and returns, and `reduce_thread` goes on to the next key. The calls of several threads
-- come in any order; each reads and writes the slot of its own key.
pub data Step (room : ℕ → ℕ) (a : Sys) : Sys → Type 0 where
  counts :
      (p : ℕ) (n : Node) (ns : List Node) (v : Str) (u : Table) (w : Worker)
      → (a.worker p).todo ≡ n ∷ ns
      → ◌≡◌ {A = Taken} (get_next room n.key a.table) (some (some v, u))
      → w ≡ record (a.worker p) { count = (a.worker p).count + 1 }
      → Step room a (record { table = u; worker = update a.worker p w })
  prints :
      (p : ℕ) (n : Node) (ns : List Node) (u : Table) (w : Worker)
      → (a.worker p).todo ≡ n ∷ ns
      → ◌≡◌ {A = Taken} (get_next room n.key a.table) (some (none, u))
      → w ≡ (record {
        todo = ns;
        count = 0;
        printed = (a.worker p).printed ++ ((n.key, (a.worker p).count) ∷ []);
      })
      → Step room a (record { table = u; worker = update a.worker p w })

pub data Runs (room : ℕ → ℕ) (s : State) : Sys → Type 0 where
  starts : Runs room s (set_out s)
  steps : {a b : Sys} → Runs room s a → Step room a b → Runs room s b
