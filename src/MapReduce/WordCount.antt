-- ===== src/MapReduce/WordCount.antt =====
-- P4a/wordcount.c: what `Map` emits for a file, and what `Reduce` prints for a key.
use operating_systems_three.Prelude.{
  ℕ, zero, suc, ◌+◌, ◌==◌, if◌then◌else◌, Bool, ◌||◌, Option, none, some, List, [], ◌∷◌, ◌++◌,
  c_str, lines,
}
use operating_systems_three.MapReduce.{Str, Table, get_next}

-- The separators of `strsep`: " \t\n\r".
unfoldable pub is_separator : ℕ → Bool
is_separator c = c == 32 || c == 9 || c == 10 || c == 13

-- Puts a byte in front of the first token.
unfoldable pub join_token : ℕ → List Str → List Str
join_token c [] = (c ∷ []) ∷ []
join_token c (w ∷ ws) = (c ∷ w) ∷ ws

-- The tokens that `strsep` finds in a line until it returns NULL; where two separators stand side by
-- side, and at an end, they are empty.
unfoldable pub tokens : Str → List Str
unfolding is_separator join_token
tokens [] = [] ∷ []
tokens (c ∷ cs) = if is_separator c then [] ∷ tokens cs else join_token c (tokens cs)

unfoldable pub with_ones : List Str → List (Str × Str)
with_ones [] = []
with_ones (w ∷ ws) = (w, 49 ∷ []) ∷ with_ones ws

-- The pairs that `Map` emits, in their order, for a file with these lines.
unfoldable pub map_lines : List (List ℕ) → List (Str × Str)
map_lines [] = []
map_lines (l ∷ ls) = with_ones (tokens (c_str l)) ++ map_lines ls

unfoldable pub map_file : List ℕ → List (Str × Str)
map_file bytes = map_lines (lines bytes)

-- The loop of `Reduce`, in at most `rounds` rounds; the count is taken to fit an `int`.
unfoldable pub count_values :
    (room : ℕ → ℕ) → (rounds : ℕ) → Str → Table → (count : ℕ) → Option (ℕ × Table)
count_values room zero k t n = none
count_values room (suc r) k t n = elim (get_next room k t) [
  | none ↦ none
  | some (none, u) ↦ some (n, u)
  | some (some v, u) ↦ count_values room r k u (n + 1)
]

-- The table, and the lines that were printed: a key and its count.
abbrev pub Printed : Type 0
Printed = Table × List (Str × ℕ)

unfoldable pub reduce :
    (room : ℕ → ℕ) → (rounds : ℕ) → Str → (partition : ℕ) → Printed → Option Printed
reduce room rounds k p (t, out) = elim (count_values room rounds k t 0) [
  | none ↦ none
  | some (n, u) ↦ some (u, out ++ ((k, n) ∷ []))
]
