-- ===== src/MapReduce.antt =====
-- P4a/mapreduce.c: the table of emitted values, the sorted keys of each partition, and the threads
-- of `MR_Run`.
mod Strings
mod Slots
mod Values
mod Operations
mod Keys
mod Links
mod Emits
mod Rounds
mod WordCount
mod Counts
mod Words
mod Reducers
mod Races
mod Moves
mod Examples
use operating_systems_three.Prelude.{
  ℕ, zero, suc, ◌+◌, ◌-◌, ◌*◌, ◌%◌, ◌^◌, ltb, if◌then◌else◌, ◌&&◌, length, Bool, true, false,
  Option, none, some, List, [], ◌∷◌, update,
}
use Prim.Native.Nat.{compare, Ordering}

-- The bytes of a C string, without the NUL.
abbrev pub Str : Type 0
Str = List ℕ

-- The C library's `strcmp`, whose result is read by its sign.
unfoldable pub strcmp : Str → Str → Ordering
strcmp [] [] = Ordering.eq
strcmp [] (y ∷ ys) = Ordering.lt
strcmp (x ∷ xs) [] = Ordering.gt
strcmp (x ∷ xs) (y ∷ ys) = elim (compare x y) [
  | Ordering.lt ↦ Ordering.lt
  | Ordering.eq ↦ strcmp xs ys
  | Ordering.gt ↦ Ordering.gt
]

unfoldable pub same : Str → Str → Bool
unfolding strcmp
same a b = elim (strcmp a b) [ Ordering.eq ↦ true | _ ↦ false ]

-- `SIZE`
abbrev pub table_size : ℕ
table_size = 100000

-- A byte above 127 is a negative `char`, which an `unsigned long` takes modulo 2 ^ 64.
unfoldable pub hash : ℕ → Str → ℕ
hash h [] = h
hash h (c ∷ cs) = hash ((h * 33 + (if ltb c 128 then c else (c + 2 ^ 64) - 256)) % 2 ^ 64) cs

unfoldable pub mr_default_hash_partition : Str → ℕ → ℕ
mr_default_hash_partition key num_partitions = hash 5381 key % num_partitions

-- An entry of `data_values`: its list of values is the one that starts at `data`.
pub record DataItem : Type 0 where
  pub key : Option Str
  pub vals : List Str

abbrev pub Table : Type 0
Table = ℕ → DataItem

-- `struct node`, without its link: the keys of a partition are a list.
pub record Node : Type 0 where
  pub key : Str
  pub index : ℕ

-- The loop that looks for a key goes on while the slot has another one.
unfoldable pub stops : Str → Option Str → Bool
stops k none = true
stops k (some k') = same k k'

-- The rounds are the slots that are left; the loop has no bound, and reads past the array where it
-- fills none of them.
unfoldable pub probe : (rounds : ℕ) → (pos : ℕ) → Str → Table → Option ℕ
probe zero pos k t = none
probe (suc n) pos k t =
    let rest = probe n (pos + 1) k t in if stops k (t pos).key then some pos else rest

unfoldable pub find : Str → Table → Option ℕ
find k t =
    let start = mr_default_hash_partition k table_size in probe (table_size - start) start k t

-- A slot with no key gets one.
unfoldable pub claim : Str → DataItem → DataItem
claim k d = elim d.key [ none ↦ record d { key = some k } | some _ ↦ d ]

-- `malloc(strlen(s))` and `strcpy`: whether the block has room for the copy with its NUL. `room` is how
-- many bytes the block of a request can hold, which the C library does not say beyond the request.
unfoldable pub fits : (room : ℕ → ℕ) → Str → Bool
fits room s = ltb (length s) (room (length s))

-- Whether the slot has a key already, or the copy of the key fits.
unfoldable pub can_claim : (room : ℕ → ℕ) → Str → DataItem → Bool
unfolding fits
can_claim room k d = elim d.key [ none ↦ fits room k | some _ ↦ true ]

-- The node that `malloc` gave is linked to the slot's values where there are some; otherwise its
-- link is what the memory held, which leads to the list `stale`.
unfoldable pub push : (stale : List Str) → Str → List Str → List Str
push stale v [] = v ∷ stale
push stale v (w ∷ ws) = v ∷ w ∷ ws

unfoldable pub add_value : (stale : List Str) → Str → DataItem → DataItem
add_value stale v d = record d { vals = push stale v d.vals }

-- `MR_Emit` while it holds `val_lock`, with the slot's place. `none`: the search leaves the table, or
-- a copy its block.
unfoldable pub emit_value :
    (room : ℕ → ℕ) → (stale : List Str) → (k v : Str) → Table → Option (ℕ × Table)
unfolding fits can_claim
emit_value room stale k v t = elim (find k t) [
  | none ↦ none
  | some p ↦
      if can_claim room k (t p) && fits room v
      then some (p, update t p (add_value stale v (claim k (t p))))
      else none
]

-- The value that is taken out, if there is one, and the slot without it.
unfoldable pub pop : DataItem → Option Str × DataItem
pop d = elim d.vals [ [] ↦ (none, d) | v ∷ vs ↦ (some v, record d { vals = vs }) ]

-- `NULL` is `none` inside. `none` outside: the search leaves the table, or a copy its block.
unfoldable pub get_next : (room : ℕ → ℕ) → Str → Table → Option (Option Str × Table)
unfolding can_claim
get_next room k t = elim (find k t) [
  | none ↦ none
  | some p ↦
      let taken = pop (claim k (t p)) in
      if can_claim room k (t p) then some (taken.0, update t p taken.1) else none
]

-- Whether the walk of `MR_Emit` through the keys of a partition ends at the key itself.
unfoldable pub listed : Str → List Node → Bool
listed k [] = false
listed k (n ∷ ns) =
    let rest = listed k ns in
    elim (strcmp k n.key) [ Ordering.gt ↦ rest | Ordering.eq ↦ true | Ordering.lt ↦ false ]

-- The key goes before the first that is not less, unless it is there.
unfoldable pub link : Str → (index : ℕ) → List Node → List Node
link k i [] = record { key = k; index = i } ∷ []
link k i (n ∷ ns) =
    let rest = link k i ns in
    elim (strcmp k n.key) [
      | Ordering.gt ↦ n ∷ rest
      | Ordering.eq ↦ n ∷ ns
      | Ordering.lt ↦ record { key = k; index = i } ∷ n ∷ ns
    ]

pub record State : Type 0 where
  pub data_values : Table
  pub sorted_data : ℕ → List Node

-- The partition as an `int`, where it is one of `partions`.
unfoldable pub partition_of : (partitioner : Str → ℕ → ℕ) → (partitions : ℕ) → Str → Option ℕ
partition_of partitioner partitions k =
    let p = partitioner k partitions % 2 ^ 32 in if ltb p partitions then some p else none

-- `MR_Emit` while it holds `sort_lock`. `none`: the copy of the key leaves its block.
unfoldable pub emit_key : (room : ℕ → ℕ) → Str → (index partition : ℕ) → State → Option State
unfolding fits
emit_key room k i p s =
    let ns = s.sorted_data p in
    if listed k ns
    then some s
    else (if fits room k
        then some (record s { sorted_data = update s.sorted_data p (link k i ns) })
        else none)

-- `none` where the code leaves one of the two arrays, or a copy its block.
unfoldable pub mr_emit :
    (room : ℕ → ℕ)
    → (stale : List Str) → (partitioner : Str → ℕ → ℕ) → (partitions : ℕ) → (k v : Str) → State
    → Option State
mr_emit room stale partitioner partitions k v s = elim (partition_of partitioner partitions k) [
  | none ↦ none
  | some p ↦ elim (emit_value room stale k v s.data_values) [
    | none ↦ none
    | some (i, t) ↦ emit_key room k i p (record s { data_values = t })
  ]
]

-- The loop of `reduce_thread`, where `reduce` acts on a state of its own that holds the table.
unfoldable pub reduce_all :
    {A : Type 0} → (reduce : Str → ℕ → A → Option A) → (partition : ℕ) → List Node → A → Option A
reduce_all reduce p [] a = some a
reduce_all reduce p (n ∷ ns) a = elim (reduce n.key p a) [
  | none ↦ none
  | some b ↦ reduce_all reduce p ns b
]

unfoldable pub reduce_thread :
    {A : Type 0} → (reduce : Str → ℕ → A → Option A) → (partition : ℕ) → State → A → Option A
reduce_thread reduce p s a = reduce_all reduce p (s.sorted_data p) a

-- The loops of `MR_Run` that start mappers: one round starts up to `num_mappers` threads and waits
-- for them. `none`: the rounds ran out before the arguments did.
unfoldable pub round : (num_mappers : ℕ) → List Str → List Str × List Str
round zero args = ([], args)
round (suc n) [] = ([], [])
round (suc n) (a ∷ args) = let rest = round n args in (a ∷ rest.0, rest.1)

unfoldable pub map_rounds : (rounds num_mappers : ℕ) → List Str → Option (List (List Str))
map_rounds rounds num_mappers [] = some []
map_rounds zero num_mappers (a ∷ args) = none
map_rounds (suc r) num_mappers (a ∷ args) =
    let now = round num_mappers (a ∷ args) in
    elim (map_rounds r num_mappers now.1) [ none ↦ none | some later ↦ some (now.0 ∷ later) ]
