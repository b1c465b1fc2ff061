-- ===== src/MapReduce/Rounds.antt =====
-- The rounds in which `MR_Run` of P4a/mapreduce.c starts its mappers.
use operating_systems_three.Prelude.{
  ℕ, zero, suc, ◌<◌, ◌≤◌, ◌≡◌, refl, ap, ◌∙◌, arith, none, some, List, [], ◌∷◌, ◌++◌, length,
}
use operating_systems_three.MapReduce.{Str, round, map_rounds}

-- The arguments of all mappers, in the order in which they were started.
unfoldable pub all_started : List (List Str) → List Str
all_started [] = []
all_started (b ∷ bs) = b ++ all_started bs

-- Each round starts a mapper, and no more than `n` run at a time.
abbrev pub AllFit : ℕ → List (List Str) → Type 0
AllFit n [] = Unit
AllFit n (b ∷ bs) = (0 < length b) × (length b ≤ n) × AllFit n bs

round-append : (n : ℕ) (args : List Str) → (round n args).0 ++ (round n args).1 ≡ args
unfolding round
round-append zero args = refl
round-append (suc n) [] = refl
round-append (suc n) (a ∷ args) = ap (λ (l : List Str). a ∷ l) (round-append n args)

length-round : (n : ℕ) (args : List Str) → length (round n args).0 ≤ n
unfolding round
length-round zero args = omega arith
length-round (suc n) [] = omega arith
length-round (suc n) (a ∷ args) = omega (arith, length-round n args)

length-rest : (n : ℕ) (args : List Str) → length (round n args).1 ≤ length args
unfolding round
length-rest zero args = omega arith
length-rest (suc n) [] = omega arith
length-rest (suc n) (a ∷ args) = omega (arith, length-rest n args)

map_rounds-step :
    (r n : ℕ) (a : Str) (args : List Str) (later : List (List Str))
    → map_rounds r n (round n (a ∷ args)).1 ≡ some later
    → map_rounds (suc r) n (a ∷ args) ≡ some ((round n (a ∷ args)).0 ∷ later)
unfolding map_rounds
map_rounds-step r n a args later e = rw (e, map_rounds) refl

-- With at least one thread to a round, the loops come to an end after at most as many rounds as
-- there are files: a mapper has been started for each file, in order, and no round started more
-- than `num_mappers` threads, or none.
pub map_rounds-AllFit :
    (r num_mappers : ℕ) (args : List Str)
    → 0 < num_mappers
    → length args ≤ r
    → (rounds : List (List Str)) × (map_rounds r num_mappers args ≡ some rounds)
      × (all_started rounds ≡ args)
      × AllFit num_mappers rounds
unfolding all_started
map_rounds-AllFit r n [] pos l = ([], unfold map_rounds in refl, refl, tt)
map_rounds-AllFit zero n (a ∷ args) pos l = absurd (omega (arith, l))
map_rounds-AllFit (suc r) zero (a ∷ args) pos l = absurd (omega (arith, pos))
map_rounds-AllFit (suc r) (suc n) (a ∷ args) pos l =
    let now = round (suc n) (a ∷ args) in
    let left : length now.1 ≤ r = unfold round in omega (arith, l, length-rest n args) in
    let some_now : 0 < length now.0 = unfold round in omega arith in
    let later = map_rounds-AllFit r (suc n) now.1 pos left in
    (
      now.0 ∷ later.0,
      map_rounds-step r (suc n) a args later.0 later.1,
      ap (λ l. now.0 ++ l) later.2 ∙ round-append (suc n) (a ∷ args),
      (some_now, length-round (suc n) (a ∷ args), later.3),
    )

-- With no thread to a round the loops never end while there is a file.
pub map_rounds-stuck : (r : ℕ) (a : Str) (args : List Str) → map_rounds r 0 (a ∷ args) ≡ none
unfolding map_rounds round
map_rounds-stuck zero a args = refl
map_rounds-stuck (suc r) a args = rw (map_rounds-stuck r a args, map_rounds) refl
