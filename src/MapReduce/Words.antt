-- ===== src/MapReduce/Words.antt =====
-- The words that `Map` of P4a/wordcount.c emits for a file.
use operating_systems_three.Prelude.{
  ℕ, ◌≡◌, ◌⊎◌, inl, inr, refl, sym, ap, arith, true, false, Bool-cases, List, [], ◌∷◌, ◌++◌, map,
  c_str, lines, IsText, c_str-IsText, IsText-left, IsText-right, concat, concat-lines, subst,
}
use operating_systems_three.MapReduce.{Str}
use operating_systems_three.MapReduce.WordCount.{
  is_separator, join_token, tokens, with_ones, map_lines, map_file,
}

-- A blank, a tab, a newline or a carriage return.
abbrev pub Separator : ℕ → Type 0
Separator c = (c ≡ 32) ⊎ ((c ≡ 9) ⊎ ((c ≡ 10) ⊎ (c ≡ 13)))

abbrev pub AllLetters : Str → Type 0
AllLetters [] = Unit
AllLetters (c ∷ cs) = (¬ Separator c) × AllLetters cs

-- The text is these words, none of which has a separator in it, with one separator between each word
-- and the next.
abbrev pub Spells : List Str → Str → Type 0
Spells [] cs = ⊥
Spells (w ∷ []) cs = AllLetters w × (cs ≡ w)
Spells (w ∷ v ∷ ws) cs =
    AllLetters w
    × ((c : ℕ) × (rest : Str) × Separator c × (cs ≡ w ++ c ∷ rest) × Spells (v ∷ ws) rest)

-- The pairs are the words of the lines, line after line, each with the value "1".
abbrev pub Counts : List (Str × Str) → List (List ℕ) → Type 0
Counts es [] = es ≡ []
Counts es (l ∷ ls) =
    (ws : List Str) × (later : List (Str × Str)) × (es ≡ map (λ w. (w, 49 ∷ [])) ws ++ later)
    × Spells ws l
    × Counts later ls

Separator-yes : (c : ℕ) → is_separator c ≡ true → Separator c
unfolding is_separator
Separator-yes c e = ground arith

Separator-not : (c : ℕ) → is_separator c ≡ false → ¬ Separator c
unfolding is_separator
Separator-not c e h = ground arith

Spells-join_token :
    (c : ℕ) (ws : List Str) (cs : Str)
    → ¬ Separator c
    → Spells ws cs
    → Spells (join_token c ws) (c ∷ cs)
unfolding join_token
Spells-join_token c [] cs e h = elim h [ ]
Spells-join_token c (w ∷ []) cs e h = ((e, h.0), ap (λ l. c ∷ l) h.1)
Spells-join_token c (w ∷ v ∷ ws) cs e h =
    let (letters, (s, rest, sep, whole, later)) = h in
    ((e, letters), (s, rest, sep, ap (λ l. c ∷ l) whole, later))

Spells-next :
    (c : ℕ) (ws : List Str) (cs : Str) → Separator c → Spells ws cs → Spells ([] ∷ ws) (c ∷ cs)
Spells-next c [] cs e h = elim h [ ]
Spells-next c (v ∷ ws) cs e h = (tt, (c, cs, e, refl, h))

Spells-tokens : (cs : Str) → Spells (tokens cs) cs
unfolding tokens
Spells-tokens [] = (tt, refl)
Spells-tokens (c ∷ cs) = elim (Bool-cases (is_separator c)) [
  | inl e ↦ rw e (Spells-next c (tokens cs) cs (Separator-yes c e) (Spells-tokens cs))
  | inr e ↦ rw e (Spells-join_token c (tokens cs) cs (Separator-not c e) (Spells-tokens cs))
]

with_ones-map : (ws : List Str) → with_ones ws ≡ map (λ w. (w, 49 ∷ [])) ws
unfolding with_ones
with_ones-map [] = refl
with_ones-map (w ∷ ws) = ap (λ l. (w, 49 ∷ []) ∷ l) (with_ones-map ws)

Counts-map_lines : (ls : List (List ℕ)) → IsText (concat ls) → Counts (map_lines ls) ls
unfolding map_lines
Counts-map_lines [] h = refl
Counts-map_lines (l ∷ ls) h =
    let text = c_str-IsText l (IsText-left l (concat ls) h) in
    (
      tokens (c_str l),
      map_lines ls,
      ap (λ es. es ++ map_lines ls) (with_ones-map (tokens (c_str l))),
      subst (Spells (tokens (c_str l))) text (Spells-tokens (c_str l)),
      Counts-map_lines ls (IsText-right l (concat ls) h),
    )

-- For a file without NUL bytes, `Map` emits with the value "1", line after line, exactly the words
-- between the separators of each line, in their order. A word has no separator in it, and is empty
-- where two separators stand side by side, or one at the start or the end of the line.
pub map_file-Counts : (bytes : List ℕ) → IsText bytes → Counts (map_file bytes) (lines bytes)
unfolding map_file
map_file-Counts bytes h = Counts-map_lines (lines bytes) (subst IsText (sym (concat-lines bytes)) h)
