-- ===== src/MapReduce/Strings.antt =====
-- The order that `strcmp` puts on strings.
use operating_systems_three.Prelude.{◌≡◌, refl, sym, ◌∙◌, arith, true, [], ◌∷◌}
use Prim.Native.Nat.{Ordering}
use operating_systems_three.MapReduce.{Str, strcmp, same}

abbrev pub Less : Str → Str → Type 0
Less a b = strcmp a b ≡ Ordering.lt

pub strcmp_refl : (a : Str) → strcmp a a ≡ Ordering.eq
unfolding strcmp
strcmp_refl [] = refl
strcmp_refl (x ∷ xs) = ground (arith, strcmp_refl xs)

pub strcmp_eq : (a b : Str) → strcmp a b ≡ Ordering.eq → a ≡ b
unfolding strcmp
strcmp_eq [] [] h = refl
strcmp_eq [] (y ∷ ys) h = cc
strcmp_eq (x ∷ xs) [] h = cc
strcmp_eq (x ∷ xs) (y ∷ ys) h = ground (arith, strcmp_eq xs ys)

pub strcmp_swap : (a b : Str) → strcmp a b ≡ Ordering.gt → Less b a
unfolding strcmp
strcmp_swap [] [] h = cc
strcmp_swap [] (y ∷ ys) h = cc
strcmp_swap (x ∷ xs) [] h = refl
strcmp_swap (x ∷ xs) (y ∷ ys) h = ground (arith, strcmp_swap xs ys)

pub strcmp_trans : (a b c : Str) → Less a b → Less b c → Less a c
unfolding strcmp
strcmp_trans [] [] c h g = cc
strcmp_trans [] (y ∷ ys) [] h g = cc
strcmp_trans [] (y ∷ ys) (z ∷ zs) h g = refl
strcmp_trans (x ∷ xs) [] c h g = cc
strcmp_trans (x ∷ xs) (y ∷ ys) [] h g = cc
strcmp_trans (x ∷ xs) (y ∷ ys) (z ∷ zs) h g = ground (arith, strcmp_trans xs ys zs)

pub same_refl : (a : Str) → same a a ≡ true
unfolding same
same_refl a = ground (arith, strcmp_refl a)

pub same_eq : (a b : Str) → same a b ≡ true → a ≡ b
unfolding same
same_eq a b h = ground (arith, strcmp_eq a b)

pub Less-irrefl : (a : Str) → ¬ Less a a
Less-irrefl a h = let e : Ordering.lt ≡ Ordering.eq = sym h ∙ strcmp_refl a in cc
