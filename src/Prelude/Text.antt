-- ===== src/Prelude/Text.antt =====
-- Bytes of texts, C strings and lines: what the programs use of the C library.
use Prim.Native.Nat.{ℕ}
use Prim.Native.Char.{code}
use Prim.Native.String.{String}
use mathlib.Core.Path.{◌≡◌, refl}
use mathlib.Core.Logic.{◌≢◌}
use mathlib.Core.List.{List, [], ◌∷◌, ◌++◌}
use native.Mathlib.Omega.{arith}
use operating_systems_three.Prelude.Tests.{◌==◌, if◌then◌else◌}

-- The bytes of an ASCII text.
abbrev pub codes : String → List ℕ
codes String.[] = []
codes (String.◌∷◌ c s) = code c ∷ codes s

abbrev pub newline : ℕ
newline = 10

-- What `strlen` and `%s` see of a buffer: the bytes before the first NUL.
unfoldable pub c_str : List ℕ → List ℕ
c_str [] = []
c_str (c ∷ cs) = if c == 0 then [] else c ∷ c_str cs

-- Puts a byte in front of the first line.
unfoldable pub join_line : ℕ → List (List ℕ) → List (List ℕ)
join_line c [] = (c ∷ []) ∷ []
join_line c (l ∷ ls) = (c ∷ l) ∷ ls

-- The lines that `getline` reads from a stream, each with its newline; the last may have none.
unfoldable pub lines : List ℕ → List (List ℕ)
unfolding join_line
lines [] = []
lines (c ∷ cs) = if c == newline then (c ∷ []) ∷ lines cs else join_line c (lines cs)

abbrev pub concat : List (List ℕ) → List ℕ
concat [] = []
concat (l ∷ ls) = l ++ concat ls

-- No byte is NUL.
abbrev pub IsText : List ℕ → Type 0
IsText [] = Unit
IsText (c ∷ cs) = (c ≢ 0) × IsText cs

abbrev pub AllNonempty : List (List ℕ) → Type 0
AllNonempty [] = Unit
AllNonempty (l ∷ ls) = (l ≢ []) × AllNonempty ls

pub c_str-IsText : (cs : List ℕ) → IsText cs → c_str cs ≡ cs
unfolding c_str
c_str-IsText [] h = refl
c_str-IsText (c ∷ cs) h = ground (arith, c_str-IsText cs h.1)

concat-join_line : (c : ℕ) (ls : List (List ℕ)) → concat (join_line c ls) ≡ c ∷ concat ls
unfolding join_line
concat-join_line c [] = refl
concat-join_line c (l ∷ ls) = refl

-- The lines of a stream make it up.
pub concat-lines : (cs : List ℕ) → concat (lines cs) ≡ cs
unfolding lines
concat-lines [] = refl
concat-lines (c ∷ cs) = ground (arith, concat-lines cs, concat-join_line c (lines cs))

cons_ne_nil : (c : ℕ) (cs : List ℕ) → c ∷ cs ≢ []
cons_ne_nil c cs e = cc

join_line-AllNonempty : (c : ℕ) (ls : List (List ℕ)) → AllNonempty ls → AllNonempty (join_line c ls)
unfolding join_line
join_line-AllNonempty c [] h = (cons_ne_nil c [], tt)
join_line-AllNonempty c (l ∷ ls) h = (cons_ne_nil c l, h.1)

pub lines-AllNonempty : (cs : List ℕ) → AllNonempty (lines cs)
unfolding lines
lines-AllNonempty [] = tt
lines-AllNonempty (c ∷ cs) =
    ground (arith, lines-AllNonempty cs, join_line-AllNonempty c (lines cs), cons_ne_nil c [])

pub IsText-left : (xs ys : List ℕ) → IsText (xs ++ ys) → IsText xs
IsText-left [] ys h = tt
IsText-left (x ∷ xs) ys h = (h.0, IsText-left xs ys h.1)

pub IsText-right : (xs ys : List ℕ) → IsText (xs ++ ys) → IsText ys
IsText-right [] ys h = h
IsText-right (x ∷ xs) ys h = IsText-right xs ys h.1
