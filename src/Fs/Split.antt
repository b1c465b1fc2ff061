-- ===== src/Fs/Split.antt =====
-- The names of a path against splitting it at the slashes.
use operating_systems_three.Prelude.{
  ℕ, zero, suc, ◌+◌, ◌≡◌, ◌⊎◌, ◌≤◌, ◌<◌, refl, sym, ap, ap₂, subst, ◌∙◌, arith, inl, inr, ◌==◌, leb,
  if◌then◌else◌, false, Bool-cases, List, [], ◌∷◌, ◌++◌, map, length, take, drop, c_str, IsText,
  c_str-IsText,
}
use operating_systems_three.Fs.Names.{
  dirsiz, slash, skip_slashes, elem, after, put_name, skip_found, skipelem, name_of, walk_found,
  walk,
}

-- The pieces between the slashes, the empty ones included.
push : ℕ → List (List ℕ) → List (List ℕ)
push c [] = (c ∷ []) ∷ []
push c (p ∷ ps) = (c ∷ p) ∷ ps

unfoldable pub split : List ℕ → List (List ℕ)
unfolding push
split [] = [] ∷ []
split (c ∷ cs) = if c == slash then [] ∷ split cs else push c (split cs)

unfoldable pub nonempty : List (List ℕ) → List (List ℕ)
nonempty [] = []
nonempty ([] ∷ ps) = nonempty ps
nonempty ((c ∷ cs) ∷ ps) = (c ∷ cs) ∷ nonempty ps

-- The pieces behind the first.
later : List ℕ → List (List ℕ)
unfolding split
later [] = []
later (c ∷ cs) = if c == slash then split cs else later cs

split-elem : (p : List ℕ) → split p ≡ elem p ∷ later p
unfolding split elem later push
split-elem [] = refl
split-elem (c ∷ cs) = elim (Bool-cases (c == slash)) [
  | inl e ↦ rw e refl
  | inr e ↦ rw (e, split-elem cs) refl
]

nonempty-after : (p : List ℕ) → nonempty (split (after p)) ≡ nonempty (later p)
unfolding after later split nonempty
nonempty-after [] = refl
nonempty-after (c ∷ cs) = elim (Bool-cases (c == slash)) [
  | inl e ↦ rw (e, e) refl
  | inr e ↦ rw e (nonempty-after cs)
]

nonempty-skip : (p : List ℕ) → nonempty (split (skip_slashes p)) ≡ nonempty (split p)
unfolding skip_slashes split nonempty
nonempty-skip [] = refl
nonempty-skip (c ∷ cs) = elim (Bool-cases (c == slash)) [
  | inl e ↦ rw e (nonempty-skip cs)
  | inr e ↦
      let stays : skip_slashes (c ∷ cs) ≡ c ∷ cs = rw e refl in ap (λ p. nonempty (split p)) stays
]

-- The name in the array is the piece, cut to DIRSIZ bytes.
c_str-end : (n : ℕ) (s r : List ℕ) → IsText s → length s < n → c_str (take n (s ++ 0 ∷ r)) ≡ s
unfolding c_str
c_str-end zero s r t l = absurd (omega arith)
c_str-end (suc n) [] r t l = refl
c_str-end (suc n) (c ∷ s) r (nz, t) l =
    let miss : (c == 0) ≡ false = ground arith in rw (miss, c_str-end n s r t (omega arith)) refl

take-short : (n : ℕ) (s : List ℕ) → length s < n → take n s ≡ s
take-short zero s l = absurd (omega arith)
take-short (suc n) [] l = refl
take-short (suc n) (c ∷ s) l = ap (λ t. c ∷ t) (take-short n s (omega arith))

take_idem : (n : ℕ) (s : List ℕ) → take n (take n s) ≡ take n s
take_idem zero s = refl
take_idem (suc n) [] = refl
take_idem (suc n) (c ∷ s) = ap (λ t. c ∷ t) (take_idem n s)

take-IsText : (n : ℕ) (s : List ℕ) → IsText s → IsText (take n s)
take-IsText zero s t = tt
take-IsText (suc n) [] t = tt
take-IsText (suc n) (c ∷ s) (nz, t) = (nz, take-IsText n s t)

name_of-put_name : (s name : List ℕ) → IsText s → name_of (put_name s name) ≡ take dirsiz s
unfolding name_of put_name
name_of-put_name s name t = elim (Bool-cases (leb dirsiz (length s))) [
  | inl long ↦ rw (long, take_idem dirsiz s) (c_str-IsText (take dirsiz s) (take-IsText dirsiz s t))
  | inr short ↦
      let fits : length s < dirsiz = ground arith in
      rw (short, take-short dirsiz s fits) (c_str-end dirsiz s (drop (length s + 1) name) t fits)
]

elem-IsText : (p : List ℕ) → IsText p → IsText (elem p)
unfolding elem
elem-IsText [] t = tt
elem-IsText (c ∷ cs) (nz, t) = elim (Bool-cases (c == slash)) [
  | inl e ↦ rw e tt
  | inr e ↦ rw e (nz, elem-IsText cs t)
]

after-IsText : (p : List ℕ) → IsText p → IsText (after p)
unfolding after
after-IsText [] t = tt
after-IsText (c ∷ cs) (nz, t) = elim (Bool-cases (c == slash)) [
  | inl e ↦ rw e (nz, t)
  | inr e ↦ rw e (after-IsText cs t)
]

skip-IsText : (p : List ℕ) → IsText p → IsText (skip_slashes p)
unfolding skip_slashes
skip-IsText [] t = tt
skip-IsText (c ∷ cs) (nz, t) = elim (Bool-cases (c == slash)) [
  | inl e ↦ rw e (skip-IsText cs t)
  | inr e ↦ rw e (nz, t)
]

length-after : (p : List ℕ) → length (after p) ≤ length p
unfolding after
length-after [] = omega arith
length-after (c ∷ cs) = ground (arith, length-after cs)

length-skip : (p : List ℕ) → length (skip_slashes p) ≤ length p
unfolding skip_slashes
length-skip [] = omega arith
length-skip (c ∷ cs) = ground (arith, length-skip cs)

skip-head :
    (p : List ℕ)
    → (skip_slashes p ≡ [])
      ⊎ ((c : ℕ) × (cs : List ℕ) × (skip_slashes p ≡ c ∷ cs) × ((c == slash) ≡ false))
unfolding skip_slashes
skip-head [] = inl refl
skip-head (c ∷ cs) = elim (Bool-cases (c == slash)) [
  | inl e ↦ rw e (skip-head cs)
  | inr e ↦ rw e (inr (c, cs, refl, e))
]

nonempty-cons :
    (c : ℕ) (cs : List ℕ)
    → (c == slash) ≡ false
    → nonempty (split (c ∷ cs)) ≡ elem (c ∷ cs) ∷ nonempty (split (after (c ∷ cs)))
unfolding elem nonempty
nonempty-cons c cs e =
    let first : elem (c ∷ cs) ≡ c ∷ elem cs = rw e refl in
    ap nonempty (split-elem (c ∷ cs) ∙ ap (λ x. x ∷ later (c ∷ cs)) first)
    ∙ ap₂ (λ x xs. x ∷ xs) (sym first) (sym (nonempty-after (c ∷ cs)))

walk-step :
    (r : ℕ) (path name q : List ℕ)
    → skip_slashes path ≡ q
    → walk (suc r) path name ≡ walk_found (skip_found q name) (walk r)
unfolding walk skipelem
walk-step r path name q e = ap (λ q. walk_found (skip_found q name) (walk r)) e

pieces-skip : (path q : List ℕ) → skip_slashes path ≡ q → nonempty (split q) ≡ nonempty (split path)
pieces-skip path q e = ap (λ p. nonempty (split p)) (sym e) ∙ nonempty-skip path

-- `skipelem`, called again and again with the path that it returned until it returns 0: for a path
-- without NUL and any old name, the names that it leaves behind are, in order, the nonempty pieces
-- between the slashes of the path, each cut to DIRSIZ bytes, and it returns 0 after at most as many
-- calls as the path has bytes, and one.
pub walk-split :
    (rounds : ℕ) (path name : List ℕ)
    → IsText path
    → length path < rounds
    → walk rounds path name ≡ map (take dirsiz) (nonempty (split path))
unfolding walk skip_found walk_found split nonempty
walk-split zero path name t l = absurd (omega arith)
walk-split (suc r) path name t l = elim (skip-head path) [
  | inl e ↦ walk-step r path name [] e ∙ ap (map (take dirsiz)) (pieces-skip path [] e)
  | inr (c, cs, e, not_slash) ↦
      let p = c ∷ cs in
      let shorter : length p ≤ length path =
        subst (λ q. length q ≤ length path) e (length-skip path) in
      let passed : length (after p) ≤ length cs = unfold after in rw not_slash (length-after cs) in
      let text : IsText p = subst IsText e (skip-IsText path t) in
      let rest = after-IsText p text in
      let next =
        walk-split r (skip_slashes (after p)) (put_name (elem p) name) (skip-IsText (after p) rest)
          (omega (arith, length-skip (after p))) in
      walk-step r path name p e
      ∙ ap₂ (λ x xs. x ∷ xs) (name_of-put_name (elem p) name (elem-IsText p text))
          (next ∙ ap (map (take dirsiz)) (nonempty-skip (after p)))
      ∙ ap (map (take dirsiz)) (sym (nonempty-cons c cs not_slash) ∙ pieces-skip path p e)
]
