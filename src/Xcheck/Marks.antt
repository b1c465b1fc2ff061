-- ===== src/Xcheck/Marks.antt =====
-- How `mark_add` counts the blocks that inodes use.
use operating_systems_three.Prelude.{
  ℕ, zero, suc, ◌+◌, ◌*◌, ◌≡◌, ◌≢◌, ◌≤◌, ◌<◌, ◌⊎◌, refl, sym, ap, subst, ◌∙◌, fun_ext, arith, inl,
  inr, ◌==◌, ltb, if◌then◌else◌, Bool-cases, List, [], ◌∷◌, ◌++◌, update, update_self, update_ne,
  ℕ_discrete,
}
use operating_systems_three.Xcheck.{
  Error, direct_twice, indirect_twice, Check, pass, fail, ◌>>=◌, Image, get_int, Super, node_at,
}
use operating_systems_three.Xcheck.Blocks.{mark, mark_indirect, mark_node, mark_add}

-- The addresses in an indirect block, those of an inode, and those of all inodes, with what is
-- reported where one is not the first of its number.
unfoldable pub indirect_refs : (rounds k : ℕ) → (p : ℕ) → Image → List (Error × ℕ)
indirect_refs zero k p m = []
indirect_refs (suc r) k p m =
    let rest = indirect_refs r (k + 1) p m in
    if get_int m (p + k * 4) == 0 then rest else (indirect_twice, get_int m (p + k * 4)) ∷ rest

unfoldable pub node_refs : (rounds j : ℕ) → (ℕ → ℕ) → Image → List (Error × ℕ)
node_refs zero j addrs m = []
node_refs (suc r) j addrs m =
    let rest = node_refs r (j + 1) addrs m in
    if addrs j == 0
    then rest
    else (direct_twice, addrs j)
      ∷ ((if j == 12 then indirect_refs 128 0 (512 * addrs j) m else []) ++ rest)

unfoldable pub refs : (rounds i : ℕ) → Super → Image → List (Error × ℕ)
refs zero i sb m = []
refs (suc r) i sb m = node_refs 13 0 (node_at sb m i).addrs m ++ refs r (i + 1) sb m

-- How often a block is in such a list.
unfoldable pub times : ℕ → List (Error × ℕ) → ℕ
times x [] = 0
times x ((e, y) ∷ l) = if y == x then times x l + 1 else times x l

unfoldable mark_all : List (Error × ℕ) → (ℕ → ℕ) → Check (ℕ → ℕ)
mark_all [] u = pass u
mark_all ((e, x) ∷ l) u = mark e x u >>= mark_all l

bind_assoc :
    {A B C : Type 0} (m : Check A) (f : A → Check B) (g : B → Check C)
    → m >>= f >>= g ≡ m >>= (λ x. f x >>= g)
bind_assoc (pass x) f g = refl
bind_assoc (fail e) f g = refl

mark_all-append :
    (xs ys : List (Error × ℕ)) (u : ℕ → ℕ) → mark_all (xs ++ ys) u ≡ mark_all xs u >>= mark_all ys
unfolding mark_all
mark_all-append [] ys u = refl
mark_all-append ((e, x) ∷ xs) ys u =
    ap (λ g. mark e x u >>= g) (fun_ext (λ u. mark_all-append xs ys u))
    ∙ sym (bind_assoc (mark e x u) (mark_all xs) (mark_all ys))

mark_indirect-all :
    (r k p : ℕ) (m : Image) (u : ℕ → ℕ)
    → mark_indirect r k p m u ≡ mark_all (indirect_refs r k p m) u
unfolding mark_indirect indirect_refs mark_all
mark_indirect-all zero k p m u = refl
mark_indirect-all (suc r) k p m u = elim (Bool-cases (get_int m (p + k * 4) == 0)) [
  | inl z ↦ rw z (mark_indirect-all r (k + 1) p m u)
  | inr nz ↦ rw nz (
      ap (λ g. mark indirect_twice (get_int m (p + k * 4)) u >>= g)
        (fun_ext (λ u. mark_indirect-all r (k + 1) p m u)))
]

indirect-all :
    (p : ℕ) (m : Image) (next : (ℕ → ℕ) → Check (ℕ → ℕ)) (l : List (Error × ℕ))
    → ((u : ℕ → ℕ) → next u ≡ mark_all l u)
    → (u : ℕ → ℕ) → mark_indirect 128 0 p m u >>= next ≡ mark_all (indirect_refs 128 0 p m ++ l) u
indirect-all p m next l h u =
    ap (λ c. c >>= next) (mark_indirect-all 128 0 p m u)
    ∙ ap (λ g. mark_all (indirect_refs 128 0 p m) u >>= g) (fun_ext h)
    ∙ sym (mark_all-append (indirect_refs 128 0 p m) l u)

mark_node-all :
    (r j : ℕ) (addrs : ℕ → ℕ) (m : Image) (u : ℕ → ℕ)
    → mark_node r j addrs m u ≡ mark_all (node_refs r j addrs m) u
unfolding mark_node node_refs mark_all
mark_node-all zero j addrs m u = refl
mark_node-all (suc r) j addrs m u = elim (Bool-cases (addrs j == 0)) [
  | inl z ↦ rw z (mark_node-all r (j + 1) addrs m u)
  | inr nz ↦ elim (Bool-cases (j == 12)) [
    | inl last ↦
        rw (nz, last)
          (bind_assoc (mark direct_twice (addrs j) u) (mark_indirect 128 0 (512 * addrs j) m)
              (mark_node r (j + 1) addrs m)
            ∙ ap (λ g. mark direct_twice (addrs j) u >>= g)
                (fun_ext (λ u.
                  indirect-all (512 * addrs j) m (mark_node r (j + 1) addrs m)
                    (node_refs r (j + 1) addrs m) (λ u. mark_node-all r (j + 1) addrs m u) u)))
    | inr more ↦
        rw (nz, more)
          (bind_assoc (mark direct_twice (addrs j) u) (λ u. pass u) (mark_node r (j + 1) addrs m)
            ∙ ap (λ g. mark direct_twice (addrs j) u >>= g)
                (fun_ext (λ u. mark_node-all r (j + 1) addrs m u)))
  ]
]

mark_add-all :
    (r i : ℕ) (sb : Super) (m : Image) (u : ℕ → ℕ)
    → mark_add r i sb m u ≡ mark_all (refs r i sb m) u
unfolding mark_add refs mark_all
mark_add-all zero i sb m u = refl
mark_add-all (suc r) i sb m u =
    ap (λ c. c >>= mark_add r (i + 1) sb m) (mark_node-all 13 0 (node_at sb m i).addrs m u)
    ∙ ap (λ g. mark_all (node_refs 13 0 (node_at sb m i).addrs m) u >>= g)
        (fun_ext (λ u. mark_add-all r (i + 1) sb m u))
    ∙ sym (mark_all-append (node_refs 13 0 (node_at sb m i).addrs m) (refs r (i + 1) sb m) u)

-- No block of a list is marked twice, and the marks are counted.
pub record Counted (l : List (Error × ℕ)) (u u' : ℕ → ℕ) : Type 0 where
  pub once : (x : ℕ) → times x l ≢ 0 → u x + times x l ≤ 1
  pub count : (x : ℕ) → u' x ≡ u x + times x l

mark_all_lem :
    (l : List (Error × ℕ)) (u : ℕ → ℕ)
    → ((u' : ℕ → ℕ) × (mark_all l u ≡ pass u') × Counted l u u')
      ⊎ ((e : Error) × (x : ℕ) × (mark_all l u ≡ fail e) × (times x l ≢ 0) × (1 < u x + times x l))
unfolding mark_all times mark
mark_all_lem [] u =
    inl (u, refl, record { once = λ x n. absurd (n refl); count = λ x. omega arith })
mark_all_lem ((e, y) ∷ l) u =
    let now = update_self u y (u y + 1) in
    elim (Bool-cases (ltb 1 (u y + 1))) [
      | inl twice ↦ inr (e, y, rw (now, twice) refl, ground arith, ground arith)
      | inr first ↦
          let run : mark e y u ≡ pass (update u y (u y + 1)) = rw (now, first) refl in
          elim (mark_all_lem l (update u y (u y + 1))) [
            | inl (u', rest, c) ↦ inl (
              u',
              rw (now, first) rest,
              record {
                once = λ x n. elim (ℕ_discrete x y) [
                  | yes same ↦ rw same (let o = c.once y in ground arith)
                  | no ne ↦
                      let o = c.once x in let other = update_ne u y x (u y + 1) ne in ground arith
                ];
                count = λ x. elim (ℕ_discrete x y) [
                  | yes same ↦
                      let there = c.count y in
                      subst (λ x. u' x ≡ u x + times x ((e, y) ∷ l)) (sym same) (ground arith)
                  | no ne ↦
                      let o = c.count x in let other = update_ne u y x (u y + 1) ne in ground arith
                ];
              },
            )
            | inr (e', x, rest, some_x, bad) ↦ inr (
              e',
              x,
              rw (now, first) rest,
              ground arith,
              elim (ℕ_discrete x y) [
                | yes same ↦
                    let here = ap (λ x. update u y (u y + 1) x) same ∙ now in
                    let there = ap u same in ground arith
                | no ne ↦ let other = update_ne u y x (u y + 1) ne in ground arith
              ],
            )
          ]
    ]

-- `mark_add` counts the blocks, or meets one for the second time.
pub mark_add_lem :
    (r i : ℕ) (sb : Super) (m : Image) (u : ℕ → ℕ)
    → ((u' : ℕ → ℕ) × (mark_add r i sb m u ≡ pass u') × Counted (refs r i sb m) u u')
      ⊎ ((e : Error) × (x : ℕ) × (mark_add r i sb m u ≡ fail e)
          × (times x (refs r i sb m) ≢ 0)
          × (1 < u x + times x (refs r i sb m)))
mark_add_lem r i sb m u = elim (mark_all_lem (refs r i sb m) u) [
  | inl (u', run, c) ↦ inl (u', mark_add-all r i sb m u ∙ run, c)
  | inr (e, x, run, some_x, twice) ↦ inr (e, x, mark_add-all r i sb m u ∙ run, some_x, twice)
]
