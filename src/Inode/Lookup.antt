-- ===== src/Inode/Lookup.antt =====
-- `dirlookup` of fs.c against the entries of the directory.
use operating_systems_three.Prelude.{
  ℕ, zero, suc, ◌+◌, ◌*◌, ◌%◌, ◌≡◌, ◌≢◌, ◌≤◌, ◌<◌, ◌⊎◌, ◌↔◌, refl, sym, ap, ◌∙◌, arith, fun_ext,
  subst, inl, inr, ◌==◌, ltb, Bool, true, false, Bool-cases, List, [], ◌∷◌, Option, none, some,
  Outcome, ok, ◌>>=◌, length, take, c_str, update, update_self, update_ne, ℕ_discrete,
}
use operating_systems_three.Fs.{bsize, Disk}
use operating_systems_three.Fs.Names.{dirsiz, name_of}
use operating_systems_three.Inode.{Dinode, Inode, Icache, iget, ndirect, nindirect}
use operating_systems_three.Inode.Slots.{IsMapped, IsPlaced}
use operating_systems_three.Inode.Reads.{readi, readi_lem, file_bytes, in_file, IsDense}
use operating_systems_three.Inode.Dirs.{
  same_name, dirent_size, dirent_inum, dirent_name, matches, Found, look_at, look, look_done,
  dirlookup,
}

-- `namecmp` compares the names that two arrays stand for.
pub same_name_iff :
    (n : ℕ) (s t : List ℕ) → (same_name n s t ≡ true) ↔ (c_str (take n s) ≡ c_str (take n t))
unfolding same_name c_str
same_name_iff zero s t = (λ _. refl, λ _. refl)
same_name_iff (suc n) [] [] = (λ _. refl, λ _. refl)
same_name_iff (suc n) [] (c ∷ t) = ground arith
same_name_iff (suc n) (c ∷ s) [] = ground arith
same_name_iff (suc n) (c ∷ s) (e ∷ t) = ground (arith, same_name_iff n s t)

length-file_bytes : (n off : ℕ) (addrs : ℕ → ℕ) (d : Disk) → length (file_bytes n off addrs d) ≡ n
unfolding file_bytes
length-file_bytes zero off addrs d = refl
length-file_bytes (suc n) off addrs d = ap suc (length-file_bytes n (off + 1) addrs d)

-- The directory can be read, and ends with an entry.
pub record IsDir (ip : Dinode) (d : Disk) : Type 0 where
  pub kind : ip.kind ≡ 1
  pub whole : ip.size % dirent_size ≡ 0
  pub small : ip.size ≤ (ndirect + nindirect) * bsize
  pub mapped : IsMapped d
  pub last : ip.addrs ndirect ≢ 0 → IsPlaced (ip.addrs ndirect) d
  pub dense : IsDense ip.size ip.addrs d

abbrev pub dirent_at : (off : ℕ) → Dinode → Disk → List ℕ
dirent_at off ip d = file_bytes dirent_size off ip.addrs d

-- An entry in use whose name is `name`.
pub record IsEntry (name : List ℕ) (de : List ℕ) : Type 0 where
  pub in_use : dirent_inum de ≢ 0
  pub named : name_of name ≡ name_of (dirent_name de)

false_ne_true : ◌≡◌ {A = Bool} false true → ⊥
false_ne_true e = cc

matches_iff : (name de : List ℕ) → (matches name de ≡ true) ↔ IsEntry name de
unfolding matches name_of
matches_iff name de =
    let eq = same_name_iff dirsiz name (dirent_name de) in
    elim (Bool-cases (dirent_inum de == 0)) [
      | inl z ↦ rw z (λ e. elim (false_ne_true e) [ ], λ e. absurd (e.in_use (ground arith)))
      | inr nz ↦ rw nz (λ e. record { in_use = ground arith; named = eq.0 e }, λ e. eq.1 e.named)
    ]

read-dirent_at :
    (devsw : ℕ → Option (ℕ → Option (List ℕ))) (off : ℕ) (ip : Dinode) (d : Disk)
    → IsDir ip d
    → off % dirent_size ≡ 0
    → off < ip.size
    → readi devsw off dirent_size ip d ≡ ok (some (dirent_at off ip d), ip.addrs, d)
read-dirent_at devsw off ip d h a l =
    let read =
      readi_lem devsw off dirent_size ip d (omega (arith, l, h.small)) (omega arith)
        (λ e. omega (arith, e, h.kind)) h.small h.mapped h.last h.dense in
    let fits : in_file off dirent_size ip.size ≡ dirent_size =
      let inside : off + dirent_size ≤ ip.size = omega (arith, h.whole) in ground arith in
    subst
      (λ k. readi devsw off dirent_size ip d ≡ ok (some (file_bytes k off ip.addrs d), ip.addrs, d))
      fits (read.0 (omega (arith, l)) (omega (arith, l, h.small)))

next_entry :
    (off p : ℕ)
    → off % dirent_size ≡ 0
    → p % dirent_size ≡ 0
    → off ≤ p
    → (p ≡ off) ⊎ (off + dirent_size ≤ p)
next_entry off p a z l = elim (ℕ_discrete p off) [ yes e ↦ inl e | no ne ↦ inr (omega (arith, ne)) ]

-- What the loop of `dirlookup` finds from an offset on.
Looks : (name : List ℕ) → (off : ℕ) → Dinode → Disk → Outcome Found → Type 0
Looks name off ip d r =
    ((o : ℕ) × (r ≡ ok (some (dirent_inum (dirent_at o ip d), o), ip.addrs, d))
      × (o % dirent_size ≡ 0)
      × (off ≤ o)
      × (o < ip.size)
      × IsEntry name (dirent_at o ip d)
      × ((p : ℕ) → off ≤ p → p < o → p % dirent_size ≡ 0 → ¬ IsEntry name (dirent_at p ip d)))
    ⊎ ((r ≡ ok (none, ip.addrs, d))
        × ((p : ℕ)
            → off ≤ p
            → p < ip.size
            → p % dirent_size ≡ 0
            → ¬ IsEntry name (dirent_at p ip d)))

module _ (devsw : ℕ → Option (ℕ → Option (List ℕ))) (r off : ℕ) (name : List ℕ) (ip : Dinode)
    (d : Disk) (h : IsDir ip d) (a : off % dirent_size ≡ 0) where
  look-end : ltb off ip.size ≡ false → look devsw (suc r) off name ip d ≡ ok (none, ip.addrs, d)
  unfolding look
  look-end e = rw (e, look) refl

  sized : (length (dirent_at off ip d) == dirent_size) ≡ true
  sized = ground (arith, length-file_bytes dirent_size off ip.addrs d)

  look-hit :
      off < ip.size
      → matches name (dirent_at off ip d) ≡ true
      → look devsw (suc r) off name ip d
        ≡ ok (some (dirent_inum (dirent_at off ip d), off), ip.addrs, d)
  unfolding look look_at
  look-hit l e =
      let less : ltb off ip.size ≡ true = ground arith in
      rw (less, read-dirent_at devsw off ip d h a l, sized, e) refl

  look-miss :
      off < ip.size
      → matches name (dirent_at off ip d) ≡ false
      → look devsw (suc r) off name ip d ≡ look devsw r (off + dirent_size) name ip d
  unfolding look look_at
  look-miss l e =
      let less : ltb off ip.size ≡ true = ground arith in
      rw (less, read-dirent_at devsw off ip d h a l, sized, e) refl

look-Looks :
    (devsw : ℕ → Option (ℕ → Option (List ℕ))) (r off : ℕ) (name : List ℕ) (ip : Dinode) (d : Disk)
    → IsDir ip d
    → off % dirent_size ≡ 0
    → ip.size ≤ off + dirent_size * r
    → Looks name off ip d (look devsw r off name ip d)
unfolding Looks look
look-Looks devsw zero off name ip d h a few = inr (refl, λ p l m e g. omega arith)
look-Looks devsw (suc r) off name ip d h a few = elim (Bool-cases (ltb off ip.size)) [
  | inr e ↦ inr (look-end devsw r off name ip d h a e, λ p l m z g. absurd (ground arith))
  | inl e ↦
      let l : off < ip.size = ground arith in
      let iff = matches_iff name (dirent_at off ip d) in
      elim (Bool-cases (matches name (dirent_at off ip d))) [
        | inl g ↦ inl (
          off,
          look-hit devsw r off name ip d h a l g,
          a,
          omega arith,
          l,
          iff.0 g,
          λ p lo hi z x. absurd (omega (arith, lo, hi)),
        )
        | inr g ↦
            let miss = look-miss devsw r off name ip d h a l g in
            let not_here : (p : ℕ) → p ≡ off → ¬ IsEntry name (dirent_at p ip d) = λ p z x.
              false_ne_true (sym g ∙ iff.1 (subst (λ o. IsEntry name (dirent_at o ip d)) z x)) in
            let later =
              look-Looks devsw r (off + dirent_size) name ip d h (omega (arith, a))
                (omega (arith, few)) in
            let skip : (p : ℕ)
                → off ≤ p
                → p % dirent_size ≡ 0
                → (p ≡ off) ⊎ (off + dirent_size ≤ p) =
              λ p lo z. next_entry off p a z lo in
            elim later [
              | inl (o, e, z, lo, hi, x, before) ↦ inl (
                o,
                miss ∙ e,
                z,
                omega (arith, lo),
                hi,
                x,
                λ p lo hi z x. elim (skip p lo z) [
                  | inl y ↦ not_here p y x
                  | inr y ↦ before p y hi z x
                ],
              )
              | inr (e, nowhere) ↦ inr (
                miss ∙ e,
                λ p lo hi z x. elim (skip p lo z) [
                  | inl y ↦ not_here p y x
                  | inr y ↦ nowhere p y hi z x
                ],
              )
            ]
      ]
]

update_same : (f : ℕ → Inode) (i : ℕ) → update f i (f i) ≡ f
update_same f i = fun_ext (λ j. elim (ℕ_discrete j i) [
  | yes e ↦ ap (update f i (f i)) e ∙ update_self f i (f i) ∙ ap f (sym e)
  | no ne ↦ update_ne f i j (f i) ne
])

-- `dirlookup` in a directory that consists of whole entries, all of whose blocks have numbers: it goes
-- on to `iget` for the inode of the first entry in use that has the name, and returns what `iget`
-- gives with the offset of that entry; where no entry has the name, it returns nothing and changes
-- nothing.
pub dirlookup_lem :
    (devsw : ℕ → Option (ℕ → Option (List ℕ))) (i : ℕ) (name : List ℕ) (t : Icache)
    → IsDir (t.inode i).copy t.disk
    → ((o : ℕ) × (dirlookup devsw i name t
          ≡ iget (t.inode i).dev (dirent_inum (dirent_at o (t.inode i).copy t.disk)) t >>= λ (j, u).
              ok (some (j, o), u))
        × (o % dirent_size ≡ 0)
        × (o < (t.inode i).copy.size)
        × IsEntry name (dirent_at o (t.inode i).copy t.disk)
        × ((p : ℕ)
            → p < o
            → p % dirent_size ≡ 0
            → ¬ IsEntry name (dirent_at p (t.inode i).copy t.disk)))
      ⊎ ((dirlookup devsw i name t ≡ ok (none, t))
          × ((p : ℕ)
              → p < (t.inode i).copy.size
              → p % dirent_size ≡ 0
              → ¬ IsEntry name (dirent_at p (t.inode i).copy t.disk)))
unfolding Looks dirlookup look_done
dirlookup_lem devsw i name t h =
    let ip = (t.inode i).copy in
    let dir : (ip.kind == 1) ≡ true = ground (arith, h.kind) in
    let same : record t { inode = update t.inode i (t.inode i) } ≡ t =
      ap (λ f. record t { inode = f }) (update_same t.inode i) in
    elim (look-Looks devsw ip.size 0 name ip t.disk h refl (omega arith)) [
      | inl (o, e, z, lo, hi, x, before) ↦ inl (
        o,
        rw (dir, e, dirlookup)
            (ap (look_done (t.inode i).dev (some (dirent_inum (dirent_at o ip t.disk), o))) same),
        z,
        hi,
        x,
        λ p l g y. before p (omega arith) l g y,
      )
      | inr (e, nowhere) ↦ inr (
        rw (dir, e, dirlookup, look_done) (ap (λ u. ok (none, u)) same),
        λ p l g y. nowhere p (omega arith) l g y,
      )
    ]
