-- ===== src/File/Refs.antt =====
-- The reference counts of file.c against the list of the descriptors that refer to each file.
use operating_systems_three.Prelude.{
  ℕ, zero, suc, ◌+◌, ◌-◌, ◌≡◌, ◌≢◌, ◌≤◌, ◌<◌, ◌⊎◌, refl, sym, ap, ◌∙◌, arith, inl, inr, ◌==◌, ltb,
  if◌then◌else◌, true, false, List, [], ◌∷◌, none, some, Option-cases, update, update_self,
  update_ne, ok, ℕ_discrete,
}
use operating_systems_three.File.{
  fd_none, File, nfile, Ftable, release, find_free, alloc_found, filealloc, filedup, still_open,
  closing, fileclose,
}

-- How many of the descriptors are for file `i`.
unfoldable pub count : ℕ → List ℕ → ℕ
count i [] = 0
count i (h ∷ hs) = if h == i then count i hs + 1 else count i hs

-- The lock is free, and every count of the table is that of the descriptors.
pub record Holds (hs : List ℕ) (t : Ftable) : Type 0 where
  pub free : t.locked ≡ false
  pub counted : (i : ℕ) → (t.file i).ref ≡ count i hs

pub count_self : (i : ℕ) (hs : List ℕ) → count i (i ∷ hs) ≡ count i hs + 1
unfolding count
count_self i hs = ground arith

pub count_ne : (i j : ℕ) (hs : List ℕ) → j ≢ i → count j (i ∷ hs) ≡ count j hs
unfolding count
count_ne i j hs ne = ground arith

-- A change of one file.
counts-update :
    (hs hs' : List ℕ) (file : ℕ → File) (i : ℕ) (f : File)
    → ((j : ℕ) → (file j).ref ≡ count j hs)
    → f.ref ≡ count i hs'
    → ((j : ℕ) → j ≢ i → count j hs ≡ count j hs')
    → (j : ℕ) → (update file i f j).ref ≡ count j hs'
counts-update hs hs' file i f h e same j = elim (ℕ_discrete j i) [
  | yes now ↦ rw (now, update_self file i f) e
  | no ne ↦ rw (update_ne file i j f ne) (h j ∙ same j ne)
]

-- The first file from index `i` on that nobody refers to.
find_free-none :
    (r i : ℕ) (file : ℕ → File)
    → find_free r i file ≡ none
    → (j : ℕ) → i ≤ j
    → j < i + r
    → (file j).ref ≢ 0
unfolding find_free
find_free-none zero i file e j lo hi = absurd (omega arith)
find_free-none (suc r) i file e j lo hi = elim (ℕ_discrete j i) [
  | yes now ↦ rw now (ground arith)
  | no ne ↦ find_free-none r (i + 1) file (ground arith) j (omega arith) (omega arith)
]

find_free-some :
    (r i k : ℕ) (file : ℕ → File)
    → find_free r i file ≡ some k
    → (i ≤ k) × (k < i + r) × ((file k).ref ≡ 0)
unfolding find_free
find_free-some zero i k file e = cc
find_free-some (suc r) i k file e = ground (arith, find_free-some r (i + 1) k file)

-- `filealloc` finds a file of the table that no descriptor refers to, and counts the new
-- descriptor; if there is none it returns null and leaves the table alone.
pub filealloc-Holds :
    (hs : List ℕ) (t : Ftable)
    → Holds hs t
    → ((i : ℕ) × (t' : Ftable) × (filealloc t ≡ ok (some i, t'))
        × (i < nfile)
        × (count i hs ≡ 0)
        × Holds (i ∷ hs) t')
      ⊎ ((filealloc t ≡ ok (none, t)) × ((j : ℕ) → j < nfile → count j hs ≢ 0))
unfolding filealloc alloc_found release
filealloc-Holds hs t inv = elim (Option-cases (find_free nfile 0 t.file)) [
  | inl e ↦ inr (
    rw (inv.free, e) refl,
    λ j l z. find_free-none nfile 0 t.file e j (omega arith) (omega arith) (inv.counted j ∙ z),
  )
  | inr (k, e) ↦
      let (_, l, zero_refs) = find_free-some nfile 0 k t.file e in
      let none_yet : count k hs ≡ 0 = sym (inv.counted k) ∙ zero_refs in
      inl (
        k,
        record { locked = false; file = update t.file k (record (t.file k) { ref = 1 }) },
        rw (inv.free, e) refl,
        omega arith,
        none_yet,
        record {
          free = refl;
          counted =
              counts-update hs (k ∷ hs) t.file k (record (t.file k) { ref = 1 }) inv.counted
                (omega (arith, count_self k hs)) (λ j ne. sym (count_ne k j hs ne));
        },
      )
]

-- `filedup` of a file that a descriptor refers to does not panic, and counts one more.
pub filedup-Holds :
    (i : ℕ) (hs : List ℕ) (t : Ftable)
    → Holds (i ∷ hs) t
    → (t' : Ftable) × (filedup i t ≡ ok t') × Holds (i ∷ i ∷ hs) t'
unfolding filedup
filedup-Holds i hs t inv =
    let f : File = t.file i in
    let some_ref : ltb f.ref 1 ≡ false = ground (arith, inv.counted i, count_self i hs) in
    (
      record { locked = false; file = update t.file i (record f { ref = f.ref + 1 }) },
      rw (inv.free, some_ref) refl,
      record {
        free = refl;
        counted =
            counts-update (i ∷ hs) (i ∷ i ∷ hs) t.file i (record f { ref = f.ref + 1 }) inv.counted
              (omega (arith, inv.counted i, count_self i (i ∷ hs)))
              (λ j ne. sym (count_ne i j (i ∷ hs) ne));
      },
    )

-- `fileclose` of a file that a descriptor refers to does not panic and counts one less. Only for the
-- last descriptor it goes on to close the pipe or to put the inode back, and then the file is of
-- type FD_NONE.
pub fileclose-Holds :
    (i : ℕ) (hs : List ℕ) (t : Ftable)
    → Holds (i ∷ hs) t
    → (t' : Ftable) × (fileclose i t
        ≡ ok (if count i hs == 0 then closing (t.file i) else still_open, t'))
      × Holds hs t'
      × (count i hs ≡ 0 → (t'.file i).kind ≡ fd_none)
unfolding fileclose
fileclose-Holds i hs t inv =
    let f : File = t.file i in
    let refs : f.ref ≡ count i hs + 1 = inv.counted i ∙ count_self i hs in
    let some_ref : ltb f.ref 1 ≡ false = ground arith in
    elim (ℕ_discrete (count i hs) 0) [
      | yes e ↦
          let last : ltb 0 (f.ref - 1) ≡ false = ground arith in
          let none_left : (count i hs == 0) ≡ true = ground arith in
          (
            record {
              locked = false;
              file = update t.file i (record f { ref = 0; kind = fd_none });
            },
            rw (inv.free, some_ref, last, none_left) refl,
            record {
              free = refl;
              counted =
                  counts-update (i ∷ hs) hs t.file i (record f { ref = 0; kind = fd_none })
                    inv.counted (sym e) (λ j ne. count_ne i j hs ne);
            },
            λ _.
                ap (λ (g : File). g.kind)
                  (update_self t.file i (record f { ref = 0; kind = fd_none })),
          )
      | no ne ↦
          let more : ltb 0 (f.ref - 1) ≡ true = ground arith in
          let others : (count i hs == 0) ≡ false = ground arith in
          (
            record { locked = false; file = update t.file i (record f { ref = f.ref - 1 }) },
            rw (inv.free, some_ref, more, others) refl,
            record {
              free = refl;
              counted =
                  counts-update (i ∷ hs) hs t.file i (record f { ref = f.ref - 1 }) inv.counted
                    (omega arith) (λ j ne. count_ne i j hs ne);
            },
            λ z. absurd (ne z),
          )
    ]
