-- ===== src/Inode/Trunc.antt =====
-- What `itrunc` frees: the blocks that an inode names, each of them once.
use operating_systems_three.Prelude.{
  ℕ, ◌*◌, ◌≡◌, ◌≢◌, ◌≤◌, refl, sym, ap, subst, ◌∙◌, arith, inl, inr, ◌==◌, if◌then◌else◌, true,
  false, Bool-cases, List, [], ◌∷◌, ◌++◌, update, update_self, update_ne, ok, ◌>>=◌, ℕ_discrete,
}
use operating_systems_three.File.Refs.{count}
use operating_systems_three.Fs.{Disk, bblock}
use operating_systems_three.Syscall.{word}
use operating_systems_three.Inode.{ndirect, nindirect, free_last, free_blocks}
use operating_systems_three.Inode.Frees.{
  free_all, Freed, CanFree, free_all_lem, CanFree-split, Freed-append, nil-Freed, free_all_one,
  count-append,
}
use operating_systems_three.Inode.Loops.{
  pointers, cleared, cleared-behind, cleared-zero, free_direct-all, free_indirect-all,
}

unfoldable pub indirect : (ℕ → ℕ) → Disk → List ℕ
unfolding word
indirect addrs d =
    if addrs ndirect == 0
    then []
    else pointers nindirect 0 (λ j. word (d.blocks (addrs ndirect)) (4 * j)) ++ addrs ndirect ∷ []

-- The blocks of a file: those that the inode names, those that its indirect block names, and that.
unfoldable pub file_blocks : (ℕ → ℕ) → Disk → List ℕ
unfolding pointers indirect
file_blocks addrs d = pointers ndirect 0 addrs ++ indirect addrs d

-- The blocks of a file: each is named once and in use, and the indirect block is not one that holds
-- their bits in the free map.
pub record IsFile (addrs : ℕ → ℕ) (d : Disk) : Type 0 where
  pub named : CanFree (file_blocks addrs d) d
  pub apart : (b : ℕ) → count b (file_blocks addrs d) ≢ 0 → addrs ndirect ≢ bblock b d

-- What `free_blocks` comes to.
abbrev Frees : (ℕ → ℕ) → Disk → Type 0
Frees addrs d =
    (d' : Disk) × (left : ℕ → ℕ) × (free_blocks addrs d ≡ ok (left, d'))
    × Freed (file_blocks addrs d) d d'
    × ((k : ℕ) → k ≤ ndirect → left k ≡ 0)

-- The loop over the direct blocks, and what follows it.
free_blocks-last :
    (addrs : ℕ → ℕ) (d d₁ : Disk)
    → free_all (pointers ndirect 0 addrs) d ≡ ok d₁
    → free_blocks addrs d ≡ free_last (cleared ndirect 0 addrs, d₁)
unfolding free_blocks
free_blocks-last addrs d d₁ run =
    ap (λ m. m >>= free_last)
      (free_direct-all ndirect 0 addrs d
        ∙ ap (λ m. m >>= (λ d. ok (cleared ndirect 0 addrs, d))) run)

free_last-none :
    (left : ℕ → ℕ) (d : Disk) → (left ndirect == 0) ≡ true → free_last (left, d) ≡ ok (left, d)
unfolding free_last
free_last-none left d z = rw z refl

-- The numbers in the indirect block.
unfoldable entries : (ℕ → ℕ) → List ℕ
unfolding pointers word
entries bytes = pointers nindirect 0 (λ j. word bytes (4 * j))

free_last-some :
    (left bytes : ℕ → ℕ) (last : ℕ) (d d₁ d₂ : Disk)
    → left ndirect ≡ last
    → (last == 0) ≡ false
    → d.blocks last ≡ bytes
    → free_all (entries bytes) d ≡ ok d₁
    → free_all (last ∷ []) d₁ ≡ ok d₂
    → free_last (left, d) ≡ ok (update left ndirect 0, d₂)
unfolding free_last entries
free_last-some left bytes last d d₁ d₂ at z same inner outer =
    rw
      (
        at,
        z,
        same,
        free_indirect-all nindirect 0 bytes d,
        inner,
        sym (free_all_one last d₁) ∙ outer,
      )
      refl

file_blocks-none :
    (addrs : ℕ → ℕ) (d : Disk)
    → (addrs ndirect == 0) ≡ true
    → file_blocks addrs d ≡ pointers ndirect 0 addrs ++ []
unfolding file_blocks indirect
file_blocks-none addrs d z = rw z refl

file_blocks-some :
    (addrs : ℕ → ℕ) (d : Disk)
    → (addrs ndirect == 0) ≡ false
    → file_blocks addrs d
      ≡ pointers ndirect 0 addrs ++ (entries (d.blocks (addrs ndirect)) ++ addrs ndirect ∷ [])
unfolding file_blocks indirect entries
file_blocks-some addrs d z = rw z refl

-- The inode names no indirect block.
direct-Frees :
    (addrs : ℕ → ℕ) (d : Disk) → IsFile addrs d → (addrs ndirect == 0) ≡ true → Frees addrs d
direct-Frees addrs d h z =
    let names = pointers ndirect 0 addrs in
    let left = cleared ndirect 0 addrs in
    let last : left ndirect ≡ addrs ndirect =
      cleared-behind ndirect 0 addrs ndirect (omega arith) in
    let all : file_blocks addrs d ≡ names ++ [] = file_blocks-none addrs d z in
    let (can, _) = CanFree-split names [] d (subst (λ bs. CanFree bs d) all h.named) in
    let (d₁, run, freed) = free_all_lem names d can in
    (
      d₁,
      left,
      free_blocks-last addrs d d₁ run ∙ free_last-none left d₁ (ap (λ a. a == 0) last ∙ z),
      subst (λ bs. Freed bs d d₁) (sym all) (Freed-append names [] d d₁ d₁ freed (nil-Freed d₁)),
      λ k l. elim (ℕ_discrete k ndirect) [
        | yes e ↦ ap left e ∙ last ∙ ground arith
        | no ne ↦ cleared-zero ndirect 0 addrs k (omega arith) (omega arith)
      ],
    )

-- The inode names an indirect block.
indirect-Frees :
    (addrs : ℕ → ℕ) (d : Disk) → IsFile addrs d → (addrs ndirect == 0) ≡ false → Frees addrs d
indirect-Frees addrs d h z =
    let last = addrs ndirect in
    let left = cleared ndirect 0 addrs in
    let names = pointers ndirect 0 addrs in
    let inner = entries (d.blocks last) in
    let at : left ndirect ≡ last = cleared-behind ndirect 0 addrs ndirect (omega arith) in
    let all : file_blocks addrs d ≡ names ++ (inner ++ last ∷ []) = file_blocks-some addrs d z in
    let (can, later) =
      CanFree-split names (inner ++ last ∷ []) d (subst (λ bs. CanFree bs d) all h.named) in
    let (d₁, run, freed) = free_all_lem names d can in
    let kept : d₁.blocks last ≡ d.blocks last = freed.blocks last (λ b n. h.apart b (
      let e = ap (count b) all in
      let c = count-append b names (inner ++ last ∷ []) in omega arith)) in
    let (can_inner, can_last) = CanFree-split inner (last ∷ []) d₁ (later d₁ freed) in
    let (d₂, run_inner, freed_inner) = free_all_lem inner d₁ can_inner in
    let (d₃, run_last, freed_last) = free_all_lem (last ∷ []) d₂ (can_last d₂ freed_inner) in
    (
      d₃,
      update left ndirect 0,
      free_blocks-last addrs d d₁ run
          ∙ free_last-some left (d.blocks last) last d₁ d₂ d₃ at z kept run_inner run_last,
      subst (λ bs. Freed bs d d₃) (sym all)
          (Freed-append names (inner ++ last ∷ []) d d₁ d₃ freed
            (Freed-append inner (last ∷ []) d₁ d₂ d₃ freed_inner freed_last)),
      λ k l. elim (ℕ_discrete k ndirect) [
        | yes e ↦ ap (update left ndirect 0) e ∙ update_self left ndirect 0
        | no ne ↦
            update_ne left ndirect k 0 ne
            ∙ cleared-zero ndirect 0 addrs k (omega arith) (omega arith)
      ],
    )

-- The loops of `itrunc` free exactly the blocks of the file.
pub free_blocks_lem : (addrs : ℕ → ℕ) (d : Disk) → IsFile addrs d → Frees addrs d
free_blocks_lem addrs d h = elim (Bool-cases (addrs ndirect == 0)) [
  | inl z ↦ direct-Frees addrs d h z
  | inr z ↦ indirect-Frees addrs d h z
]
