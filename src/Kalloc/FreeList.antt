-- ===== src/Kalloc/FreeList.antt =====
-- The free list of kalloc.c as a list of pages.
use operating_systems_three.Prelude.{
  ℕ, ◌%◌, ◌^◌, ◌≡◌, ◌≢◌, ◌≤◌, ◌<◌, List, [], ◌∷◌, arith, update, false,
}
use operating_systems_three.Kalloc.{page_size, phys_stop, v2p, fill, bad_page}

-- The addresses that `kfree` accepts.
pub record IsPage (end v : ℕ) : Type 0 where
  pub aligned : v % page_size ≡ 0
  pub above : end ≤ v
  pub below : v2p v < phys_stop
  pub word : v < 2 ^ 32

abbrev pub NotIn : ℕ → List ℕ → Type 0
NotIn v [] = Unit
NotIn v (x ∷ xs) = (v ≢ x) × NotIn v xs

-- From `p` the next words lead through the distinct pages `xs` to the null pointer.
abbrev pub Chain : ℕ → (ℕ → ℕ) → ℕ → List ℕ → Type 0
Chain end mem p [] = p ≡ 0
Chain end mem p (x ∷ xs) = (p ≡ x) × IsPage end x × NotIn x xs × Chain end mem (mem x) xs

module _ {end : ℕ} where
  pub page_not_null : {v : ℕ} → IsPage end v → v ≢ 0
  page_not_null h = omega arith

  pub page_not_bad : {v : ℕ} → IsPage end v → bad_page end v ≡ false
  page_not_bad h = ground arith

  -- Filling one page and linking it leaves the words of the others alone.
  pub link_other :
      (mem : ℕ → ℕ) (v x next : ℕ)
      → IsPage end v
      → IsPage end x
      → v ≢ x
      → update (fill v mem) v next x ≡ mem x
  unfolding update fill
  link_other mem v x next hv hx ne = ground arith

  pub Chain-link :
      (mem : ℕ → ℕ) (v next p : ℕ) (xs : List ℕ)
      → IsPage end v
      → NotIn v xs
      → Chain end mem p xs
      → Chain end (update (fill v mem) v next) p xs
  Chain-link mem v next p [] hv out c = c
  Chain-link mem v next p (x ∷ xs) hv out c = (
    c.0,
    c.1,
    c.2,
    rw (link_other mem v x next hv c.1 out.0) (Chain-link mem v next (mem x) xs hv out.1 c.3),
  )
