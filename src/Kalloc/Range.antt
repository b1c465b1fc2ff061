-- ===== src/Kalloc/Range.antt =====
-- `freerange`, `kinit1` and `kinit2`: which pages the allocator starts with.
use operating_systems_three.Prelude.{
  ℕ, zero, suc, ◌+◌, ◌-◌, ◌*◌, ◌/◌, ◌%◌, ◌^◌, ◌≡◌, ◌≤◌, ◌<◌, refl, List, [], ◌∷◌, arith, leb, true,
  false, ok, ◌>>=◌, length, ap, ◌∙◌,
}
use operating_systems_three.Kalloc.{
  page_size, kern_base, phys_stop, page_round_up, Kmem, kfree, free_from, freerange, kinit1, kinit2,
}
use operating_systems_three.Kalloc.FreeList.{IsPage, NotIn}
use operating_systems_three.Kalloc.Frees.{Holds, freed, kfree-ok, freed-Holds}

-- The `n` pages from `p` on, freed in ascending order in front of `xs`.
unfoldable pub pages_from : (n p : ℕ) → List ℕ → List ℕ
pages_from zero p xs = xs
pages_from (suc n) p xs = pages_from n (p + page_size) (p ∷ xs)

abbrev pub Below : ℕ → List ℕ → Type 0
Below p [] = Unit
Below p (x ∷ xs) = (x < p) × Below p xs

Below-NotIn : (p : ℕ) (xs : List ℕ) → Below p xs → NotIn p xs
Below-NotIn p [] b = tt
Below-NotIn p (x ∷ xs) b = (omega arith, Below-NotIn p xs b.1)

Below-mono : (p q : ℕ) (xs : List ℕ) → p ≤ q → Below p xs → Below q xs
Below-mono p q [] h b = tt
Below-mono p q (x ∷ xs) h b = (omega arith, Below-mono p q xs h b.1)

-- The end of direct-mapped memory, P2V(PHYSTOP).
abbrev pub mem_end : ℕ
mem_end = kern_base + phys_stop

-- The pages that fit between `p` and `vend`.
abbrev pub fits : ℕ → ℕ → ℕ
fits p vend = (vend - p) / page_size

free_from-step :
    (end vend fuel p : ℕ) (k k' : Kmem)
    → leb ((p + page_size) % 2 ^ 32) vend ≡ true
    → kfree end p k ≡ ok k'
    → free_from end vend (suc fuel) p k ≡ free_from end vend fuel ((p + page_size) % 2 ^ 32) k'
unfolding free_from
free_from-step end vend fuel p k k' go e = rw (go, e)

module _ (end vend : ℕ) (top : vend ≤ mem_end) where
  free_from-Holds :
      (n fuel p : ℕ) (k : Kmem) (xs : List ℕ)
      → Holds end k xs
      → Below p xs
      → p % page_size ≡ 0
      → end ≤ p
      → kern_base ≤ p
      → p ≤ mem_end
      → n ≡ fits p vend
      → n < fuel
      → (k' : Kmem) × (free_from end vend fuel p k ≡ ok k')
        × Holds end k' (pages_from n p xs)
        × (k'.use_lock ≡ k.use_lock)
  unfolding free_from pages_from
  free_from-Holds n zero p k xs h b al above base low e f = absurd (omega arith)
  free_from-Holds zero (suc fuel) p k xs h b al above base low e f =
      let stop : leb ((p + page_size) % 2 ^ 32) vend ≡ false = ground arith in (k, rw stop, h, refl)
  free_from-Holds (suc n) (suc fuel) p k xs h b al above base low e f =
      let go : leb ((p + page_size) % 2 ^ 32) vend ≡ true = ground arith in
      let page : IsPage end p = omega arith in
      let next : (p + page_size) % 2 ^ 32 ≡ p + page_size = omega arith in
      let rest =
        free_from-Holds n fuel (p + page_size) (freed p k) (p ∷ xs)
          (freed-Holds end p k xs h page (Below-NotIn p xs b))
          (omega arith, Below-mono p (p + page_size) xs (omega arith) b) (omega arith) (omega arith)
          (omega arith) (omega arith) (omega arith) (omega arith) in
      (
        rest.0,
        free_from-step end vend fuel p k (freed p k) go (kfree-ok end p k h.free page)
            ∙ ap (λ q. free_from end vend fuel q (freed p k)) next
            ∙ rest.1,
        rest.2,
        rest.3,
      )

  -- With the lock free and only pages below the range on the list, `freerange` returns, with
  -- every whole page of the range in front of what the list held, and `use_lock` unchanged.
  pub freerange-Holds :
      (vstart : ℕ) (k : Kmem) (xs : List ℕ)
      → end ≤ vstart
      → kern_base ≤ vstart
      → vstart ≤ vend
      → Holds end k xs
      → Below vstart xs
      → (k' : Kmem) × (freerange end vstart vend k ≡ ok k')
        × Holds end k' (pages_from (fits (page_round_up vstart) vend) (page_round_up vstart) xs)
        × (k'.use_lock ≡ k.use_lock)
  unfolding freerange
  freerange-Holds vstart k xs above base low h b =
      free_from-Holds (fits (page_round_up vstart) vend) (vend / page_size + 1)
        (page_round_up vstart) k xs h (Below-mono vstart (page_round_up vstart) xs (omega arith) b)
        (omega arith) (omega arith) (omega arith) (omega arith) refl (omega arith)

pages_from-length : (n p : ℕ) (xs : List ℕ) → length (pages_from n p xs) ≡ n + length xs
unfolding pages_from
pages_from-length zero p xs = omega arith
pages_from-length (suc n) p xs = omega (arith, pages_from-length n (p + page_size) (p ∷ xs))

pages_from-Below :
    (n p q : ℕ) (xs : List ℕ) → Below p xs → p + n * page_size ≤ q → Below q (pages_from n p xs)
unfolding pages_from
pages_from-Below zero p q xs b h = Below-mono p q xs (omega arith) b
pages_from-Below (suc n) p q xs b h =
    pages_from-Below n (p + page_size) q (p ∷ xs)
      (omega arith, Below-mono p (p + page_size) xs (omega arith) b) (omega arith)

-- Starting up: `kinit1` on `[vstart, mid)` and then `kinit2` on `[mid, vend)`, with both bounds in
-- direct-mapped memory above `end` and `mid` aligned, leave the allocator with the lock free and in
-- use, and as many free pages as fit in the two ranges.
pub kinit_pages :
    (end vstart mid vend : ℕ) (k : Kmem)
    → end ≤ vstart
    → kern_base ≤ vstart
    → vstart ≤ mid
    → mid ≤ vend
    → vend ≤ mem_end
    → mid % page_size ≡ 0
    → k.freelist ≡ 0
    → (k' : Kmem) × (xs : List ℕ) × ((kinit1 end vstart mid k >>= kinit2 end mid vend) ≡ ok k')
      × Holds end k' xs
      × (k'.use_lock ≡ true)
      × (length xs ≡ fits (page_round_up vstart) mid + (vend - mid) / page_size)
unfolding kinit1 kinit2
kinit_pages end vstart mid vend k above base low1 low2 top al empty =
    let p = page_round_up vstart in
    let xs = pages_from (fits p mid) p [] in
    let start : Kmem = record k { locked = false; use_lock = false } in
    let one =
      freerange-Holds end mid (omega arith) vstart start [] above base low1
        (record { free = refl; chain = empty }) tt in
    let two =
      freerange-Holds end vend top mid one.0 xs (omega arith) (omega arith) low2 one.2
        (pages_from-Below (fits p mid) p mid [] tt (omega arith)) in
    (
      record (two.0) { use_lock = true },
      pages_from (fits (page_round_up mid) vend) (page_round_up mid) xs,
      rw (one.1, two.1),
      record { free = two.2.free; chain = two.2.chain },
      refl,
      omega (
        arith,
        pages_from-length (fits (page_round_up mid) vend) (page_round_up mid) xs,
        pages_from-length (fits p mid) p [],
      ),
    )
