-- ===== src/Kalloc/Frees.antt =====
-- What `kfree` and `kalloc` do to the free list.
use operating_systems_three.Prelude.{
  ℕ, ◌+◌, ◌^◌, ◌≡◌, ◌≢◌, ◌<◌, refl, List, [], ◌∷◌, arith, update, update_self, false, ltb, leb,
  ◌&&◌, ok, panic, ◌>>=◌, ◌↔◌, Bool-cases, inl, inr,
}
use operating_systems_three.Kalloc.{page_size, Kmem, fill, kfree, kalloc, bad_page}
use operating_systems_three.Kalloc.FreeList.{
  IsPage, NotIn, Chain, Chain-link, page_not_null, page_not_bad,
}

-- The allocator between two calls: the lock is free and the list holds the pages `xs`.
pub record Holds (end : ℕ) (k : Kmem) (xs : List ℕ) : Type 0 where
  pub free : k.locked ≡ false
  pub chain : Chain end k.mem k.freelist xs

-- What `kfree` leaves.
abbrev pub freed : ℕ → Kmem → Kmem
freed v k = record k { mem = update (fill v k.mem) v k.freelist; freelist = v }

pub kfree-ok :
    (end v : ℕ) (k : Kmem) → k.locked ≡ false → IsPage end v → kfree end v k ≡ ok (freed v k)
unfolding kfree
kfree-ok end v k u h = rw (page_not_bad h) (ground arith)

pub freed-Holds :
    (end v : ℕ) (k : Kmem) (xs : List ℕ)
    → Holds end k xs
    → IsPage end v
    → NotIn v xs
    → Holds end (freed v k) (v ∷ xs)
freed-Holds end v k xs h hv out = record {
  free = h.free;
  chain = (
    refl,
    hv,
    out,
    rw (update_self (fill v k.mem) v k.freelist)
        (Chain-link k.mem v k.freelist k.freelist xs hv out h.chain),
  );
}

-- If the lock is free and the free list holds the pages `xs`, then freeing a page that is not
-- among them returns with the lock free, that page in front of the list, and no word outside the
-- page changed.
pub kfree-Holds :
    (end v : ℕ) (k : Kmem) (xs : List ℕ)
    → Holds end k xs
    → IsPage end v
    → NotIn v xs
    → (k' : Kmem) × (kfree end v k ≡ ok k')
      × Holds end k' (v ∷ xs)
      × ((a : ℕ) → (leb v a && ltb a (v + page_size)) ≡ false → k'.mem a ≡ k.mem a)
kfree-Holds end v k xs h hv out =
    (freed v k, kfree-ok end v k h.free hv, freed-Holds end v k xs h hv out, same)
  where
    same : (a : ℕ) → (leb v a && ltb a (v + page_size)) ≡ false → (freed v k).mem a ≡ k.mem a
    same a e = unfold update fill in ground arith

-- With the lock free, `kfree` of a 32-bit address panics exactly if the address is not that of a
-- page between `end` and PHYSTOP.
pub kfree-panic_iff :
    (end v : ℕ) (k : Kmem)
    → k.locked ≡ false
    → v < 2 ^ 32
    → (kfree end v k ≡ panic) ↔ (¬ IsPage end v)
kfree-panic_iff end v k u w = (forth, back)
  where
    forth : kfree end v k ≡ panic → ¬ IsPage end v
    forth e h = let r = kfree-ok end v k u h in cc

    page : bad_page end v ≡ false → IsPage end v
    page e = ground arith

    back : ¬ IsPage end v → kfree end v k ≡ panic
    back no_page = elim (Bool-cases (bad_page end v)) [
      | inl bad ↦ unfold kfree in rw bad
      | inr good ↦ absurd (no_page (page good))
    ]

-- Where the free list is not empty, `kalloc` returns the page in front, which is not null, and
-- leaves the rest, with the lock free and the memory unchanged.
pub kalloc-Holds :
    (end v : ℕ) (k : Kmem) (xs : List ℕ)
    → Holds end k (v ∷ xs)
    → (v ≢ 0) × ((k' : Kmem) × (kalloc k ≡ ok (k', v)) × Holds end k' xs × (k'.mem ≡ k.mem))
unfolding kalloc
kalloc-Holds end v k xs h = (
  page_not_null h.chain.1,
  (
    record k { freelist = k.mem v },
    ground (arith, page_not_null h.chain.1),
    record { free = h.free; chain = h.chain.3 },
    refl,
  ),
)

-- `kalloc` on an empty free list returns the null pointer and changes nothing.
pub kalloc-empty : (end : ℕ) (k : Kmem) → Holds end k [] → kalloc k ≡ ok (k, 0)
unfolding kalloc
kalloc-empty end k h = ground arith

-- A page that has just been freed is the next one that `kalloc` returns, and the allocator then
-- holds the pages that it held before.
pub kalloc-kfree :
    (end v : ℕ) (k : Kmem) (xs : List ℕ)
    → Holds end k xs
    → IsPage end v
    → NotIn v xs
    → (k' : Kmem) × ((kfree end v k >>= kalloc) ≡ ok (k', v)) × Holds end k' xs
kalloc-kfree end v k xs h hv out =
    let (ne, got) = kalloc-Holds end v (freed v k) xs (freed-Holds end v k xs h hv out) in
    (got.0, rw (kfree-ok end v k h.free hv) got.1, got.2)
