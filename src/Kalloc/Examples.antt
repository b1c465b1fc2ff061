-- ===== src/Kalloc/Examples.antt =====
-- The allocator at concrete pages.
use operating_systems_three.Prelude.{
  ℕ, ◌+◌, ◌≡◌, ◌≢◌, refl, [], ◌∷◌, arith, true, false, Outcome, ok, ◌>>=◌, update, ltb, leb, ◌&&◌,
}
use operating_systems_three.Kalloc.{page_size, Kmem, kfree, kalloc}
use operating_systems_three.Kalloc.FreeList.{IsPage}
use operating_systems_three.Kalloc.Frees.{
  Holds, freed, freed-Holds, kfree-Holds, kalloc-Holds, kalloc-empty,
}

abbrev kernel_end : ℕ
kernel_end = 0x80115000

abbrev one : ℕ
one = 0x80200000

abbrev two : ℕ
two = 0x80201000

abbrev fresh : Kmem
fresh = record { locked = false; use_lock = true; freelist = 0; mem = λ _. 0 }

fresh-Holds : Holds kernel_end fresh []
fresh-Holds = record { free = refl; chain = refl }

one-IsPage : IsPage kernel_end one
one-IsPage = omega arith

two-IsPage : IsPage kernel_end two
two-IsPage = omega arith

abbrev with_one : Kmem
with_one = freed one fresh

with_one-Holds : Holds kernel_end with_one (one ∷ [])
with_one-Holds = freed-Holds kernel_end one fresh [] fresh-Holds one-IsPage tt

-- Frees two pages and allocates three times.
in_and_out : Outcome (ℕ × ℕ × ℕ)
unfolding kfree kalloc update
in_and_out = do
  k ← kfree kernel_end one fresh
  k ← kfree kernel_end two k
  (k, a) ← kalloc k
  (k, b) ← kalloc k
  (k, c) ← kalloc k
  ok (a, b, c)

-- The page freed last comes out first, and null when there is none left.
alloc_order : in_and_out ≡ ok (two, one, 0)
unfolding in_and_out
alloc_order = refl

kfree-Holds_example :
    (k' : Kmem) × (kfree kernel_end two with_one ≡ ok k')
    × Holds kernel_end k' (two ∷ one ∷ [])
    × ((a : ℕ) → (leb two a && ltb a (two + page_size)) ≡ false → k'.mem a ≡ with_one.mem a)
kfree-Holds_example =
    kfree-Holds kernel_end two with_one (one ∷ []) with_one-Holds two-IsPage (omega arith, tt)

kalloc-Holds_example :
    (one ≢ 0)
    × ((k' : Kmem) × (kalloc with_one ≡ ok (k', one))
        × Holds kernel_end k' []
        × (k'.mem ≡ with_one.mem))
kalloc-Holds_example = kalloc-Holds kernel_end one with_one [] with_one-Holds

nothing_left : kalloc fresh ≡ ok (fresh, 0)
nothing_left = kalloc-empty kernel_end fresh fresh-Holds
