-- ===== src/Kalloc.antt =====
-- src/kalloc.c: the allocator of physical pages. The free list runs through the free pages
-- themselves, so the memory is a part of the state: `mem a` is the 32-bit word at address `a`.
pub mod FreeList
pub mod Frees
pub mod Range
mod Examples
use operating_systems_three.Prelude.{
  ℕ, zero, suc, ◌+◌, ◌-◌, ◌*◌, ◌/◌, ◌%◌, ◌^◌, ◌==◌, leb, ltb, if◌then◌else◌, Bool, true, false, not,
  ◌&&◌, ◌||◌, update, Outcome, ok, panic, ◌>>=◌, ◌>>◌, panic_if,
}

-- PGSIZE of mmu.h, KERNBASE and PHYSTOP of memlayout.h.
abbrev pub page_size : ℕ
page_size = 4096

abbrev pub kern_base : ℕ
kern_base = 0x80000000

abbrev pub phys_stop : ℕ
phys_stop = 0xE000000

-- V2P(a), on 32-bit addresses.
abbrev pub v2p : ℕ → ℕ
v2p a = (a + 2 ^ 32 - kern_base) % 2 ^ 32

-- PGROUNDUP(sz), `(sz + PGSIZE - 1) & ~(PGSIZE - 1)` on 32-bit numbers.
abbrev pub page_round_up : ℕ → ℕ
page_round_up sz = (sz + page_size - 1) % 2 ^ 32 / page_size * page_size

-- `kmem`. `locked` says that this CPU holds `kmem.lock`; 0 is the null pointer.
pub record Kmem : Type 0 where
  pub locked : Bool
  pub use_lock : Bool
  pub freelist : ℕ
  pub mem : ℕ → ℕ

-- `memset(v, 1, PGSIZE)`, word by word.
unfoldable pub fill : ℕ → (ℕ → ℕ) → ℕ → ℕ
fill v mem a = if leb v a && ltb a (v + page_size) then 0x01010101 else mem a

-- `if(kmem.use_lock) acquire(&kmem.lock)`: `acquire` panics on a lock that this CPU holds.
lock : Kmem → Outcome Kmem
lock k = if k.use_lock then (if k.locked then panic else ok (record k { locked = true })) else ok k

-- `if(kmem.use_lock) release(&kmem.lock)`: `release` panics on a lock that it does not hold.
unlock : Kmem → Outcome Kmem
unlock k =
    if k.use_lock then (if k.locked then ok (record k { locked = false }) else panic) else ok k

-- The guard of `kfree`; `end` is the first address behind the kernel, set by the linker.
abbrev pub bad_page : ℕ → ℕ → Bool
bad_page end v = not (v % page_size == 0) || ltb v end || leb phys_stop (v2p v)

unfoldable pub kfree : ℕ → ℕ → Kmem → Outcome Kmem
unfolding fill lock unlock
kfree end v k = do
  panic_if (bad_page end v)
  k ← lock (record k { mem = fill v k.mem })
  unlock (record k { mem = update k.mem v k.freelist; freelist = v })

unfoldable pub kalloc : Kmem → Outcome (Kmem × ℕ)
unfolding lock unlock
kalloc k = do
  k ← lock k
  let r = k.freelist
  k ← unlock (if r == 0 then k else record k { freelist = k.mem r })
  ok (k, r)

-- The loop of `freerange` at `p`, on fuel.
unfoldable pub free_from : ℕ → ℕ → (fuel p : ℕ) → Kmem → Outcome Kmem
free_from end vend zero p k = panic
free_from end vend (suc fuel) p k =
    let rest = kfree end p k >>= free_from end vend fuel ((p + page_size) % 2 ^ 32) in
    if leb ((p + page_size) % 2 ^ 32) vend then rest else ok k

-- One round for each page below `vend`, and one for the last test.
unfoldable pub freerange : ℕ → ℕ → ℕ → Kmem → Outcome Kmem
unfolding free_from
freerange end vstart vend k = free_from end vend (vend / page_size + 1) (page_round_up vstart) k

unfoldable pub kinit1 : ℕ → ℕ → ℕ → Kmem → Outcome Kmem
unfolding freerange
kinit1 end vstart vend k = freerange end vstart vend (record k { locked = false; use_lock = false })

unfoldable pub kinit2 : ℕ → ℕ → ℕ → Kmem → Outcome Kmem
unfolding freerange
kinit2 end vstart vend k = do k ← freerange end vstart vend k; ok (record k { use_lock = true })
