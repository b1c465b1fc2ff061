-- ===== src/Cache/Gets.antt =====
-- `bget` of bio.c: a block has at most one buffer, and the least recently used one is recycled.
use operating_systems_three.Prelude.{
  ℕ, ◌+◌, ◌≡◌, ◌≢◌, ◌⊎◌, refl, sym, ap, ◌∙◌, arith, inl, inr, true, false, Option-cases, update,
  update_self, update_ne, ok, panic, ℕ_discrete,
}
use operating_systems_three.Cache.{
  Buf, Bcache, change, acquire, release, find_buf, holds, unused, backward, fresh, recycle, found,
  bget,
}
use operating_systems_three.Cache.Order.{
  In, In-backward, backward-In, find_buf-none, First, find_buf-First, First-In,
}

-- The lock is free, and no two buffers of the list are for one block of a device other than 0.
pub record IsCache (c : Bcache) : Type 0 where
  pub free : c.locked ≡ false
  pub one :
      (a b : ℕ)
      → In a c.order
      → In b c.order
      → (c.buf a).dev ≡ (c.buf b).dev
      → (c.buf a).blockno ≡ (c.buf b).blockno
      → (c.buf a).dev ≢ 0
      → a ≡ b

-- A change of one buffer that leaves its block alone, ...
pub change-IsCache :
    (b : ℕ) (f : Buf → Buf) (c : Bcache)
    → (f (c.buf b)).dev ≡ (c.buf b).dev
    → (f (c.buf b)).blockno ≡ (c.buf b).blockno
    → IsCache c
    → IsCache (change b f c)
unfolding update
change-IsCache b f c same_dev same_no h = record {
  free = h.free;
  one = λ x y i j dev no nz.
      h.one x y i j (sym (dev_of x) ∙ dev ∙ dev_of y) (sym (no_of x) ∙ no ∙ no_of y)
        (λ z. nz (dev_of x ∙ z));
}
  where
    dev_of : (x : ℕ) → (update c.buf b (f (c.buf b)) x).dev ≡ (c.buf x).dev
    dev_of x = elim (ℕ_discrete x b) [
      | yes e ↦ rw (e, update_self c.buf b (f (c.buf b))) same_dev
      | no ne ↦ rw (update_ne c.buf b x (f (c.buf b)) ne) refl
    ]

    no_of : (x : ℕ) → (update c.buf b (f (c.buf b)) x).blockno ≡ (c.buf x).blockno
    no_of x = elim (ℕ_discrete x b) [
      | yes e ↦ rw (e, update_self c.buf b (f (c.buf b))) same_no
      | no ne ↦ rw (update_ne c.buf b x (f (c.buf b)) ne) refl
    ]

-- ... or gives it one that no other has.
fresh-IsCache :
    (b dev blockno : ℕ) (c : Bcache)
    → ((a : ℕ) → In a c.order → holds dev blockno (c.buf a) ≡ false)
    → IsCache c
    → IsCache (change b (fresh dev blockno) c)
fresh-IsCache b dev blockno c clear h = record { free = h.free; one = one }
  where
    new : ℕ → Buf
    new = update c.buf b (fresh dev blockno (c.buf b))

    here : new b ≡ fresh dev blockno (c.buf b)
    here = update_self c.buf b (fresh dev blockno (c.buf b))

    there : (x : ℕ) → x ≢ b → new x ≡ c.buf x
    there x ne = update_ne c.buf b x (fresh dev blockno (c.buf b)) ne

    taken : (x : ℕ) → In x c.order → x ≢ b → (new x).dev ≡ dev → (new x).blockno ≡ blockno → ⊥
    taken x i ne e f =
        let free = clear x i in
        let d : (c.buf x).dev ≡ dev = ap (λ (g : Buf). g.dev) (sym (there x ne)) ∙ e in
        let n : (c.buf x).blockno ≡ blockno = ap (λ (g : Buf). g.blockno) (sym (there x ne)) ∙ f in
        ground arith

    dev_b : (new b).dev ≡ dev
    dev_b = ap (λ (g : Buf). g.dev) here

    no_b : (new b).blockno ≡ blockno
    no_b = ap (λ (g : Buf). g.blockno) here

    one :
        (x y : ℕ)
        → In x c.order
        → In y c.order
        → (new x).dev ≡ (new y).dev
        → (new x).blockno ≡ (new y).blockno
        → (new x).dev ≢ 0
        → x ≡ y
    one x y i j d n nz = elim (ℕ_discrete x b) [
      | yes e ↦ elim (ℕ_discrete y b) [
        | yes f ↦ e ∙ sym f
        | no nf ↦ absurd (
            taken y j nf (sym d ∙ ap (λ k. (new k).dev) e ∙ dev_b)
              (sym n ∙ ap (λ k. (new k).blockno) e ∙ no_b))
      ]
      | no ne ↦ elim (ℕ_discrete y b) [
        | yes f ↦ absurd (
            taken x i ne (d ∙ ap (λ k. (new k).dev) f ∙ dev_b)
              (n ∙ ap (λ k. (new k).blockno) f ∙ no_b))
        | no nf ↦
            h.one x y i j
              (ap (λ (g : Buf). g.dev) (sym (there x ne))
                ∙ d
                ∙ ap (λ (g : Buf). g.dev) (there y nf))
              (ap (λ (g : Buf). g.blockno) (sym (there x ne))
                ∙ n
                ∙ ap (λ (g : Buf). g.blockno) (there y nf))
              (λ z. nz (ap (λ (g : Buf). g.dev) (there x ne) ∙ z))
      ]
    ]

-- `bget` finds the block cached, ...
pub record Hit (dev blockno : ℕ) (c : Bcache) (b : ℕ) (c' : Bcache) : Type 0 where
  pub listed : In b c.order
  pub here : holds dev blockno (c.buf b) ≡ true
  pub change : c' ≡ change b (λ f. record f { refcnt = f.refcnt + 1 }) c

-- ... or it does not, and recycles the last buffer of the list that is neither referred to nor
-- dirty, ...
pub record Recycled (dev blockno : ℕ) (c : Bcache) (b : ℕ) (c' : Bcache) : Type 0 where
  pub absent : (a : ℕ) → In a c.order → holds dev blockno (c.buf a) ≡ false
  pub listed : In b c.order
  pub last : First unused c.buf (backward c.order) b
  pub change : c' ≡ change b (fresh dev blockno) c

-- ... or there is none.
pub record Full (dev blockno : ℕ) (c : Bcache) : Type 0 where
  pub absent : (a : ℕ) → In a c.order → holds dev blockno (c.buf a) ≡ false
  pub busy : (a : ℕ) → In a c.order → unused (c.buf a) ≡ false

-- In a cache in which no block has two buffers, `bget` returns the buffer of the block with one
-- reference more, or else the recycled buffer, which is the last of the list that is neither
-- referred to nor dirty, and no block has two buffers then either; it panics exactly if the block
-- is not cached and every buffer is referred to or dirty.
pub bget_lem :
    (dev blockno : ℕ) (c : Bcache)
    → IsCache c
    → ((b : ℕ) × (c' : Bcache) × (bget dev blockno c ≡ ok (b, c'))
        × (Hit dev blockno c b c' ⊎ Recycled dev blockno c b c')
        × IsCache c')
      ⊎ ((bget dev blockno c ≡ panic) × Full dev blockno c)
unfolding bget found recycle acquire release
bget_lem dev blockno c h = elim (Option-cases (find_buf (holds dev blockno) c.buf c.order)) [
  | inr (b, e) ↦
      let at = find_buf-First (holds dev blockno) c.buf c.order b e in
      inl (
        b,
        change b (λ f. record f { refcnt = f.refcnt + 1 }) c,
        rw (h.free, e) refl,
        inl (record { listed = First-In at; here = at.hit; change = refl }),
        change-IsCache b (λ f. record f { refcnt = f.refcnt + 1 }) c refl refl h,
      )
  | inl e ↦
      let absent = find_buf-none (holds dev blockno) c.buf c.order e in
      elim (Option-cases (find_buf unused c.buf (backward c.order))) [
        | inr (b, f) ↦
            let at = find_buf-First unused c.buf (backward c.order) b f in
            inl (
              b,
              change b (fresh dev blockno) c,
              rw (h.free, e, f) refl,
              inr (record {
                absent = absent;
                listed = In-backward b c.order (First-In at);
                last = at;
                change = refl;
              }),
              fresh-IsCache b dev blockno c absent h,
            )
        | inl f ↦
            let busy = find_buf-none unused c.buf (backward c.order) f in
            inr (
              rw (h.free, e, f) refl,
              record { absent = absent; busy = λ a i. busy a (backward-In a c.order i) },
            )
      ]
]
