-- ===== src/Cache/Views.antt =====
-- The blocks of the disk as the kernel sees them through the cache, and `bread` against that view.
use operating_systems_three.Prelude.{
  ℕ, ◌≡◌, ◌≢◌, ◌⊎◌, refl, sym, ap, subst, ◌∙◌, arith, inl, inr, if◌then◌else◌, Bool, true, false,
  Bool-cases, List, [], ◌∷◌, Option, none, some, Option-cases, update, update_self, update_ne,
  ℕ_discrete,
}
use operating_systems_three.Cache.{Data, Buf, Bcache, change, find_buf, holds, unused, fresh}
use operating_systems_three.Cache.Order.{In, find_buf-none, find_buf-First, First-In}
use operating_systems_three.Cache.Gets.{IsCache}

-- What a buffer shows of block `n`: its contents if it is valid, else what is on the disk.
abbrev pub shown : Bcache → ℕ → ℕ → Data
shown c n b = if (c.buf b).valid then (c.buf b).contents else c.disk n

look : Bcache → ℕ → Option ℕ → Data
look c n none = c.disk n
look c n (some b) = shown c n b

-- Block `n` of the disk: the contents of its valid buffer, or else what is on the disk.
unfoldable pub view : Bcache → ℕ → Data
unfolding look
view c n = look c n (find_buf (holds 1 n) c.buf c.order)

-- Nobody refers to the buffer, and it has no change that is not on the disk.
abbrev pub IsIdle : Buf → Type 0
IsIdle b = (b.refcnt ≡ 0) × (b.dirty ≡ false)

-- An idle buffer shows what is on the disk, and a dirty one is valid.
pub record IsCoherent (c : Bcache) : Type 0 where
  pub cache : IsCache c
  pub clean :
      (a : ℕ)
      → In a c.order
      → IsIdle (c.buf a)
      → (c.buf a).valid ≡ true
      → (c.buf a).dev ≡ 1
      → (c.buf a).contents ≡ c.disk (c.buf a).blockno
  pub dirty : (a : ℕ) → In a c.order → (c.buf a).dirty ≡ true → (c.buf a).valid ≡ true

pub view-of :
    (n b : ℕ) (c : Bcache)
    → IsCache c
    → In b c.order
    → holds 1 n (c.buf b) ≡ true
    → view c n ≡ shown c n b
unfolding view look
view-of n b c h i e = elim (Option-cases (find_buf (holds 1 n) c.buf c.order)) [
  | inl f ↦ absurd (let miss = find_buf-none (holds 1 n) c.buf c.order f b i in ground arith)
  | inr (a, f) ↦
      let at = find_buf-First (holds 1 n) c.buf c.order a f in
      let hit = at.hit in
      let same : a ≡ b = h.one a b (First-In at) i (ground arith) (ground arith) (ground arith) in
      rw f (ap (λ k. shown c n k) same)
]

view-none :
    (n : ℕ) (c : Bcache)
    → ((a : ℕ) → In a c.order → holds 1 n (c.buf a) ≡ false)
    → view c n ≡ c.disk n
unfolding view look
view-none n c clear = elim (Option-cases (find_buf (holds 1 n) c.buf c.order)) [
  | inl f ↦ rw f refl
  | inr (a, f) ↦
      let at = find_buf-First (holds 1 n) c.buf c.order a f in
      absurd (let hit = at.hit in let miss = clear a (First-In at) in ground arith)
]

find_buf-same :
    (test : Buf → Bool) (buf buf' : ℕ → Buf) (xs : List ℕ)
    → ((a : ℕ) → test (buf' a) ≡ test (buf a))
    → find_buf test buf' xs ≡ find_buf test buf xs
unfolding find_buf
find_buf-same test buf buf' [] h = refl
find_buf-same test buf buf' (x ∷ xs) h = rw (h x, find_buf-same test buf buf' xs h) refl

-- A change of one buffer that keeps its block and what it shows of it.
pub change-view :
    (b : ℕ) (f : Buf → Buf) (c : Bcache)
    → (f (c.buf b)).dev ≡ (c.buf b).dev
    → (f (c.buf b)).blockno ≡ (c.buf b).blockno
    → ((n : ℕ) → holds 1 n (c.buf b) ≡ true → shown (change b f c) n b ≡ shown c n b)
    → (n : ℕ) → view (change b f c) n ≡ view c n
unfolding view
change-view b f c same_dev same_no kept n =
    rw (find_buf-same (holds 1 n) c.buf (update c.buf b (f (c.buf b))) c.order tests)
      (elim (Option-cases (find_buf (holds 1 n) c.buf c.order)) [
        | inl e ↦ rw e (unfold look in refl)
        | inr (a, e) ↦
            let at = find_buf-First (holds 1 n) c.buf c.order a e in
            rw e (unfold look in value a at.hit (ℕ_discrete a b))
      ])
  where
    tests : (a : ℕ) → holds 1 n (update c.buf b (f (c.buf b)) a) ≡ holds 1 n (c.buf a)
    tests a = elim (ℕ_discrete a b) [
      | yes e ↦ rw (e, update_self c.buf b (f (c.buf b)), same_dev, same_no) refl
      | no ne ↦ rw (update_ne c.buf b a (f (c.buf b)) ne) refl
    ]

    value :
        (a : ℕ) → holds 1 n (c.buf a) ≡ true → Dec (a ≡ b) → shown (change b f c) n a ≡ shown c n a
    value a hit (yes e) =
        subst (λ a. shown (change b f c) n a ≡ shown c n a) (sym e)
          (kept n (subst (λ a. holds 1 n (c.buf a) ≡ true) e hit))
    value a hit (no ne) = rw (update_ne c.buf b a (f (c.buf b)) ne) refl

-- `bget` keeps the view.
pub fresh-view :
    (b n : ℕ) (c : Bcache)
    → IsCoherent c
    → ((a : ℕ) → In a c.order → holds 1 n (c.buf a) ≡ false)
    → In b c.order
    → unused (c.buf b) ≡ true
    → IsCache (change b (fresh 1 n) c)
    → (m : ℕ) → view (change b (fresh 1 n) c) m ≡ view c m
fresh-view b n c h absent i idle next m = elim (ℕ_discrete m n) [
  | yes e ↦
      subst (λ m. view (change b (fresh 1 n) c) m ≡ view c m) (sym e)
        (view-of n b (change b (fresh 1 n) c) next i (rw here (ground arith))
          ∙ (rw here (sym (view-none n c absent))))
  | no ne ↦ elim (Option-cases (find_buf (holds 1 m) c.buf c.order)) [
    | inl e ↦
        let none_holds = find_buf-none (holds 1 m) c.buf c.order e in
        view-none m (change b (fresh 1 n) c) (clear ne none_holds) ∙ sym (view-none m c none_holds)
    | inr (a, e) ↦
        let at = find_buf-First (holds 1 m) c.buf c.order a e in
        let j = First-In at in old ne a j at.hit (ℕ_discrete a b)
  ]
]
  where
    new : ℕ → Buf
    new = update c.buf b (fresh 1 n (c.buf b))

    here : new b ≡ fresh 1 n (c.buf b)
    here = update_self c.buf b (fresh 1 n (c.buf b))

    clear :
        m ≢ n
        → ((a : ℕ) → In a c.order → holds 1 m (c.buf a) ≡ false)
        → (a : ℕ) → In a c.order
        → holds 1 m (new a) ≡ false
    clear ne none_holds a j = elim (ℕ_discrete a b) [
      | yes e ↦ rw (e, here) (ground arith)
      | no na ↦ rw (update_ne c.buf b a (fresh 1 n (c.buf b)) na) (none_holds a j)
    ]

    others :
        m ≢ n
        → holds 1 m (c.buf b) ≡ true
        → (a : ℕ) → In a c.order
        → Dec (a ≡ b)
        → holds 1 m (new a) ≡ false
    others ne hit a j (yes e) = rw (e, here) (ground arith)
    others ne hit a j (no na) =
        rw (update_ne c.buf b a (fresh 1 n (c.buf b)) na) (elim (Bool-cases (holds 1 m (c.buf a))) [
          | inl also ↦
              absurd (na (h.cache.one a b j i (ground arith) (ground arith) (ground arith)))
          | inr miss ↦ miss
        ])

    disk_or :
        holds 1 m (c.buf b) ≡ true
        → ((c.buf b).valid ≡ true) ⊎ ((c.buf b).valid ≡ false)
        → shown c m b ≡ c.disk m
    disk_or hit (inl v) =
        rw v (h.clean b i (ground arith, ground arith) v (ground arith) ∙ ap c.disk (ground arith))
    disk_or hit (inr v) = rw v refl

    old :
        m ≢ n
        → (a : ℕ) → In a c.order
        → holds 1 m (c.buf a) ≡ true
        → Dec (a ≡ b)
        → view (change b (fresh 1 n) c) m ≡ view c m
    old ne a j hit (yes e) =
        let hit_b = subst (λ a. holds 1 m (c.buf a) ≡ true) e hit in
        view-none m (change b (fresh 1 n) c) (λ a j. others ne hit_b a j (ℕ_discrete a b))
        ∙ sym (view-of m b c h.cache i hit_b ∙ disk_or hit_b (Bool-cases (c.buf b).valid))
    old ne a j hit (no na) =
        let kept : new a ≡ c.buf a = update_ne c.buf b a (fresh 1 n (c.buf b)) na in
        view-of m a (change b (fresh 1 n) c) next j (rw kept hit)
        ∙ rw kept (sym (view-of m a c h.cache j hit))

-- A change of one buffer that is in use, or shows what is on the disk.
pub change-IsCoherent :
    (b : ℕ) (f : Buf → Buf) (c : Bcache)
    → IsCoherent c
    → IsCache (change b f c)
    → (IsIdle (f (c.buf b))
        → (f (c.buf b)).valid ≡ true
        → (f (c.buf b)).dev ≡ 1
        → (f (c.buf b)).contents ≡ c.disk (f (c.buf b)).blockno)
    → ((f (c.buf b)).dirty ≡ true → (f (c.buf b)).valid ≡ true)
    → IsCoherent (change b f c)
change-IsCoherent b f c h next clean dirty = record {
  cache = next;
  clean = λ a i. at_clean a i (ℕ_discrete a b);
  dirty = λ a i. at_dirty a i (ℕ_discrete a b);
}
  where
    new : ℕ → Buf
    new = update c.buf b (f (c.buf b))

    at_clean :
        (a : ℕ)
        → In a c.order
        → Dec (a ≡ b)
        → IsIdle (new a)
        → (new a).valid ≡ true
        → (new a).dev ≡ 1
        → (new a).contents ≡ c.disk (new a).blockno
    at_clean a i (yes e) = rw (e, update_self c.buf b (f (c.buf b))) clean
    at_clean a i (no ne) = rw (update_ne c.buf b a (f (c.buf b)) ne) (h.clean a i)

    at_dirty : (a : ℕ) → In a c.order → Dec (a ≡ b) → (new a).dirty ≡ true → (new a).valid ≡ true
    at_dirty a i (yes e) = rw (e, update_self c.buf b (f (c.buf b))) dirty
    at_dirty a i (no ne) = rw (update_ne c.buf b a (f (c.buf b)) ne) (h.dirty a i)
