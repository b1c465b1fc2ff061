-- ===== src/Pipe/Inv.antt =====
-- The ring of pipe.c as a queue of at most PIPESIZE bytes, with counters that wrap at 2 ^ 32.
use mathlib.Core.Path.{ap₂}
use operating_systems_three.Prelude.{
  ℕ, zero, suc, ◌+◌, ◌-◌, ◌%◌, ◌^◌, ◌≡◌, ◌≤◌, ◌<◌, ◌==◌, refl, ap, List, [], ◌∷◌, ◌++◌, arith,
  update, update_self, update_ne, true, false, take, drop, length, Bool-cases, inl, inr,
}
use operating_systems_three.Pipe.{Pipe, pipe_size, full, put, copy}

-- The number of bytes in the ring.
abbrev pub fill : Pipe → ℕ
fill p = (p.nwrite + 2 ^ 32 - p.nread) % 2 ^ 32

pub record IsValid (p : Pipe) : Type 0 where
  pub fits : fill p ≤ pipe_size
  pub nread_word : p.nread < 2 ^ 32
  pub nwrite_word : p.nwrite < 2 ^ 32

-- The `n` bytes from counter `h` on.
abbrev pub window : (ℕ → ℕ) → ℕ → ℕ → List ℕ
window buf h zero = []
window buf h (suc n) = buf (h % pipe_size) ∷ window buf ((h + 1) % 2 ^ 32) n

-- The bytes that the pipe holds, oldest first.
unfoldable pub contents : Pipe → List ℕ
contents p = window p.buf p.nread (fill p)

length-window : (buf : ℕ → ℕ) (h n : ℕ) → length (window buf h n) ≡ n
length-window buf h zero = refl
length-window buf h (suc n) = ap suc (length-window buf ((h + 1) % 2 ^ 32) n)

pub length-contents : (p : Pipe) → length (contents p) ≡ fill p
unfolding contents
length-contents p = length-window p.buf p.nread (fill p)

window-update :
    (buf : ℕ → ℕ) (c n h i : ℕ)
    → h < 2 ^ 32
    → n < pipe_size
    → i ≡ (h + n) % 2 ^ 32 % pipe_size
    → window (update buf i c) h (suc n) ≡ window buf h n ++ (c ∷ [])
window-update buf c zero h i hh hn e =
    let here : h % pipe_size ≡ i = omega arith in rw (here, update_self buf i c)
window-update buf c (suc n) h i hh hn e =
    ap₂ ◌∷◌ (update_ne buf i (h % pipe_size) c (omega arith))
      (window-update buf c n ((h + 1) % 2 ^ 32) i (omega arith) (omega arith) (omega arith))

module _ {p : Pipe} (v : IsValid p) where
  -- The test of `pipewrite` finds a ring of PIPESIZE bytes, in spite of the wrapping counters.
  pub full-true : full p ≡ true → fill p ≡ pipe_size
  full-true e = ground arith

  pub full-false : full p ≡ false → fill p < pipe_size
  full-false e = ground arith

  pub put-IsValid : (c : ℕ) → full p ≡ false → IsValid (put c p)
  unfolding put
  put-IsValid c e = ground arith

  pub contents-put : (c : ℕ) → full p ≡ false → contents (put c p) ≡ contents p ++ (c ∷ [])
  unfolding put contents
  contents-put c e =
      let more : (((p.nwrite + 1) % 2 ^ 32) + 2 ^ 32 - p.nread) % 2 ^ 32 ≡ suc (fill p) =
        ground arith in
      rw more (
        window-update p.buf c (fill p) p.nread (p.nwrite % pipe_size) v.nread_word (full-false e)
          (ground arith))

-- The pipe with its oldest byte taken.
abbrev pub advance : Pipe → Pipe
advance p = record p { nread = (p.nread + 1) % 2 ^ 32 }

module _ {p : Pipe} (v : IsValid p) where
  pub contents-nil : (p.nread == p.nwrite) ≡ true → contents p ≡ []
  unfolding contents
  contents-nil e = let none : fill p ≡ 0 = ground arith in rw none

  pub contents-cons :
      (p.nread == p.nwrite) ≡ false
      → contents p ≡ p.buf (p.nread % pipe_size) ∷ contents (advance p)
  unfolding contents
  contents-cons e =
      let more : fill p ≡ suc (fill (advance p)) = ground arith in ap (window p.buf p.nread) more

  pub advance-IsValid : (p.nread == p.nwrite) ≡ false → IsValid (advance p)
  advance-IsValid e = ground arith

take-nil : (n : ℕ) → take {A = ℕ} n [] ≡ []
take-nil zero = refl
take-nil (suc n) = refl

drop-nil : (n : ℕ) → drop {A = ℕ} n [] ≡ []
drop-nil zero = refl
drop-nil (suc n) = refl

-- What the copying loop leaves: the first `n` bytes are taken, and only `nread` moves.
pub record Copied (n : ℕ) (p : Pipe) (out : List ℕ × Pipe) : Type 0 where
  pub bytes : out.0 ≡ take n (contents p)
  pub left : contents out.1 ≡ drop n (contents p)
  pub valid : IsValid out.1
  pub same_lock : out.1.locked ≡ p.locked
  pub same_woken : out.1.woken ≡ p.woken

pub copy-Copied : (n : ℕ) (p : Pipe) → IsValid p → Copied n p (copy n p)
unfolding copy
copy-Copied zero p v = record {
  bytes = refl;
  left = refl;
  valid = v;
  same_lock = refl;
  same_woken = refl;
}
copy-Copied (suc n) p v = elim (Bool-cases (p.nread == p.nwrite)) [
  | inl e ↦ rw e (record {
    bytes = rw (contents-nil v e);
    left = rw (contents-nil v e);
    valid = v;
    same_lock = refl;
    same_woken = refl;
  })
  | inr e ↦
      let rest = copy-Copied n (advance p) (advance-IsValid v e) in
      rw e (record {
        bytes = rw (contents-cons v e) (ap (λ cs. p.buf (p.nread % pipe_size) ∷ cs) rest.bytes);
        left = rw (contents-cons v e) rest.left;
        valid = rest.valid;
        same_lock = rest.same_lock;
        same_woken = rest.same_woken;
      })
]

-- A pipe between two calls.
pub record IsIdle (p : Pipe) : Type 0 where
  pub free : p.locked ≡ false
  pub valid : IsValid p
