-- ===== src/Bytes/Lengths.antt =====
-- `strlen` and `strncmp` on C strings.
use operating_systems_three.Prelude.{
  ℕ, zero, suc, ◌+◌, ◌≡◌, ◌≢◌, ◌<◌, ◌↔◌, refl, ap, subst, ◌∙◌, arith, inl, inr, ◌==◌, not, true,
  false, Bool-cases, ◌&&◌, ℕ_discrete, some,
}
use operating_systems_three.Bytes.{Mem, pos, diff, strncmp, strlen_from}
use operating_systems_three.Bytes.Sets.{diff-zero}

-- The string at `t` has `len` bytes before its NUL.
pub record StrLen (m : Mem) (t len : ℕ) : Type 0 where
  pub text : (k : ℕ) → k < len → m (t + k) ≢ 0
  pub end : m (t + len) ≡ 0

pub StrLen-zero : (m : Mem) (t : ℕ) → StrLen m t 0 → m t ≡ 0
StrLen-zero m t h = ap m (omega arith) ∙ h.end

pub StrLen-head : (m : Mem) (t len : ℕ) → StrLen m t (suc len) → m t ≢ 0
StrLen-head m t len h e = h.text 0 (omega arith) (ap m (omega arith) ∙ e)

pub StrLen-tail : (m : Mem) (t len : ℕ) → StrLen m t (suc len) → StrLen m (t + 1) len
StrLen-tail m t len h = record {
  text = λ k l e. h.text (suc k) (omega arith) (ap m (omega arith) ∙ e);
  end = ap m (omega arith) ∙ h.end;
}

pub StrLen-nil : (m : Mem) (t : ℕ) → m t ≡ 0 → StrLen m t 0
StrLen-nil m t z = record { text = λ k l. absurd (omega arith); end = ap m (omega arith) ∙ z }

pub StrLen-cons : (m : Mem) (t len : ℕ) → m t ≢ 0 → StrLen m (t + 1) len → StrLen m t (suc len)
StrLen-cons m t len ne h = record { text = text; end = ap m (omega arith) ∙ h.end }
  where
    text : (k : ℕ) → k < suc len → m (t + k) ≢ 0
    text zero l e = ne (ap m (omega arith) ∙ e)
    text (suc k) l e = h.text k (omega arith) (ap m (omega arith) ∙ e)

strlen_from-StrLen :
    (len fuel s n : ℕ) (m : Mem)
    → StrLen m (s + n) len
    → len < fuel
    → strlen_from fuel s n m ≡ some (n + len)
unfolding strlen_from
strlen_from-StrLen len zero s n m h l = absurd (omega arith)
strlen_from-StrLen zero (suc f) s n m h l =
    let nothing : n + 0 ≡ n = omega arith in
    let ends = StrLen-zero m (s + n) h in
    let hit : (m (s + n) == 0) ≡ true = ground arith in rw (hit, nothing) refl
strlen_from-StrLen (suc len) (suc f) s n m h l =
    let shift : n + suc len ≡ n + 1 + len = omega arith in
    let go_on = StrLen-head m (s + n) len h in
    let miss : (m (s + n) == 0) ≡ false = ground arith in
    rw (miss, shift)
      (strlen_from-StrLen len f s (n + 1) m
        (subst (λ a. StrLen m a len) (omega arith) (StrLen-tail m (s + n) len h)) (omega arith))

-- `strlen` returns the number of bytes before the NUL, if the loop has a round for each of them
-- and for the NUL.
pub strlen_lem :
    (fuel s len : ℕ) (m : Mem) → StrLen m s len → len < fuel → strlen_from fuel s 0 m ≡ some len
strlen_lem fuel s len m h l =
    strlen_from-StrLen len fuel s 0 m (subst (λ a. StrLen m a len) (omega arith) h) l
    ∙ ap (λ k. some k) (omega arith)

-- There is no NUL among the first `n` bytes at `t`.
abbrev pub Text : Mem → ℕ → ℕ → Type 0
Text m t n = (k : ℕ) → k < n → m (t + k) ≢ 0

pub Text-head : (m : Mem) (t n : ℕ) → Text m t (suc n) → m t ≢ 0
Text-head m t n h e = h 0 (omega arith) (ap m (omega arith) ∙ e)

pub Text-tail : (m : Mem) (t n : ℕ) → Text m t (suc n) → Text m (t + 1) n
Text-tail m t n h k l e = h (suc k) (omega arith) (ap m (omega arith) ∙ e)

pub Text-cons : (m : Mem) (t n : ℕ) → m t ≢ 0 → Text m (t + 1) n → Text m t (suc n)
Text-cons m t n h rest zero l e = h (ap m (omega arith) ∙ e)
Text-cons m t n h rest (suc k) l e = rest k (omega arith) (ap m (omega arith) ∙ e)

-- The strings at `p` and `q` are equal as far as `n` bytes.
abbrev pub Agree : ℕ → ℕ → ℕ → Mem → Type 0
Agree p q n m = (k : ℕ) → k < n → Text m p k → m (p + k) ≡ m (q + k)

Agree-head : (p q n : ℕ) (m : Mem) → Agree p q (suc n) m → m p ≡ m q
Agree-head p q n m h =
    ap m (omega arith) ∙ h 0 (omega arith) (λ k l. omega arith) ∙ ap m (omega arith)

Agree-tail : (p q n : ℕ) (m : Mem) → m p ≢ 0 → Agree p q (suc n) m → Agree (p + 1) (q + 1) n m
Agree-tail p q n m ne h k l text =
    ap m (omega arith) ∙ h (suc k) (omega arith) (Text-cons m p k ne text) ∙ ap m (omega arith)

Agree-cons :
    (p q n : ℕ) (m : Mem) → m p ≡ m q → (m p ≢ 0 → Agree (p + 1) (q + 1) n m) → Agree p q (suc n) m
Agree-cons p q n m e h zero l text =
    let there : (s : ℕ) → s + 0 ≡ s = λ s. omega arith in rw (there p, there q) e
Agree-cons p q n m e h (suc k) l text =
    let there : (s : ℕ) → s + suc k ≡ s + 1 + k = λ s. omega arith in
    rw (there p, there q) (h (Text-head m p k text) k (omega arith) (Text-tail m p k text))

diff-same : (a b : ℕ) → a ≡ b → diff a b ≡ pos 0
unfolding diff
diff-same a b e = ground arith

-- `strncmp` returns 0 exactly if the two strings are equal up to the first NUL, or in their first
-- `n` bytes.
pub strncmp-Agree : (p q n : ℕ) (m : Mem) → (strncmp p q n m ≡ pos 0) ↔ Agree p q n m
unfolding strncmp
strncmp-Agree p q zero m = (λ _ k l. absurd (omega arith), λ _. refl)
strncmp-Agree p q (suc n) m =
    let (agree, zero_if) = strncmp-Agree (p + 1) (q + 1) n m in
    elim (Bool-cases (not (m p == 0) && m p == m q)) [
      | inl go_on ↦
          let e : m p ≡ m q = ground arith in
          let ne : m p ≢ 0 = ground arith in
          rw go_on
            (λ z. Agree-cons p q n m e (λ _. agree z), λ h. zero_if (Agree-tail p q n m ne h))
      | inr stop ↦ rw stop (
        λ z. elim (ℕ_discrete (m p) (m q)) [
          | yes e ↦ Agree-cons p q n m e (λ ne. absurd (ground arith))
          | no ne ↦ absurd (diff-zero (m p) (m q) ne z)
        ],
        λ h. diff-same (m p) (m q) (Agree-head p q n m h),
      )
    ]
