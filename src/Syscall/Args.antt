-- ===== src/Syscall/Args.antt =====
-- What the kernel takes from a process as an argument lies within the memory of the process.
use operating_systems_three.Prelude.{
  ℕ, zero, suc, ◌+◌, ◌-◌, ◌*◌, ◌%◌, ◌^◌, ◌≡◌, ◌≤◌, ◌<◌, ◌↔◌, sym, ap, subst, ◌∙◌, arith, inl, inr,
  ◌==◌, leb, true, false, Bool-cases, some, Option-cases,
}
use operating_systems_three.Bytes.{Mem}
use operating_systems_three.Bytes.Lengths.{
  StrLen, StrLen-nil, StrLen-cons, StrLen-zero, StrLen-head, StrLen-tail,
}
use operating_systems_three.Syscall.{
  User, word, fetchint, scan_str, fetchstr, argint, check_ptr, argptr,
}

scan_str-found :
    (r s pp len : ℕ) (m : Mem)
    → scan_str r s pp m ≡ some len
    → (k : ℕ) × (k < r) × StrLen m s k × (len ≡ s + k - pp)
unfolding scan_str
scan_str-found zero s pp len m e = cc
scan_str-found (suc r) s pp len m e = elim (Bool-cases (m s == 0)) [
  | inl z ↦ (0, omega arith, StrLen-nil m s (ground arith), ground arith)
  | inr nz ↦
      let (k, l, str, at) = scan_str-found r (s + 1) pp len m (ground arith) in
      (suc k, omega arith, StrLen-cons m s k (ground arith) str, omega arith)
]

scan_str-StrLen :
    (r s pp k : ℕ) (m : Mem) → StrLen m s k → k < r → scan_str r s pp m ≡ some (s + k - pp)
unfolding scan_str
scan_str-StrLen zero s pp k m h l = absurd (omega arith)
scan_str-StrLen (suc r) s pp zero m h l =
    let hit : (m s == 0) ≡ true = ground (arith, StrLen-zero m s h) in
    rw hit (ap (λ k. some k) (omega arith))
scan_str-StrLen (suc r) s pp (suc k) m h l =
    let miss : (m s == 0) ≡ false = ground (arith, StrLen-head m s k h) in
    rw miss (
      scan_str-StrLen r (s + 1) pp k m (StrLen-tail m s k h) (omega arith)
      ∙ ap (λ k. some k) (omega arith))

-- `fetchstr` returns a length exactly if a string of that length starts at `addr`, and its NUL too
-- lies below `sz`; otherwise it fails.
pub fetchstr_iff :
    (addr len : ℕ) (p : User)
    → (fetchstr addr p ≡ some len) ↔ (StrLen p.mem addr len × (addr + len < p.sz))
unfolding fetchstr
fetchstr_iff addr len p = elim (Bool-cases (leb p.sz addr)) [
  | inl e ↦ rw e (λ h. cc, λ (_, l). absurd (ground arith))
  | inr e ↦
      let inside : addr < p.sz = ground arith in
      rw e (
        λ h.
            let (k, l, str, at) = scan_str-found (p.sz - addr) addr addr len p.mem h in
            let same : k ≡ len = omega arith in
            (subst (λ k. StrLen p.mem addr k) same str, omega arith),
        λ (str, l).
            scan_str-StrLen (p.sz - addr) addr addr len p.mem str (omega arith)
            ∙ ap (λ k. some k) (omega arith),
      )
]

argint_iff :
    (n i : ℕ) (p : User)
    → p.sz ≤ 2 ^ 31
    → p.esp + 4 + 4 * n < 2 ^ 32
    → (argint n p ≡ some i)
      ↔ ((p.esp + 4 + 4 * n + 4 ≤ p.sz) × (word p.mem (p.esp + 4 + 4 * n) ≡ i))
unfolding argint fetchint
argint_iff n i p low slot =
    let at : (p.esp + 4 + 4 * n) % 2 ^ 32 ≡ p.esp + 4 + 4 * n = omega arith in
    rw (argint, at) (go (p.esp + 4 + 4 * n))
  where
    go : (a : ℕ) → (fetchint a p ≡ some i) ↔ ((a + 4 ≤ p.sz) × (word p.mem a ≡ i))
    go a = ground arith

check_ptr_iff :
    (size i a : ℕ) (p : User)
    → p.sz ≤ 2 ^ 31
    → (check_ptr size p (some i) ≡ some a)
      ↔ ((i ≡ a) × (size < 2 ^ 31) × (a < p.sz) × (a + size ≤ p.sz))
unfolding check_ptr
check_ptr_iff size i a p low = ground arith

-- For a process below KERNBASE whose stack does not wrap around, `argptr` returns an address
-- exactly if the slot of the argument lies below `sz` and holds that address, the size is not
-- negative, and the address and the whole object from it on lie below `sz`.
pub argptr_iff :
    (n size a : ℕ) (p : User)
    → p.sz ≤ 2 ^ 31
    → p.esp + 4 + 4 * n < 2 ^ 32
    → (argptr n size p ≡ some a) ↔ (
        (p.esp + 4 + 4 * n + 4 ≤ p.sz)
        × (word p.mem (p.esp + 4 + 4 * n) ≡ a)
        × (size < 2 ^ 31)
        × (a < p.sz)
        × (a + size ≤ p.sz))
unfolding argptr
argptr_iff n size a p low slot = elim (Option-cases (argint n p)) [
  | inl e ↦ rw e (
    λ h. cc,
    λ (below, value, _, _, _). let q = sym e ∙ (argint_iff n a p low slot).1 (below, value) in cc,
  )
  | inr (i, e) ↦
      let (below, value) = (argint_iff n i p low slot).0 e in
      let (out, back) = check_ptr_iff size i a p low in
      rw e (
        λ h. let (same, x, y, z) = out h in (below, value ∙ same, x, y, z),
        λ (_, w, x, y, z). back (sym value ∙ w, x, y, z),
      )
]
