-- ===== src/Xcheck/Accepts.antt =====
-- Which images xcheck.c accepts.
use operating_systems_three.Prelude.{
  ℕ, ◌+◌, ◌*◌, ◌≡◌, ◌≢◌, ◌≤◌, ◌<◌, ◌↔◌, refl, sym, ap, subst, ◌∙◌, arith, inl, inr, leb,
  if◌then◌else◌, Bool, true, false, Bool-cases, ℕ_discrete,
}
use operating_systems_three.Xcheck.{pass, fail, Image, Super}
use operating_systems_three.Xcheck.Blocks.{mark_reserved, mark_used_blocks, check_bitmap}
use operating_systems_three.Xcheck.Marks.{refs, times, mark_add_lem}
use operating_systems_three.Xcheck.Bits.{Agrees, bit_at, check_bytes_lem}

-- How often a block is used: once by the file system up to its bitmap, and once for each inode or
-- indirect block that names it.
unfoldable pub uses : ℕ → Super → Image → ℕ
unfolding refs times
uses x sb m = (if leb x sb.bmapstart then 1 else 0) + times x (refs sb.ninodes 0 sb m)

-- No block is used twice, and the first 1000 bits of the bitmap are those of the used blocks.
pub record IsConsistent (sb : Super) (m : Image) : Type 0 where
  pub once : (x : ℕ) → uses x sb m ≤ 1
  pub bits : (x : ℕ) → x < 1000 → (bit_at (sb.bmapstart * 512) m x ≡ true) ↔ (uses x sb m ≢ 0)

true-false : true ≡ false → ⊥
true-false e = cc

Agrees-iff : (b : Bool) (n : ℕ) → n ≤ 1 → Agrees b n → (b ≡ true) ↔ (n ≢ 0)
Agrees-iff b n l a =
    (a.set, λ nz. elim (Bool-cases b) [ inl e ↦ e | inr e ↦ absurd (a.unset e (omega arith)) ])

iff_Agrees : (b : Bool) (n : ℕ) → (b ≡ true) ↔ (n ≢ 0) → Agrees b n
iff_Agrees b n (there, back) = record {
  unset = λ e one. true-false (sym (back (omega arith)) ∙ e);
  set = there;
}

-- `check_bitmap` accepts an image exactly if no block is used twice and the first 1000 bits of the
-- bitmap are those of the used blocks, where `malloc` finds a cleared array for the blocks behind
-- the bitmap.
pub check_bitmap_iff :
    (sb : Super) (m : Image) (malloc : ℕ → ℕ)
    → ((x : ℕ) → sb.bmapstart < x → malloc x ≡ 0)
    → (check_bitmap sb m malloc ≡ pass tt) ↔ IsConsistent sb m
unfolding check_bitmap mark_used_blocks
check_bitmap_iff sb m malloc clear =
    elim (mark_add_lem sb.ninodes 0 sb m (mark_reserved sb malloc)) [
      | inr (e, x, run, some_x, twice) ↦ (
        λ ok. absurd (let bad : fail e ≡ pass tt = sym (rw run refl) ∙ ok in cc),
        λ c. absurd (let o = c.once x in let s = start x in (unfold uses in omega arith)),
      )
      | inl (u, run, c) ↦
          let counts : (x : ℕ) → u x ≡ uses x sb m = λ x.
            unfold uses in (c.count x ∙ ap (λ a. a + times x (refs sb.ninodes 0 sb m)) (start x)) in
          let once : (x : ℕ) → uses x sb m ≤ 1 = λ x. once_lem x (c.once x) in
          elim (check_bytes_lem 125 0 (sb.bmapstart * 512) m u) [
            | inl (rest, good) ↦ (
              λ _. record {
                once = once;
                bits = λ x l.
                    let zero_plus : 0 + x ≡ x = omega arith in
                    Agrees-iff (bit_at (sb.bmapstart * 512) m x) (uses x sb m) (once x) (
                      subst (λ n. Agrees (bit_at (sb.bmapstart * 512) m x) n)
                        (ap u zero_plus ∙ counts x) (good x (omega arith)));
              },
              λ _. rw run rest,
            )
            | inr (e, k, rest, l, bad) ↦ (
              λ ok. absurd (let no_pass : fail e ≡ pass tt = sym (rw run rest) ∙ ok in cc),
              λ c.
                  let zero_plus : 0 + k ≡ k = omega arith in
                  absurd (
                    bad (
                      subst (λ n. Agrees (bit_at (sb.bmapstart * 512) m k) n)
                        (sym (ap u zero_plus ∙ counts k))
                        (iff_Agrees (bit_at (sb.bmapstart * 512) m k) (uses k sb m)
                          (c.bits k (omega arith))))),
            )
          ]
    ]
  where
    start : (x : ℕ) → mark_reserved sb malloc x ≡ (if leb x sb.bmapstart then 1 else 0)
    start x =
        unfold mark_reserved in
        elim (Bool-cases (leb x sb.bmapstart)) [
          | inl e ↦ rw e refl
          | inr e ↦ rw e (clear x (ground arith))
        ]

    once_lem :
        (x : ℕ)
        → (times x (refs sb.ninodes 0 sb m) ≢ 0
            → mark_reserved sb malloc x + times x (refs sb.ninodes 0 sb m) ≤ 1)
        → uses x sb m ≤ 1
    once_lem x h =
        unfold uses in
        elim (ℕ_discrete (times x (refs sb.ninodes 0 sb m)) 0) [
          | yes z ↦ elim (Bool-cases (leb x sb.bmapstart)) [
            | inl e ↦ rw (e, z) (omega arith)
            | inr e ↦ rw (e, z) (omega arith)
          ]
          | no nz ↦ rw (sym (start x)) (h nz)
        ]
