-- ===== src/Syscall.antt =====
-- src/syscall.c: how the kernel reads the arguments of a system call from the memory of the
-- process. -1 is `none`; numbers are 32-bit words, and an `int` is negative from 2 ^ 31 on.
pub mod Args
mod Examples
use operating_systems_three.Prelude.{
  ℕ, zero, suc, ◌+◌, ◌-◌, ◌*◌, ◌%◌, ◌^◌, ◌==◌, ltb, leb, if◌then◌else◌, Bool, true, false, ◌||◌,
  Option, none, some,
}
use operating_systems_three.Bytes.{Mem}

-- What the functions use of the current process: its memory, `sz` and `tf->esp`.
pub record User : Type 0 where
  pub mem : Mem
  pub sz : ℕ
  pub esp : ℕ

-- `*(int*)(addr)`.
unfoldable pub word : Mem → ℕ → ℕ
word m a = m a + 256 * m (a + 1) + 65536 * m (a + 2) + 16777216 * m (a + 3)

unfoldable pub fetchint : ℕ → User → Option ℕ
unfolding word
fetchint addr p =
    if leb p.sz addr || ltb p.sz ((addr + 4) % 2 ^ 32) then none else some (word p.mem addr)

-- The loop of `fetchstr`, with `rounds` bytes up to `ep`.
unfoldable pub scan_str : (rounds s : ℕ) → ℕ → Mem → Option ℕ
scan_str zero s pp m = none
scan_str (suc r) s pp m =
    let rest = scan_str r (s + 1) pp m in if m s == 0 then some (s - pp) else rest

-- The length of the string, whose address is `addr` itself.
unfoldable pub fetchstr : ℕ → User → Option ℕ
unfolding scan_str
fetchstr addr p = if leb p.sz addr then none else scan_str (p.sz - addr) addr addr p.mem

unfoldable pub argint : ℕ → User → Option ℕ
unfolding fetchint
argint n p = fetchint ((p.esp + 4 + 4 * n) % 2 ^ 32) p

-- The test of `argptr`, and that of `argstr`, behind `argint`.
unfoldable pub check_ptr : ℕ → User → Option ℕ → Option ℕ
check_ptr size p none = none
check_ptr size p (some i) =
    if leb (2 ^ 31) size || leb p.sz i || ltb p.sz ((i + size) % 2 ^ 32) then none else some i

unfoldable pub argptr : (n size : ℕ) → User → Option ℕ
unfolding argint check_ptr
argptr n size p = check_ptr size p (argint n p)

unfoldable pub check_str : User → Option ℕ → Option (ℕ × ℕ)
unfolding fetchstr
check_str p none = none
check_str p (some addr) = elim (fetchstr addr p) [ none ↦ none | some len ↦ some (addr, len) ]

-- The address and the length of the string.
unfoldable pub argstr : ℕ → User → Option (ℕ × ℕ)
unfolding argint check_str
argstr n p = check_str p (argint n p)
