-- ===== src/Bytes.antt =====
-- src/string.c: the kernel's functions on bytes and strings. The state is the memory, a byte for
-- each address; an object does not wrap around at the end of the address space.
pub mod Moves
pub mod Sets
pub mod Lengths
pub mod Copies
pub mod Safe
mod Examples
use operating_systems_three.Prelude.{
  ℕ, zero, suc, ◌+◌, ◌-◌, ◌*◌, ◌/◌, ◌%◌, ◌==◌, ltb, if◌then◌else◌, Bool, true, false, ◌&&◌, not,
  Option, none, some, update,
}

abbrev pub Mem : Type 0
Mem = ℕ → ℕ

-- `rep stosb` of x86.h.
unfoldable pub stosb : (addr val cnt : ℕ) → Mem → Mem
unfolding update
stosb addr val zero m = m
stosb addr val (suc n) m = stosb (addr + 1) val n (update m addr (val % 256))

-- A word in memory, little-endian.
unfoldable pub store_word : (addr val : ℕ) → Mem → Mem
unfolding update
store_word addr val m =
    let m1 = update m addr (val % 256) in
    let m2 = update m1 (addr + 1) (val / 256 % 256) in
    let m3 = update m2 (addr + 2) (val / 65536 % 256) in update m3 (addr + 3) (val / 16777216 % 256)

-- `rep stosl` of x86.h.
unfoldable pub stosl : (addr val cnt : ℕ) → Mem → Mem
unfolding store_word
stosl addr val zero m = m
stosl addr val (suc n) m = stosl (addr + 4) val n (store_word addr val m)

-- The byte `c` four times.
unfoldable pub word_of : ℕ → ℕ
word_of c = c * 16777216 + c * 65536 + c * 256 + c

unfoldable pub memset : (dst c n : ℕ) → Mem → Mem
unfolding stosb stosl word_of
memset dst c n m =
    if dst % 4 == 0 && n % 4 == 0 then stosl dst (word_of (c % 256)) (n / 4) m else stosb dst c n m

-- The two loops of `memmove`.
unfoldable pub move_down : (n s d : ℕ) → Mem → Mem
unfolding update
move_down zero s d m = m
move_down (suc n) s d m = move_down n (s - 1) (d - 1) (update m (d - 1) (m (s - 1)))

unfoldable pub move_up : (n s d : ℕ) → Mem → Mem
unfolding update
move_up zero s d m = m
move_up (suc n) s d m = move_up n (s + 1) (d + 1) (update m d (m s))

unfoldable pub memmove : (dst src n : ℕ) → Mem → Mem
unfolding move_down move_up
memmove dst src n m =
    if ltb src dst && ltb dst (src + n)
    then move_down n (src + n) (dst + n) m
    else move_up n src dst m

-- The difference of two bytes, an `int`.
pub data ℤ : Type 0 where
  pos negsuc : ℕ → ℤ

unfoldable pub diff : ℕ → ℕ → ℤ
diff a b = if ltb a b then negsuc (b - a - 1) else pos (a - b)

unfoldable pub memcmp : (s1 s2 n : ℕ) → Mem → ℤ
unfolding diff
memcmp s1 s2 zero m = pos 0
memcmp s1 s2 (suc n) m =
    let rest = memcmp (s1 + 1) (s2 + 1) n m in
    if not (m s1 == m s2) then diff (m s1) (m s2) else rest

unfoldable pub strncmp : (p q n : ℕ) → Mem → ℤ
unfolding diff
strncmp p q zero m = pos 0
strncmp p q (suc n) m =
    let rest = strncmp (p + 1) (q + 1) n m in
    if not (m p == 0) && m p == m q then rest else diff (m p) (m q)

-- The second loop of `strncpy`.
unfoldable pub pad : (n s : ℕ) → Mem → Mem
unfolding update
pad zero s m = m
pad (suc n) s m = pad n (s + 1) (update m s 0)

unfoldable pub strncpy : (s t n : ℕ) → Mem → Mem
unfolding pad update
strncpy s t zero m = m
strncpy s t (suc n) m =
    let m1 = update m s (m t) in
    let copied = strncpy (s + 1) (t + 1) n m1 in
    let padded = pad n (s + 1) m1 in if m t == 0 then padded else copied

-- The loop of `safestrcpy`, with the value of `n` behind `--n`.
unfoldable pub copy_safe : (n s t : ℕ) → Mem → Mem
unfolding update
copy_safe zero s t m = update m s 0
copy_safe (suc n) s t m =
    let m1 = update m s (m t) in
    let copied = copy_safe n (s + 1) (t + 1) m1 in
    let ended = update m1 (s + 1) 0 in if m t == 0 then ended else copied

unfoldable pub safestrcpy : (s t n : ℕ) → Mem → Mem
unfolding copy_safe
safestrcpy s t zero m = m
safestrcpy s t (suc n) m = copy_safe n s t m

-- The loop of `strlen` from `n` on, for at most `fuel` bytes.
unfoldable pub strlen_from : (fuel s n : ℕ) → Mem → Option ℕ
strlen_from zero s n m = none
strlen_from (suc f) s n m =
    let rest = strlen_from f s (n + 1) m in if m (s + n) == 0 then some n else rest
