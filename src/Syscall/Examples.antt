-- ===== src/Syscall/Examples.antt =====
-- A process with one argument on its stack: the address of "hi".
use operating_systems_three.Prelude.{
  ◌+◌, ◌*◌, ◌^◌, ◌≡◌, ◌≤◌, ◌<◌, ◌↔◌, refl, arith, ◌==◌, if◌then◌else◌, some,
}
use operating_systems_three.Bytes.{Mem}
use operating_systems_three.Syscall.{User, word, argptr, argstr}
use operating_systems_three.Syscall.Args.{argptr_iff}

abbrev memory : Mem
memory a = if a == 8 then 104 else (if a == 9 then 105 else (if a == 104 then 8 else 0))

abbrev user : User
user = record { mem = memory; sz = 4096; esp = 100 }

hi : argstr 0 user ≡ some (8, 2)
unfolding argstr
hi = refl

argptr_iff_example : (argptr 0 4088 user ≡ some 8) ↔ (
    (100 + 4 + 4 * 0 + 4 ≤ 4096)
    × (word memory (100 + 4 + 4 * 0) ≡ 8)
    × (4088 < 2 ^ 31)
    × (8 < 4096)
    × (8 + 4088 ≤ 4096))
argptr_iff_example = argptr_iff 0 4088 8 user (omega arith) (omega arith)
