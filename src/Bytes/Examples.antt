-- ===== src/Bytes/Examples.antt =====
-- The byte functions at a small memory.
use operating_systems_three.Prelude.{◌≡◌, refl, [], ◌∷◌, get_or, update}
use operating_systems_three.Bytes.{Mem, memmove, pos, negsuc, strncmp}
use operating_systems_three.Bytes.Moves.{Moved, memmove-Moved}

-- "ab" at 0, "abc" at 8.
abbrev memory : Mem
memory a = get_or (97 ∷ 98 ∷ 0 ∷ 0 ∷ 0 ∷ 0 ∷ 0 ∷ 0 ∷ 97 ∷ 98 ∷ 99 ∷ []) a 0

-- Moving "abc" one byte up, over itself.
moved_up : (memmove 9 8 3 memory 9 ≡ 97) × (memmove 9 8 3 memory 11 ≡ 99)
unfolding memmove update
moved_up = (refl, refl)

-- "ab" is in front of "abc" from the third byte on, and equal to it before.
compared : (strncmp 0 8 8 memory ≡ negsuc 98) × (strncmp 0 8 2 memory ≡ pos 0)
unfolding strncmp
compared = (refl, refl)

memmove-Moved_example : Moved 3 8 9 memory (memmove 9 8 3 memory)
memmove-Moved_example = memmove-Moved 9 8 3 memory
