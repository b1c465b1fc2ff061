-- ===== src/Fs/Names.antt =====
-- `skipelem` of fs.c. A path is the text before its NUL; a
-- name is the array of DIRSIZ bytes, in which a shorter name ends at a NUL.
use operating_systems_three.Prelude.{
  ℕ, zero, suc, ◌+◌, ◌==◌, leb, if◌then◌else◌, List, [], ◌∷◌, ◌++◌, Option, none, some, length,
  take, drop, c_str,
}

abbrev pub dirsiz : ℕ
dirsiz = 14

abbrev pub slash : ℕ
slash = 47

-- `while(*path == '/') path++`.
unfoldable pub skip_slashes : List ℕ → List ℕ
skip_slashes [] = []
skip_slashes (c ∷ cs) = let rest = skip_slashes cs in if c == slash then rest else c ∷ cs

-- `while(*path != '/' && *path != 0) path++`: what is passed, and what is left.
unfoldable pub elem : List ℕ → List ℕ
elem [] = []
elem (c ∷ cs) = let rest = elem cs in if c == slash then [] else c ∷ rest

unfoldable pub after : List ℕ → List ℕ
after [] = []
after (c ∷ cs) = let rest = after cs in if c == slash then c ∷ cs else rest

-- The copy into `name`.
unfoldable pub put_name : List ℕ → List ℕ → List ℕ
put_name s name = if leb dirsiz (length s) then take dirsiz s else s ++ 0 ∷ drop (length s + 1) name

unfoldable pub skip_found : List ℕ → List ℕ → Option (List ℕ × List ℕ)
unfolding elem after put_name skip_slashes
skip_found [] name = none
skip_found (c ∷ cs) name = some (put_name (elem (c ∷ cs)) name, skip_slashes (after (c ∷ cs)))

-- `skipelem`: the new name and path, or nothing.
unfoldable pub skipelem : List ℕ → List ℕ → Option (List ℕ × List ℕ)
unfolding skip_found skip_slashes
skipelem path name = skip_found (skip_slashes path) name

-- The name that an array stands for.
unfoldable pub name_of : List ℕ → List ℕ
name_of name = c_str (take dirsiz name)

-- The names that `skipelem` leaves behind when it is called with each path that it returns, as far as
-- `rounds` calls.
unfoldable pub walk_found :
    Option (List ℕ × List ℕ) → (List ℕ → List ℕ → List (List ℕ)) → List (List ℕ)
unfolding name_of
walk_found none rest = []
walk_found (some (name, path)) rest = name_of name ∷ rest path name

unfoldable pub walk : (rounds : ℕ) → List ℕ → List ℕ → List (List ℕ)
unfolding walk_found skipelem
walk zero path name = []
walk (suc r) path name = walk_found (skipelem path name) (walk r)
