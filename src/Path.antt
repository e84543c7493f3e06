-- ===== src/Path.antt =====
-- `skipelem` of kernel/fs.c. A path is the list of
-- its bytes before the NUL; `name` is the array of `DIRSIZ` bytes that `skipelem` fills.
pub mod Elements
pub mod Skip
mod Tests
use project_opertating_syste.Base.{
  ℕ, zero, suc, ◌+◌, ◌-◌, ◌==◌, leb, Bool, true, false, ◌&&◌, ◌||◌, not, Option, none, some, List,
  [], ◌∷◌, ◌++◌, if◌then◌else◌, length, take, drop,
}

-- kernel/fs.h
abbrev pub dirsiz : ℕ
dirsiz = 14

abbrev pub slash : ℕ
slash = b'/'

-- `while(*path == '/') path++;`
unfoldable pub skip_slashes : List ℕ → List ℕ
skip_slashes [] = []
skip_slashes (c ∷ path) = if c == slash then skip_slashes path else c ∷ path

-- `while(*path != '/' && *path != 0) path++;`: what it passes over, and what is left.
unfoldable pub span_element : List ℕ → List ℕ × List ℕ
span_element [] = ([], [])
span_element (c ∷ path) =
    let (front, rest) = span_element path in
    if c == slash then ([], c ∷ path) else (c ∷ front, rest)

-- `if(len >= DIRSIZ) memmove(name, s, DIRSIZ); else { memmove(name, s, len); name[len] = 0; }`
unfoldable pub fill_name : List ℕ → List ℕ → List ℕ
fill_name s name =
    if leb dirsiz (length s)
    then take dirsiz s ++ drop dirsiz name
    else s ++ (0 ∷ drop (length s + 1) name)

-- The new `name` and the rest of the path; `none` for the null pointer.
unfoldable pub skipelem : List ℕ → List ℕ → Option (List ℕ × List ℕ)
skipelem path name = elim (skip_slashes path) [
  | [] ↦ none
  | c ∷ r ↦ let (s, rest) = span_element (c ∷ r) in some (fill_name s name, skip_slashes rest)
]
