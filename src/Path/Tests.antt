-- ===== src/Path/Tests.antt =====
-- The examples that kernel/fs.c gives for `skipelem`.
use project_opertating_syste.Base.{ℕ, ◌≡◌, refl, none, some, List, [], ◌∷◌, arith, replicate, drop}
use project_opertating_syste.Path.{skip_slashes, span_element, fill_name, skipelem}
use project_opertating_syste.Path.Skip.{Skip, skipelem-Skip}

abbrev name : List ℕ
name = replicate 14 1

-- skipelem("///a//bb", name) = "bb", setting name = "a"
two_elements :
    skipelem (b'/' ∷ b'/' ∷ b'/' ∷ b'a' ∷ b'/' ∷ b'/' ∷ b'b' ∷ b'b' ∷ []) name
    ≡ some (b'a' ∷ 0 ∷ drop 2 name, b'b' ∷ b'b' ∷ [])
unfolding skipelem skip_slashes span_element fill_name
two_elements = refl

-- skipelem("a", name) = "", setting name = "a"
one_element : skipelem (b'a' ∷ []) name ≡ some (b'a' ∷ 0 ∷ drop 2 name, [])
unfolding skipelem skip_slashes span_element fill_name
one_element = refl

-- skipelem("////", name) = 0
no_element : skipelem (replicate 4 b'/') name ≡ none
unfolding skipelem skip_slashes
no_element = refl

skipelem-Skip_example :
    Skip (b'/' ∷ b'a' ∷ b'/' ∷ b'b' ∷ []) (skipelem (b'/' ∷ b'a' ∷ b'/' ∷ b'b' ∷ []) name)
skipelem-Skip_example = skipelem-Skip (b'/' ∷ b'a' ∷ b'/' ∷ b'b' ∷ []) name refl (omega arith)
