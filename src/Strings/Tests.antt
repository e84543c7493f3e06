-- ===== src/Strings/Tests.antt =====
-- kernel/string.c on a few bytes, and the theorems there.
use project_opertating_syste.Base.{◌+◌, ◌-◌, ◌≡◌, refl, [], ◌∷◌, update, map, if◌then◌else◌}
use project_opertating_syste.Strings.{
  Memory, memmove, user_memmove, copy_down, strncpy, zero_fill, safestrcpy, copy_and_end,
}
use project_opertating_syste.Strings.Move.{within, memmove-eq}

-- "ab" at address 100, and 9 everywhere else.
abbrev mem : Memory
mem = update (update (update (λ _. 9) 100 b'a') 101 b'b') 102 0

overlap : map (memmove 101 100 3 mem) (100 ∷ 101 ∷ 102 ∷ 103 ∷ []) ≡ b'a' ∷ b'a' ∷ b'b' ∷ 0 ∷ []
unfolding memmove copy_down
overlap = refl

padded : map (strncpy 4 0 100 mem) (0 ∷ 1 ∷ 2 ∷ 3 ∷ 4 ∷ []) ≡ b'a' ∷ b'b' ∷ 0 ∷ 0 ∷ 9 ∷ []
unfolding strncpy zero_fill
padded = refl

cut : map (safestrcpy 0 100 2 mem) (0 ∷ 1 ∷ 2 ∷ []) ≡ b'a' ∷ 0 ∷ 9 ∷ []
unfolding safestrcpy copy_and_end
cut = refl

memmove-eq_example :
    (memmove 101 100 3 mem 102 ≡ (if within 101 3 102 then mem (100 + (102 - 101)) else mem 102))
    × (user_memmove 101 100 3 mem 102
        ≡ (if within 101 3 102 then mem (100 + (102 - 101)) else mem 102))
memmove-eq_example = memmove-eq 101 100 3 mem 102
