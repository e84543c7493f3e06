-- ===== src/Strings/Compare.antt =====
-- `memcmp` and `strncmp` of kernel/string.c, by the strings that they compare.
use project_opertating_syste.Base.{
  ℕ, zero, suc, ◌+◌, ◌≡◌, refl, ◌↔◌, ◌==◌, arith, pos, eq_of_sub_ℕ, sub_ℕ-self, List, [], ◌∷◌,
  if◌then◌else◌,
}
use project_opertating_syste.Strings.{Memory, memcmp, strncmp}

-- The bytes at `p` up to the first NUL, and at most `n` of them.
unfoldable pub c_string : ℕ → ℕ → Memory → List ℕ
c_string zero p m = []
c_string (suc n) p m = if m p == 0 then [] else m p ∷ c_string n (p + 1) m

-- The `n` bytes at `p`.
unfoldable pub bytes : ℕ → ℕ → Memory → List ℕ
bytes zero p m = []
bytes (suc n) p m = m p ∷ bytes n (p + 1) m

strncmp_sound : (n p q : ℕ) (m : Memory) → strncmp n p q m ≡ pos 0 → c_string n p m ≡ c_string n q m
unfolding strncmp c_string
strncmp_sound zero p q m h = refl
strncmp_sound (suc n) p q m h =
    ground (arith, strncmp_sound n (p + 1) (q + 1) m, eq_of_sub_ℕ (m p) (m q))

strncmp_complete :
    (n p q : ℕ) (m : Memory) → c_string n p m ≡ c_string n q m → strncmp n p q m ≡ pos 0
unfolding strncmp c_string
strncmp_complete zero p q m h = refl
strncmp_complete (suc n) p q m h =
    ground (arith, strncmp_complete n (p + 1) (q + 1) m, sub_ℕ-self (m p))

-- `strncmp` returns 0 exactly when the two strings, cut after `n` bytes, are the same.
pub strncmp_iff :
    (n p q : ℕ) (m : Memory) → (strncmp n p q m ≡ pos 0) ↔ (c_string n p m ≡ c_string n q m)
strncmp_iff n p q m = (strncmp_sound n p q m, strncmp_complete n p q m)

memcmp_sound : (n p q : ℕ) (m : Memory) → memcmp n p q m ≡ pos 0 → bytes n p m ≡ bytes n q m
unfolding memcmp bytes
memcmp_sound zero p q m h = refl
memcmp_sound (suc n) p q m h =
    ground (arith, memcmp_sound n (p + 1) (q + 1) m, eq_of_sub_ℕ (m p) (m q))

memcmp_complete : (n p q : ℕ) (m : Memory) → bytes n p m ≡ bytes n q m → memcmp n p q m ≡ pos 0
unfolding memcmp bytes
memcmp_complete zero p q m h = refl
memcmp_complete (suc n) p q m h = ground (arith, memcmp_complete n (p + 1) (q + 1) m)

-- `memcmp` returns 0 exactly when the two blocks hold the same bytes.
pub memcmp_iff : (n p q : ℕ) (m : Memory) → (memcmp n p q m ≡ pos 0) ↔ (bytes n p m ≡ bytes n q m)
memcmp_iff n p q m = (memcmp_sound n p q m, memcmp_complete n p q m)
