-- ===== src/Strings/Copy.antt =====
-- `strncpy`, `safestrcpy` and `strlen` of kernel/string.c.
use project_opertating_syste.Base.{
  ℕ, zero, suc, ◌+◌, ◌-◌, ◌≤◌, ◌<◌, ◌≡◌, refl, ap, ◌∙◌, ◌⊎◌, arith, some, update, length, subst,
}
use project_opertating_syste.Strings.{Memory, zero_fill, strncpy, copy_and_end, safestrcpy, strlen}
use project_opertating_syste.Strings.Compare.{c_string}

-- The `n` bytes at `s` and those at `t` are apart.
abbrev pub Apart : ℕ → ℕ → ℕ → Type 0
Apart n s t = (s + n ≤ t) ⊎ (t + n ≤ s)

c_string_same :
    (n p : ℕ) (m m' : Memory)
    → ((a : ℕ) → p ≤ a → a < p + n → m' a ≡ m a)
    → c_string n p m' ≡ c_string n p m
unfolding c_string
c_string_same zero p m m' h = refl
c_string_same (suc n) p m m' h =
    ground (arith, h p, c_string_same n (p + 1) m m' (λ a k l. h a (omega arith) (omega arith)))

length-c_string : (n p : ℕ) (m : Memory) → length (c_string n p m) ≤ n
unfolding c_string
length-c_string zero p m = omega arith
length-c_string (suc n) p m = ground (arith, length-c_string n (p + 1) m)

zero_fill-outside : (n s : ℕ) (m : Memory) (a : ℕ) → (a < s) ⊎ (s + n ≤ a) → zero_fill n s m a ≡ m a
unfolding zero_fill
zero_fill-outside zero s m a h = refl
zero_fill-outside (suc n) s m a h = ground (arith, zero_fill-outside n (s + 1) (update m s 0) a)

strncpy-outside : (n s t : ℕ) (m : Memory) (a : ℕ) → (a < s) ⊎ (s + n ≤ a) → strncpy n s t m a ≡ m a
unfolding strncpy
strncpy-outside zero s t m a h = refl
strncpy-outside (suc n) s t m a h = ground (
  arith,
  zero_fill-outside n (s + 1) (update m s (m t)) a,
  strncpy-outside n (s + 1) (t + 1) (update m s (m t)) a,
)

c_string-strncpy :
    (n s t : ℕ) (m : Memory) → Apart n s t → c_string n s (strncpy n s t m) ≡ c_string n t m
unfolding strncpy c_string
c_string-strncpy zero s t m h = refl
c_string-strncpy (suc n) s t m h =
    let m' : Memory = update m s (m t) in
    let same = c_string_same n (t + 1) m m' (λ a k l. ground arith) in
    ground (
      arith,
      zero_fill-outside n (s + 1) m' s,
      strncpy-outside n (s + 1) (t + 1) m' s,
      c_string-strncpy n (s + 1) (t + 1) m' (omega arith),
      same,
    )

zero_fill-zero : (n s : ℕ) (m : Memory) (a : ℕ) → s ≤ a → a < s + n → zero_fill n s m a ≡ 0
unfolding zero_fill
zero_fill-zero zero s m a h k = absurd (omega arith)
zero_fill-zero (suc n) s m a h k =
    ground (
      arith,
      zero_fill-zero n (s + 1) (update m s 0) a,
      zero_fill-outside n (s + 1) (update m s 0) a,
    )

strncpy-pad :
    (n s t : ℕ) (m : Memory)
    → Apart n s t
    → (a : ℕ) → s + length (c_string n t m) ≤ a
    → a < s + n
    → strncpy n s t m a ≡ 0
unfolding strncpy c_string
strncpy-pad zero s t m h a k l = absurd (omega arith)
strncpy-pad (suc n) s t m h a k l =
    let m' : Memory = update m s (m t) in
    let same = c_string_same n (t + 1) m m' (λ a k l. ground arith) in
    ground (
      arith,
      zero_fill-zero n (s + 1) m' a,
      zero_fill-outside n (s + 1) m' a,
      strncpy-pad n (s + 1) (t + 1) m' (omega arith) a,
      same,
    )

-- `strncpy` of `n` bytes, from a source apart from the target, leaves the source's string, cut
-- after `n` bytes, fills the rest of the `n` bytes with zeros, and changes no other byte.
pub strncpy_lem :
    (n s t : ℕ) (m : Memory)
    → Apart n s t
    → (c_string n s (strncpy n s t m) ≡ c_string n t m)
      × ((a : ℕ) → s + length (c_string n t m) ≤ a → a < s + n → strncpy n s t m a ≡ 0)
      × ((a : ℕ) → (a < s) ⊎ (s + n ≤ a) → strncpy n s t m a ≡ m a)
strncpy_lem n s t m h = (c_string-strncpy n s t m h, strncpy-pad n s t m h, strncpy-outside n s t m)

copy_and_end-outside :
    (n s t : ℕ) (m : Memory) (a : ℕ) → (a < s) ⊎ (s + n < a) → copy_and_end n s t m a ≡ m a
unfolding copy_and_end
copy_and_end-outside zero s t m a h = ground arith
copy_and_end-outside (suc n) s t m a h =
    ground (arith, copy_and_end-outside n (s + 1) (t + 1) (update m s (m t)) a)

c_string-copy_and_end :
    (n s t : ℕ) (m : Memory)
    → Apart (suc n) s t
    → c_string (suc n) s (copy_and_end n s t m) ≡ c_string n t m
unfolding copy_and_end c_string
c_string-copy_and_end zero s t m h = ground arith
c_string-copy_and_end (suc n) s t m h =
    let m' : Memory = update m s (m t) in
    let same = c_string_same n (t + 1) m m' (λ a k l. ground arith) in
    ground (
      arith,
      copy_and_end-outside n (s + 1) (t + 1) m' s,
      c_string-copy_and_end n (s + 1) (t + 1) m' (omega arith),
      same,
    )

-- `safestrcpy` into `n` bytes, at least one, from a source apart from the target, leaves the
-- source's string, cut after `n - 1` bytes, with a NUL among the `n` bytes, and changes no byte
-- outside them.
pub safestrcpy_lem :
    (n s t : ℕ) (m : Memory)
    → 0 < n
    → Apart n s t
    → (c_string n s (safestrcpy s t n m) ≡ c_string (n - 1) t m)
      × (length (c_string n s (safestrcpy s t n m)) < n)
      × ((a : ℕ) → (a < s) ⊎ (s + n ≤ a) → safestrcpy s t n m a ≡ m a)
unfolding safestrcpy
safestrcpy_lem zero s t m p h = elim p [ ]
safestrcpy_lem (suc n) s t m p h =
    let copied = c_string-copy_and_end n s t m h in
    let n_eq : suc n - 1 ≡ n = omega arith in
    (
      rw n_eq copied,
      rw copied (omega (arith, length-c_string n t m)),
      λ a k. copy_and_end-outside n s t m a (omega arith),
    )

strlen_at :
    (fuel n s : ℕ) (m : Memory)
    → length (c_string fuel (s + n) m) < fuel
    → strlen fuel n s m ≡ some (n + length (c_string fuel (s + n) m))
unfolding strlen c_string
strlen_at zero n s m h = elim h [ ]
strlen_at (suc fuel) n s m h = ground (arith, strlen_at fuel (n + 1) s m)

-- Where a NUL is among the first `fuel` bytes, `strlen` returns the length of the string.
pub strlen_lem :
    (fuel s : ℕ) (m : Memory)
    → length (c_string fuel s m) < fuel
    → strlen fuel 0 s m ≡ some (length (c_string fuel s m))
strlen_lem fuel s m h =
    let here : s + 0 ≡ s = omega arith in
    subst (λ p. strlen fuel 0 s m ≡ some (length (c_string fuel p m))) here
      (strlen_at fuel 0 s m (rw here h) ∙ ap some (omega arith))
