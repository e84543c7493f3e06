-- ===== src/Strings/Move.antt =====
-- What the block operations of kernel/string.c leave in memory.
use project_opertating_syste.Base.{
  ℕ, zero, suc, ◌+◌, ◌-◌, ◌%◌, ◌≤◌, ◌<◌, ◌≡◌, Bool, ltb, leb, ◌==◌, ◌&&◌, if◌then◌else◌, update,
  arith, Bool-cases, inl, inr,
}
use project_opertating_syste.Strings.{Memory, memset, copy_up, copy_down, memmove, user_memmove}

-- Is `a` among the `n` addresses from `d` on?
abbrev pub within : ℕ → ℕ → ℕ → Bool
within d n a = leb d a && ltb a (d + n)

copy_up-eq :
    (n d s : ℕ) (m : Memory)
    → (s < d → s + n ≤ d)
    → (a : ℕ) → copy_up n d s m a ≡ (if within d n a then m (s + (a - d)) else m a)
unfolding copy_up
copy_up-eq zero d s m h a = ground arith
copy_up-eq (suc n) d s m h a =
    ground (arith, copy_up-eq n (d + 1) (s + 1) (update m d (m s)) (λ p. omega arith) a)

copy_down-eq :
    (n d s : ℕ) (m : Memory)
    → (d < s → d + n ≤ s)
    → (a : ℕ) → copy_down n d s m a ≡ (if within d n a then m (s + (a - d)) else m a)
unfolding copy_down
copy_down-eq zero d s m h a = ground arith
copy_down-eq (suc n) d s m h a =
    ground (arith, copy_down-eq n d s (update m (d + n) (m (s + n))) (λ p. omega arith) a)

kernel_eq :
    (d s n : ℕ) (m : Memory) (a : ℕ)
    → memmove d s n m a ≡ (if within d n a then m (s + (a - d)) else m a)
unfolding memmove
kernel_eq d s n m a = elim (Bool-cases (n == 0)) [
  | inl z ↦ rw z (ground arith)
  | inr z ↦ elim (Bool-cases (ltb s d && ltb d (s + n))) [
    | inl over ↦
        let h : d < s → d + n ≤ s = λ p. ground arith in rw (z, over) (copy_down-eq n d s m h a)
    | inr clear ↦
        let h : s < d → s + n ≤ d = λ p. ground arith in rw (z, clear) (copy_up-eq n d s m h a)
  ]
]

user_eq :
    (d s n : ℕ) (m : Memory) (a : ℕ)
    → user_memmove d s n m a ≡ (if within d n a then m (s + (a - d)) else m a)
unfolding user_memmove
user_eq d s n m a = elim (Bool-cases (ltb d s)) [
  | inl up ↦ let h : s < d → s + n ≤ d = λ p. ground arith in rw up (copy_up-eq n d s m h a)
  | inr down ↦ let h : d < s → d + n ≤ s = λ p. ground arith in rw down (copy_down-eq n d s m h a)
]

-- `memmove` of the kernel copies the old contents of the `n` bytes from `s` on to those from `d`
-- on, however the two ranges overlap, and changes no other byte; and so does that of user/ulib.c.
pub memmove-eq :
    (d s n : ℕ) (m : Memory) (a : ℕ)
    → (memmove d s n m a ≡ (if within d n a then m (s + (a - d)) else m a))
      × (user_memmove d s n m a ≡ (if within d n a then m (s + (a - d)) else m a))
memmove-eq d s n m a = (kernel_eq d s n m a, user_eq d s n m a)

-- `memset` sets the `n` bytes from `d` on to the low byte of `c`, and no other.
pub memset-eq :
    (d c n : ℕ) (m : Memory) (a : ℕ) → memset d c n m a ≡ (if within d n a then c % 256 else m a)
unfolding memset
memset-eq d c zero m a = ground arith
memset-eq d c (suc n) m a = ground (arith, memset-eq d c n m a)
