-- ===== src/Fs/Files/Copies.antt =====
-- `either_copyin` and `either_copyout` of kernel/proc.c, as `readi` and `writei` use them.
use project_opertating_syste.Base.{
  ℕ, ◌+◌, ◌-◌, ◌<◌, ◌≤◌, ◌≡◌, refl, ltb, leb, Bool, true, ◌&&◌, ◌⊎◌, if◌then◌else◌, arith,
}

-- A copy of `m` bytes to `dst` at `d` from `src` at `s`, which may fail part of the way; its
-- result, and the bytes of `dst` then.
pub record Copy : Type 0 where
  pub run : (ℕ → ℕ) → ℕ → (ℕ → ℕ) → ℕ → ℕ → Bool × (ℕ → ℕ)
  -- Where it does not fail it copies the bytes.
  pub copied :
      (dst : ℕ → ℕ) (d : ℕ) (src : ℕ → ℕ) (s m : ℕ)
      → (run dst d src s m).0 ≡ true
      → (a : ℕ) → a < m
      → (run dst d src s m).1 (d + a) ≡ src (s + a)
  -- It changes no byte outside the destination.
  pub outside :
      (dst : ℕ → ℕ) (d : ℕ) (src : ℕ → ℕ) (s m a : ℕ)
      → (a < d) ⊎ (d + m ≤ a)
      → (run dst d src s m).1 a ≡ dst a

unfoldable pub memmove_copy : (ℕ → ℕ) → ℕ → (ℕ → ℕ) → ℕ → ℕ → ℕ → ℕ
memmove_copy dst d src s m a = if leb d a && ltb a (d + m) then src (s + (a - d)) else dst a

pub memmove-copied :
    (dst : ℕ → ℕ) (d : ℕ) (src : ℕ → ℕ) (s m a : ℕ)
    → a < m
    → memmove_copy dst d src s m (d + a) ≡ src (s + a)
unfolding memmove_copy
memmove-copied dst d src s m a h =
    let here : (leb d (d + a) && ltb (d + a) (d + m)) ≡ true = ground arith in
    let back : s + (d + a - d) ≡ s + a = omega arith in rw (here, back) refl

pub memmove-outside :
    (dst : ℕ → ℕ) (d : ℕ) (src : ℕ → ℕ) (s m a : ℕ)
    → (a < d) ⊎ (d + m ≤ a)
    → memmove_copy dst d src s m a ≡ dst a
unfolding memmove_copy
memmove-outside dst d src s m a h = ground arith

-- The copy within the kernel, `memmove`, which does not fail.
abbrev pub kernel_copy : Copy
kernel_copy = record {
  run = λ dst d src s m. (true, memmove_copy dst d src s m);
  copied = λ dst d src s m e a h. memmove-copied dst d src s m a h;
  outside = memmove-outside;
}
