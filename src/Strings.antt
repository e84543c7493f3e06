-- ===== src/Strings.antt =====
-- kernel/string.c, and `memmove` of user/ulib.c: memory is a function from addresses to bytes, and
-- a function that writes returns the new memory. Addresses do not wrap.
pub mod Move
pub mod Compare
pub mod Copy
mod Tests
use project_opertating_syste.Base.{
  ℕ, zero, suc, ◌+◌, ◌-◌, ◌%◌, ◌==◌, ltb, Bool, true, false, ◌&&◌, ◌||◌, not, Option, none, some,
  if◌then◌else◌, update, for_up, ℤ, pos, sub_ℕ,
}

abbrev pub Memory : Type 0
Memory = ℕ → ℕ

-- `cdst[i] = c` stores the low byte of `c`.
unfoldable pub memset : ℕ → ℕ → ℕ → Memory → Memory
memset dst c n = for_up n (λ i m. update m (dst + i) (c % 256))

-- `while(n-- > 0) *d++ = *s++;`
unfoldable pub copy_up : ℕ → ℕ → ℕ → Memory → Memory
copy_up zero d s m = m
copy_up (suc n) d s m = copy_up n (d + 1) (s + 1) (update m d (m s))

-- `while(n-- > 0) *--d = *--s;` from the ends `d + n` and `s + n`.
unfoldable pub copy_down : ℕ → ℕ → ℕ → Memory → Memory
copy_down zero d s m = m
copy_down (suc n) d s m = copy_down n d s (update m (d + n) (m (s + n)))

unfoldable pub memmove : ℕ → ℕ → ℕ → Memory → Memory
memmove d s n m =
    if n == 0 then m else if ltb s d && ltb d (s + n) then copy_down n d s m else copy_up n d s m

-- `memmove` of user/ulib.c chooses by the order of the addresses alone.
unfoldable pub user_memmove : ℕ → ℕ → ℕ → Memory → Memory
user_memmove d s n m = if ltb d s then copy_up n d s m else copy_down n d s m

unfoldable pub memcmp : ℕ → ℕ → ℕ → Memory → ℤ
memcmp zero p q m = pos 0
memcmp (suc n) p q m =
    let rest = memcmp n (p + 1) (q + 1) m in if not (m p == m q) then sub_ℕ (m p) (m q) else rest

unfoldable pub strncmp : ℕ → ℕ → ℕ → Memory → ℤ
strncmp zero p q m = pos 0
strncmp (suc n) p q m =
    let rest = strncmp n (p + 1) (q + 1) m in
    if not (m p == 0) && m p == m q then rest else sub_ℕ (m p) (m q)

-- `while(n-- > 0) *s++ = 0;`
unfoldable pub zero_fill : ℕ → ℕ → Memory → Memory
zero_fill zero s m = m
zero_fill (suc n) s m = zero_fill n (s + 1) (update m s 0)

unfoldable pub strncpy : ℕ → ℕ → ℕ → Memory → Memory
strncpy zero s t m = m
strncpy (suc n) s t m =
    let m' = update m s (m t) in
    let rest = strncpy n (s + 1) (t + 1) m' in if m t == 0 then zero_fill n (s + 1) m' else rest

-- The loop of `safestrcpy` with `--n` rounds left, and the `*s = 0` after it.
unfoldable pub copy_and_end : ℕ → ℕ → ℕ → Memory → Memory
copy_and_end zero s t m = update m s 0
copy_and_end (suc n) s t m =
    let m' = update m s (m t) in
    let rest = copy_and_end n (s + 1) (t + 1) m' in if m t == 0 then update m' (s + 1) 0 else rest

unfoldable pub safestrcpy : ℕ → ℕ → ℕ → Memory → Memory
safestrcpy s t zero m = m
safestrcpy s t (suc n) m = copy_and_end n s t m

-- `strlen`, with `fuel` bytes to look at; `none` when no NUL is among them.
unfoldable pub strlen : ℕ → ℕ → ℕ → Memory → Option ℕ
strlen zero n s m = none
strlen (suc fuel) n s m =
    let rest = strlen fuel (n + 1) s m in if m (s + n) == 0 then some n else rest
