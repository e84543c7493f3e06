-- ===== src/Spinlock/Nesting.antt =====
-- Matched calls of `push_off` and `pop_off` of kernel/spinlock.c.
use project_opertating_syste.Base.{
  ℕ, zero, suc, ◌<◌, ◌≡◌, refl, ◌∙◌, ap, false, Outcome, done, ◌>>=◌, arith,
}
use project_opertating_syste.Spinlock.{Cpu, push_off, pop_off}

-- `n` calls one after the other.
unfoldable pub push_times : ℕ → Cpu → Cpu
push_times zero c = c
push_times (suc n) c = push_times n (push_off c)

unfoldable pub pop_times : ℕ → Cpu → Outcome Cpu
pop_times zero c = done c
pop_times (suc n) c = pop_times n c >>= pop_off

pop-push : (c : Cpu) → 0 < c.noff → c.intr ≡ false → pop_off (push_off c) ≡ done c
unfolding pop_off push_off
pop-push c h e = ground arith

nested : (n : ℕ) (c : Cpu) → 0 < c.noff → c.intr ≡ false → pop_times n (push_times n c) ≡ done c
unfolding pop_times push_times
nested zero c h e = refl
nested (suc n) c h e =
    ap (λ o. o >>= pop_off)
      (nested n (push_off c) (unfold push_off in omega arith) (unfold push_off in refl))
    ∙ pop-push c h e

-- On a CPU where nothing is pushed, `n + 1` calls of `push_off` and as many of `pop_off` return,
-- and leave interrupts as they were, on or off, and nothing pushed.
pub pop_times-push_times :
    (n : ℕ) (c : Cpu)
    → c.noff ≡ 0
    → pop_times (suc n) (push_times (suc n) c) ≡ done (record c { intena = c.intr })
unfolding pop_times push_times pop_off push_off
pop_times-push_times n c z =
    ap (λ o. o >>= pop_off) (nested n (push_off c) (omega arith) refl) ∙ ground arith
