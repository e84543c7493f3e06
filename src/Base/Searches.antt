-- ===== src/Base/Searches.antt =====
-- What a search upwards from `lo` to `hi` finds.
use Prim.Native.Nat.{ℕ, ◌+◌, ◌≤◌, ◌<◌}
use mathlib.Core.Path.{◌≡◌, subst}
use mathlib.Core.Bool.{Bool, true, false}
use mathlib.Core.Option.{Option, none, some}
use native.Mathlib.Omega.{arith}
use native.Mathlib.Decide.{dec_lt}

pub data First (test : ℕ → Bool) (lo hi : ℕ) : Option ℕ → Type 0 where
  missing : ((c : ℕ) → lo ≤ c → c < hi → test c ≡ false) → First test lo hi none
  hit :
      {j : ℕ}
      → lo ≤ j
      → j < hi
      → test j ≡ true
      → ((c : ℕ) → lo ≤ c → c < j → test c ≡ false)
      → First test lo hi (some j)

module _ (test : ℕ → Bool) (lo hi : ℕ) where
  pub First-here : lo < hi → test lo ≡ true → First test lo hi (some lo)
  First-here h e = hit (omega arith) h e (λ c p q. absurd (omega arith))

  -- The search goes on at `mid` when nothing is below it.
  pub First-skip :
      (mid : ℕ) (o : Option ℕ)
      → lo ≤ mid
      → ((c : ℕ) → lo ≤ c → c < mid → test c ≡ false)
      → First test mid hi o
      → First test lo hi o
  First-skip mid none m e (missing h) =
      missing (λ c p q. elim (dec_lt c mid) [ yes l ↦ e c p l | no l ↦ h c (omega arith) q ])
  First-skip mid (some j) m e (hit p q t h) =
      hit (omega arith) q t
        (λ c a b. elim (dec_lt c mid) [ yes l ↦ e c a l | no l ↦ h c (omega arith) b ])

  pub First-next : (o : Option ℕ) → test lo ≡ false → First test (lo + 1) hi o → First test lo hi o
  First-next o e f =
      First-skip (lo + 1) o (omega arith)
        (λ c p q. let same : lo ≡ c = omega arith in subst (λ x. test x ≡ false) same e) f
