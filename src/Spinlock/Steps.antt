-- ===== src/Spinlock/Steps.antt =====
-- The steps of the CPUs with a lock of kernel/spinlock.c.
use project_opertating_syste.Base.{ℕ, ◌+◌, ◌-◌, ◌≡◌, ◌<◌, Bool, true, false, update, done}
use project_opertating_syste.Spinlock.{
  Cpu, push_off, pop_off, Phase, outside, spinning, swapped, inside, releasing, unlocked, Machine,
  acquire_start, acquire_swap, acquire_end, release_start, release_unlock, release_end,
}

-- The CPU has set `locked` and not yet cleared it.
abbrev pub owns : Phase → Bool
owns swapped = true
owns inside = true
owns releasing = true
owns _ = false

abbrev pub is_inside : Phase → Bool
is_inside inside = true
is_inside _ = false

abbrev pub pushes : Phase → ℕ
pushes outside = 0
pushes _ = 1

-- A step of CPU `i`, which calls `acquire` only when it does not have the lock, and `release` only
-- when it has. It may also push and pop for other reasons, and interrupts may be switched where
-- nothing is pushed.
pub data Step (m : Machine) : Machine → Type 0 where
  starts : {u : Machine} (i : ℕ) → m.phase i ≡ outside → acquire_start i m ≡ done u → Step m u
  swaps : (i : ℕ) → m.phase i ≡ spinning → Step m (acquire_swap i m)
  enters : (i : ℕ) → m.phase i ≡ swapped → Step m (acquire_end i m)
  leaves : {u : Machine} (i : ℕ) → m.phase i ≡ inside → release_start i m ≡ done u → Step m u
  unlocks : (i : ℕ) → m.phase i ≡ releasing → Step m (release_unlock i m)
  pops : {u : Machine} (i : ℕ) → m.phase i ≡ unlocked → release_end i m ≡ done u → Step m u
  pushes_other :
      (i : ℕ)
      → Step m (record m {
        cpus = update m.cpus i (push_off (m.cpus i));
        others = update m.others i (m.others i + 1);
      })
  pops_other :
      (i : ℕ) {c : Cpu}
      → 0 < m.others i
      → pop_off (m.cpus i) ≡ done c
      → Step m (record m { cpus = update m.cpus i c; others = update m.others i (m.others i - 1) })
  switches :
      (i : ℕ) (on : Bool)
      → (m.cpus i).noff ≡ 0
      → Step m (record m { cpus = update m.cpus i (record (m.cpus i) { intr = on }) })

pub data Reach (m : Machine) : Machine → Type 0 where
  start : Reach m m
  next : {u w : Machine} → Reach m u → Step u w → Reach m w
