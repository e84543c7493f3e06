-- ===== src/Spinlock.antt =====
-- kernel/spinlock.c: one lock, and the CPUs' interrupt state. `acquire` and `release` are split
-- where other CPUs can come between: a step is what one CPU does with the lock at once.
pub mod Steps
pub mod Exclusion
pub mod Nesting
mod Tests
use project_opertating_syste.Base.{
  ℕ, ◌+◌, ◌-◌, ◌==◌, ltb, Bool, true, false, not, ◌&&◌, Option, none, some, if◌then◌else◌, update,
  Outcome, done, panic, ◌>>=◌, ◌>>◌, panic_if, ◌≡◌, ◌<◌,
}

-- `noff` and `intena` of `struct cpu`, and the interrupt-enable bit of the CPU.
pub record Cpu : Type 0 where
  pub noff : ℕ
  pub intena : Bool
  pub intr : Bool

pub record Spinlock : Type 0 where
  pub locked : Bool
  pub cpu : Option ℕ

abbrev pub is_cpu : ℕ → Option ℕ → Bool
is_cpu i none = false
is_cpu i (some j) = j == i

unfoldable pub holding : Spinlock → ℕ → Bool
holding lk i = lk.locked && is_cpu i lk.cpu

unfoldable pub push_off : Cpu → Cpu
push_off c = record {
  noff = c.noff + 1;
  intena = if c.noff == 0 then c.intr else c.intena;
  intr = false;
}

unfoldable pub pop_off : Cpu → Outcome Cpu
pop_off c = do
  panic_if c.intr
  panic_if (ltb c.noff 1)
  let n = c.noff - 1
  done (record c { noff = n; intr = if n == 0 && c.intena then true else c.intr })

-- Where a CPU is: in neither function and without the lock; in the loop of `acquire`; after its
-- swap; between `acquire` and `release`; after `lk->cpu = 0`; after the unlock.
pub data Phase : Type 0 where
  outside spinning swapped inside releasing unlocked : Phase

-- The machine; `others i` counts what CPU `i` has pushed for other reasons than this lock.
pub record Machine : Type 0 where
  pub lock : Spinlock
  pub cpus : ℕ → Cpu
  pub phase : ℕ → Phase
  pub others : ℕ → ℕ

-- `acquire` up to its loop.
unfoldable pub acquire_start : ℕ → Machine → Outcome Machine
acquire_start i m = do
  let cpus = update m.cpus i (push_off (m.cpus i))
  panic_if (holding m.lock i)
  done (record m { cpus = cpus; phase = update m.phase i spinning })

-- One `__sync_lock_test_and_set(&lk->locked, 1)`: the loop goes on where it returns 1.
unfoldable pub acquire_swap : ℕ → Machine → Machine
acquire_swap i m = record m {
  lock = record m.lock { locked = true };
  phase = if m.lock.locked then m.phase else update m.phase i swapped;
}

unfoldable pub acquire_end : ℕ → Machine → Machine
acquire_end i m = record m {
  lock = record m.lock { cpu = some i };
  phase = update m.phase i inside;
}

-- `release` up to `lk->cpu = 0`.
unfoldable pub release_start : ℕ → Machine → Outcome Machine
release_start i m = do
  panic_if (not (holding m.lock i))
  done (record m { lock = record m.lock { cpu = none }; phase = update m.phase i releasing })

unfoldable pub release_unlock : ℕ → Machine → Machine
release_unlock i m = record m {
  lock = record m.lock { locked = false };
  phase = update m.phase i unlocked;
}

unfoldable pub release_end : ℕ → Machine → Outcome Machine
release_end i m = do
  c ← pop_off (m.cpus i)
  done (record m { cpus = update m.cpus i c; phase = update m.phase i outside })
