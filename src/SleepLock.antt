-- ===== src/SleepLock.antt =====
-- kernel/sleeplock.c: the processes that use one sleep lock. Its spin lock makes a call run at once
-- from its start, or from a wake-up, to a sleep or to its return.
pub mod Exclusion
mod Tests
use project_opertating_syste.Base.{
  ℕ, ◌==◌, Bool, true, false, ◌&&◌, Option, none, some, if◌then◌else◌, update,
}

-- kernel/sleeplock.h
pub record SleepLock : Type 0 where
  pub locked : Bool
  pub pid : ℕ

unfoldable pub initsleeplock : SleepLock
initsleeplock = record { locked = false; pid = 0 }

-- `acquiresleep` by process `p`, from its start or from a wake-up: `none` is `sleep`.
unfoldable pub acquiresleep : ℕ → SleepLock → Option SleepLock
acquiresleep p lk = if lk.locked then none else some (record { locked = true; pid = p })

-- Without the `wakeup`, which is that of `leave`.
unfoldable pub releasesleep : SleepLock → SleepLock
releasesleep lk = record { locked = false; pid = 0 }

unfoldable pub holdingsleep : ℕ → SleepLock → Bool
holdingsleep p lk = lk.locked && lk.pid == p

-- Where a process is: outside, asleep in `acquiresleep`, woken up there, or after its return.
pub data Phase : Type 0 where
  outside : Phase
  asleep : Phase
  woken : Phase
  inside : Phase

pub record Sys : Type 0 where
  pub lock : SleepLock
  pub phase : ℕ → Phase

-- `wakeup(lk)`
unfoldable pub wake : Phase → Phase
wake outside = outside
wake asleep = woken
wake woken = woken
wake inside = inside

unfoldable pub attempt : ℕ → Sys → Sys
attempt p s = elim (acquiresleep p s.lock) [
  | none ↦ record s { phase = update s.phase p asleep }
  | some lk ↦ record { lock = lk; phase = update s.phase p inside }
]

unfoldable pub leave : ℕ → Sys → Sys
leave p s = record { lock = releasesleep s.lock; phase = λ q. wake (update s.phase p outside q) }

unfoldable pub start : Sys
start = record { lock = initsleeplock; phase = λ q. outside }
