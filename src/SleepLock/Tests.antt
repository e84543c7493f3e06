-- ===== src/SleepLock/Tests.antt =====
-- A run on a sleep lock of kernel/sleeplock.c: process 3 sleeps while process 2 has the lock.
use project_opertating_syste.Base.{ℕ, ◌≡◌, ◌↔◌, true}
use project_opertating_syste.SleepLock.{
  acquiresleep, initsleeplock, holdingsleep, asleep, inside, Sys, attempt, start,
}
use project_opertating_syste.SleepLock.Exclusion.{acquire, Reach, begin, next, sleep_lock-exclusive}

abbrev contended : Sys
contended = attempt 3 (attempt 2 start)

contended-Reach : Reach contended
unfolding attempt start acquiresleep initsleeplock
contended-Reach =
    next (next begin (acquire 2 (λ e. cc e) (λ e. cc e))) (acquire 3 (λ e. cc e) (λ e. cc e))

sleep_lock-exclusive_example :
    ((p q : ℕ) → contended.phase p ≡ inside → contended.phase q ≡ inside → p ≡ q)
    × ((p : ℕ) → (holdingsleep p contended.lock ≡ true) ↔ (contended.phase p ≡ inside))
    × ((p : ℕ) → contended.phase p ≡ asleep → contended.phase contended.lock.pid ≡ inside)
sleep_lock-exclusive_example = sleep_lock-exclusive contended-Reach
