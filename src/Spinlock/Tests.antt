-- ===== src/Spinlock/Tests.antt =====
-- Two CPUs and a lock of kernel/spinlock.c.
use project_opertating_syste.Base.{ℕ, ◌≡◌, ◌≢◌, refl, true, false, none, update, panic, arith}
use project_opertating_syste.Spinlock.{
  Machine, outside, spinning, inside, unlocked, holding, push_off, acquire_start, acquire_swap,
  acquire_end, release_start, release_end,
}
use project_opertating_syste.Spinlock.Steps.{
  owns, is_inside, Reach, start, next, starts, swaps, enters,
}
use project_opertating_syste.Spinlock.Exclusion.{Inv, Reach-exclusive, Reach-never_panics}

-- Interrupts are on, and the lock is free.
abbrev free : Machine
free = record {
  lock = record { locked = false; cpu = none };
  cpus = λ _. record { noff = 0; intena = false; intr = true };
  phase = λ _. outside;
  others = λ _. 0;
}

free-Inv : Inv free
free-Inv = record {
  owned = λ i h. absurd (ground arith);
  one = λ i j h h'. absurd (ground arith);
  recorded = λ i. refl;
  depth = λ i. refl;
  off = λ i h. absurd (ground arith);
}

abbrev both_spin : Machine
both_spin = record free {
  cpus = update (update free.cpus 0 (push_off (free.cpus 0))) 1 (push_off (free.cpus 1));
  phase = update (update free.phase 0 spinning) 1 spinning;
}

-- Both CPUs try, CPU 1 swaps first, and CPU 0 spins on.
abbrev held : Machine
held = acquire_swap 0 (acquire_end 1 (acquire_swap 1 both_spin))

run : Reach free held
unfolding acquire_start acquire_swap acquire_end holding
run =
    next
      (next (next (next (next start (starts 0 refl refl)) (starts 1 refl refl)) (swaps 1 refl))
        (enters 1 refl))
      (swaps 0 refl)

Reach-exclusive_example :
    ((i j : ℕ) → owns (held.phase i) ≡ true → owns (held.phase j) ≡ true → i ≡ j)
    × ((i : ℕ) → holding held.lock i ≡ is_inside (held.phase i))
    × ((i : ℕ) → held.phase i ≢ outside → (held.cpus i).intr ≡ false)
Reach-exclusive_example = Reach-exclusive free held free-Inv run

Reach-never_panics_example :
    (held.phase 1 ≡ outside → acquire_start 1 held ≢ panic)
    × (held.phase 1 ≡ inside → release_start 1 held ≢ panic)
    × (held.phase 1 ≡ unlocked → release_end 1 held ≢ panic)
Reach-never_panics_example = Reach-never_panics free held free-Inv run 1
