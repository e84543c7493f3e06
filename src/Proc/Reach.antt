-- ===== src/Proc/Reach.antt =====
-- The steps of the processes over the process table of kernel/proc.c, and what holds in every state
-- that they reach.
use project_opertating_syste.Base.{ℕ, ◌+◌, ◌^◌, ◌<◌, ◌≡◌, refl, subst, Bool, some, done, Outcome}
use project_opertating_syste.Proc.{
  Table, running, nproc, fork, kill, wakeup, exit, wait, sleep, sleep_end, yield, schedule, address,
}
use project_opertating_syste.Proc.Inv.{Inv}
use project_opertating_syste.Proc.Fork.{fork-Inv}
use project_opertating_syste.Proc.Steps.{
  kill-Inv, wakeup-Inv, sleep-Inv, sleep_end-Inv, yield-Inv, schedule-Inv,
}
use project_opertating_syste.Proc.Death.{exit-Ended, wait-Inv, Ended, of_init, gone}

-- A call of an operation. The calls that `wait_lock` makes one after the other (`wait`, `exit`) are
-- one step each; `me` is the process that a CPU runs. `nextpid` is an `int`, whose overflow C leaves
-- undefined: there is a step of `fork` while the next value fits.
pub data Step (t : Table) : Table → Type 0 where
  forks :
      (me : ℕ) (tf_ok pt_ok copy_ok : Bool)
      → t.nextpid + 1 < 2 ^ 31
      → me < nproc
      → (t.procs me).state ≡ running
      → Step t (fork me tf_ok pt_ok copy_ok t).1
  exits :
      {u : Table} (me status : ℕ)
      → me < nproc
      → (t.procs me).state ≡ running
      → exit me status t ≡ done u
      → Step t u
  waits :
      (me : ℕ) (out_ok : Bool)
      → me < nproc
      → (t.procs me).state ≡ running
      → Step t (wait me out_ok t).1
  kills : (pid : ℕ) → Step t (kill pid t).1
  wakes : (me : ℕ) (a : ℕ) → Step t (wakeup me (address a) t)
  sleeps : (me : ℕ) (a : ℕ) → (t.procs me).state ≡ running → Step t (sleep me (address a) t)
  wakes_up : (me : ℕ) → (t.procs me).state ≡ running → Step t (sleep_end me t)
  yields : (me : ℕ) → (t.procs me).state ≡ running → Step t (yield me t)
  scheduled : {u : Table} (i : ℕ) → schedule i t ≡ some u → Step t u

pub data Reach (t : Table) : Table → Type 0 where
  start : Reach t t
  next : {u w : Table} → Reach t u → Step u w → Reach t w

Ended-Inv :
    (me status : ℕ) (t : Table) (o : Outcome Table) (u : Table)
    → Ended me status t o
    → o ≡ done u
    → Inv u
Ended-Inv me status t _ u (of_init e) d = cc
Ended-Inv me status t _ u (gone {u = w} n x) d = let same : w ≡ u = cc in subst Inv same x.invariant

Step-Inv : (t u : Table) → Inv t → Step t u → Inv u
Step-Inv t _ v (forks me a b c small lt e) = fork-Inv me a b c t small v lt (rw e refl)
Step-Inv t u v (exits me s lt e d) = Ended-Inv me s t (exit me s t) u (exit-Ended me s t v lt e) d
Step-Inv t _ v (waits me o lt e) = wait-Inv me o t v e
Step-Inv t _ v (kills pid) = kill-Inv pid t v
Step-Inv t _ v (wakes me a) = wakeup-Inv me (address a) t v
Step-Inv t _ v (sleeps me a e) = sleep-Inv t v me (address a) e
Step-Inv t _ v (wakes_up me e) = sleep_end-Inv t v me
Step-Inv t _ v (yields me e) = yield-Inv t v me e
Step-Inv t u v (scheduled i e) = schedule-Inv i t u v e

-- Every table that the steps reach from one with the invariant, `nextpid` not overflowing in a
-- `fork`, has it: init is live, the parent of
-- each process is a live process of the table, a free entry has no parent, and the pids of the
-- entries in use are distinct and below the next one.
pub Reach-table_Inv : (t u : Table) → Inv t → Reach t u → Inv u
Reach-table_Inv t _ v start = v
Reach-table_Inv t w v (next {u} p s) = Step-Inv u w (Reach-table_Inv t u v p) s
