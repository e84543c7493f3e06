-- ===== src/Proc/Steps.antt =====
-- The operations of kernel/proc.c keep the invariant of the process table.
use project_opertating_syste.Base.{
  ℕ, ◌<◌, ◌≡◌, refl, subst, inl, inr, ◌==◌, Option, none, some, arith, Bool-cases, if◌then◌else◌,
}
use project_opertating_syste.Proc.{
  Table, ProcState, unused, used, runnable, running, sleeping, zombie, is_unused, is_runnable,
  is_sleeping, nproc, find_proc, put, kill, kill_at, wakeup, sleep, sleep_end, yield, schedule,
  Chan,
}
use project_opertating_syste.Proc.Scan.{wakeup-Woken}
use project_opertating_syste.Proc.Inv.{is_live, Inv, put-Inv, Woken-Inv}

-- A process of the table that is running: the caller of a system call.
pub record Caller (t : Table) (me : ℕ) : Type 0 where
  pub in_table : me < nproc
  pub is_running : (t.procs me).state ≡ running

-- The entry that `kill` finds may be free: its pid is 0.
kill_state-live : (s : ProcState) → is_live (if is_sleeping s then runnable else s) ≡ is_live s
kill_state-live unused = refl
kill_state-live used = refl
kill_state-live sleeping = refl
kill_state-live runnable = refl
kill_state-live running = refl
kill_state-live zombie = refl

kill_state-unused :
    (s : ProcState) → is_unused (if is_sleeping s then runnable else s) ≡ is_unused s
kill_state-unused unused = refl
kill_state-unused used = refl
kill_state-unused sleeping = refl
kill_state-unused runnable = refl
kill_state-unused running = refl
kill_state-unused zombie = refl

kill_at-Inv : (t : Table) (found : Option ℕ) → Inv t → Inv (kill_at t found).1
unfolding kill_at
kill_at-Inv t none v = v
kill_at-Inv t (some i) v =
    put-Inv t v i _ (kill_state-live (t.procs i).state) (kill_state-unused (t.procs i).state) refl
      refl

pub kill-Inv : (pid : ℕ) (t : Table) → Inv t → Inv (kill pid t).1
unfolding kill
kill-Inv pid t v = kill_at-Inv t (find_proc (λ p. p.pid == pid) nproc 0 t.procs) v

pub wakeup-Inv : (me : ℕ) (ch : Chan) (t : Table) → Inv t → Inv (wakeup me ch t)
wakeup-Inv me ch t v = Woken-Inv t v (wakeup me ch t) (wakeup-Woken me ch t)

module _ (t : Table) (v : Inv t) (me : ℕ) where
  pub sleep-Inv : (ch : Chan) → (t.procs me).state ≡ running → Inv (sleep me ch t)
  unfolding sleep
  sleep-Inv ch e = put-Inv t v me _ (rw e refl) (rw e refl) refl refl

  pub sleep_end-Inv : Inv (sleep_end me t)
  unfolding sleep_end
  sleep_end-Inv = put-Inv t v me _ refl refl refl refl

  pub yield-Inv : (t.procs me).state ≡ running → Inv (yield me t)
  unfolding yield
  yield-Inv e = put-Inv t v me _ (rw e refl) (rw e refl) refl refl

pub schedule-Inv : (i : ℕ) (t u : Table) → Inv t → schedule i t ≡ some u → Inv u
unfolding schedule
schedule-Inv i t u v e = elim (Bool-cases (is_runnable (t.procs i).state)) [
  | inl h ↦
      let same : put i (record (t.procs i) { state = running }) t ≡ u = ground (arith, h) in
      subst Inv same (put-Inv t v i _ (ground (arith, h)) (ground (arith, h)) refl refl)
  | inr h ↦ absurd (ground (arith, h))
]
