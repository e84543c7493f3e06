-- ===== src/Proc/Tests.antt =====
-- Concrete process tables: init runs, forks a child, waits for it, and the child exits.
use project_opertating_syste.Base.{
  ◌≡◌, refl, true, false, none, arith, update, Outcome, done, panic,
}
use project_opertating_syste.Proc.{
  Proc, Table, unused, running, nothing, put, find_proc, alloc_at, allocproc, fork_with, fork,
  wait_at, wait, schedule, exit, kill, kill_at,
}
use project_opertating_syste.Proc.Inv.{Inv}
use project_opertating_syste.Proc.Fork.{Forked, fork-Forked}
use project_opertating_syste.Proc.Death.{Ended, exit-Ended}
use project_opertating_syste.Proc.Reach.{
  Reach, start, next, forks, waits, scheduled, exits, Reach-table_Inv,
}
use project_opertating_syste.Proc.Awaited.{Awaited, Reach-Awaited}

abbrev free_entry : Proc
free_entry = record {
  state = unused;
  chan = nothing;
  killed = false;
  xstate = 0;
  pid = 0;
  parent = none;
  sz = 0;
  trapframe = false;
  pagetable = false;
}

abbrev init_entry : Proc
init_entry = record free_entry {
  state = running;
  pid = 1;
  sz = 4096;
  trapframe = true;
  pagetable = true;
}

-- Only init is there.
abbrev booted : Table
booted = record { procs = update (λ i. free_entry) 0 init_entry; nextpid = 2; initproc = 0 }

booted-Inv : Inv booted
booted-Inv = record {
  init_here = omega arith;
  init_live = refl;
  parents = λ i q h e. absurd (ground arith);
  free = λ i h e. ground arith;
  pids = λ i h e. ground arith;
  distinct = λ i j h k c d e. ground arith;
}

booted-Awaited : Awaited booted
booted-Awaited i q h z e = absurd (ground arith)

abbrev forked : Table
forked = (fork 0 true true true booted).1

abbrev waiting : Table
waiting = (wait 0 true forked).1

abbrev child_runs : Table
child_runs = put 1 (record (waiting.procs 1) { state = running }) waiting

abbrev table_of : Outcome Table → Table → Table
table_of (done t) u = t
table_of panic u = u

abbrev exited : Table
exited = table_of (exit 1 7 child_runs) booted

run : Reach booted exited
unfolding fork fork_with allocproc alloc_at find_proc wait wait_at schedule exit
run =
    next
      (next
        (next (next start (forks 0 true true true (omega arith) (omega arith) refl))
          (waits 0 true (omega arith) refl))
        (scheduled 1 refl))
      (exits 1 7 (omega arith) refl refl)

-- The witnesses.
Reach-table_Inv_example : Inv exited
Reach-table_Inv_example = Reach-table_Inv booted exited booted-Inv run

Reach-Awaited_example : Awaited exited
Reach-Awaited_example = Reach-Awaited booted exited booted-Inv booted-Awaited run

fork-Forked_example : Forked 0 true booted (fork 0 true true true booted)
fork-Forked_example = fork-Forked 0 true true true booted (omega arith) refl

exit-Ended_example : Ended 0 7 booted (exit 0 7 booted)
exit-Ended_example = exit-Ended 0 7 booted booted-Inv (omega arith) refl

-- `kill(0)` succeeds where an entry is free, and the next child to take that entry is killed.
kill_zero : (kill 0 booted).0 ≡ true
unfolding kill kill_at find_proc
kill_zero = refl

born_killed : ((fork 0 true true true (kill 0 booted).1).1.procs 1).killed ≡ true
unfolding kill kill_at find_proc fork fork_with allocproc alloc_at
born_killed = refl
