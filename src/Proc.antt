-- ===== src/Proc.antt =====
-- kernel/proc.c: the process table. A process is named by its index in `proc[]`. Open files, the
-- current directory, user memory and registers belong to other parts; whether `kalloc`,
-- `proc_pagetable`, `uvmcopy` and `copyout` succeed is an argument. `nextpid`, an `int`, is a number that
-- the theorems take to fit in one after each `fork`: C leaves its overflow undefined.
pub mod Scan
pub mod Wake
pub mod Inv
pub mod Birth
pub mod Fork
pub mod Death
pub mod Steps
pub mod Reach
pub mod Awaited
mod Tests
use project_opertating_syste.Base.{
  ℕ, zero, suc, ◌+◌, ◌==◌, Bool, true, false, not, ◌&&◌, ◌||◌, Option, none, some, if◌then◌else◌,
  update, for_up, Outcome, done, panic, ◌>>=◌, ◌>>◌, panic_if,
}

-- kernel/param.h
abbrev pub nproc : ℕ
nproc = 64

-- `enum procstate`
pub data ProcState : Type 0 where
  unused used sleeping runnable running zombie : ProcState

abbrev pub is_unused : ProcState → Bool
is_unused unused = true
is_unused _ = false

abbrev pub is_sleeping : ProcState → Bool
is_sleeping sleeping = true
is_sleeping _ = false

abbrev pub is_zombie : ProcState → Bool
is_zombie zombie = true
is_zombie _ = false

abbrev pub is_runnable : ProcState → Bool
is_runnable runnable = true
is_runnable _ = false

-- What a process sleeps on: nothing, a process (`wait` sleeps on it), or some other address.
pub data Chan : Type 0 where
  nothing : Chan
  process : ℕ → Chan
  address : ℕ → Chan

abbrev pub same_chan : Chan → Chan → Bool
same_chan nothing nothing = true
same_chan (process p) (process q) = p == q
same_chan (address a) (address b) = a == b
same_chan _ _ = false

pub record Proc : Type 0 where
  pub state : ProcState
  pub chan : Chan
  pub killed : Bool
  pub xstate : ℕ
  pub pid : ℕ
  pub parent : Option ℕ
  pub sz : ℕ
  pub trapframe : Bool  -- is there one?
  pub pagetable : Bool

pub record Table : Type 0 where
  pub procs : ℕ → Proc
  pub nextpid : ℕ
  pub initproc : ℕ

-- An assignment to fields of `proc[i]`.
abbrev pub put : ℕ → Proc → Table → Table
put i p t = record t { procs = update t.procs i p }

-- `freeproc`
unfoldable pub freeproc : ℕ → Table → Table
freeproc i t =
    put i
      (record {
        state = unused;
        chan = nothing;
        killed = false;
        xstate = 0;
        pid = 0;
        parent = none;
        sz = 0;
        trapframe = false;
        pagetable = false;
      })
      t

-- The first index from `i` on, among the next `k`, whose process passes the test.
unfoldable pub find_proc : (Proc → Bool) → ℕ → ℕ → (ℕ → Proc) → Option ℕ
find_proc test zero i procs = none
find_proc test (suc k) i procs =
    let rest = find_proc test k (i + 1) procs in if test (procs i) then some i else rest

-- `allocproc`, where `tf_ok` and `pt_ok` say whether the two allocations succeed: `alloc_at` is
-- what it does after its search.
unfoldable pub alloc_at : Bool → Bool → Table → Option ℕ → Option ℕ × Table
alloc_at tf_ok pt_ok t none = (none, t)
alloc_at tf_ok pt_ok t (some i) =
    let p = t.procs i in
    let t1 : Table = record t {
      procs = update t.procs i (record p { pid = t.nextpid; state = used; trapframe = tf_ok });
      nextpid = t.nextpid + 1;
    } in
    if not tf_ok
    then (none, freeproc i t1)
    else if not pt_ok
    then (none, freeproc i t1)
    else (some i, put i (record (t1.procs i) { pagetable = true }) t1)

unfoldable pub allocproc : Bool → Bool → Table → Option ℕ × Table
allocproc tf_ok pt_ok t =
    alloc_at tf_ok pt_ok t (find_proc (λ p. is_unused p.state) nproc 0 t.procs)

-- `wakeup(ch)` called by process `me`: the body of its loop.
unfoldable pub wake_one : ℕ → Chan → ℕ → Table → Table
wake_one me ch i t =
    let p = t.procs i in
    if not (i == me) && (is_sleeping p.state && same_chan p.chan ch)
    then put i (record p { state = runnable }) t
    else t

unfoldable pub wakeup : ℕ → Chan → Table → Table
wakeup me ch = for_up nproc (wake_one me ch)

-- `kill`: the return value 0 is `true`, and `kill_at` is what it does after its search.
unfoldable pub kill_at : Table → Option ℕ → Bool × Table
kill_at t none = (false, t)
kill_at t (some i) =
    let p = t.procs i in
    let state : ProcState = if is_sleeping p.state then runnable else p.state in
    (true, put i (record p { killed = true; state = state }) t)

unfoldable pub kill : ℕ → Table → Bool × Table
kill pid t = kill_at t (find_proc (λ p. p.pid == pid) nproc 0 t.procs)

abbrev pub is_parent : ℕ → Option ℕ → Bool
is_parent me none = false
is_parent me (some q) = q == me

-- `reparent(me)`: the body of its loop.
unfoldable pub reparent_one : ℕ → ℕ → Table → Table
reparent_one me i t =
    let p = t.procs i in
    if is_parent me p.parent
    then wakeup me (process t.initproc) (put i (record p { parent = some t.initproc }) t)
    else t

unfoldable pub reparent : ℕ → Table → Table
reparent me = for_up nproc (reparent_one me)

abbrev pub parent_chan : Option ℕ → Chan
parent_chan none = nothing
parent_chan (some q) = process q

-- `exit`, from the lock of `wait_lock` to the call of `sched`.
unfoldable pub exit : ℕ → ℕ → Table → Outcome Table
exit me status t = do
  panic_if (me == t.initproc)
  let t1 = reparent me t
  let t2 = wakeup me (parent_chan (t1.procs me).parent) t1
  done (put me (record (t2.procs me) { xstate = status; state = zombie }) t2)

-- How one scan of `wait` ends: with the pid of a child, with -1, or asleep.
pub data Waited : Type 0 where
  reaped : ℕ → Waited
  failed : Waited
  asleep : Waited

-- One round of the loop of `wait`; `out_ok` says whether the exit status can be copied out.
-- `wait_at` is what it does with a zombie child that its scan stops at, and with any child it saw.
unfoldable pub wait_at : ℕ → Bool → Table → Option ℕ → Option ℕ → Waited × Table
wait_at me out_ok t (some i) child =
    if out_ok then (reaped (t.procs i).pid, freeproc i t) else (failed, t)
wait_at me out_ok t none none = (failed, t)
wait_at me out_ok t none (some _) =
    let p = t.procs me in
    if p.killed
    then (failed, t)
    else (asleep, put me (record p { chan = process me; state = sleeping }) t)

unfoldable pub wait : ℕ → Bool → Table → Waited × Table
wait me out_ok t =
    let zombie_child =
      find_proc (λ p. is_parent me p.parent && is_zombie p.state) nproc 0 t.procs in
    let any_child = find_proc (λ p. is_parent me p.parent) nproc 0 t.procs in
    wait_at me out_ok t zombie_child any_child

-- `fork`: `fork_with` is what it does with the outcome of `allocproc`.
unfoldable pub fork_with : ℕ → Bool → Option ℕ × Table → Option ℕ × Table
fork_with me copy_ok (none, t) = (none, t)
fork_with me copy_ok (some i, t) =
    let p = t.procs i in
    if not copy_ok then (none, freeproc i t) else (
      some p.pid,
      put i (record p { sz = (t.procs me).sz; parent = some me; state = runnable }) t,
    )

unfoldable pub fork : ℕ → Bool → Bool → Bool → Table → Option ℕ × Table
fork me tf_ok pt_ok copy_ok t = fork_with me copy_ok (allocproc tf_ok pt_ok t)

-- `sleep(ch, lk)` up to `sched`, and what it does when `sched` returns.
unfoldable pub sleep : ℕ → Chan → Table → Table
sleep me ch t = put me (record (t.procs me) { chan = ch; state = sleeping }) t

unfoldable pub sleep_end : ℕ → Table → Table
sleep_end me t = put me (record (t.procs me) { chan = nothing }) t

-- `yield` up to `sched`.
unfoldable pub yield : ℕ → Table → Table
yield me t = put me (record (t.procs me) { state = runnable }) t

-- `scheduler` at process `i`: `none` where it passes over it.
unfoldable pub schedule : ℕ → Table → Option Table
schedule i t =
    if is_runnable (t.procs i).state
    then some (put i (record (t.procs i) { state = running }) t)
    else none
