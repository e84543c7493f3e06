-- ===== src/Proc/Fork.antt =====
-- The branches of `fork` of kernel/proc.c.
use project_opertating_syste.Base.{
  ℕ, ◌+◌, ◌^◌, ◌<◌, ◌≡◌, ◌≢◌, refl, sym, ◌∙◌, subst, inl, inr, Bool, true, false, ◌&&◌, Option,
  none, some, arith, ℕ_discrete, Option-cases, update,
}
use project_opertating_syste.Proc.{
  Proc, Table, runnable, unused, nothing, is_unused, nproc, find_proc, freeproc, allocproc,
  alloc_at, fork_with, fork,
}
use project_opertating_syste.Proc.Scan.{find_proc-some, find_proc-none}
use project_opertating_syste.Proc.Inv.{is_live, Inv}
use project_opertating_syste.Proc.Birth.{born-Inv_of}

abbrev find_unused : Table → Option ℕ
find_unused t = find_proc (λ p. is_unused p.state) nproc 0 t.procs

-- The entry of a child, and the tables that `fork` leaves at entry `i`.
abbrev child : ℕ → ℕ → Table → Proc
child me i t = record (t.procs i) {
  state = runnable;
  pid = t.nextpid;
  parent = some me;
  sz = (t.procs me).sz;
  trapframe = true;
  pagetable = true;
}

-- What `freeproc` leaves.
abbrev pub cleared : Proc
cleared = record {
  state = unused;
  chan = nothing;
  killed = false;
  xstate = 0;
  pid = 0;
  parent = none;
  sz = 0;
  trapframe = false;
  pagetable = false;
}

-- What `fork` does, on every branch, where `ok` says that the allocations and the copy succeed: no
-- free entry; one of them fails, and a pid is used up; or entry `i` becomes the child.
pub data Forked (me : ℕ) (ok : Bool) (t : Table) : Option ℕ × Table → Type 0 where
  no_room :
      {u : Table}
      → ((j : ℕ) → j < nproc → is_unused (t.procs j).state ≡ false)
      → u ≡ t
      → Forked me ok t (none, u)
  undone :
      {u : Table} (i : ℕ)
      → ok ≡ false
      → i < nproc
      → is_unused (t.procs i).state ≡ true
      → u.nextpid ≡ t.nextpid + 1
      → u.initproc ≡ t.initproc
      → u.procs i ≡ cleared
      → ((j : ℕ) → j ≢ i → u.procs j ≡ t.procs j)
      → Forked me ok t (none, u)
  child_at :
      {u : Table} {pid : ℕ} (i : ℕ)
      → ok ≡ true
      → pid ≡ t.nextpid
      → i < nproc
      → is_unused (t.procs i).state ≡ true
      → u.nextpid ≡ t.nextpid + 1
      → u.initproc ≡ t.initproc
      → u.procs i ≡ child me i t
      → ((j : ℕ) → j ≢ i → u.procs j ≡ t.procs j)
      → Forked me ok t (some pid, u)

-- Clauses: the allocations and the copy succeed or fail.
fork_at :
    (me : ℕ) (a b c : Bool) (t : Table) (i : ℕ)
    → is_unused (t.procs me).state ≡ false
    → i < nproc
    → is_unused (t.procs i).state ≡ true
    → Forked me (a && b && c) t (fork_with me c (alloc_at a b t (some i)))
unfolding fork_with alloc_at freeproc
fork_at me false b c t i h lt test =
    undone i refl lt test refl refl (ground arith) (λ j n. ground arith)
fork_at me true false c t i h lt test =
    undone i refl lt test refl refl (ground arith) (λ j n. ground arith)
fork_at me true true false t i h lt test =
    undone i refl lt test refl refl (ground arith) (λ j n. ground arith)
fork_at me true true true t i h lt test =
    child_at i refl (ground arith) lt test refl refl (ground arith) (λ j n. ground arith)

-- `fork` called by a process whose entry is not free, where `nextpid` does not overflow. With every
-- entry of the table in use it returns -1 and nothing changes. Else, if an allocation or the copy
-- fails, it returns -1, a pid is used up, and a free entry is cleared; and if none fails, a free
-- entry becomes the child, runnable, with the next pid and the caller as its parent, and `fork`
-- returns that pid. No other entry changes.
pub fork-Forked :
    (me : ℕ) (tf_ok pt_ok copy_ok : Bool) (t : Table)
    → t.nextpid + 1 < 2 ^ 31
    → is_unused (t.procs me).state ≡ false
    → Forked me (tf_ok && pt_ok && copy_ok) t (fork me tf_ok pt_ok copy_ok t)
unfolding fork allocproc alloc_at fork_with
fork-Forked me a b c t small h = elim (Option-cases (find_unused t)) [
  | inl e ↦ rw e (no_room (find_proc-none (λ p. is_unused p.state) t.procs e) refl)
  | inr (i, e) ↦
      let (lt, test) = find_proc-some (λ p. is_unused p.state) t.procs i e in
      rw e (fork_at me a b c t i h lt test)
]

at_entry :
    (t u : Table) (i : ℕ)
    → ((j : ℕ) → j ≢ i → u.procs j ≡ t.procs j)
    → (j : ℕ) → u.procs j ≡ update t.procs i (u.procs i) j
at_entry t u i other j = elim (ℕ_discrete j i) [
  | yes e ↦ ground arith
  | no e ↦ other j e ∙ ground arith
]

-- `fork` keeps the invariant of the table when its caller is a live process of it.
pub fork-Inv :
    (me : ℕ) (tf_ok pt_ok copy_ok : Bool) (t : Table)
    → t.nextpid + 1 < 2 ^ 31
    → Inv t
    → me < nproc
    → is_live (t.procs me).state ≡ true
    → Inv (fork me tf_ok pt_ok copy_ok t).1
fork-Inv me a b c t small v lt live =
    at (fork me a b c t) (fork-Forked me a b c t small (ground (arith, live)))
  where
    at : (r : Option ℕ × Table) → Forked me (a && b && c) t r → Inv r.1
    at (none, u) (no_room full e) = subst Inv (sym e) v
    at (none, u) (undone i bad h f n r x other) =
        born-Inv_of t v i h f (u.procs i) (inl (rw x refl, rw x refl)) u n r
          (λ j. at_entry t u i other j)
    at (some pid, u) (child_at i ok p h f n r e other) =
        born-Inv_of t v i h f (u.procs i)
          (inr (rw e refl, rw e refl, inr (me, rw e refl, lt, live))) u n r
          (λ j. at_entry t u i other j)
