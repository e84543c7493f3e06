-- ===== src/Proc/Birth.antt =====
-- A free entry of the process table of kernel/proc.c comes into use, as in `allocproc` and `fork`.
use project_opertating_syste.Base.{
  ℕ, ◌+◌, ◌<◌, ◌≡◌, ap, subst, ◌⊎◌, inl, inr, true, false, none, some, arith, ℕ_discrete, update,
}
use project_opertating_syste.Proc.{Proc, Table, is_unused, nproc}
use project_opertating_syste.Proc.Inv.{is_live, Inv, alike-Inv}

-- A free entry `i` becomes `p`, and a pid is used up.
module _ (t : Table) (v : Inv t) (i : ℕ) (in_table : i < nproc)
    (was_free : is_unused (t.procs i).state ≡ true) (p : Proc)
    (good : ((p.parent ≡ none) × (is_unused p.state ≡ true))
      ⊎ ((is_live p.state ≡ true)
          × (p.pid ≡ t.nextpid)
          × ((p.parent ≡ none)
              ⊎ ((q : ℕ) × (p.parent ≡ some q)
                  × (q < nproc)
                  × (is_live (t.procs q).state ≡ true))))) where
  open v use {init_here, init_live, parents, free, pids, distinct}

  abbrev born : Table
  born = record t { procs = update t.procs i p; nextpid = t.nextpid + 1 }

  live_elsewhere : (q : ℕ) → is_live (t.procs q).state ≡ true → is_live (born.procs q).state ≡ true
  live_elsewhere q h = ground (arith, was_free)

  new_parent : (q : ℕ) → p.parent ≡ some q → (q < nproc) × (is_live (born.procs q).state ≡ true)
  new_parent q e = elim good [
    | inl (none_left, _) ↦ absurd (ground arith)
    | inr (_, _, inl none_left) ↦ absurd (ground arith)
    | inr (_, _, inr (q', e', h, l)) ↦
        let same : q' ≡ q = ground arith in
        subst (λ x. (x < nproc) × (is_live (born.procs x).state ≡ true)) same
          (h, live_elsewhere q' l)
  ]

  new_pid : is_unused p.state ≡ false → p.pid ≡ t.nextpid
  new_pid h = ground (arith, good)

  born-Inv : Inv born
  born-Inv = record {
    init_here = init_here;
    init_live = live_elsewhere t.initproc init_live;
    parents = λ j q h c. elim (ℕ_discrete j i) [
      | yes e ↦ new_parent q (ground arith)
      | no e ↦ let (a, b) = parents j q h (ground arith) in (a, live_elsewhere q b)
    ];
    free = λ j h c. elim (ℕ_discrete j i) [
      | yes e ↦ ground (arith, good)
      | no e ↦ ground (arith, free j h)
    ];
    pids = λ j h c. elim (ℕ_discrete j i) [
      | yes e ↦ ground (arith, new_pid)
      | no e ↦ ground (arith, pids j h)
    ];
    distinct = λ j k h h' c d e. elim (ℕ_discrete j i) [
      | yes x ↦ elim (ℕ_discrete k i) [
        | yes y ↦ omega arith
        | no y ↦ absurd (ground (arith, new_pid, pids k h'))
      ]
      | no x ↦ elim (ℕ_discrete k i) [
        | yes y ↦ absurd (ground (arith, new_pid, pids j h))
        | no y ↦ ground (arith, distinct j k h h')
      ]
    ];
  }

  -- The same for a table with these entries, however it was made.
  pub born-Inv_of :
      (u : Table)
      → u.nextpid ≡ t.nextpid + 1
      → u.initproc ≡ t.initproc
      → ((j : ℕ) → u.procs j ≡ born.procs j)
      → Inv u
  born-Inv_of u n r same =
      alike-Inv born born-Inv u n r
        (λ j. (
          ap (λ x. is_live x.state) (same j),
          ap (λ x. is_unused x.state) (same j),
          ap (λ x. x.pid) (same j),
        ))
        (λ j h. inl (ap (λ x. x.parent) (same j)))
