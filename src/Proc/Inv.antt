-- ===== src/Proc/Inv.antt =====
-- The process table's invariant, and that the operations of kernel/proc.c keep it.
use project_opertating_syste.Base.{
  ℕ, ◌<◌, ◌≡◌, ◌≢◌, refl, sym, ◌∙◌, ap, subst, ◌⊎◌, inl, inr, Bool, true, false, none, some, arith,
  ℕ_discrete, Bool-cases,
}
use project_opertating_syste.Proc.{
  Proc, Table, ProcState, unused, zombie, is_unused, nproc, is_parent, put,
}
use project_opertating_syste.Proc.Scan.{Woken, Reparented}

-- A process that can be a parent: it is in use, and has not exited.
abbrev pub is_live : ProcState → Bool
is_live unused = false
is_live zombie = false
is_live _ = true

pub record Inv (t : Table) : Type 0 where
  -- Init is there and has not exited.
  pub init_here : t.initproc < nproc
  pub init_live : is_live (t.procs t.initproc).state ≡ true
  -- The parent of a process is a live process of the table.
  pub parents :
      (i q : ℕ)
      → i < nproc
      → (t.procs i).parent ≡ some q
      → (q < nproc) × (is_live (t.procs q).state ≡ true)
  -- A free entry has no parent.
  pub free : (i : ℕ) → i < nproc → is_unused (t.procs i).state ≡ true → (t.procs i).parent ≡ none
  -- The entries in use have distinct pids, handed out before.
  pub pids : (i : ℕ) → i < nproc → is_unused (t.procs i).state ≡ false → (t.procs i).pid < t.nextpid
  pub distinct :
      (i j : ℕ)
      → i < nproc
      → j < nproc
      → is_unused (t.procs i).state ≡ false
      → is_unused (t.procs j).state ≡ false
      → (t.procs i).pid ≡ (t.procs j).pid
      → i ≡ j

module _ (t : Table) (v : Inv t) where
  open v use {init_here, init_live, parents, free, pids, distinct}

  -- Changes that keep pids, and who is live and in use, and that give children at most to init.
  pub alike-Inv :
      (u : Table)
      → u.nextpid ≡ t.nextpid
      → u.initproc ≡ t.initproc
      → ((i : ℕ)
          → (is_live (u.procs i).state ≡ is_live (t.procs i).state)
            × (is_unused (u.procs i).state ≡ is_unused (t.procs i).state)
            × ((u.procs i).pid ≡ (t.procs i).pid))
      → ((i : ℕ)
          → i < nproc
          → ((u.procs i).parent ≡ (t.procs i).parent)
            ⊎ (((u.procs i).parent ≡ some t.initproc) × ((t.procs i).parent ≢ none)))
      → Inv u
  alike-Inv u n r same par = record {
    init_here = omega (arith, r);
    init_live = rw (r, (same t.initproc).0) init_live;
    parents = λ i q h c. elim (par i h) [
      | inl e ↦ let (a, b) = parents i q h (sym e ∙ c) in (a, (same q).0 ∙ b)
      | inr (e, _) ↦
          let q_eq : t.initproc ≡ q = ground arith in
          subst (λ x. (x < nproc) × (is_live (u.procs x).state ≡ true)) q_eq
            (init_here, (same t.initproc).0 ∙ init_live)
    ];
    free = λ i h c. elim (par i h) [
      | inl e ↦ e ∙ free i h (sym (same i).1 ∙ c)
      | inr (_, k) ↦ absurd (k (free i h (sym (same i).1 ∙ c)))
    ];
    pids = λ i h c. omega (arith, n, (same i).2, pids i h (sym (same i).1 ∙ c));
    distinct = λ i j h k c d e.
        distinct i j h k (sym (same i).1 ∙ c) (sym (same j).1 ∙ d)
          (omega (arith, (same i).2, (same j).2));
  }

  -- An assignment to one process that keeps its parent and its pid, and whether it is live and in
  -- use.
  pub put-Inv :
      (i : ℕ) (p : Proc)
      → is_live p.state ≡ is_live (t.procs i).state
      → is_unused p.state ≡ is_unused (t.procs i).state
      → p.parent ≡ (t.procs i).parent
      → p.pid ≡ (t.procs i).pid
      → Inv (put i p t)
  put-Inv i p l u e k =
      alike-Inv (put i p t) refl refl (λ j. (ground arith, ground arith, ground arith))
        (λ j h. inl (ground arith))

  pub Woken-Inv : (u : Table) → Woken t u → Inv u
  Woken-Inv u w =
      alike-Inv u w.nextpid w.initproc
        (λ i. (ground (arith, (w.calm i).state), ground (arith, (w.calm i).state), (w.calm i).pid))
        (λ i h. inl (w.parent i))

  pub Reparented-Inv : (me : ℕ) (u : Table) → Reparented me nproc t u → Inv u
  Reparented-Inv me u r =
      alike-Inv u r.nextpid r.initproc
        (λ i. (ground (arith, (r.calm i).state), ground (arith, (r.calm i).state), (r.calm i).pid))
        (λ i h. elim (Bool-cases (is_parent me (t.procs i).parent)) [
          | inl e ↦ inr (rw (r.new i h, e), λ z. ground arith)
          | inr e ↦ inl (rw (r.new i h, e))
        ])

-- Reading an entry after an assignment to one.
pub get-put : (i : ℕ) (p : Proc) (t : Table) → (put i p t).procs i ≡ p
get-put i p t = ground arith

pub get-put_ne : (i j : ℕ) (p : Proc) (t : Table) → j ≢ i → (put i p t).procs j ≡ t.procs j
get-put_ne i j p t h = ground arith

-- A process with no children stops being live, or leaves the table.
module _ (t : Table) (v : Inv t) (i : ℕ) (p : Proc) (in_table : i < nproc) (ne : i ≢ t.initproc)
    (orphan : (j : ℕ) → j < nproc → (t.procs j).parent ≢ some i)
    (par : (p.parent ≡ none) ⊎ ((p.parent ≡ (t.procs i).parent) × (is_unused p.state ≡ false)))
    (pid : (is_unused p.state ≡ true)
      ⊎ ((is_unused (t.procs i).state ≡ false) × (p.pid ≡ (t.procs i).pid))) where
  open v use {init_here, init_live, parents, free, pids, distinct}

  abbrev after : ℕ → Proc
  after = (put i p t).procs

  still_parent :
      (j q : ℕ)
      → j < nproc
      → (t.procs j).parent ≡ some q
      → (q < nproc) × (is_live (after q).state ≡ true)
  still_parent j q h e =
      let (a, b) = parents j q h e in
      let other : q ≢ i = λ z. orphan j h (e ∙ ap some z) in
      (a, ap (λ r. is_live r.state) (get-put_ne i q p t other) ∙ b)

  -- An entry in use after the assignment was in use before, with the same pid.
  was_used :
      (j : ℕ)
      → is_unused (after j).state ≡ false
      → (is_unused (t.procs j).state ≡ false) × ((after j).pid ≡ (t.procs j).pid)
  was_used j c = elim (ℕ_discrete j i) [ yes e ↦ ground (arith, pid) | no e ↦ ground arith ]

  pub retire-Inv : Inv (put i p t)
  retire-Inv = record {
    init_here = init_here;
    init_live =
        ap (λ r. is_live r.state) (get-put_ne i t.initproc p t (λ z. ne (sym z))) ∙ init_live;
    parents = λ j q h c. elim (ℕ_discrete j i) [
      | yes e ↦
          let c' : p.parent ≡ some q = ground arith in
          elim par [
            | inl none_left ↦ absurd (ground arith)
            | inr (kept, _) ↦ still_parent i q in_table (sym kept ∙ c')
          ]
      | no e ↦ still_parent j q h (ap (λ r. r.parent) (sym (get-put_ne i j p t e)) ∙ c)
    ];
    free = λ j h c. elim (ℕ_discrete j i) [
      | yes e ↦ ground (arith, par)
      | no e ↦ ground (arith, free j h)
    ];
    pids = λ j h c. let (a, b) = was_used j c in omega (arith, b, pids j h a);
    distinct = λ j k h h' c d e.
        let (a, b) = was_used j c in
        let (a', b') = was_used k d in distinct j k h h' a a' (omega (arith, b, b'));
  }
