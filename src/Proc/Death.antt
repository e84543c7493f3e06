-- ===== src/Proc/Death.antt =====
-- `exit` and `wait` of kernel/proc.c on a table with the invariant.
use project_opertating_syste.Base.{
  ℕ, ◌<◌, ◌≡◌, ◌≢◌, refl, sym, ◌∙◌, ap, subst, ◌⊎◌, inl, inr, ◌==◌, Bool, true, false, ◌&&◌, Option,
  none, some, arith, ℕ_discrete, Bool-cases, if◌then◌else◌, done, panic, Outcome,
}
use project_opertating_syste.Proc.{
  Proc, Table, ProcState, running, zombie, is_unused, is_zombie, is_sleeping, same_chan, nproc,
  find_proc, put, freeproc, wakeup, exit, wait, wait_at, is_parent, process, reparent, parent_chan,
}
use project_opertating_syste.Proc.Scan.{
  find_proc-some, wakeup-Woken, reparent-Reparented, Woken, Reparented, Calm, Calm-trans,
}
use project_opertating_syste.Proc.Wake.{in_wait, Calm-in_wait, wakeup-in_wait, reparent-in_wait}
use project_opertating_syste.Proc.Inv.{
  is_live, Inv, put-Inv, Woken-Inv, Reparented-Inv, retire-Inv, get-put_ne,
}

is_parent-some : (me : ℕ) (q : Option ℕ) → is_parent me q ≡ false → q ≢ some me
is_parent-some me none h e = ground arith
is_parent-some me (some q) h e = ground arith

live_or_zombie : (s : ProcState) → is_live s ≡ true → is_zombie s ≡ true → ⊥
live_or_zombie s a b = ground arith

-- What `exit` leaves, when the caller was `me`.
pub record Exited (me status : ℕ) (t u : Table) : Type 0 where
  -- The caller is a zombie with its status and its pid.
  pub is_gone : (u.procs me).state ≡ zombie
  pub xstate : (u.procs me).xstate ≡ status
  pub pid : (u.procs me).pid ≡ (t.procs me).pid
  -- Its children are init's, and no other process has another parent than before.
  pub parents :
      (i : ℕ)
      → i < nproc
      → (u.procs i).parent
        ≡ (if is_parent me (t.procs i).parent then some t.initproc else (t.procs i).parent)
  -- Other processes keep their pids, and some that slept are runnable.
  pub others : (i : ℕ) → i ≢ me → Calm (t.procs i) (u.procs i)
  -- Who has a zombie child that is new to it is out of `wait`.
  pub woken :
      (i q : ℕ)
      → i < nproc
      → is_zombie (u.procs i).state ≡ true
      → (u.procs i).parent ≡ some q
      → ((is_zombie (t.procs i).state ≡ true) × ((t.procs i).parent ≡ some q))
        ⊎ (in_wait q u ≡ false)
  pub invariant : Inv u

module _ (me status : ℕ) (t : Table) (v : Inv t) (in_table : me < nproc)
    (is_running : (t.procs me).state ≡ running) (ne : me ≢ t.initproc) where
  abbrev t1 : Table
  t1 = reparent me t

  abbrev t2 : Table
  t2 = wakeup me (parent_chan (t1.procs me).parent) t1

  abbrev gone_entry : Proc
  gone_entry = record (t2.procs me) { xstate = status; state = zombie }

  abbrev r : Reparented me nproc t t1
  r = reparent-Reparented me t

  abbrev w : Woken t1 t2
  w = wakeup-Woken me (parent_chan (t1.procs me).parent) t1

  orphan : (j : ℕ) → j < nproc → (t2.procs j).parent ≢ some me
  orphan j h e = elim (Bool-cases (is_parent me (t.procs j).parent)) [
    | inl c ↦
        let given : (t2.procs j).parent ≡ some t.initproc =
          w.parent j ∙ r.new j h ∙ ground (arith, c) in
        absurd (ground arith)
    | inr c ↦
        let kept : (t2.procs j).parent ≡ (t.procs j).parent =
          w.parent j ∙ r.new j h ∙ ground (arith, c) in
        absurd (is_parent-some me (t.procs j).parent c (sym kept ∙ e))
  ]

  still : is_unused (t2.procs me).state ≡ false
  still = ground (arith, is_running, (r.calm me).state, (w.calm me).state)

  last : Inv (put me (gone_entry) t2)
  last =
      retire-Inv t2 (Woken-Inv t1 (Reparented-Inv t v me t1 r) t2 w) me _ in_table
        (λ e. ne (e ∙ w.initproc ∙ r.initproc)) orphan (inr (refl, refl)) (inr (still, refl))

  abbrev last_table : Table
  last_table = put me gone_entry t2

  last-in_wait : (q : ℕ) → q ≢ me → in_wait q t2 ≡ false → in_wait q last_table ≡ false
  last-in_wait q n h =
      subst (λ x. (is_sleeping x.state && same_chan x.chan (process q)) ≡ false)
        (sym (get-put_ne me q gone_entry t2 n)) h

  -- The parent of the caller.
  parent-in_wait : (q : ℕ) → (t2.procs me).parent ≡ some q → in_wait q t2 ≡ false
  parent-in_wait q e =
      let before : (t1.procs me).parent ≡ some q = sym (w.parent me) ∙ e in
      let (lt, _) = (Reparented-Inv t v me t1 r).parents me q in_table before in
      let ne_q : q ≢ me = λ z. orphan me in_table (e ∙ ap some z) in
      rw before (wakeup-in_wait me q t1 lt ne_q)

  -- Init, when a child of the caller is given to it.
  init-in_wait :
      (i : ℕ) → i < nproc → is_parent me (t.procs i).parent ≡ true → in_wait t.initproc t2 ≡ false
  init-in_wait i h e =
      Calm-in_wait t.initproc t1 t2 (w.calm t.initproc)
        (reparent-in_wait me t v.init_here (λ z. ne (sym z)) i h e)

  last-woken :
      (i q : ℕ)
      → i < nproc
      → is_zombie (last_table.procs i).state ≡ true
      → (last_table.procs i).parent ≡ some q
      → ((is_zombie (t.procs i).state ≡ true) × ((t.procs i).parent ≡ some q))
        ⊎ (in_wait q last_table ≡ false)
  last-woken i q h z e = elim (ℕ_discrete i me) [
    | yes x ↦
        let e' : (t2.procs me).parent ≡ some q = ground arith in
        let ne_q : q ≢ me = λ y. orphan me in_table (e' ∙ ap some y) in
        inr (last-in_wait q ne_q (parent-in_wait q e'))
    | no x ↦
        let z' : is_zombie (t.procs i).state ≡ true =
          ground (arith, (w.calm i).state, (r.calm i).state) in
        elim (Bool-cases (is_parent me (t.procs i).parent)) [
          | inl c ↦
              let same : t.initproc ≡ q = ground (arith, r.new i h, w.parent i) in
              inr (
                subst (λ y. in_wait y last_table ≡ false) same
                  (last-in_wait t.initproc (λ y. ne (sym y)) (init-in_wait i h c)))
          | inr c ↦ inl (z', ground (arith, r.new i h, w.parent i))
        ]
  ]

  pub exit-Exited : Exited me status t (put me (gone_entry) t2)
  exit-Exited = record {
    is_gone = ground arith;
    xstate = ground arith;
    pid = ground (arith, (r.calm me).pid, (w.calm me).pid);
    parents = λ i h. ground (arith, r.new i h, w.parent i);
    others = λ i n.
        subst (Calm (t.procs i)) (sym (get-put_ne me i gone_entry t2 n))
          (Calm-trans (t.procs i) (t1.procs i) (t2.procs i) (r.calm i) (w.calm i));
    woken = last-woken;
    invariant = last;
  }

-- How `exit` ends: init may not exit.
pub data Ended (me status : ℕ) (t : Table) : Outcome Table → Type 0 where
  of_init : me ≡ t.initproc → Ended me status t panic
  gone : {u : Table} → me ≢ t.initproc → Exited me status t u → Ended me status t (done u)

-- `exit` called by a running process of the table: init panics, and any other becomes a zombie with
-- its status, while its children become init's, the parents and pids of the other processes stay, and the
-- invariant holds.
pub exit-Ended :
    (me status : ℕ) (t : Table)
    → Inv t
    → me < nproc
    → (t.procs me).state ≡ running
    → Ended me status t (exit me status t)
unfolding exit
exit-Ended me status t v h e = elim (Bool-cases (me == t.initproc)) [
  | inl c ↦ rw c (of_init (ground arith))
  | inr c ↦
      let ne : me ≢ t.initproc = λ z. ground arith in
      rw c (gone ne (exit-Exited me status t v h e ne))
]

zombie_childless :
    (t : Table) (i : ℕ)
    → Inv t
    → is_zombie (t.procs i).state ≡ true
    → (j : ℕ) → j < nproc
    → (t.procs j).parent ≢ some i
zombie_childless t i v z j h e =
    let (_, l) = v.parents j i h e in elim (live_or_zombie (t.procs i).state l z) [ ]

wait_at-Inv :
    (me : ℕ) (out_ok : Bool) (t : Table) (found child : Option ℕ)
    → Inv t
    → (t.procs me).state ≡ running
    → ((i : ℕ) → found ≡ some i → (i < nproc) × (is_zombie (t.procs i).state ≡ true))
    → Inv (wait_at me out_ok t found child).1
unfolding wait_at freeproc
wait_at-Inv me false t (some i) child v e h = v
wait_at-Inv me true t (some i) child v e h =
    let (lt, z) = h i refl in
    retire-Inv t v i _ lt
      (λ same.
        live_or_zombie (t.procs i).state
          (subst (λ x. is_live (t.procs x).state ≡ true) (sym same) v.init_live) z)
      (zombie_childless t i v z) (inl refl) (inl refl)
wait_at-Inv me out_ok t none none v e h = v
wait_at-Inv me out_ok t none (some c) v e h = elim (Bool-cases (t.procs me).killed) [
  | inl k ↦ rw k v
  | inr k ↦ rw k (put-Inv t v me _ (rw e refl) (rw e refl) refl refl)
]

pub wait-Inv :
    (me : ℕ) (out_ok : Bool) (t : Table)
    → Inv t
    → (t.procs me).state ≡ running
    → Inv (wait me out_ok t).1
unfolding wait
wait-Inv me out_ok t v e =
    wait_at-Inv me out_ok t
      (find_proc (λ p. is_parent me p.parent && is_zombie p.state) nproc 0 t.procs)
      (find_proc (λ p. is_parent me p.parent) nproc 0 t.procs) v e
      (λ i h.
        let (a, b) = find_proc-some (λ p. is_parent me p.parent && is_zombie p.state) t.procs i h in
        (a, ground arith))
