-- ===== src/Proc/Awaited.antt =====
-- `exit` against `wait` in kernel/proc.c: zombies, and the parents that sleep in `wait`.
use project_opertating_syste.Base.{
  ℕ, ◌<◌, ◌≡◌, refl, sym, ◌∙◌, subst, inl, inr, Bool, true, false, ◌&&◌, Option, none, some, arith,
  ℕ_discrete, Bool-cases, done, Outcome, if◌then◌else◌,
}
use project_opertating_syste.Proc.{
  Waited, Proc, Table, sleeping, running, is_zombie, is_sleeping, is_runnable, same_chan, is_parent,
  nproc, put, freeproc, kill, kill_at, wakeup, exit, wait, wait_at, sleep, sleep_end, yield,
  schedule, address, process, find_proc,
}
use project_opertating_syste.Proc.Inv.{Inv, get-put, get-put_ne}
use project_opertating_syste.Proc.Scan.{find_proc-none, wakeup-Woken}
use project_opertating_syste.Proc.Wake.{in_wait, Calm-in_wait}
use project_opertating_syste.Proc.Fork.{fork-Forked, Forked, no_room, undone, child_at}
use project_opertating_syste.Proc.Death.{exit-Ended, Ended, of_init, gone, Exited}
use project_opertating_syste.Proc.Reach.{
  Step, forks, exits, waits, kills, wakes, sleeps, wakes_up, yields, scheduled, Reach, start, next,
  Reach-table_Inv,
}

-- Whoever has a zombie child is out of `wait`.
abbrev pub Awaited : Table → Type 0
Awaited t =
    (i q : ℕ)
    → i < nproc
    → is_zombie (t.procs i).state ≡ true
    → (t.procs i).parent ≡ some q
    → in_wait q t ≡ false

-- An entry may become another with no new zombie and no new sleeper in `wait`.
abbrev Quiet : ℕ → Proc → Proc → Type 0
Quiet i p r =
    (is_zombie r.state ≡ true → (is_zombie p.state ≡ true) × (r.parent ≡ p.parent))
    × ((is_sleeping p.state && same_chan p.chan (process i)) ≡ false
        → (is_sleeping r.state && same_chan r.chan (process i)) ≡ false)

Quiet-Awaited : (t u : Table) → Awaited t → ((i : ℕ) → Quiet i (t.procs i) (u.procs i)) → Awaited u
Quiet-Awaited t u v h i q lt z e =
    let (z', same) = (h i).0 z in (h q).1 (v i q lt z' (sym same ∙ e))

Quiet-refl : (t u : Table) (i : ℕ) → u.procs i ≡ t.procs i → Quiet i (t.procs i) (u.procs i)
Quiet-refl t u i e = subst (Quiet i (t.procs i)) (sym e) ((λ z. (z, refl)), (λ z. z))

put-Awaited :
    (t : Table) (i : ℕ) (p : Proc) → Awaited t → Quiet i (t.procs i) p → Awaited (put i p t)
put-Awaited t i p v h = Quiet-Awaited t (put i p t) v (λ j. elim (ℕ_discrete j i) [
  | yes e ↦
      subst (λ k. Quiet k (t.procs k) ((put i p t).procs k)) (sym e)
        (subst (Quiet i (t.procs i)) (sym (get-put i p t)) h)
  | no e ↦ Quiet-refl t (put i p t) j (get-put_ne i j p t e)
])

kill_at-Awaited : (t : Table) (found : Option ℕ) → Awaited t → Awaited (kill_at t found).1
unfolding kill_at
kill_at-Awaited t none v = v
kill_at-Awaited t (some i) v =
    put-Awaited t i _ v ((λ z. ground (arith, z)), (λ z. ground (arith, z)))

Forked-Awaited :
    (me : ℕ) (ok : Bool) (t : Table) (r : Option ℕ × Table)
    → Awaited t
    → Forked me ok t r
    → Awaited r.1
Forked-Awaited me ok t (_, u) v (no_room full e) = subst Awaited (sym e) v
Forked-Awaited me ok t (_, u) v (undone i bad h f n r x other) = Quiet-Awaited t u v (λ j.
    elim (ℕ_discrete j i) [
      | yes e ↦
          subst (λ k. Quiet k (t.procs k) (u.procs k)) (sym e)
            ((λ z. ground (arith, x, z)), (λ z. ground (arith, x, z)))
      | no e ↦ Quiet-refl t u j (other j e)
    ])
Forked-Awaited me ok t (_, u) v (child_at i good p h f n r e other) = Quiet-Awaited t u v (λ j.
    elim (ℕ_discrete j i) [
      | yes s ↦
          subst (λ k. Quiet k (t.procs k) (u.procs k)) (sym s)
            (rw e ((λ z. ground (arith, z)), (λ z. ground (arith, z))))
      | no s ↦ Quiet-refl t u j (other j s)
    ])

either : {A : Type 0} (b : Bool) (P : A → Type 0) {x y : A} → P x → P y → P (if b then x else y)
either true P a b = a
either false P a b = b

asleep-Awaited :
    (t : Table) (me : ℕ)
    → Awaited t
    → (t.procs me).state ≡ running
    → ((j : ℕ)
        → j < nproc
        → (is_parent me (t.procs j).parent && is_zombie (t.procs j).state) ≡ false)
    → Awaited (put me (record (t.procs me) { chan = process me; state = sleeping }) t)
asleep-Awaited t me v e h i q lt z p = elim (ℕ_discrete q me) [
  | yes x ↦ absurd (ground (arith, h i lt))
  | no x ↦
      subst (λ r. (is_sleeping r.state && same_chan r.chan (process q)) ≡ false)
        (sym (get-put_ne me q _ t x)) (v i q lt (ground (arith, z)) (ground (arith, z, p)))
]

-- `wait` falls asleep only when its scan met no zombie child.
wait_at-Awaited :
    (me : ℕ) (out_ok : Bool) (t : Table) (found child : Option ℕ)
    → Awaited t
    → (t.procs me).state ≡ running
    → (found ≡ none
        → (j : ℕ) → j < nproc
        → (is_parent me (t.procs j).parent && is_zombie (t.procs j).state) ≡ false)
    → Awaited (wait_at me out_ok t found child).1
unfolding wait_at freeproc
wait_at-Awaited me false t (some i) child v e h = v
wait_at-Awaited me true t (some i) child v e h =
    put-Awaited t i _ v ((λ z. ground (arith, z)), (λ z. ground (arith, z)))
wait_at-Awaited me out_ok t none none v e h = v
wait_at-Awaited me out_ok t none (some c) v e h =
    either (t.procs me).killed (λ (r : Waited × Table). Awaited r.1) v
      (asleep-Awaited t me v e (h refl))

Exited-Awaited : (me status : ℕ) (t u : Table) → Awaited t → Exited me status t u → Awaited u
Exited-Awaited me status t u v x i q lt z p = elim (x.woken i q lt z p) [
  | inr h ↦ h
  | inl (z', p') ↦ elim (ℕ_discrete q me) [
    | yes e ↦ subst (λ k. in_wait k u ≡ false) (sym e) (ground (arith, x.is_gone))
    | no e ↦ Calm-in_wait q t u (x.others q e) (v i q lt z' p')
  ]
]

Ended-Awaited :
    (me status : ℕ) (t : Table) (o : Outcome Table) (u : Table)
    → Awaited t
    → Ended me status t o
    → o ≡ done u
    → Awaited u
Ended-Awaited me status t _ u v (of_init e) d = cc
Ended-Awaited me status t _ u v (gone {u = w} n x) d =
    let same : w ≡ u = cc in subst Awaited same (Exited-Awaited me status t w v x)

wait-Awaited :
    (me : ℕ) (out_ok : Bool) (t : Table)
    → Awaited t
    → (t.procs me).state ≡ running
    → Awaited (wait me out_ok t).1
unfolding wait
wait-Awaited me out_ok t v e =
    wait_at-Awaited me out_ok t
      (find_proc (λ p. is_parent me p.parent && is_zombie p.state) nproc 0 t.procs)
      (find_proc (λ p. is_parent me p.parent) nproc 0 t.procs) v e
      (find_proc-none (λ p. is_parent me p.parent && is_zombie p.state) t.procs)

schedule-Awaited : (i : ℕ) (t u : Table) → Awaited t → schedule i t ≡ some u → Awaited u
unfolding schedule
schedule-Awaited i t u v e = elim (Bool-cases (is_runnable (t.procs i).state)) [
  | inl h ↦
      let same : put i (record (t.procs i) { state = running }) t ≡ u = ground (arith, h) in
      subst Awaited same (put-Awaited t i _ v ((λ z. ground (arith, z)), (λ z. ground (arith, z))))
  | inr h ↦ absurd (ground (arith, h))
]

Step-Awaited : (t u : Table) → Inv t → Awaited t → Step t u → Awaited u
unfolding kill sleep sleep_end yield
Step-Awaited t _ v w (forks me a b c small lt e) =
    Forked-Awaited me _ t _ w (fork-Forked me a b c t small (rw e refl))
Step-Awaited t u v w (exits me s lt e d) =
    Ended-Awaited me s t (exit me s t) u w (exit-Ended me s t v lt e) d
Step-Awaited t _ v w (waits me o lt e) = wait-Awaited me o t w e
Step-Awaited t _ v w (kills pid) = kill_at-Awaited t _ w
Step-Awaited t _ v w (wakes me a) = Quiet-Awaited t (wakeup me (address a) t) w (λ i.
    let c = wakeup-Woken me (address a) t in
    (
      (λ z. (ground (arith, z, (c.calm i).state), c.parent i)),
      Calm-in_wait i t (wakeup me (address a) t) (c.calm i),
    ))
Step-Awaited t _ v w (sleeps me a e) =
    put-Awaited t me _ w ((λ z. ground (arith, z)), (λ z. ground (arith, z)))
Step-Awaited t _ v w (wakes_up me e) =
    put-Awaited t me _ w ((λ z. (z, refl)), (λ z. ground (arith, z)))
Step-Awaited t _ v w (yields me e) =
    put-Awaited t me _ w ((λ z. ground (arith, z)), (λ z. ground (arith, z)))
Step-Awaited t u v w (scheduled i e) = schedule-Awaited i t u w e

-- No lost wakeup: in every table that the steps reach from one with the invariant where it is so,
-- a process of the table that has a zombie child does not sleep in `wait`.
pub Reach-Awaited : (t u : Table) → Inv t → Awaited t → Reach t u → Awaited u
Reach-Awaited t _ v w start = w
Reach-Awaited t x v w (next {u} p s) =
    Step-Awaited u x (Reach-table_Inv t u v p) (Reach-Awaited t u v w p) s
