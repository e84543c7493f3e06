-- ===== src/Proc/Wake.antt =====
-- Which processes `wakeup` and `reparent` of kernel/proc.c take out of `wait`.
use project_opertating_syste.Base.{
  ℕ, zero, suc, ◌<◌, ◌≡◌, ◌≢◌, sym, ◌∙◌, ap, subst, Bool, true, false, ◌&&◌, arith, ℕ_discrete,
  for_up,
}
use project_opertating_syste.Proc.{
  Table, nproc, process, wake_one, wakeup, is_parent, reparent_one, reparent, is_sleeping,
  same_chan,
}
use project_opertating_syste.Proc.Scan.{Calm, wake_one-Woken, reparent-upto, reparent_one-Calm}

-- Process `q` sleeps in `wait`: only there is a process slept on, and by itself.
abbrev pub in_wait : ℕ → Table → Bool
in_wait q t = is_sleeping (t.procs q).state && same_chan (t.procs q).chan (process q)

pub Calm-in_wait :
    (q : ℕ) (t u : Table) → Calm (t.procs q) (u.procs q) → in_wait q t ≡ false → in_wait q u ≡ false
Calm-in_wait q t u c h = ground (arith, c.state, c.chan, h)

wake_one-in_wait : (me q : ℕ) (t : Table) → q ≢ me → in_wait q (wake_one me (process q) q t) ≡ false
unfolding wake_one
wake_one-in_wait me q t n = ground arith

-- `wakeup` on a process leaves it out of `wait`.
pub wakeup-in_wait :
    (me q : ℕ) (t : Table) → q < nproc → q ≢ me → in_wait q (wakeup me (process q) t) ≡ false
unfolding wakeup
wakeup-in_wait me q t h n = go nproc h
  where
    rounds : ℕ → Table
    rounds m = for_up m (wake_one me (process q)) t

    go : (m : ℕ) → q < m → in_wait q (rounds m) ≡ false
    go zero l = elim l [ ]
    go (suc m) l =
        let before = rounds m in
        elim (ℕ_discrete q m) [
          | yes e ↦
              subst (λ x. in_wait q (wake_one me (process q) x before) ≡ false) e
                (wake_one-in_wait me q before n)
          | no e ↦
              Calm-in_wait q before (rounds (suc m))
                ((wake_one-Woken me (process q) m before).calm q) (go m (omega arith))
        ]

module _ (me : ℕ) (t : Table) (here : t.initproc < nproc) (ne : t.initproc ≢ me) where
  -- One round of `reparent` on a child of `me`.
  given-in_wait :
      (m : ℕ) (u : Table)
      → u.initproc ≡ t.initproc
      → is_parent me (u.procs m).parent ≡ true
      → in_wait t.initproc (reparent_one me m u) ≡ false
  unfolding reparent_one
  given-in_wait m u i e =
      rw (e, sym i) (wakeup-in_wait me u.initproc _ (omega (arith, i)) (λ z. ne (sym i ∙ z)))

  kept-in_wait :
      (m : ℕ) (u : Table)
      → in_wait t.initproc u ≡ false
      → in_wait t.initproc (reparent_one me m u) ≡ false
  kept-in_wait m u h =
      Calm-in_wait t.initproc u (reparent_one me m u) (reparent_one-Calm me m u t.initproc) h

  -- `reparent` leaves init out of `wait` when it gives init a child.
  pub reparent-in_wait :
      (i : ℕ)
      → i < nproc
      → is_parent me (t.procs i).parent ≡ true
      → in_wait t.initproc (reparent me t) ≡ false
  unfolding reparent
  reparent-in_wait i h e = go nproc h
    where
      go : (m : ℕ) → i < m → in_wait t.initproc (for_up m (reparent_one me) t) ≡ false
      go zero l = elim l [ ]
      go (suc m) l =
          let r = reparent-upto me m t in
          elim (ℕ_discrete i m) [
            | yes x ↦ given-in_wait m _ r.initproc (
                ap (is_parent me) (r.old m (omega arith))
                ∙ subst (λ x. is_parent me (t.procs x).parent ≡ true) x e)
            | no x ↦ kept-in_wait m _ (go m (omega arith))
          ]
