-- ===== src/Spinlock/Exclusion.antt =====
-- Who has the lock of kernel/spinlock.c, over the interleavings of the CPUs' steps.
use project_opertating_syste.Base.{
  ℕ, ◌+◌, ◌-◌, ◌≡◌, ◌≢◌, ◌<◌, refl, subst, ◌==◌, Bool, true, false, ◌&&◌, none, if◌then◌else◌,
  update, Outcome, done, panic, arith,
}
use project_opertating_syste.Spinlock.{
  Cpu, is_cpu, holding, push_off, pop_off, Phase, outside, spinning, swapped, inside, releasing,
  unlocked, Machine, acquire_start, acquire_swap, acquire_end, release_start, release_unlock,
  release_end,
}
use project_opertating_syste.Spinlock.Steps.{
  owns, is_inside, pushes, Step, starts, swaps, enters, leaves, unlocks, pops, pushes_other,
  pops_other, switches, Reach, start, next,
}

pub record Inv (m : Machine) : Type 0 where
  pub owned : (i : ℕ) → owns (m.phase i) ≡ true → m.lock.locked ≡ true
  pub one : (i j : ℕ) → owns (m.phase i) ≡ true → owns (m.phase j) ≡ true → i ≡ j
  pub recorded : (i : ℕ) → is_cpu i m.lock.cpu ≡ is_inside (m.phase i)
  pub depth : (i : ℕ) → (m.cpus i).noff ≡ m.others i + pushes (m.phase i)
  pub off : (i : ℕ) → ((m.cpus i).noff == 0) ≡ false → (m.cpus i).intr ≡ false

is_inside-owns : (p : Phase) → is_inside p ≡ true → owns p ≡ true
is_inside-owns p h = ground arith

-- A CPU after `pop_off`.
abbrev popped : Cpu → Cpu
popped c = record c {
  noff = c.noff - 1;
  intr = if c.noff - 1 == 0 && c.intena then true else c.intr;
}

pop_off-done : (c : Cpu) → c.intr ≡ false → 0 < c.noff → pop_off c ≡ done (popped c)
unfolding pop_off
pop_off-done c e h = rw e (ground arith)

module _ (m : Machine) (v : Inv m) (i : ℕ) where
  starts-Inv : m.phase i ≡ outside → (u : Machine) × (acquire_start i m ≡ done u) × Inv u
  unfolding acquire_start holding push_off
  starts-Inv e = (
    record m { cpus = update m.cpus i (push_off (m.cpus i)); phase = update m.phase i spinning },
    ground (arith, v.recorded i, e),
    record {
      owned = λ j h. ground (arith, v.owned j);
      one = λ j k h h'. ground (arith, v.one j k);
      recorded = λ j. ground (arith, v.recorded j, v.recorded i, e);
      depth = λ j. ground (arith, v.depth j, v.depth i, e);
      off = λ j h. ground (arith, v.off j);
    },
  )

  swaps-Inv : m.phase i ≡ spinning → Inv (acquire_swap i m)
  unfolding acquire_swap
  swaps-Inv e = record {
    owned = λ j h. refl;
    one = λ j k h h'. ground (arith, v.one j k, v.owned j, v.owned k);
    recorded = λ j. ground (arith, v.recorded j, v.recorded i, e);
    depth = λ j. ground (arith, v.depth j, v.depth i, e);
    off = λ j h. v.off j h;
  }

  enters-Inv : m.phase i ≡ swapped → Inv (acquire_end i m)
  unfolding acquire_end
  enters-Inv e = record {
    owned = λ j h. v.owned i (ground (arith, e));
    one = λ j k h h'. ground (arith, v.one j k, e);
    recorded = λ j. ground (arith, v.one j i, is_inside-owns (m.phase j), e);
    depth = λ j. ground (arith, v.depth j, v.depth i, e);
    off = λ j h. v.off j h;
  }

  leaves-Inv : m.phase i ≡ inside → (u : Machine) × (release_start i m ≡ done u) × Inv u
  unfolding release_start holding
  leaves-Inv e = (
    record m { lock = record m.lock { cpu = none }; phase = update m.phase i releasing },
    ground (arith, v.recorded i, v.owned i, e),
    record {
      owned = λ j h. v.owned i (ground (arith, e));
      one = λ j k h h'. ground (arith, v.one j k, e);
      recorded = λ j. ground (arith, v.one j i, is_inside-owns (m.phase j), e);
      depth = λ j. ground (arith, v.depth j, v.depth i, e);
      off = λ j h. v.off j h;
    },
  )

  unlocks-Inv : m.phase i ≡ releasing → Inv (release_unlock i m)
  unfolding release_unlock
  unlocks-Inv e = record {
    owned = λ j h. absurd (ground (arith, v.one j i, e));
    one = λ j k h h'. ground (arith, v.one j k);
    recorded = λ j. ground (arith, v.recorded j, v.recorded i, e);
    depth = λ j. ground (arith, v.depth j, v.depth i, e);
    off = λ j h. v.off j h;
  }

  pops-Inv : m.phase i ≡ unlocked → (u : Machine) × (release_end i m ≡ done u) × Inv u
  unfolding release_end
  pops-Inv e =
      let deep : 0 < (m.cpus i).noff = ground (arith, v.depth i, e) in
      let calm : (m.cpus i).intr ≡ false = v.off i (ground arith) in
      (
        record m { cpus = update m.cpus i (popped (m.cpus i)); phase = update m.phase i outside },
        rw (pop_off-done (m.cpus i) calm deep) refl,
        record {
          owned = λ j h. ground (arith, v.owned j);
          one = λ j k h h'. ground (arith, v.one j k);
          recorded = λ j. ground (arith, v.recorded j, v.recorded i, e);
          depth = λ j. ground (arith, v.depth j, v.depth i, e);
          off = λ j h. ground (arith, v.off j, calm);
        },
      )

  pushes_other-Inv : Inv (record m {
    cpus = update m.cpus i (push_off (m.cpus i));
    others = update m.others i (m.others i + 1);
  })
  unfolding push_off
  pushes_other-Inv = record {
    owned = v.owned;
    one = v.one;
    recorded = v.recorded;
    depth = λ j. ground (arith, v.depth j, v.depth i);
    off = λ j h. ground (arith, v.off j);
  }

  pops_other-Inv :
      0 < m.others i
      → (pop_off (m.cpus i) ≡ done (popped (m.cpus i)))
        × Inv (record m {
          cpus = update m.cpus i (popped (m.cpus i));
          others = update m.others i (m.others i - 1);
        })
  pops_other-Inv h =
      let deep : 0 < (m.cpus i).noff = omega (arith, v.depth i) in
      let calm : (m.cpus i).intr ≡ false = v.off i (ground arith) in
      (
        pop_off-done (m.cpus i) calm deep,
        record {
          owned = v.owned;
          one = v.one;
          recorded = v.recorded;
          depth = λ j. ground (arith, v.depth j, v.depth i);
          off = λ j h. ground (arith, v.off j, calm);
        },
      )

  switches-Inv :
      (on : Bool)
      → (m.cpus i).noff ≡ 0
      → Inv (record m { cpus = update m.cpus i (record (m.cpus i) { intr = on }) })
  switches-Inv on z = record {
    owned = v.owned;
    one = v.one;
    recorded = v.recorded;
    depth = λ j. ground (arith, v.depth j, v.depth i);
    off = λ j h. ground (arith, v.off j);
  }

done-Inv :
    {u : Machine} {o : Outcome Machine} → (w : Machine) × (o ≡ done w) × Inv w → o ≡ done u → Inv u
done-Inv {u = u} (w, e, x) d = let same : w ≡ u = cc in subst Inv same x

Step-Inv : (m u : Machine) → Inv m → Step m u → Inv u
Step-Inv m u v (starts i e d) = done-Inv (starts-Inv m v i e) d
Step-Inv m _ v (swaps i e) = swaps-Inv m v i e
Step-Inv m _ v (enters i e) = enters-Inv m v i e
Step-Inv m u v (leaves i e d) = done-Inv (leaves-Inv m v i e) d
Step-Inv m _ v (unlocks i e) = unlocks-Inv m v i e
Step-Inv m u v (pops i e d) = done-Inv (pops-Inv m v i e) d
Step-Inv m _ v (pushes_other i) = pushes_other-Inv m v i
Step-Inv m _ v (pops_other i {c = c} h d) =
    let (e, x) = pops_other-Inv m v i h in
    let same : popped (m.cpus i) ≡ c = ground (arith, e, d) in
    subst
      (λ y.
        Inv (record m { cpus = update m.cpus i y; others = update m.others i (m.others i - 1) }))
      same x
Step-Inv m _ v (switches i on z) = switches-Inv m v i on z

Reach-Inv_of : (m u : Machine) → Inv m → Reach m u → Inv u
Reach-Inv_of m _ v start = v
Reach-Inv_of m w v (next {u = u} p s) = Step-Inv u w (Reach-Inv_of m u v p) s

-- Mutual exclusion: in every machine that the steps reach from one with the invariant, at most one
-- CPU has the lock, `holding` is true of a CPU exactly where it is between `acquire` and
-- `release`, and interrupts are off on each CPU that is in one of them or has the lock.
pub Reach-exclusive :
    (m u : Machine)
    → Inv m
    → Reach m u
    → ((i j : ℕ) → owns (u.phase i) ≡ true → owns (u.phase j) ≡ true → i ≡ j)
      × ((i : ℕ) → holding u.lock i ≡ is_inside (u.phase i))
      × ((i : ℕ) → u.phase i ≢ outside → (u.cpus i).intr ≡ false)
unfolding holding
Reach-exclusive m u v p =
    let x = Reach-Inv_of m u v p in
    (
      x.one,
      λ i. ground (arith, x.recorded i, x.owned i, is_inside-owns (u.phase i)),
      λ i n. x.off i (ground (arith, x.depth i)),
    )

-- None of the panics of `acquire`, `release` and `pop_off` happens in a machine that the steps reach from one
-- with the invariant: a CPU without the lock starts `acquire`, one that has it starts `release`,
-- and the `pop_off` at the end of `release` returns.
pub Reach-never_panics :
    (m u : Machine)
    → Inv m
    → Reach m u
    → (i : ℕ)
    → (u.phase i ≡ outside → acquire_start i u ≢ panic)
      × (u.phase i ≡ inside → release_start i u ≢ panic)
      × (u.phase i ≡ unlocked → release_end i u ≢ panic)
Reach-never_panics m u v p i =
    let x = Reach-Inv_of m u v p in
    (
      λ e z. let (w, d, _) = starts-Inv u x i e in cc,
      λ e z. let (w, d, _) = leaves-Inv u x i e in cc,
      λ e z. let (w, d, _) = pops-Inv u x i e in cc,
    )
