-- ===== src/Proc/Scan.antt =====
-- What the loops over the process table in kernel/proc.c find and change.
use project_opertating_syste.Base.{
  ℕ, zero, suc, ◌+◌, ◌≤◌, ◌<◌, ◌≡◌, refl, ◌∙◌, subst, ◌⊎◌, inl, inr, Bool, true, false, Option,
  none, some, arith, dec_lt, Bool-cases, if◌then◌else◌, update, for_up,
}
use project_opertating_syste.Proc.{
  Proc, Table, sleeping, runnable, Chan, nproc, process, find_proc, wake_one, wakeup, is_parent,
  reparent_one, reparent,
}

-- The outcome of a search from index `i` among `k` processes.
pub data Found (test : Proc → Bool) (i k : ℕ) (procs : ℕ → Proc) : Option ℕ → Type 0 where
  missing : ((j : ℕ) → i ≤ j → j < i + k → test (procs j) ≡ false) → Found test i k procs none
  hit :
      {j : ℕ}
      → i ≤ j
      → j < i + k
      → test (procs j) ≡ true
      → ((l : ℕ) → i ≤ l → l < j → test (procs l) ≡ false)
      → Found test i k procs (some j)

module _ (test : Proc → Bool) (procs : ℕ → Proc) where
  Found-next :
      (i k : ℕ) (o : Option ℕ)
      → test (procs i) ≡ false
      → Found test (i + 1) k procs o
      → Found test i (suc k) procs o
  Found-next i k none e (missing h) = missing (λ j p q. at j p q (dec_lt i j))
    where
      at : (j : ℕ) → i ≤ j → j < i + suc k → Dec (i < j) → test (procs j) ≡ false
      at j p q (yes l) = h j (omega arith) (omega arith)
      at j p q (no l) = let same : i ≡ j = omega arith in subst (λ x. test (procs x) ≡ false) same e
  Found-next i k (some j) e (hit p q t h) =
      hit (omega arith) (omega arith) t (λ l a b. at l a b (dec_lt i l))
    where
      at : (l : ℕ) → i ≤ l → l < j → Dec (i < l) → test (procs l) ≡ false
      at l a b (yes m) = h l (omega arith) b
      at l a b (no m) = let same : i ≡ l = omega arith in subst (λ x. test (procs x) ≡ false) same e

  pub find_proc-Found : (i k : ℕ) → Found test i k procs (find_proc test k i procs)
  unfolding find_proc
  find_proc-Found i zero = missing (λ j p q. absurd (omega arith))
  find_proc-Found i (suc k) = elim (Bool-cases (test (procs i))) [
    | inl e ↦ rw (e, find_proc) (hit (omega arith) (omega arith) e (λ l a b. absurd (omega arith)))
    | inr e ↦
        rw (e, find_proc)
          (Found-next i k (find_proc test k (i + 1) procs) e (find_proc-Found (i + 1) k))
  ]

-- A process as `wakeup` leaves it.
pub record Calm (p q : Proc) : Type 0 where
  pub chan : q.chan ≡ p.chan
  pub killed : q.killed ≡ p.killed
  pub pid : q.pid ≡ p.pid
  pub state : (q.state ≡ p.state) ⊎ ((p.state ≡ sleeping) × (q.state ≡ runnable))

-- A table as `wakeup` leaves it: some sleepers have become runnable.
pub record Woken (t u : Table) : Type 0 where
  pub nextpid : u.nextpid ≡ t.nextpid
  pub initproc : u.initproc ≡ t.initproc
  pub calm : (i : ℕ) → Calm (t.procs i) (u.procs i)
  pub parent : (i : ℕ) → (u.procs i).parent ≡ (t.procs i).parent

pub wake_one-Woken : (me : ℕ) (ch : Chan) (i : ℕ) (t : Table) → Woken t (wake_one me ch i t)
unfolding wake_one
wake_one-Woken me ch i t = record {
  nextpid = ground arith;
  initproc = ground arith;
  calm = λ j. record {
    chan = ground arith;
    killed = ground arith;
    pid = ground arith;
    state = ground arith;
  };
  parent = λ j. ground arith;
}

pub Woken-trans : (t u v : Table) → Woken t u → Woken u v → Woken t v
Woken-trans t u v a b = record {
  nextpid = b.nextpid ∙ a.nextpid;
  initproc = b.initproc ∙ a.initproc;
  calm = λ i.
      let x = a.calm i in
      let y = b.calm i in
      record {
        chan = y.chan ∙ x.chan;
        killed = y.killed ∙ x.killed;
        pid = y.pid ∙ x.pid;
        state = ground (arith, x.state, y.state);
      };
  parent = λ i. b.parent i ∙ a.parent i;
}

pub Woken-refl : (t : Table) → Woken t t
Woken-refl t = record {
  nextpid = refl;
  initproc = refl;
  calm = λ i. record { chan = refl; killed = refl; pid = refl; state = inl refl };
  parent = λ i. refl;
}

pub wakeup-Woken : (me : ℕ) (ch : Chan) (t : Table) → Woken t (wakeup me ch t)
unfolding wakeup
wakeup-Woken me ch t = go nproc
  where
    go : (m : ℕ) → Woken t (for_up m (wake_one me ch) t)
    go zero = Woken-refl t
    go (suc m) = Woken-trans t _ _ (go m) (wake_one-Woken me ch m _)

-- A table as `reparent` leaves it, after the first `m` processes.
pub record Reparented (me m : ℕ) (t u : Table) : Type 0 where
  pub nextpid : u.nextpid ≡ t.nextpid
  pub initproc : u.initproc ≡ t.initproc
  pub calm : (i : ℕ) → Calm (t.procs i) (u.procs i)
  pub old : (i : ℕ) → m ≤ i → (u.procs i).parent ≡ (t.procs i).parent
  pub new :
      (i : ℕ)
      → i < m
      → (u.procs i).parent
        ≡ (if is_parent me (t.procs i).parent then some t.initproc else (t.procs i).parent)

pub Calm-trans : (p q r : Proc) → Calm p q → Calm q r → Calm p r
Calm-trans p q r x y = record {
  chan = y.chan ∙ x.chan;
  killed = y.killed ∙ x.killed;
  pid = y.pid ∙ x.pid;
  state = ground (arith, x.state, y.state);
}

module _ (me m : ℕ) (u : Table) where
  -- The child `m` is given to init.
  abbrev given : Table
  given = record u { procs = update u.procs m (record (u.procs m) { parent = some u.initproc }) }

  given-Calm : (i : ℕ) → Calm (u.procs i) (given.procs i)
  given-Calm i = record {
    chan = ground arith;
    killed = ground arith;
    pid = ground arith;
    state = ground arith;
  }

  pub reparent_one-Calm : (i : ℕ) → Calm (u.procs i) ((reparent_one me m u).procs i)
  unfolding reparent_one
  reparent_one-Calm i = elim (Bool-cases (is_parent me (u.procs m).parent)) [
    | inr e ↦ rw e (record { chan = refl; killed = refl; pid = refl; state = inl refl })
    | inl e ↦ rw e (
        Calm-trans (u.procs i) (given.procs i) _ (given-Calm i)
          ((wakeup-Woken me (process u.initproc) given).calm i))
  ]

  reparent_one-Reparented :
      (t : Table) → Reparented me m t u → Reparented me (suc m) t (reparent_one me m u)
  unfolding reparent_one
  reparent_one-Reparented t r = elim (Bool-cases (is_parent me (u.procs m).parent)) [
    | inr e ↦ rw e (record {
      nextpid = r.nextpid;
      initproc = r.initproc;
      calm = r.calm;
      old = λ i h. r.old i (omega arith);
      new = λ i h. ground (arith, r.new i, r.old m);
    })
    | inl e ↦
        let w = wakeup-Woken me (process u.initproc) given in
        rw e (record {
          nextpid = w.nextpid ∙ r.nextpid;
          initproc = w.initproc ∙ r.initproc;
          calm = λ i.
              Calm-trans (t.procs i) (u.procs i) _ (r.calm i)
                (Calm-trans (u.procs i) (given.procs i) _ (given-Calm i) (w.calm i));
          old = λ i h. w.parent i ∙ ground (arith, r.old i);
          new = λ i h. w.parent i ∙ ground (arith, r.new i, r.old m, r.initproc);
        })
  ]

pub reparent-upto : (me m : ℕ) (t : Table) → Reparented me m t (for_up m (reparent_one me) t)
reparent-upto me zero t = record {
  nextpid = refl;
  initproc = refl;
  calm = λ i. record { chan = refl; killed = refl; pid = refl; state = inl refl };
  old = λ i h. refl;
  new = λ i h. elim h [ ];
}
reparent-upto me (suc m) t = reparent_one-Reparented me m _ t (reparent-upto me m t)

pub reparent-Reparented : (me : ℕ) (t : Table) → Reparented me nproc t (reparent me t)
unfolding reparent
reparent-Reparented me t = reparent-upto me nproc t

pub find_proc-some :
    (test : Proc → Bool) (procs : ℕ → Proc) (j : ℕ)
    → find_proc test nproc 0 procs ≡ some j
    → (j < nproc) × (test (procs j) ≡ true)
find_proc-some test procs j e =
    inv (subst (Found test 0 nproc procs) e (find_proc-Found test procs 0 nproc))
  where
    inv : Found test 0 nproc procs (some j) → (j < nproc) × (test (procs j) ≡ true)
    inv (hit p q t h) = (omega arith, t)

pub find_proc-none :
    (test : Proc → Bool) (procs : ℕ → Proc)
    → find_proc test nproc 0 procs ≡ none
    → (j : ℕ) → j < nproc
    → test (procs j) ≡ false
find_proc-none test procs e =
    inv (subst (Found test 0 nproc procs) e (find_proc-Found test procs 0 nproc))
  where
    inv : Found test 0 nproc procs none → (j : ℕ) → j < nproc → test (procs j) ≡ false
    inv (missing h) j l = h j (omega arith) (omega arith)
