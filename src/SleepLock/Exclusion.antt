-- ===== src/SleepLock/Exclusion.antt =====
-- Mutual exclusion of kernel/sleeplock.c, and who sleeps.
use project_opertating_syste.Base.{
  ℕ, ◌≡◌, ◌≢◌, refl, sym, ◌∙◌, ap, subst, true, false, arith, ℕ_discrete, Bool-cases, inl, inr,
  update, ◌↔◌,
}
use project_opertating_syste.SleepLock.{
  initsleeplock, acquiresleep, releasesleep, holdingsleep, Phase, outside, asleep, woken, inside,
  Sys, wake, attempt, leave, start,
}

-- A process outside or woken up tries; one that has the lock releases it.
pub data Step : Sys → Sys → Type 0 where
  acquire : (p : ℕ) {s : Sys} → s.phase p ≢ inside → s.phase p ≢ asleep → Step s (attempt p s)
  release : (p : ℕ) {s : Sys} → s.phase p ≡ inside → Step s (leave p s)

pub data Reach : Sys → Type 0 where
  begin : Reach start
  next : {s u : Sys} → Reach s → Step s u → Reach u

pub record Inv (s : Sys) : Type 0 where
  pub owner : (p : ℕ) → s.phase p ≡ inside → (s.lock.locked ≡ true) × (s.lock.pid ≡ p)
  pub held : s.lock.locked ≡ true → s.phase s.lock.pid ≡ inside
  pub sleepers : (p : ℕ) → s.phase p ≡ asleep → s.lock.locked ≡ true

start-Inv : Inv start
unfolding start initsleeplock
start-Inv = record {
  owner = λ p e. absurd (cc e);
  held = λ e. absurd (cc e);
  sleepers = λ p e. absurd (cc e);
}

-- What an attempt does with a lock that is held, and with one that is free.
attempt-held :
    (p : ℕ) (s : Sys)
    → s.lock.locked ≡ true
    → attempt p s ≡ record s { phase = update s.phase p asleep }
unfolding attempt acquiresleep
attempt-held p s e = simp (e, attempt) refl

attempt-free :
    (p : ℕ) (s : Sys)
    → s.lock.locked ≡ false
    → attempt p s
      ≡ record { lock = record { locked = true; pid = p }; phase = update s.phase p inside }
unfolding attempt acquiresleep
attempt-free p s e = simp (e, attempt) refl

held-Inv :
    (p : ℕ) (s : Sys)
    → s.phase p ≢ inside
    → s.lock.locked ≡ true
    → Inv s
    → Inv (record s { phase = update s.phase p asleep })
held-Inv p s n e v = record {
  owner = λ q x. v.owner q (elim (ℕ_discrete q p) [
    | yes y ↦ absurd (ground (arith, x, y))
    | no y ↦ ground (arith, x, y)
  ]);
  held = λ x.
      let old = v.held e in
      let apart : s.lock.pid ≢ p = λ y. n (ap s.phase (sym y) ∙ old) in ground (arith, old, apart);
  sleepers = λ q x. e;
}

free-Inv :
    (p : ℕ) (s : Sys)
    → s.lock.locked ≡ false
    → Inv s
    → Inv (record { lock = record { locked = true; pid = p }; phase = update s.phase p inside })
free-Inv p s e v = record {
  owner = λ q x. (
    refl,
    elim (ℕ_discrete q p) [
      | yes y ↦ sym y
      | no y ↦
          let there : s.phase q ≡ inside = ground (arith, x, y) in
          absurd (ground (arith, e, (v.owner q there).0))
    ],
  );
  held = λ x. ground arith;
  sleepers = λ q x. refl;
}

attempt-Inv : (p : ℕ) (s : Sys) → s.phase p ≢ inside → Inv s → Inv (attempt p s)
attempt-Inv p s n v = elim (Bool-cases s.lock.locked) [
  | inl e ↦ subst Inv (sym (attempt-held p s e)) (held-Inv p s n e v)
  | inr e ↦ subst Inv (sym (attempt-free p s e)) (free-Inv p s e v)
]

wake-inside : (f : Phase) → wake f ≡ inside → f ≡ inside
unfolding wake
wake-inside outside e = e
wake-inside asleep e = absurd (cc e)
wake-inside woken e = absurd (cc e)
wake-inside inside e = e

wake-asleep : (f : Phase) → wake f ≢ asleep
unfolding wake
wake-asleep outside e = cc e
wake-asleep asleep e = cc e
wake-asleep woken e = cc e
wake-asleep inside e = cc e

leave-Inv : (p : ℕ) (s : Sys) → s.phase p ≡ inside → Inv s → Inv (leave p s)
unfolding leave releasesleep
leave-Inv p s h v = record {
  owner = λ q x.
      let y = wake-inside (update s.phase p outside q) x in
      absurd (elim (ℕ_discrete q p) [
        | yes z ↦ ground (arith, y, z)
        | no z ↦
            let there : s.phase q ≡ inside = ground (arith, y, z) in
            z (sym (v.owner q there).1 ∙ (v.owner p h).1)
      ]);
  held = λ x. absurd (ground (arith, x));
  sleepers = λ q x. absurd (wake-asleep (update s.phase p outside q) x);
}

step-Inv : {s u : Sys} → Step s u → Inv s → Inv u
step-Inv (acquire p {s} n m) v = attempt-Inv p s n v
step-Inv (release p {s} h) v = leave-Inv p s h v

Reach-Inv : {s : Sys} → Reach s → Inv s
Reach-Inv begin = start-Inv
Reach-Inv (next r t) = step-Inv t (Reach-Inv r)

-- In every state that the processes reach: two that have returned from `acquiresleep` are the
-- same; `holdingsleep` is true exactly for the process that has; and whoever sleeps in
-- `acquiresleep` sleeps while another process has the lock, whose release will wake it up.
pub sleep_lock-exclusive :
    {s : Sys}
    → Reach s
    → ((p q : ℕ) → s.phase p ≡ inside → s.phase q ≡ inside → p ≡ q)
      × ((p : ℕ) → (holdingsleep p s.lock ≡ true) ↔ (s.phase p ≡ inside))
      × ((p : ℕ) → s.phase p ≡ asleep → s.phase s.lock.pid ≡ inside)
unfolding holdingsleep
sleep_lock-exclusive {s} r =
    let v = Reach-Inv r in
    (
      λ p q x y. sym (v.owner p x).1 ∙ (v.owner q y).1,
      λ p. (
        λ h.
            let locked : s.lock.locked ≡ true = ground (arith, h) in
            let mine : s.lock.pid ≡ p = ground (arith, h) in ap s.phase (sym mine) ∙ v.held locked,
        λ x. let o = v.owner p x in ground (arith, o.0, o.1),
      ),
      λ p x. v.held (v.sleepers p x),
    )
