-- ===== src/Pipe/Write.antt =====
-- `pipewrite` of kernel/pipe.c: what a segment adds to the pipe.
use project_opertating_syste.Base.{
  ℕ, zero, suc, ◌+◌, ◌≡◌, refl, ◌∙◌, sym, subst, ap, ◌⊎◌, inl, inr, true, false, Bool, not, ◌||◌,
  Option, none, some, List, [], ◌∷◌, ◌++◌, append_assoc, append-nil, arith, Bool-cases, ℕ_discrete,
  ◌-◌, ◌<◌, Option-cases,
}
use project_opertating_syste.Pipe.{
  Pipe, Segment, slept, returned, at_nread, put, is_full, pipewrite,
}
use project_opertating_syste.Pipe.Fifo.{IsValid, contents, put-IsValid, contents-put}

-- The bytes that `copyin` gets at the `k` addresses from `i` on.
abbrev pub fetched : (ℕ → Option ℕ) → ℕ → ℕ → List ℕ
fetched fetch i zero = []
fetched fetch i (suc k) = elim (fetch i) [ none ↦ [] | some ch ↦ ch ∷ fetched fetch (i + 1) k ]

module _ (killed : ℕ → Bool) (fetch : ℕ → Option ℕ) where
  -- How a segment ends at byte `j` with `left` bytes still to write.
  pub data Ends (readopen : Bool) (left j : ℕ) (r : Segment) : Type 0 where
    sleeps :
        r.stop ≡ slept j
        → 0 < left
        → (readopen ≡ true) × (killed j ≡ false)
        → is_full r.pipe ≡ true
        → r.woken ≡ at_nread ∷ []
        → Ends readopen left j r
    completes :
        r.stop ≡ returned (some j) → left ≡ 0 → r.woken ≡ at_nread ∷ [] → Ends readopen left j r
    returns :
        r.stop ≡ returned (some j)
        → 0 < left
        → (readopen ≡ true) × (killed j ≡ false)
        → is_full r.pipe ≡ false
        → fetch j ≡ none
        → r.woken ≡ at_nread ∷ []
        → Ends readopen left j r
    fails :
        r.stop ≡ returned none
        → 0 < left
        → (readopen ≡ false) ⊎ (killed j ≡ true)
        → r.woken ≡ []
        → Ends readopen left j r

  -- A segment of `pipewrite` at byte `i` with `m` bytes left, which writes `k` of them.
  pub record Wrote (m i : ℕ) (pi : Pipe) (r : Segment) : Type 0 where
    pub k : ℕ
    pub left : ℕ
    pub split : k + left ≡ m
    pub alive : (l : ℕ) → l < k → (pi.readopen ≡ true) × (killed (i + l) ≡ false)
    pub valid : IsValid r.pipe
    pub added : contents r.pipe ≡ contents pi ++ fetched fetch i k
    pub nread : r.pipe.nread ≡ pi.nread
    pub readopen : r.pipe.readopen ≡ pi.readopen
    pub writeopen : r.pipe.writeopen ≡ pi.writeopen
    pub ends : Ends pi.readopen left (i + k) r

  module _ (m i : ℕ) (pi : Pipe) (v : IsValid pi) where
    Wrote-nothing : (r : Segment) → pi ≡ r.pipe → Ends pi.readopen m i r → Wrote m i pi r
    Wrote-nothing r same h =
        let here : i ≡ i + 0 = omega arith in
        record {
          k = 0;
          left = m;
          split = omega arith;
          alive = λ l h. absurd (omega arith);
          valid = subst IsValid same v;
          added = rw append-nil (ap contents (sym same));
          nread = ap (λ p. p.nread) (sym same);
          readopen = ap (λ p. p.readopen) (sym same);
          writeopen = ap (λ p. p.writeopen) (sym same);
          ends = subst (λ j. Ends pi.readopen m j r) here h;
        }

    Wrote-more :
        (ch : ℕ) (r : Segment)
        → fetch i ≡ some ch
        → (pi.readopen ≡ true) × (killed i ≡ false)
        → is_full pi ≡ false
        → Wrote m (i + 1) (put ch pi) r
        → Wrote (suc m) i pi r
    unfolding put
    Wrote-more ch r f live room w =
        let next : (l : ℕ) → l < suc w.k → (pi.readopen ≡ true) × (killed (i + l) ≡ false) = λ l h.
          elim (ℕ_discrete l 0) [
            | yes e ↦ ground (arith, live)
            | no e ↦
                let there : i + 1 + (l - 1) ≡ i + l = omega arith in
                (live.0, ap killed (sym there) ∙ (w.alive ((l - 1)) (omega arith)).1)
          ] in
        let there : i + 1 + w.k ≡ i + suc w.k = omega arith in
        record {
          k = suc w.k;
          left = w.left;
          split = omega (arith, w.split);
          alive = next;
          valid = w.valid;
          added =
              rw (f, fetched)
                (w.added
                  ∙ ap (λ l. l ++ fetched fetch (i + 1) w.k) (contents-put pi v ch room)
                  ∙ append_assoc (contents pi) (ch ∷ []) (fetched fetch (i + 1) w.k));
          nread = w.nread;
          readopen = w.readopen;
          writeopen = w.writeopen;
          ends = subst (λ j. Ends pi.readopen w.left j r) there w.ends;
        }

  -- From a valid pipe, a segment of `pipewrite` adds to the end of the pipe exactly the next `k`
  -- bytes of the user's buffer, in order, and changes neither `nread` nor the two ends. With no byte
  -- left it returns the index that it reached. With a byte left, it returns -1, without a wakeup,
  -- where the read end is closed or the process is killed, and neither was so at a byte that it
  -- wrote; else it sleeps where the pipe is full, and else `copyin` failed and it returns the index
  -- that it reached. In all cases but -1 it has woken the readers.
  pub pipewrite-Wrote :
      (m i : ℕ) (pi : Pipe) → IsValid pi → Wrote m i pi (pipewrite killed fetch m i pi)
  unfolding pipewrite
  pipewrite-Wrote zero i pi v = Wrote-nothing zero i pi v _ refl (completes refl refl refl)
  pipewrite-Wrote (suc m) i pi v = elim (Bool-cases (not pi.readopen || killed i)) [
    | inl dead ↦
        rw dead (Wrote-nothing (suc m) i pi v _ refl (fails refl (omega arith) (ground arith) refl))
    | inr alive ↦ elim (Bool-cases (is_full pi)) [
      | inl full ↦
          rw (alive, full)
            (Wrote-nothing (suc m) i pi v _ refl
              (sleeps refl (omega arith) (ground arith, ground arith) full refl))
      | inr room ↦ elim (Option-cases (fetch i)) [
        | inl bad ↦
            rw (alive, room, bad)
              (Wrote-nothing (suc m) i pi v _ refl
                (returns refl (omega arith) (ground arith, ground arith) room bad refl))
        | inr (ch, f) ↦
            rw (alive, room, f)
              (Wrote-more m i pi v ch _ f (ground arith, ground arith) room
                (pipewrite-Wrote m (i + 1) (put ch pi) (put-IsValid pi v ch room)))
      ]
    ]
  ]
