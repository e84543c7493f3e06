-- ===== src/Log/Ops/Space/Reserve.antt =====
-- The space that `begin_op` of kernel/log.c reserves, and what a commit needs to find.
use project_opertating_syste.Base.{
  ℕ, suc, ◌+◌, ◌-◌, ltb, ◌==◌, Bool, Bool-cases, ◌*◌, ◌≤◌, ◌<◌, ◌≡◌, refl, sym, ap, subst, true,
  false, some, List, [], ◌∷◌, ◌++◌, ◌∙◌, All, done, length, arith, inl, inr, length-append,
}
use project_opertating_syste.Buffers.{Block, Buffers, modify}
use project_opertating_syste.Log.{Log, commit}
use project_opertating_syste.Log.Crash.Phases.{Home}
use project_opertating_syste.Log.Crash.Atomic.{IsReady, commit_complete}
use project_opertating_syste.Log.Ops.{
  log_size, max_op_blocks, begin_op, log_write, end_op_start, end_op_commit,
}
use project_opertating_syste.Log.Ops.Write.{Recorded, log_write-Recorded}
use project_opertating_syste.Log.Ops.Space.Defs.{
  System, Step, begin, store, write, finish, commits, IsStart,
}

abbrev pub sum : List ℕ → ℕ
sum [] = 0
sum (x ∷ xs) = x + sum xs

pub sum-append : (xs ys : List ℕ) → sum (xs ++ ys) ≡ sum xs + sum ys
sum-append [] ys = omega arith
sum-append (x ∷ xs) ys = omega (arith, sum-append xs ys)

abbrev pub Small : ℕ → Type 0
Small k = k ≤ max_op_blocks

sum-le : (xs : List ℕ) → All Small xs → sum xs ≤ length xs * max_op_blocks
sum-le [] a = omega arith
sum-le (x ∷ xs) a = omega (arith, a.0, sum-le xs a.1)

-- Taking one entry down, or away, keeps all of them small.
Small-lower :
    (pre post : List ℕ) (k : ℕ) → All Small (pre ++ (suc k ∷ post)) → All Small (pre ++ (k ∷ post))
Small-lower [] post k a = (omega (arith, a.0), a.1)
Small-lower (x ∷ pre) post k a = (a.0, Small-lower pre post k a.1)

Small-remove : (pre post : List ℕ) (k : ℕ) → All Small (pre ++ (k ∷ post)) → All Small (pre ++ post)
Small-remove [] post k a = a.1
Small-remove (x ∷ pre) post k a = (a.0, Small-remove pre post k a.1)

length_zero : (xs : List ℕ) → length xs ≡ 0 → xs ≡ []
length_zero [] h = refl
length_zero (x ∷ xs) h = absurd (omega arith)

pub record Inv (s : System) : Type 0 where
  pub size : log_size < s.lg.size
  -- No call runs while a commit is due.
  pub alone : s.lg.committing ≡ true → s.ops ≡ []
  pub count : s.lg.outstanding ≡ length s.ops
  pub few : s.lg.outstanding ≤ 3
  -- What the log holds and what the running calls may add to it fit into the log.
  pub space : s.lg.lh.n + sum s.ops ≤ log_size
  pub each : All Small s.ops
  pub clean : s.buf.disk s.lg.start 0 ≡ 0
  pub homes : (i : ℕ) → i < s.lg.lh.n → Home s.lg.start s.lg.size (s.lg.lh.block i)
  pub distinct :
      (i j : ℕ) → i < s.lg.lh.n → j < s.lg.lh.n → s.lg.lh.block i ≡ s.lg.lh.block j → i ≡ j
  pub pinned : (i : ℕ) → i < s.lg.lh.n → 0 < s.buf.ref (s.lg.lh.block i)

-- `commit` changes only the header of the log in memory.
commit_same :
    (lg : Log) (s : Buffers)
    → ((commit lg s).0.start ≡ lg.start)
      × ((commit lg s).0.size ≡ lg.size)
      × ((commit lg s).0.outstanding ≡ lg.outstanding)
unfolding commit
commit_same lg s = elim (Bool-cases (ltb 0 lg.lh.n)) [
  | inl e ↦ rw e (refl, refl, refl)
  | inr e ↦ rw e (refl, refl, refl)
]

module _ (s : System) (v : Inv s) where
  open v use {size, alone, count, few, space, each, clean, homes, distinct, pinned}

  begin_op-some :
      {lg : Log}
      → begin_op s.lg ≡ some lg
      → (record s.lg { outstanding = s.lg.outstanding + 1 } ≡ lg)
        × (s.lg.lh.n + (s.lg.outstanding + 1) * max_op_blocks ≤ log_size)
        × (s.lg.committing ≡ false)
  unfolding begin_op
  begin_op-some e = ground arith

  begin-Inv :
      {lg : Log}
      → begin_op s.lg ≡ some lg
      → Inv (record { lg = lg; buf = s.buf; ops = max_op_blocks ∷ s.ops })
  begin-Inv e =
      let (same, room, idle) = begin_op-some e in
      subst (λ g. Inv (record { lg = g; buf = s.buf; ops = max_op_blocks ∷ s.ops })) same
        (record {
          size = size;
          alone = λ c. absurd (ground (arith, c, idle));
          count = omega arith;
          few = omega arith;
          space = omega (arith, sum-le s.ops each);
          each = (omega arith, each);
          clean = clean;
          homes = homes;
          distinct = distinct;
          pinned = pinned;
        })

  module _ (pre post : List ℕ) (left b : ℕ) (r : Log × Buffers)
      (o : s.ops ≡ pre ++ (suc left ∷ post)) (h : Home s.lg.start s.lg.size b)
      (e : log_write b s.lg s.buf ≡ done r) where
    abbrev rec : Recorded b s.lg s.buf r
    rec = log_write-Recorded b s.lg s.buf e

    ops_sum : sum s.ops ≡ sum (pre ++ (left ∷ post)) + 1
    ops_sum = rw o (omega (arith, sum-append pre (suc left ∷ post), sum-append pre (left ∷ post)))

    ops_length : length s.ops ≡ length (pre ++ (left ∷ post))
    ops_length =
        rw o (omega (arith, length-append pre (suc left ∷ post), length-append pre (left ∷ post)))

    write_homes : (i : ℕ) → i < r.0.lh.n → Home r.0.start r.0.size (r.0.lh.block i)
    write_homes i q = elim rec.case [
      | inl (n, same, _, _) ↦ ground (arith, rec.start, rec.size, same i, homes i)
      | inr (n, grown, _, _) ↦
          ground (arith, rec.start, rec.size, ap (λ (f : ℕ → ℕ). f i) grown, homes i)
    ]

    write_distinct :
        (i j : ℕ) → i < r.0.lh.n → j < r.0.lh.n → r.0.lh.block i ≡ r.0.lh.block j → i ≡ j
    write_distinct i j p q k = elim rec.case [
      | inl (n, same, _, _) ↦ ground (arith, same i, same j, distinct i j)
      | inr (n, grown, _, new) ↦ ground (
        arith,
        ap (λ (f : ℕ → ℕ). f i) grown,
        ap (λ (f : ℕ → ℕ). f j) grown,
        distinct i j,
        new i,
        new j,
      )
    ]

    write_pinned : (i : ℕ) → i < r.0.lh.n → 0 < r.1.ref (r.0.lh.block i)
    write_pinned i q = elim rec.case [
      | inl (n, same, ref, _) ↦ rw (ref, same i) (pinned i (omega arith))
      | inr (n, grown, ref, _) ↦ rw (ref, grown) (ground (arith, pinned i))
    ]

    write-Inv : Inv (record { lg = r.0; buf = r.1; ops = pre ++ (left ∷ post) })
    write-Inv = record {
      size = omega (arith, rec.size);
      alone = λ c.
          let nothing = alone (sym rec.committing ∙ c) in
          absurd (omega (arith, ops_length, ap length nothing, length-append pre (left ∷ post)));
      count = omega (arith, rec.outstanding, ops_length);
      few = omega (arith, rec.outstanding);
      space = elim rec.case [
        | inl (n, _, _, _) ↦ omega (arith, ops_sum)
        | inr (n, _, _, _) ↦ omega (arith, ops_sum)
      ];
      each = Small-lower pre post left (subst (All Small) o each);
      clean = rw (rec.start, rec.disk) clean;
      homes = write_homes;
      distinct = write_distinct;
      pinned = write_pinned;
    }

  module _ (pre post : List ℕ) (left : ℕ) (r : Bool × Log) (o : s.ops ≡ pre ++ (left ∷ post))
      (e : end_op_start s.lg ≡ done r) where
    sum_left : sum s.ops ≡ sum (pre ++ post) + left
    sum_left = rw o (omega (arith, sum-append pre (left ∷ post), sum-append pre post))

    length_left : length s.ops ≡ length (pre ++ post) + 1
    length_left = rw o (omega (arith, length-append pre (left ∷ post), length-append pre post))

    -- One call less, and `log.committing` set if it was the last.
    abbrev fewer : Bool → Log
    fewer c = record s.lg { outstanding = s.lg.outstanding - 1; committing = c }

    end_op_start-eq :
        (c : Bool) → (s.lg.outstanding == 1) ≡ c → (s.lg.committing ≡ false) × (fewer c ≡ r.1)
    unfolding end_op_start
    end_op_start-eq true k = ground (arith, length_left)
    end_op_start-eq false k = ground (arith, length_left)

    fewer-Inv :
        (c : Bool)
        → (s.lg.outstanding == 1) ≡ c
        → Inv (record { lg = fewer c; buf = s.buf; ops = pre ++ post })
    fewer-Inv c k = record {
      size = size;
      alone = λ d. length_zero (pre ++ post) (ground (arith, k, d, length_left));
      count = omega (arith, length_left);
      few = omega arith;
      space = omega (arith, sum_left);
      each = Small-remove pre post left (subst (All Small) o each);
      clean = clean;
      homes = homes;
      distinct = distinct;
      pinned = pinned;
    }

    finish-Inv : Inv (record { lg = r.1; buf = s.buf; ops = pre ++ post })
    finish-Inv =
        let c = s.lg.outstanding == 1 in
        subst (λ g. Inv (record { lg = g; buf = s.buf; ops = pre ++ post }))
          (end_op_start-eq c refl).1 (fewer-Inv c refl)

  -- `commit` finds the log ready, and empties it.
  commits-Inv :
      s.lg.committing ≡ true
      → s.lg.lh.n + s.lg.lh.n + 1 < s.buf.power
      → Inv (record {
        lg = (end_op_commit s.lg s.buf).0;
        buf = (end_op_commit s.lg s.buf).1;
        ops = s.ops;
      })
  unfolding end_op_commit
  commits-Inv c p =
      let ready : IsReady s.lg s.buf = record {
        small = omega arith;
        homes = homes;
        clean = clean;
      } in
      let (n, clear, _) = commit_complete s.lg s.buf ready p in
      let same = commit_same s.lg s.buf in
      record {
        size = omega (arith, same);
        alone = λ d. alone c;
        count = omega (arith, same);
        few = omega (arith, same);
        space = omega (arith, n);
        each = each;
        clean = rw (same.0) clear;
        homes = λ i q. absurd (omega (arith, n));
        distinct = λ i j q. absurd (omega (arith, n));
        pinned = λ i q. absurd (omega (arith, n));
      }

  store-Inv : (b : ℕ) (c : Block) → Inv (record s { buf = modify b c s.buf })
  store-Inv b c = record {
    size = size;
    alone = alone;
    count = count;
    few = few;
    space = space;
    each = each;
    clean = clean;
    homes = homes;
    distinct = distinct;
    pinned = pinned;
  }

-- Every step keeps the invariant.
pub Step-Inv : {s t : System} → Step s t → Inv s → Inv t
Step-Inv {s} (begin e) v = begin-Inv s v e
Step-Inv {s} (store b c h) v = store-Inv s v b c
Step-Inv {s} (write pre post left b {r} o h e) v = write-Inv s v pre post left b r o h e
Step-Inv {s} (finish pre post left {r} o e) v = finish-Inv s v pre post left r o e
Step-Inv {s} (commits c p) v = commits-Inv s v c p

pub IsStart-Inv : {s : System} → log_size < s.lg.size → IsStart s → Inv s
IsStart-Inv {s} h i = record {
  size = h;
  alone = λ c. i.ops;
  count = rw i.ops i.outstanding;
  few = omega (arith, i.outstanding);
  space = rw i.ops (omega (arith, i.n));
  each = rw i.ops tt;
  clean = i.clean;
  homes = λ j q. absurd (omega (arith, i.n));
  distinct = λ j k q. absurd (omega (arith, i.n));
  pinned = λ j q. absurd (omega (arith, i.n));
}
