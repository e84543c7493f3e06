-- ===== src/Pipe/Read.antt =====
-- `piperead` of kernel/pipe.c: what a segment takes from the pipe.
use project_opertating_syste.Base.{
  ℕ, zero, suc, ◌+◌, ◌≡◌, ◌≢◌, refl, ◌∙◌, ap, ◌⊎◌, inl, inr, true, false, Bool, none, some, List,
  [], ◌∷◌, ◌++◌, append_assoc, append-nil, arith, Bool-cases, length, ◌%◌, if◌then◌else◌,
}
use project_opertating_syste.Pipe.{
  Pipe, Segment, pipe_size, slept, returned, at_nwrite, drop_first, is_empty, read_loop,
}
use project_opertating_syste.Pipe.Fifo.{IsValid, contents, drop_first-IsValid, contents-drop_first}

module _ (store : ℕ → Bool) where
  -- Why the loop stops at byte `i` after copying out `got`, having taken `lost` on top of it.
  pub data LoopEnd (m i : ℕ) (got lost : List ℕ) (pi : Pipe) : Type 0 where
    complete : lost ≡ [] → length got ≡ m → LoopEnd m i got lost pi
    emptied : lost ≡ [] → is_empty pi ≡ true → LoopEnd m i got lost pi
    fault : (c : ℕ) → lost ≡ c ∷ [] → store i ≡ false → LoopEnd m i got lost pi

  -- The loop took `got` and `lost` from the front of the pipe, and copied out `got`.
  pub record Looped (m i : ℕ) (out : List ℕ) (pi : Pipe) (r : ℕ × List ℕ × Pipe) : Type 0 where
    pub got : List ℕ
    pub lost : List ℕ
    pub valid : IsValid r.2
    pub taken : contents pi ≡ got ++ (lost ++ contents r.2)
    pub copied : r.1 ≡ out ++ got
    pub index : r.0 ≡ i + length got
    pub nwrite : r.2.nwrite ≡ pi.nwrite
    pub readopen : r.2.readopen ≡ pi.readopen
    pub writeopen : r.2.writeopen ≡ pi.writeopen
    pub ends : LoopEnd m r.0 got lost r.2

  LoopEnd-cons :
      {m i : ℕ} {got lost : List ℕ} {pi : Pipe} (c : ℕ)
      → LoopEnd m i got lost pi
      → LoopEnd (suc m) i (c ∷ got) lost pi
  LoopEnd-cons c (complete l e) = complete l (ap suc e)
  LoopEnd-cons c (emptied l e) = emptied l e
  LoopEnd-cons c (fault d l e) = fault d l e

  pub read_loop-Looped :
      (m i : ℕ) (out : List ℕ) (pi : Pipe)
      → IsValid pi
      → Looped m i out pi (read_loop store m i out pi)
  unfolding read_loop
  read_loop-Looped zero i out pi v = record {
    got = [];
    lost = [];
    valid = v;
    taken = refl;
    copied = rw append-nil;
    index = omega arith;
    nwrite = refl;
    readopen = refl;
    writeopen = refl;
    ends = complete refl refl;
  }
  read_loop-Looped (suc m) i out pi v = elim (Bool-cases (is_empty pi)) [
    | inl none_left ↦ rw none_left (record {
      got = [];
      lost = [];
      valid = v;
      taken = refl;
      copied = rw append-nil;
      index = omega arith;
      nwrite = refl;
      readopen = refl;
      writeopen = refl;
      ends = emptied refl none_left;
    })
    | inr some_left ↦ elim (Bool-cases (store i)) [
      | inr bad ↦
          rw (some_left, bad)
            (record {
              got = [];
              lost = pi.buf (pi.nread % pipe_size) ∷ [];
              valid = drop_first-IsValid pi v some_left;
              taken = contents-drop_first pi v some_left;
              copied = rw append-nil;
              index = omega arith;
              nwrite = unfold drop_first in refl;
              readopen = unfold drop_first in refl;
              writeopen = unfold drop_first in refl;
              ends = fault _ refl bad;
            })
      | inl good ↦
          rw (some_left, good)
            (let ch = pi.buf (pi.nread % pipe_size) in
              let w =
                read_loop-Looped m (i + 1) (out ++ (ch ∷ [])) (drop_first pi)
                  (drop_first-IsValid pi v some_left) in
              record {
                got = ch ∷ w.got;
                lost = w.lost;
                valid = w.valid;
                taken = contents-drop_first pi v some_left ∙ ap (λ l. ch ∷ l) w.taken;
                copied = w.copied ∙ append_assoc out (ch ∷ []) w.got;
                index = omega (arith, w.index);
                nwrite = w.nwrite ∙ unfold drop_first in refl;
                readopen = w.readopen ∙ unfold drop_first in refl;
                writeopen = w.writeopen ∙ unfold drop_first in refl;
                ends = LoopEnd-cons ch w.ends;
              })
    ]
  ]

  -- How a segment of `piperead` of `n` bytes goes.
  pub data Served (was_killed : Bool) (n : ℕ) (pi : Pipe) (r : Segment) : Type 0 where
    waits :
        contents pi ≡ []
        → pi.writeopen ≡ true
        → r.pipe ≡ pi
        → r.out ≡ []
        → r.stop ≡ (if was_killed then returned none else slept 0)
        → Served was_killed n pi r
    serves :
        {i : ℕ}
        → (contents pi ≢ []) ⊎ (pi.writeopen ≡ false)
        → Looped n 0 [] pi (i, r.out, r.pipe)
        → r.stop ≡ returned (some i)
        → r.woken ≡ at_nwrite ∷ []
        → Served was_killed n pi r
