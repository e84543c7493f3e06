-- ===== src/Pipe/Tests.antt =====
-- kernel/pipe.c at one pipe: the counters are about to wrap, and 511 bytes are in it.
use project_opertating_syste.Base.{◌+◌, ◌-◌, ◌^◌, ◌≡◌, refl, true, false, some, [], ◌∷◌, arith}
use project_opertating_syste.Pipe.{
  Pipe, slept, returned, put, pipewrite, read_loop, drop_first, piperead,
}
use project_opertating_syste.Pipe.Fifo.{IsValid}
use project_opertating_syste.Pipe.Write.{Wrote, pipewrite-Wrote}

abbrev nearly_full : Pipe
nearly_full = record {
  buf = λ i. i;
  nread = 2 ^ 32 - 512;
  nwrite = 2 ^ 32 - 1;
  readopen = true;
  writeopen = true;
}

nearly_full-IsValid : IsValid nearly_full
nearly_full-IsValid = omega arith

-- One byte fits, across the wrap of `nwrite`; then the writer sleeps.
pipewrite_wraps :
    let r = pipewrite (λ _. false) (λ i. some (100 + i)) 3 0 nearly_full in
    (r.stop ≡ slept 1) × (r.pipe.nwrite ≡ 0) × (r.pipe.buf 511 ≡ 100)
unfolding pipewrite put
pipewrite_wraps = (refl, refl, refl)

piperead_takes :
    let r = piperead (λ _. true) false 2 nearly_full in
    (r.stop ≡ returned (some 2)) × (r.out ≡ 0 ∷ 1 ∷ [])
unfolding piperead read_loop drop_first
piperead_takes = (refl, refl)

pipewrite-Wrote_example :
    Wrote
      (λ _. false)
      (λ i. some (100 + i))
      3
      0
      nearly_full
      (pipewrite (λ _. false) (λ i. some (100 + i)) 3 0 nearly_full)
pipewrite-Wrote_example =
    pipewrite-Wrote (λ _. false) (λ i. some (100 + i)) 3 0 nearly_full nearly_full-IsValid
