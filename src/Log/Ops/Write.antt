-- ===== src/Log/Ops/Write.antt =====
-- `log_write` of kernel/log.c: where a block is recorded, and which blocks are listed after it.
use project_opertating_syste.Base.{
  ℕ, zero, suc, ◌+◌, ◌≤◌, ◌<◌, ◌≡◌, refl, ◌≢◌, ◌⊎◌, inl, inr, ◌||◌, arith, ◌==◌, Bool-cases, done,
  update, ◌^◌, ap, subst, ◌∙◌,
}
use project_opertating_syste.Buffers.{Buffers}
use project_opertating_syste.Log.{Log}
use project_opertating_syste.Log.Listed.{
  listed, listed-eq, listed_suc, listed-update, listed_of_entry,
}
use project_opertating_syste.Log.Ops.{log_size, scan, record_at, log_write}

-- `i` is the first entry equal to `b` from `from` on, or `end` if there is none before it.
pub record FirstAt (f : ℕ → ℕ) (b from end i : ℕ) : Type 0 where
  pub low : from ≤ i
  pub high : i ≤ end
  pub hit : i < end → f i ≡ b
  pub first : (j : ℕ) → from ≤ j → j < i → f j ≢ b

pub scan-FirstAt : (k i : ℕ) (f : ℕ → ℕ) (b : ℕ) → FirstAt f b i (i + k) (scan k i f b)
unfolding scan
scan-FirstAt zero i f b = record {
  low = omega arith;
  high = omega arith;
  hit = λ h. absurd (omega arith);
  first = λ j p q. absurd (omega arith);
}
scan-FirstAt (suc k) i f b = elim (Bool-cases (f i == b)) [
  | inl e ↦ rw e (record {
    low = omega arith;
    high = omega arith;
    hit = λ h. ground arith;
    first = λ j p q. absurd (omega arith);
  })
  | inr e ↦
      let rest = scan-FirstAt k (i + 1) f b in
      rw e (record {
        low = omega (arith, rest.low);
        high = omega (arith, rest.high);
        hit = λ h. rest.hit (omega arith);
        first = λ j p q. ground (arith, rest.first j);
      })
]

-- Recording `b` at its first place among the entries.
pub record Recorded (b : ℕ) (lg : Log) (s : Buffers) (r : Log × Buffers) : Type 0 where
  pub start : r.0.start ≡ lg.start
  pub size : r.0.size ≡ lg.size
  pub outstanding : r.0.outstanding ≡ lg.outstanding
  pub committing : r.0.committing ≡ lg.committing
  pub view : r.1.view ≡ s.view
  pub disk : r.1.disk ≡ s.disk
  pub power : r.1.power ≡ s.power
  -- Either `b` was there, and nothing changes but that its entry is written again,
  -- or it is added at the end and pinned.
  pub case :
      ((r.0.lh.n ≡ lg.lh.n)
        × ((x : ℕ) → r.0.lh.block x ≡ lg.lh.block x)
        × (r.1.ref ≡ s.ref)
        × ((i : ℕ) × (i < lg.lh.n) × (lg.lh.block i ≡ b)))
      ⊎ ((r.0.lh.n ≡ lg.lh.n + 1)
          × (r.0.lh.block ≡ update lg.lh.block lg.lh.n b)
          × (r.1.ref ≡ update s.ref b (s.ref b + 1))
          × ((j : ℕ) → j < lg.lh.n → lg.lh.block j ≢ b))

module _ (b : ℕ) (lg : Log) (s : Buffers) where
  recorded : (i : ℕ) → FirstAt lg.lh.block b 0 lg.lh.n i → Recorded b lg s (record_at i b lg s)
  unfolding record_at
  recorded i f = elim (Bool-cases (i == lg.lh.n)) [
    | inl e ↦
        let i_eq : i ≡ lg.lh.n = ground arith in
        rw e (record {
          start = refl;
          size = refl;
          outstanding = refl;
          committing = refl;
          view = refl;
          disk = refl;
          power = refl;
          case = inr (
            refl,
            ap (λ k. update lg.lh.block k b) i_eq,
            refl,
            λ j q. f.first j (omega arith) (omega arith),
          );
        })
    | inr e ↦
        let lt : i < lg.lh.n = ground (arith, f.high) in
        rw e (record {
          start = refl;
          size = refl;
          outstanding = refl;
          committing = refl;
          view = refl;
          disk = refl;
          power = refl;
          case = inl (refl, λ x. ground (arith, f.hit lt), refl, (i, lt, f.hit lt));
        })
  ]

  -- With room in the log, and inside a transaction, `log_write` does not panic.
  pub log_write_ok :
      lg.lh.n < log_size
      → lg.lh.n + 1 < lg.size
      → 0 < lg.outstanding
      → lg.outstanding < 2 ^ 31
      → (r : Log × Buffers) × (log_write b lg s ≡ done r)
  unfolding log_write
  log_write_ok p q o o' = (record_at (scan lg.lh.n 0 lg.lh.block b) b lg s, ground arith)

  abbrev place : ℕ
  place = scan lg.lh.n 0 lg.lh.block b

  place-FirstAt : FirstAt lg.lh.block b 0 lg.lh.n place
  place-FirstAt =
      let end : 0 + lg.lh.n ≡ lg.lh.n = omega arith in
      subst (λ e. FirstAt lg.lh.block b 0 e place) end (scan-FirstAt lg.lh.n 0 lg.lh.block b)

  log_write-eq : {r : Log × Buffers} → log_write b lg s ≡ done r → record_at place b lg s ≡ r
  unfolding log_write
  log_write-eq {r} e = ground arith

  pub log_write-Recorded : {r : Log × Buffers} → log_write b lg s ≡ done r → Recorded b lg s r
  log_write-Recorded e = subst (Recorded b lg s) (log_write-eq e) (recorded place place-FirstAt)

-- After `log_write` for block `b`, the blocks that the log lists are `b` and those listed before.
pub listed-log_write :
    (b : ℕ) (lg : Log) (s : Buffers) {r : Log × Buffers}
    → log_write b lg s ≡ done r
    → (x : ℕ) → listed r.0.lh.n r.0.lh.block x ≡ ((b == x) || listed lg.lh.n lg.lh.block x)
listed-log_write b lg s {r} e x = elim (log_write-Recorded b lg s e).case [
  | inl (n, same, _, (i, lt, hit)) ↦ rw n (
      listed-eq lg.lh.n r.0.lh.block lg.lh.block x (λ j _. same j)
      ∙ ground (arith, listed_of_entry lg.lh.n lg.lh.block i lt))
  | inr (n, grown, _, _) ↦
      rw (n, grown)
        (ground (
          arith,
          listed_suc lg.lh.n (update lg.lh.block lg.lh.n b) x,
          listed-update lg.lh.n lg.lh.n lg.lh.block b x,
        ))
]
