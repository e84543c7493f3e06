-- ===== src/Log/Ops/Space/Safe.antt =====
-- What holds in every state that the file-system calls can reach (kernel/log.c).
use project_opertating_syste.Base.{
  ℕ, suc, ◌<◌, ◌≡◌, List, ◌∷◌, ◌++◌, done, arith, length-append, ◌≢◌,
}
use project_opertating_syste.Buffers.{Buffers}
use project_opertating_syste.Log.{Log}
use project_opertating_syste.Log.Ops.{log_size, log_write}
use project_opertating_syste.Log.Ops.Write.{log_write_ok}
use project_opertating_syste.Log.Ops.Space.Defs.{System, IsStart, Reach, start, next}
use project_opertating_syste.Log.Ops.Space.Reserve.{sum, sum-append, Inv, Step-Inv, IsStart-Inv}

module _ {s0 : System} (i : IsStart s0) (big : log_size < s0.lg.size) where
  -- Take a log of more than `LOGSIZE` blocks, its header included. In every state that the calls
  -- reach from the start by the sections of `begin_op`, `log_write` and `end_op`, with `commit` as
  -- one step: the blocks listed and those that the running calls may still add fit into the log, no
  -- block is listed twice, each listed block is pinned in the cache and lies outside the log, the
  -- header on the disk is clear, and `outstanding` counts the running calls, of which there are at
  -- most three, and none from when `committing` is set until the commit is over.
  pub Reach-Inv : {s : System} → Reach s0 s → Inv s
  Reach-Inv start = IsStart-Inv big i
  Reach-Inv (next r st) = Step-Inv st (Reach-Inv r)

  -- In such a log, in every state that the calls reach, a call that has not yet used up its
  -- reservation can call `log_write` for any block without a panic.
  pub log_write-never_panics :
      {s : System} (pre post : List ℕ) (left b : ℕ)
      → Reach s0 s
      → s.ops ≡ pre ++ (suc left ∷ post)
      → (r : Log × Buffers) × (log_write b s.lg s.buf ≡ done r)
  log_write-never_panics {s} pre post left b reach o =
      let v = Reach-Inv reach in
      let room : 0 < sum s.ops = rw o (omega (arith, sum-append pre (suc left ∷ post))) in
      let many : s.lg.outstanding ≢ 0 =
        rw (v.count, o) (omega (arith, length-append pre (suc left ∷ post))) in
      log_write_ok b s.lg s.buf (omega (arith, v.space)) (omega (arith, v.space, v.size))
        (omega arith) (omega (arith, v.few))
