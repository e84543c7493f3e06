-- ===== src/Log/Ops.antt =====
-- `begin_op`, `log_write` and `end_op` of kernel/log.c. Each critical section under `log.lock` is
-- one function; where the code sleeps and tests again, the function returns `none`.
pub mod Write
pub mod Space
use project_opertating_syste.Base.{
  ℕ, zero, suc, ◌+◌, ◌-◌, ◌*◌, ◌%◌, ◌^◌, ltb, leb, ◌==◌, Bool, true, false, ◌&&◌, ◌||◌, Option,
  none, some, if◌then◌else◌, update, Outcome, done, panic, panic_if, ◌>>◌, ◌>>=◌,
}
use project_opertating_syste.Buffers.{Buffers, bpin}
use project_opertating_syste.Log.{Log, commit}

-- kernel/param.h
abbrev pub max_op_blocks : ℕ
max_op_blocks = 10

abbrev pub log_size : ℕ
log_size = max_op_blocks * 3

-- A 32-bit `int` is its bit pattern; this is `v < 0`.
abbrev pub is_negative : ℕ → Bool
is_negative v = leb (2 ^ 31) v

-- One round of the loop of `begin_op`: `none` where it sleeps.
unfoldable pub begin_op : Log → Option Log
begin_op lg =
    if lg.committing
    then none
    else if not_negative && ltb log_size (lg.lh.n + (lg.outstanding + 1) * max_op_blocks)
    then none
    else some (record lg { outstanding = lg.outstanding + 1 })
  where
    not_negative : Bool
    not_negative = ltb lg.outstanding (2 ^ 31)

-- The first critical section of `end_op`, with `do_commit`.
unfoldable pub end_op_start : Log → Outcome (Bool × Log)
end_op_start lg = do
  let left = (lg.outstanding + 2 ^ 32 - 1) % 2 ^ 32
  panic_if lg.committing
  done (
      if left == 0
      then (true, record lg { outstanding = left; committing = true })
      else (false, record lg { outstanding = left }))

-- The rest of `end_op`, where `do_commit` is set: `commit` without the lock, and the second critical
-- section.
unfoldable pub end_op_commit : Log → Buffers → Log × Buffers
end_op_commit lg s = let (lg', s') = commit lg s in (record lg' { committing = false }, s')

-- `for(i = 0; i < n; i++) if(block[i] == b) break;`, with `k` rounds left: the final `i`.
unfoldable pub scan : ℕ → ℕ → (ℕ → ℕ) → ℕ → ℕ
scan zero i f b = i
scan (suc k) i f b = let rest = scan k (i + 1) f b in if f i == b then i else rest

-- `log.lh.block[i] = b; if(i == log.lh.n) { bpin(b); log.lh.n++; }`
unfoldable pub record_at : ℕ → ℕ → Log → Buffers → Log × Buffers
record_at i b lg s =
    if i == lg.lh.n then (with_lh (lg.lh.n + 1), bpin b s) else (with_lh lg.lh.n, s)
  where
    with_lh : ℕ → Log
    with_lh n = record lg { lh = record { n = n; block = update lg.lh.block i b } }

-- `log_write` for the buffer of block `b`.
unfoldable pub log_write : ℕ → Log → Buffers → Outcome (Log × Buffers)
log_write b lg s = do
  panic_if (leb log_size lg.lh.n || leb (lg.size - 1) lg.lh.n)
  panic_if (lg.outstanding == 0 || is_negative lg.outstanding)
  done (record_at (scan lg.lh.n 0 lg.lh.block b) b lg s)
