-- ===== src/Log/Ops/Space/Defs.antt =====
-- The file-system calls that run at once, as steps of one system (kernel/log.c).
use project_opertating_syste.Base.{
  ℕ, suc, ◌+◌, ◌<◌, ◌≡◌, Bool, true, false, some, List, [], ◌∷◌, ◌++◌, done,
}
use project_opertating_syste.Buffers.{Block, Buffers, modify}
use project_opertating_syste.Log.{Log}
use project_opertating_syste.Log.Crash.Phases.{Home}
use project_opertating_syste.Log.Ops.{
  max_op_blocks, begin_op, log_write, end_op_start, end_op_commit,
}

-- `ops` has an entry for each call between its `begin_op` and its `end_op`: how many more times
-- it will call `log_write`.
pub record System : Type 0 where
  pub lg : Log
  pub buf : Buffers
  pub ops : List ℕ

pub data Step (s : System) : System → Type 0 where
  begin :
      {lg : Log}
      → begin_op s.lg ≡ some lg
      → Step s (record { lg = lg; buf = s.buf; ops = max_op_blocks ∷ s.ops })
  -- A store into the data of a buffer that holds a block outside the log.
  store :
      (b : ℕ) (c : Block)
      → Home s.lg.start s.lg.size b
      → Step s (record s { buf = modify b c s.buf })
  write :
      (pre post : List ℕ) (left b : ℕ) {r : Log × Buffers}
      → s.ops ≡ pre ++ (suc left ∷ post)
      → Home s.lg.start s.lg.size b
      → log_write b s.lg s.buf ≡ done r
      → Step s (record { lg = r.0; buf = r.1; ops = pre ++ (left ∷ post) })
  -- The first section of `end_op`; with `do_commit` it leaves `log.committing` set.
  finish :
      (pre post : List ℕ) (left : ℕ) {r : Bool × Log}
      → s.ops ≡ pre ++ (left ∷ post)
      → end_op_start s.lg ≡ done r
      → Step s (record { lg = r.1; buf = s.buf; ops = pre ++ post })
  -- The rest of the `end_op` that set `log.committing`; between the two there may be other steps.
  -- `commit` itself is a part of one step, and the machine keeps its power during it: `Log/Crash`
  -- looks inside, and is about the case where it does not.
  commits :
      s.lg.committing ≡ true
      → s.lg.lh.n + s.lg.lh.n + 1 < s.buf.power
      → Step s (record {
        lg = (end_op_commit s.lg s.buf).0;
        buf = (end_op_commit s.lg s.buf).1;
        ops = s.ops;
      })

-- After `initlog`: no call runs, and the log is empty in memory and on the disk.
pub record IsStart (s : System) : Type 0 where
  pub ops : s.ops ≡ []
  pub outstanding : s.lg.outstanding ≡ 0
  pub committing : s.lg.committing ≡ false
  pub n : s.lg.lh.n ≡ 0
  pub clean : s.buf.disk s.lg.start 0 ≡ 0

pub data Reach (s0 : System) : System → Type 0 where
  start : Reach s0 s0
  next : {s t : System} → Reach s0 s → Step s t → Reach s0 t
