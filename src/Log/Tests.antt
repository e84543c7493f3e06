-- ===== src/Log/Tests.antt =====
-- kernel/log.c on small logs, and the theorems at them.
use project_opertating_syste.Base.{
  ℕ, ◌+◌, ◌≡◌, refl, inr, true, false, [], ◌∷◌, update, done, panic, arith, if◌then◌else◌,
}
use project_opertating_syste.Buffers.{Block, Buffers}
use project_opertating_syste.Log.{
  Log, commit, recover_from_log, initlog, write_head, install_trans, read_head, get_head,
  install_one, write_log, write_log_one, put_head,
}
use project_opertating_syste.Log.Listed.{listed}
use project_opertating_syste.Log.Crash.Recovery.{boot, boots, boot_complete}
use project_opertating_syste.Log.Crash.Settle.{Image, settled}
use project_opertating_syste.Log.Crash.Phases.{Home}
use project_opertating_syste.Log.Crash.Atomic.{
  IsReady, super_block, commit_crash_safe, commit_complete,
}
use project_opertating_syste.Log.Ops.{begin_op, log_write, log_size, max_op_blocks}
use project_opertating_syste.Log.Ops.Space.Defs.{System, begin, IsStart, Reach, start, next}
use project_opertating_syste.Log.Ops.Space.Reserve.{Inv}
use project_opertating_syste.Log.Ops.Space.Safe.{Reach-Inv, log_write-never_panics}

-- A log of 31 blocks from block 2 on, with block 40 in the transaction.
abbrev lg : Log
lg = record {
  start = 2;
  size = 31;
  outstanding = 0;
  committing = true;
  lh = record { n = 1; block = λ _. 40 };
}

-- Block 40 is all 7 in the cache and all 0 on the disk; the power lasts for `k` writes.
abbrev bufs : ℕ → Buffers
bufs k = record { view = update (λ _ _. 0) 40 (λ _. 7); disk = λ _ _. 0; ref = λ _. 1; power = k }

ready : (k : ℕ) → IsReady lg (bufs k)
ready k = record { small = omega arith; homes = λ i q. inr (omega arith); clean = refl }

-- The header got written, so the recovery after two failed ones installs the block.
commit_crash_safe_example :
    boot (super_block lg) 31 (boots (super_block lg) (0 ∷ 1 ∷ []) (commit lg (bufs 2)).1.disk) 40
    ≡ λ _. 7
unfolding listed
commit_crash_safe_example =
    commit_crash_safe lg (bufs 2) (ready 2) (0 ∷ 1 ∷ []) 31 (omega arith) 40 (inr (omega arith))

-- The same by evaluation, at one word.
recovered :
    boot (super_block lg) 31 (boots (super_block lg) (0 ∷ 1 ∷ []) (commit lg (bufs 2)).1.disk) 40 3
    ≡ 7
unfolding boot boots initlog recover_from_log commit write_head install_trans read_head get_head
    install_one write_log write_log_one put_head
recovered = refl

-- One write less, and the transaction never happened.
forgotten : boot (super_block lg) 31 (commit lg (bufs 1)).1.disk 40 3 ≡ 0
unfolding boot initlog recover_from_log commit write_head install_trans read_head get_head
    install_one write_log write_log_one put_head
forgotten = refl

commit_complete_example :
    ((commit lg (bufs 9)).0.lh.n ≡ 0)
    × ((commit lg (bufs 9)).1.disk 2 0 ≡ 0)
    × ((x : ℕ)
        → Home 2 31 x
        → (commit lg (bufs 9)).1.disk x
          ≡ (if listed 1 (λ _. 40) x then (bufs 9).view x else (bufs 9).disk x))
commit_complete_example = commit_complete lg (bufs 9) (ready 9) (omega arith)

-- The disk as a crash after the header's write leaves it.
abbrev crashed : ℕ → Block
crashed = update (update (λ _ _. 0) 3 (λ _. 7)) 2 (update (update (λ _. 0) 1 40) 0 1)

crashed-Image : Image 2 31 (λ _ _. 7) crashed
crashed-Image = record {
  small = omega arith;
  homes = λ i q. inr (ground arith);
  logged = λ i q. ground arith;
}

boot_complete_example :
    (boot (super_block lg) 2 crashed 2 0 ≡ 0)
    × ((x : ℕ) → Home 2 31 x → boot (super_block lg) 2 crashed x ≡ settled 2 (λ _ _. 7) crashed x)
boot_complete_example =
    boot_complete (super_block lg) (λ _ _. 7) crashed 2 crashed-Image (omega arith)

-- One call has begun, and writes block 40.
abbrev idle : System
idle = record {
  lg = record lg { committing = false; lh = record { n = 0; block = λ _. 0 } };
  buf = bufs 99;
  ops = [];
}

idle-IsStart : IsStart idle
idle-IsStart = record { ops = refl; outstanding = refl; committing = refl; n = refl; clean = refl }

abbrev begun : System
begun = record {
  lg = record lg { outstanding = 1; committing = false; lh = record { n = 0; block = λ _. 0 } };
  buf = bufs 99;
  ops = max_op_blocks ∷ [];
}

begun-Reach : Reach idle begun
unfolding begin_op
begun-Reach = next start (begin refl)

Reach-Inv_example : Inv begun
Reach-Inv_example = Reach-Inv idle-IsStart (omega arith) begun-Reach

log_write-never_panics_example : (r : Log × Buffers) × (log_write 40 begun.lg begun.buf ≡ done r)
log_write-never_panics_example =
    log_write-never_panics idle-IsStart (omega arith) [] [] 9 40 begun-Reach refl

abbrev written : Log × Buffers
written = (
  record begun.lg { lh = record { n = 1; block = update (λ _. 0) 0 40 } },
  record begun.buf { ref = update (λ _. 1) 40 2 },
)

-- With the 30 blocks of mkfs, header included, the thirtieth block that three calls have reserved
-- makes `log_write` panic.
full_log :
    (b : ℕ)
    → log_write b
        (record lg {
          size = log_size;
          outstanding = 3;
          lh = record { n = 29; block = λ i. 100 + i };
        })
        (bufs 9)
      ≡ panic
unfolding log_write
full_log b = refl
