-- ===== src/Log/Ops/Space.antt =====
-- The file-system calls that run at once, as the log of kernel/log.c sees them: `begin_op`, stores
-- into buffers, `log_write`, `end_op`, in any order and by any number of calls.
pub mod Defs
pub mod Reserve
pub mod Safe
