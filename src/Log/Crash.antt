-- ===== src/Log/Crash.antt =====
-- kernel/log.c when the power fails, in a commit or in any number of recoveries after it.
pub mod Phases
pub mod Settle
pub mod Recovery
pub mod Atomic
