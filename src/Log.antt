-- ===== src/Log.antt =====
-- kernel/log.c: the write-ahead log. The model has one device, so `log.dev` is left out. Locks,
-- `sleep` and `wakeup` are the steps of `Log/Ops`; here are the functions that run alone while
-- `log.committing` is set, over the buffers of `Buffers`.
pub mod Listed
pub mod Ops
pub mod Crash
mod Tests
use project_opertating_syste.Base.{ℕ, ◌+◌, ltb, Bool, true, false, if◌then◌else◌, update, for_up}
use project_opertating_syste.Buffers.{Block, Buffers, bread, brelse, bunpin, modify, bwrite}

-- `struct logheader`; of the array only the first `n` entries mean anything. The C array has LOGSIZE
-- entries, 30: `log_write` panics where `n` would pass that, and only `write_head` writes a header to
-- the disk, so that a larger `n` is no header of this program; `block` is the words from the start
-- of the array on, and says nothing of what a larger `n` would overwrite behind it.
pub record LogHeader : Type 0 where
  pub n : ℕ
  pub block : ℕ → ℕ

pub record Log : Type 0 where
  pub start : ℕ
  pub size : ℕ
  pub outstanding : ℕ
  pub committing : Bool
  pub lh : LogHeader

abbrev pub with_n : ℕ → Log → Log
with_n n lg = record lg { lh = record { n = n; block = lg.lh.block } }

-- The body of the loop of `install_trans`, for one `tail`.
unfoldable pub install_one : Bool → Log → ℕ → Buffers → Buffers
install_one recovering lg tail s =
    let lbuf = lg.start + tail + 1 in
    let dbuf = lg.lh.block tail in
    let s1 = bread dbuf (bread lbuf s) in
    let s2 = bwrite dbuf (modify dbuf (s1.view lbuf) s1) in
    let s3 = if recovering then s2 else bunpin dbuf s2 in brelse dbuf (brelse lbuf s3)

unfoldable pub install_trans : Bool → Log → Buffers → Buffers
install_trans recovering lg = for_up lg.lh.n (install_one recovering lg)

-- `hb->n = n; for(i...) hb->block[i] = block[i];` on the words of the header block.
unfoldable pub put_head : LogHeader → Block → Block
put_head lh hb = for_up lh.n (λ i c. update c (i + 1) (lh.block i)) (update hb 0 lh.n)

-- `log.lh.n = lh->n; for(i...) log.lh.block[i] = lh->block[i];`
unfoldable pub get_head : Block → LogHeader → LogHeader
get_head hb lh = record {
  n = hb 0;
  block = for_up (hb 0) (λ i c. update c i (hb (i + 1))) lh.block;
}

unfoldable pub read_head : Log → Buffers → Log × Buffers
read_head lg s =
    let s1 = bread lg.start s in
    (record lg { lh = get_head (s1.view lg.start) lg.lh }, brelse lg.start s1)

unfoldable pub write_head : Log → Buffers → Buffers
write_head lg s =
    let s1 = bread lg.start s in
    let s2 = modify lg.start (put_head lg.lh (s1.view lg.start)) s1 in
    brelse lg.start (bwrite lg.start s2)

-- The parts of `struct superblock` that the log reads.
pub record SuperBlock : Type 0 where
  pub nlog : ℕ
  pub logstart : ℕ

unfoldable pub recover_from_log : Log → Buffers → Log × Buffers
recover_from_log lg s =
    let (lg1, s1) = read_head lg s in
    let s2 = install_trans true lg1 s1 in let lg2 = with_n 0 lg1 in (lg2, write_head lg2 s2)

-- The body of the loop of `write_log`, for one `tail`.
unfoldable pub write_log_one : Log → ℕ → Buffers → Buffers
write_log_one lg tail s =
    let to = lg.start + tail + 1 in
    let from = lg.lh.block tail in
    let s1 = bread from (bread to s) in
    let s2 = bwrite to (modify to (s1.view from) s1) in brelse to (brelse from s2)

unfoldable pub write_log : Log → Buffers → Buffers
write_log lg = for_up lg.lh.n (write_log_one lg)

unfoldable pub commit : Log → Buffers → Log × Buffers
commit lg s =
    if ltb 0 lg.lh.n
    then (let s1 = write_head lg (write_log lg s) in
        let s2 = install_trans false lg s1 in let lg2 = with_n 0 lg in (lg2, write_head lg2 s2))
    else (lg, s)

-- At boot; `sizeof(struct logheader) >= BSIZE` is false, since 124 < 1024.
unfoldable pub initlog : SuperBlock → Buffers → Log × Buffers
initlog sb s =
    recover_from_log
      (record {
        start = sb.logstart;
        size = sb.nlog;
        outstanding = 0;
        committing = false;
        lh = record { n = 0; block = λ _. 0 };
      })
      s
