-- ===== src/Fs.antt =====
-- kernel/fs.c: blocks, inodes, files and directories, on the blocks as the buffer cache shows them.
-- `bread` and `brelse` are the reading of a block; a store and its `log_write` change it, and put
-- its number in front of `logged`, the blocks that the transaction has written.
pub mod Bits
pub mod Bitmap
pub mod Layout
pub mod Inodes
pub mod Files
pub mod Dirs
mod Tests
use project_opertating_syste.Base.{
  ℕ, zero, suc, ◌+◌, ◌*◌, ◌/◌, ◌%◌, ◌^◌, ◌-◌, ◌==◌, ltb, leb, Bool, true, false, not, ◌&&◌, ◌||◌,
  Option, none, some, List, [], ◌∷◌, if◌then◌else◌, update, Outcome, done, panic, ◌>>=◌, ◌>>◌,
  panic_if, bit_and, bit_or,
}

-- kernel/fs.h
abbrev pub bsize : ℕ
bsize = 1024

-- Bitmap bits per block, and inodes per block.
abbrev pub bpb : ℕ
bpb = 8192

abbrev pub ipb : ℕ
ipb = 16

-- The parts of `struct superblock` that this file reads.
pub record SuperBlock : Type 0 where
  pub size : ℕ
  pub ninodes : ℕ
  pub inodestart : ℕ
  pub bmapstart : ℕ

abbrev pub bblock : SuperBlock → ℕ → ℕ
bblock sb b = b / bpb + sb.bmapstart

abbrev pub iblock : SuperBlock → ℕ → ℕ
iblock sb i = i / ipb + sb.inodestart

-- An in-memory inode; all are on the one device.
pub record Inode : Type 0 where
  pub inum : ℕ
  pub ref : ℕ
  pub valid : Bool
  pub type_ : ℕ
  pub major : ℕ
  pub minor : ℕ
  pub nlink : ℕ
  pub size : ℕ
  pub addrs : ℕ → ℕ

-- The bytes of each block, and the table of inodes.
pub record Fs : Type 0 where
  pub content : ℕ → ℕ → ℕ
  pub logged : List ℕ
  pub inode : ℕ → Inode

-- The block `b` becomes `c`, and goes to `log_write`.
abbrev pub write_block : ℕ → (ℕ → ℕ) → Fs → Fs
write_block b c fs = record fs { content = update fs.content b c; logged = b ∷ fs.logged }

unfoldable pub bzero : ℕ → Fs → Fs
bzero b fs = write_block b (λ i. if ltb i bsize then 0 else fs.content b i) fs

-- `(data[bi / 8] & m) == 0` for `m = 1 << (bi % 8)`.
abbrev pub is_free : (ℕ → ℕ) → ℕ → Bool
is_free bits bi = bit_and (bits (bi / 8)) (2 ^ (bi % 8)) == 0

-- `data[bi / 8] |= m`, and `data[bi / 8] &= ~m`.
abbrev pub mark : (ℕ → ℕ) → ℕ → ℕ → ℕ
mark bits bi = update bits (bi / 8) (bit_or (bits (bi / 8)) (2 ^ (bi % 8)))

abbrev pub unmark : (ℕ → ℕ) → ℕ → ℕ → ℕ
unmark bits bi = update bits (bi / 8) (bit_and (bits (bi / 8)) (255 - 2 ^ (bi % 8)))

-- The inner loop of `balloc` from `bi`, with `k` rounds left: the first free bit.
unfoldable pub scan_bits : ℕ → ℕ → ℕ → ℕ → (ℕ → ℕ) → Option ℕ
scan_bits zero bi b size bits = none
scan_bits (suc k) bi b size bits =
    let rest = scan_bits k (bi + 1) b size bits in
    if ltb (b + bi) size then (if is_free bits bi then some bi else rest) else none

-- The outer loop of `balloc` from `b`, with `k` rounds left.
unfoldable pub scan_blocks : SuperBlock → ℕ → ℕ → Fs → Option ℕ
scan_blocks sb zero b fs = none
scan_blocks sb (suc k) b fs =
    let rest = scan_blocks sb k (b + bpb) fs in
    let found : Option ℕ = elim (scan_bits bpb 0 b sb.size (fs.content (bblock sb b))) [
      | none ↦ rest
      | some bi ↦ some (b + bi)
    ] in
    if ltb b sb.size then found else none

-- What `balloc` does with the block that its loops stop at; 0 is "out of blocks".
unfoldable pub take_block : SuperBlock → Option ℕ → Fs → ℕ × Fs
take_block sb none fs = (0, fs)
take_block sb (some b) fs =
    (b, bzero b (write_block (bblock sb b) (mark (fs.content (bblock sb b)) (b % bpb)) fs))

unfoldable pub balloc : SuperBlock → Fs → ℕ × Fs
balloc sb fs = take_block sb (scan_blocks sb (sb.size / bpb + 1) 0 fs) fs

unfoldable pub bfree : SuperBlock → ℕ → Fs → Outcome Fs
bfree sb b fs = do
  let bits = fs.content (bblock sb b)
  panic_if (is_free bits (b % bpb))
  done (write_block (bblock sb b) (unmark bits (b % bpb)) fs)
