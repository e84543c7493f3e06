-- ===== src/Fs/Inodes.antt =====
-- The table of inodes and the inodes on disk, kernel/fs.c. Sleep locks are left out: `ilock` is
-- what it does once it has the lock, and `iunlock` is told whether the caller holds it. Reference
-- counts do not overflow.
pub mod Table
pub mod OnDisk
use project_opertating_syste.Base.{
  ℕ, zero, suc, ◌+◌, ◌-◌, ◌*◌, ◌%◌, ◌==◌, ltb, leb, Bool, true, false, not, ◌&&◌, ◌||◌, Option,
  none, some, if◌then◌else◌, update, Outcome, done, panic, ◌>>=◌, ◌>>◌, panic_if,
}
use project_opertating_syste.Fs.{Inode, Fs, SuperBlock, iblock, ipb, write_block}
use project_opertating_syste.Fs.Layout.{load16, store16, read_dinode, write_dinode}

-- kernel/param.h
abbrev pub ninode : ℕ
ninode = 50

-- An assignment to fields of `itable.inode[i]`.
abbrev pub put_inode : ℕ → Inode → Fs → Fs
put_inode i ip fs = record fs { inode = update fs.inode i ip }

-- The first index from `i` on, among the next `k`, that passes the test.
unfoldable pub first_index : (ℕ → Bool) → ℕ → ℕ → Option ℕ
first_index test zero i = none
first_index test (suc k) i =
    let rest = first_index test k (i + 1) in if test i then some i else rest

abbrev pub holds_inum : Fs → ℕ → ℕ → Bool
holds_inum fs inum i = ltb 0 (fs.inode i).ref && (fs.inode i).inum == inum

abbrev pub is_empty : Fs → ℕ → Bool
is_empty fs i = (fs.inode i).ref == 0

-- What `iget` does with the entry that has the inode, else with the first empty one.
unfoldable pub iget_with : ℕ → Fs → Option ℕ → Option ℕ → Outcome (ℕ × Fs)
iget_with inum fs (some i) empty =
    done (i, put_inode i (record (fs.inode i) { ref = (fs.inode i).ref + 1 }) fs)
iget_with inum fs none (some i) =
    done (i, put_inode i (record (fs.inode i) { inum = inum; ref = 1; valid = false }) fs)
iget_with inum fs none none = panic

unfoldable pub iget : ℕ → Fs → Outcome (ℕ × Fs)
iget inum fs =
    iget_with inum fs (first_index (holds_inum fs inum) ninode 0)
      (first_index (is_empty fs) ninode 0)

unfoldable pub idup : ℕ → Fs → Fs
idup i fs = put_inode i (record (fs.inode i) { ref = (fs.inode i).ref + 1 }) fs

-- The offset of inode `inum` in its block.
abbrev pub dinode_offset : ℕ → ℕ
dinode_offset inum = (inum % ipb) * 64

unfoldable pub iupdate : SuperBlock → ℕ → Fs → Fs
iupdate sb i fs =
    let ip = fs.inode i in
    let b = iblock sb ip.inum in
    write_block b (write_dinode (dinode_offset ip.inum) ip (fs.content b)) fs

-- Reading the inode, where it is not valid.
unfoldable pub load_inode : SuperBlock → ℕ → Fs → Outcome Fs
load_inode sb i fs = do
  let ip = fs.inode i
  let jp = read_dinode (fs.content (iblock sb ip.inum)) (dinode_offset ip.inum) ip
  panic_if (jp.type_ == 0)
  done (put_inode i (record jp { valid = true }) fs)

unfoldable pub ilock : SuperBlock → ℕ → Fs → Outcome Fs
ilock sb i fs = do
  panic_if (ltb (fs.inode i).ref 1)
  if not (fs.inode i).valid then load_inode sb i fs else done fs

unfoldable pub iunlock : Bool → ℕ → Fs → Outcome (Unit {0})
iunlock holding i fs = panic_if (not holding || ltb (fs.inode i).ref 1)

-- Is inode `inum` free on disk?
abbrev pub is_free_inode : SuperBlock → Fs → ℕ → Bool
is_free_inode sb fs inum = load16 (fs.content (iblock sb inum)) (dinode_offset inum) == 0

-- `memset(dip, 0, sizeof(*dip)); dip->type = type;`
abbrev pub fresh_dinode : ℕ → ℕ → (ℕ → ℕ) → ℕ → ℕ
fresh_dinode o type_ c = store16 o type_ (λ a. if leb o a && ltb a (o + 64) then 0 else c a)

-- What `ialloc` does with the inode that its loop stops at.
unfoldable pub ialloc_at : SuperBlock → ℕ → Fs → Option ℕ → Outcome (Option ℕ × Fs)
ialloc_at sb type_ fs none = done (none, fs)
ialloc_at sb type_ fs (some inum) = do
  let b = iblock sb inum
  got ← iget inum (write_block b (fresh_dinode (dinode_offset inum) type_ (fs.content b)) fs)
  done (some got.0, got.1)

unfoldable pub ialloc : SuperBlock → ℕ → Fs → Outcome (Option ℕ × Fs)
ialloc sb type_ fs = ialloc_at sb type_ fs (first_index (is_free_inode sb fs) (sb.ninodes - 1) 1)
