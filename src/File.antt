-- ===== src/File.antt =====
-- kernel/file.c: the table of open files. A file is named by its index in `ftable.file[]`. What
-- `fileclose` closes below (a pipe, an inode) is returned. Reference counts do not overflow.
pub mod Refs
mod Tests
use project_opertating_syste.Base.{
  ℕ, zero, suc, ◌+◌, ◌-◌, ◌==◌, ltb, Bool, true, false, not, Option, none, some, if◌then◌else◌,
  update, Outcome, done, panic, ◌>>=◌, ◌>>◌, panic_if,
}

-- kernel/param.h
abbrev pub nfile : ℕ
nfile = 100

-- The type of `struct file`, with the pipe or the inode that goes with it.
pub data FileType : Type 0 where
  fd_none : FileType
  fd_pipe : ℕ → FileType
  fd_inode : ℕ → FileType
  fd_device : ℕ → FileType

pub record File : Type 0 where
  pub type_ : FileType
  pub ref : ℕ
  pub writable : Bool

-- `pipeclose(pipe, writable)`, or `iput(ip)` in a transaction, or neither.
pub data Closed : Type 0 where
  nothing : Closed
  pipeclose : ℕ → Bool → Closed
  iput : ℕ → Closed

-- The search of `filealloc` from index `i`, among `k` files.
unfoldable pub find_free : ℕ → ℕ → (ℕ → File) → Option ℕ
find_free zero i files = none
find_free (suc k) i files =
    let rest = find_free k (i + 1) files in if (files i).ref == 0 then some i else rest

unfoldable pub alloc_found : (ℕ → File) → Option ℕ → Option ℕ × (ℕ → File)
alloc_found files none = (none, files)
alloc_found files (some i) = (some i, update files i (record (files i) { ref = 1 }))

unfoldable pub filealloc : (ℕ → File) → Option ℕ × (ℕ → File)
filealloc files = alloc_found files (find_free nfile 0 files)

unfoldable pub filedup : ℕ → (ℕ → File) → Outcome (ℕ → File)
filedup i files = do
  panic_if (ltb (files i).ref 1)
  done (update files i (record (files i) { ref = (files i).ref + 1 }))

abbrev pub close_below : FileType → Bool → Closed
close_below fd_none w = nothing
close_below (fd_pipe p) w = pipeclose p w
close_below (fd_inode ip) w = iput ip
close_below (fd_device ip) w = iput ip

unfoldable pub fileclose : ℕ → (ℕ → File) → Outcome (Closed × (ℕ → File))
fileclose i files = do
  panic_if (ltb (files i).ref 1)
  let left = (files i).ref - 1
  done (
      if ltb 0 left then (nothing, update files i (record (files i) { ref = left })) else (
        close_below (files i).type_ (files i).writable,
        update files i (record (files i) { ref = 0; type_ = fd_none }),
      ))
