-- ===== src/Lib.antt =====
-- xv6 for RISC-V: a small Unix kernel, its file system and its user tools (kernel/, user/, mkfs/).
--
-- The kernel's parts call one another downwards: system calls (kernel/sysfile.c, kernel/sysproc.c)
-- use open files and pipes (kernel/file.c, kernel/pipe.c) and the file system (kernel/fs.c), which
-- changes blocks inside transactions of the log (kernel/log.c), which reads and writes them
-- through the buffer cache (kernel/bio.c).
--
-- Modules:
--   Base      numbers, tests, lists, `Outcome` (a call returns, or it panics), counted loops
--   Buffers   what the buffer cache promises its callers, and the disk with a power failure
--   Bcache    kernel/bio.c: the cache itself, and which content it shows for each block
--   Kalloc    kernel/kalloc.c: the list of free pages, threaded through memory
--   Spinlock  kernel/spinlock.c: all interleavings of the CPUs' steps on one lock
--   SleepLock kernel/sleeplock.c: all interleavings of the processes' calls on one lock
--   Log       kernel/log.c: commit and recovery (Log), the calls that begin, write and end
--             transactions (Log/Ops); Log/Crash is about power failures, Log/Ops/Space about
--             the space that begin_op reserves
--   Fs        kernel/fs.c on the content of blocks: the free map (Fs, Fs/Bitmap), the inode on disk
--             (Fs/Layout) and in the table (Fs/Inodes), the content of a file (Fs/Files), where
--             Fs/Files/Copies is what readi and writei use of kernel/proc.c, directories and
--             paths (Fs/Dirs)
--   Vm        kernel/vm.c: page tables of three levels, and copies from and to user memory
--   Pipe      kernel/pipe.c: a call runs in segments, from a start or a wake-up to a sleep or return
--   File      kernel/file.c: the table of open files and its reference counts
--   Strings   kernel/string.c, and memmove of user/ulib.c, on memory as a function from addresses
--   Printint  printint of kernel/printf.c and user/printf.c, and atoi of user/ulib.c
--   Path      skipelem of kernel/fs.c
--   Proc      the process table of kernel/proc.c: Proc/Fork, Proc/Death (exit and wait), Proc/Reach
--             (all steps), Proc/Awaited (wakeups of wait)
--
-- Conventions: numbers are naturals, with the wrap-around of `uint` written out; a function that
-- changes a C structure takes its record and returns the new one; a critical section is one
-- function, and a place where the code sleeps ends a step. Loops are structural recursion on the
-- rounds that are left. Where the source does not count them there is fuel: strlen has the bytes
-- that it may look at, and its theorem asks for a NUL among them; readi, writei and the copies of Vm
-- have the length, of which each round takes a byte at least; dirlookup and dirlink have one round
-- more than the directory has entries, uvmalloc one more than the new size has pages; the loop of
-- namex has one round more than the path has bytes, where `none` would be a path with rounds too
-- few. What C leaves undefined is `none` too, where it is modelled: stores past a buffer in Printint,
-- and the overflow of an `int` in atoi. The overflow of nextpid in Proc is left out by a condition on
-- each fork.
--
-- Not modelled: the system calls of kernel/sysfile.c and kernel/sysproc.c, kernel/exec.c, the
-- devices, traps and boot, fsinit, readsb and iinit of kernel/fs.c, uvmfirst, freewalk and uvmfree of
-- kernel/vm.c, the other user programs, and mkfs/: they are other parts of the program, or set up
-- hardware. Outside Spinlock and SleepLock, locks are modelled only by what runs without interruption
-- under them.
pub mod Base
pub mod Buffers
pub mod Bcache
pub mod Kalloc
pub mod Spinlock
pub mod SleepLock
pub mod Log
pub mod Fs
pub mod Vm
pub mod Pipe
pub mod File
pub mod Strings
pub mod Printint
pub mod Path
pub mod Proc
