-- ===== src/Fs/Dirs.antt =====
-- Directories and paths, kernel/fs.c. A directory entry is read into the kernel's memory at the
-- address `de`, the array `name` stands there at another; a path is the list of its bytes before
-- the NUL.
pub mod Lookup
pub mod Rounds
use project_opertating_syste.Base.{
  ℕ, zero, suc, ◌+◌, ◌*◌, ◌/◌, ◌==◌, ltb, Bool, true, false, not, ◌&&◌, ◌||◌, Option, none, some,
  List, [], ◌∷◌, if◌then◌else◌, length, update, ℤ, pos, negsuc, Outcome, done, panic, ◌>>=◌, ◌>>◌,
  panic_if,
}
use project_opertating_syste.Strings.{Memory, strncmp, strncpy}
use project_opertating_syste.Path.{dirsiz, slash, skipelem}
use project_opertating_syste.Fs.{Fs, SuperBlock}
use project_opertating_syste.Fs.Layout.{load16, store16}
use project_opertating_syste.Fs.Inodes.{iget, idup, ilock, iunlock}
use project_opertating_syste.Fs.Files.{readi, writei, iput, iunlockput}
use project_opertating_syste.Fs.Files.Copies.{kernel_copy}

-- kernel/stat.h
abbrev pub t_dir : ℕ
t_dir = 1

-- kernel/fs.h
abbrev pub root_ino : ℕ
root_ino = 1

-- sizeof(struct dirent)
abbrev pub dirent_size : ℕ
dirent_size = 16

unfoldable pub namecmp : ℕ → ℕ → Memory → ℤ
namecmp s t m = strncmp dirsiz s t m

unfoldable pub is_zero : ℤ → Bool
is_zero (pos n) = n == 0
is_zero (negsuc n) = false

unfoldable pub is_whole : Option ℕ → Bool
is_whole (some n) = n == dirent_size
is_whole none = false

-- `if(readi(dp, 0, (uint64)&de, off, sizeof(de)) != sizeof(de)) panic(...);`
unfoldable pub read_dirent : SuperBlock → ℕ → ℕ → ℕ → Memory → Fs → Outcome (Memory × Fs)
read_dirent sb dp de off mem fs = do
  got ← readi sb kernel_copy dp de off dirent_size mem fs
  panic_if (not (is_whole got.0))
  done (got.1, got.2)

-- The loop of `dirlookup` with `k` rounds left: the offset where it stops.
unfoldable pub find_name :
    SuperBlock → ℕ → ℕ → ℕ → ℕ → ℕ → Memory → Fs → Outcome (Option ℕ × Memory × Fs)
find_name sb dp name de zero off mem fs = done (none, mem, fs)
find_name sb dp name de (suc k) off mem fs =
    if ltb off (fs.inode dp).size
    then (read_dirent sb dp de off mem fs >>= λ got.
        let rest = find_name sb dp name de k (off + dirent_size) got.0 got.1 in
        if not (load16 got.0 de == 0) && is_zero (namecmp name (de + 2) got.0)
        then done (some off, got.0, got.1)
        else rest)
    else done (none, mem, fs)

-- The entry of the inode and the offset of the directory entry.
unfoldable pub dirlookup :
    SuperBlock → ℕ → ℕ → ℕ → Memory → Fs → Outcome (Option (ℕ × ℕ) × Memory × Fs)
dirlookup sb dp name de mem fs = do
  panic_if (not ((fs.inode dp).type_ == t_dir))
  got ← find_name sb dp name de ((fs.inode dp).size / dirent_size + 1) 0 mem fs
  elim got.0 [
    | none ↦ done (none, got.1, got.2)
    | some off ↦ iget (load16 got.1 de) got.2 >>= λ ip. done (some (ip.0, off), got.1, ip.1)
  ]

-- The loop of `dirlink`: the offset of an empty entry, or of the end.
unfoldable pub find_empty : SuperBlock → ℕ → ℕ → ℕ → ℕ → Memory → Fs → Outcome (ℕ × Memory × Fs)
find_empty sb dp de zero off mem fs = done (off, mem, fs)
find_empty sb dp de (suc k) off mem fs =
    if ltb off (fs.inode dp).size
    then (read_dirent sb dp de off mem fs >>= λ got.
        let rest = find_empty sb dp de k (off + dirent_size) got.0 got.1 in
        if load16 got.0 de == 0 then done (off, got.0, got.1) else rest)
    else done (off, mem, fs)

-- Writing the new entry; `true` is 0 and `false` is -1.
unfoldable pub put_dirent :
    SuperBlock → ℕ → ℕ → ℕ → ℕ → ℕ → Memory → Fs → Outcome (Bool × Memory × Fs)
put_dirent sb dp name inum de off mem fs = do
  let m = store16 de inum (strncpy dirsiz (de + 2) name mem)
  put ← writei sb kernel_copy dp de off dirent_size m fs
  done (is_whole put.0, m, put.1)

unfoldable pub dirlink : SuperBlock → ℕ → ℕ → ℕ → ℕ → Memory → Fs → Outcome (Bool × Memory × Fs)
dirlink sb dp name inum de mem fs = do
  got ← dirlookup sb dp name de mem fs
  elim got.0 [
    | some ip ↦ iput sb ip.0 got.2 >>= λ u. done (false, got.1, u)
    | none ↦ find_empty sb dp de ((got.2.inode dp).size / dirent_size + 1) 0 got.1 got.2 >>= λ at.
        put_dirent sb dp name inum de at.0 at.1 at.2
  ]

-- The bytes of a list, from an address on.
unfoldable pub put_bytes : ℕ → List ℕ → Memory → Memory
put_bytes a [] m = m
put_bytes a (c ∷ s) m = put_bytes (a + 1) s (update m a c)

-- What one round of `namex` does with the inode `ip`, where `path` is what is left: it goes on with
-- the next inode, or returns.
pub data Walk : Type 0 where
  next : ℕ → Walk
  result : Option ℕ → Walk

unfoldable pub namex_step :
    SuperBlock → Bool → ℕ → ℕ → List ℕ → ℕ → Memory → Fs → Outcome (Walk × Memory × Fs)
namex_step sb parent name de path ip mem fs = ilock sb ip fs >>= λ u.
    if not ((u.inode ip).type_ == t_dir)
    then (iunlockput sb true ip u >>= λ w. done (result none, mem, w))
    else if parent && length path == 0
    then (iunlock true ip u >>= λ _. done (result (some ip), mem, u))
    else (dirlookup sb ip name de mem u >>= λ got. iunlockput sb true ip got.2 >>= λ w.
        done (elim got.0 [ none ↦ result none | some hit ↦ next hit.0 ], got.1, w))

-- How the loop of `namex` ends: `none` where the rounds that it is given are too few.
abbrev pub Ending : Type 0
Ending = Option (Outcome (Option ℕ × Memory × Fs))

-- The rest of the loop of `namex`, as a function of the path, the array `name` and the inode.
abbrev pub Loop : Type 0
Loop = List ℕ → List ℕ → ℕ → Memory → Fs → Ending

unfoldable pub namex_next : Loop → List ℕ × List ℕ → Outcome (Walk × Memory × Fs) → Ending
namex_next rest cut panic = some panic
namex_next rest cut (done (next i, mem, fs)) = rest cut.1 cut.0 i mem fs
namex_next rest cut (done (result r, mem, fs)) = some (done (r, mem, fs))

-- One round, with what `skipelem` returned.
unfoldable pub namex_round :
    SuperBlock → Bool → ℕ → ℕ → Loop → Option (List ℕ × List ℕ) → ℕ → Memory → Fs → Ending
namex_round sb parent name de rest none ip mem fs =
    some (if parent then (iput sb ip fs >>= λ u. done (none, mem, u)) else done (some ip, mem, fs))
namex_round sb parent name de rest (some cut) ip mem fs =
    namex_next rest cut (namex_step sb parent name de cut.1 ip (put_bytes name cut.0 mem) fs)

-- The loop of `namex` with `k` rounds left; `bytes` is the array `name`.
unfoldable pub namex_from : SuperBlock → Bool → ℕ → ℕ → ℕ → Loop
namex_from sb parent name de zero path bytes ip mem fs = none
namex_from sb parent name de (suc k) path bytes ip mem fs =
    namex_round sb parent name de (namex_from sb parent name de k) (skipelem path bytes) ip mem fs

-- `*path == '/'`
unfoldable pub is_absolute : List ℕ → Bool
is_absolute [] = false
is_absolute (c ∷ path) = c == slash

-- `cwd` is the entry of the process's directory.
unfoldable pub namex : SuperBlock → ℕ → List ℕ → Bool → ℕ → List ℕ → ℕ → Memory → Fs → Ending
namex sb cwd path parent name bytes de mem fs =
    let start : Outcome (ℕ × Fs) =
      if is_absolute path then iget root_ino fs else done (cwd, idup cwd fs) in
    elim start [
      | panic ↦ some panic
      | done at ↦ namex_from sb parent name de (length path + 1) path bytes at.0 mem at.1
    ]

unfoldable pub namei : SuperBlock → ℕ → List ℕ → ℕ → List ℕ → ℕ → Memory → Fs → Ending
namei sb cwd path name bytes de mem fs = namex sb cwd path false name bytes de mem fs

unfoldable pub nameiparent : SuperBlock → ℕ → List ℕ → ℕ → List ℕ → ℕ → Memory → Fs → Ending
nameiparent sb cwd path name bytes de mem fs = namex sb cwd path true name bytes de mem fs
