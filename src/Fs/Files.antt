-- ===== src/Fs/Files.antt =====
-- The content of inodes, kernel/fs.c: `bmap`, `itrunc`, `iput`, `stati`, `readi`, `writei`.
-- Addresses and offsets do not wrap but where the source tests it.
pub mod Copies
pub mod Slots
pub mod Mapping
pub mod Bmap
pub mod Bytes
pub mod WriteRound
pub mod WriteLoop
pub mod Home
pub mod Write
pub mod ReadRound
pub mod Read
pub mod RoundTrip
pub mod Trunc
pub mod Truncated
pub mod Put
pub mod Reopen
use project_opertating_syste.Base.{
  ℕ, zero, suc, ◌+◌, ◌-◌, ◌*◌, ◌/◌, ◌%◌, ◌^◌, min, ◌==◌, ltb, leb, Bool, true, false, not, ◌&&◌,
  ◌||◌, Option, none, some, if◌then◌else◌, update, Outcome, done, panic, ◌>>=◌, ◌>>◌, panic_if,
}
use project_opertating_syste.Fs.{Inode, Fs, SuperBlock, bsize, write_block, balloc, bfree}
use project_opertating_syste.Fs.Layout.{load32, store32}
use project_opertating_syste.Fs.Inodes.{put_inode, iupdate, iunlock}
use project_opertating_syste.Fs.Files.Copies.{Copy}

-- kernel/fs.h
abbrev pub ndirect : ℕ
ndirect = 12

abbrev pub nindirect : ℕ
nindirect = 256

abbrev pub maxfile : ℕ
maxfile = 268

-- `ip->addrs[k] = addr`
abbrev pub set_addr : ℕ → ℕ → ℕ → Fs → Fs
set_addr i k addr fs =
    put_inode i (record (fs.inode i) { addrs = update (fs.inode i).addrs k addr }) fs

-- What `bmap` does with `ip->addrs[k]`: allocate the block where there is none.
unfoldable pub map_addr : SuperBlock → ℕ → ℕ → Fs → ℕ × Fs
map_addr sb i k fs =
    let addr = (fs.inode i).addrs k in
    let (b, u) = balloc sb fs in
    if addr == 0 then (if b == 0 then (0, u) else (b, set_addr i k b u)) else (addr, fs)

-- And with entry `bn` of the indirect block `ind`.
unfoldable pub map_entry : SuperBlock → ℕ → ℕ → Fs → ℕ × Fs
map_entry sb ind bn fs =
    let addr = load32 (fs.content ind) (4 * bn) in
    let (b, u) = balloc sb fs in
    if addr == 0
    then (if b == 0 then (0, u) else (b, write_block ind (store32 (4 * bn) b (u.content ind)) u))
    else (addr, fs)

unfoldable pub bmap : SuperBlock → ℕ → ℕ → Fs → Outcome (ℕ × Fs)
bmap sb i bn fs =
    let (ind, u) = map_addr sb i ndirect fs in
    if ltb bn ndirect
    then done (map_addr sb i bn fs)
    else if ltb (bn - ndirect) nindirect
    then (if ind == 0 then done (0, u) else done (map_entry sb ind (bn - ndirect) u))
    else panic

-- The first loop of `itrunc`, from entry `k` with `n` rounds left.
unfoldable pub free_direct : SuperBlock → ℕ → ℕ → ℕ → Fs → Outcome Fs
free_direct sb i zero k fs = done fs
free_direct sb i (suc n) k fs = do
  u ←
      if (fs.inode i).addrs k == 0
      then done fs
      else bfree sb ((fs.inode i).addrs k) fs >>= λ w. done (set_addr i k 0 w)
  free_direct sb i n (k + 1) u

-- The second loop, over the entries of the indirect block, of which `a` is the buffer.
unfoldable pub free_entries : SuperBlock → ℕ → ℕ → ℕ → Fs → Outcome Fs
free_entries sb ind zero j fs = done fs
free_entries sb ind (suc n) j fs = do
  u ←
      if load32 (fs.content ind) (4 * j) == 0
      then done fs
      else bfree sb (load32 (fs.content ind) (4 * j)) fs
  free_entries sb ind n (j + 1) u

unfoldable pub free_indirect : SuperBlock → ℕ → Fs → Outcome Fs
free_indirect sb i fs =
    let ind = (fs.inode i).addrs ndirect in
    if ind == 0
    then done fs
    else (free_entries sb ind nindirect 0 fs >>= λ u.
        bfree sb ind u >>= λ w. done (set_addr i ndirect 0 w))

unfoldable pub itrunc : SuperBlock → ℕ → Fs → Outcome Fs
itrunc sb i fs = do
  u ← free_direct sb i ndirect 0 fs
  w ← free_indirect sb i u
  done (iupdate sb i (put_inode i (record (w.inode i) { size = 0 }) w))

unfoldable pub free_inode : SuperBlock → ℕ → Fs → Outcome Fs
free_inode sb i fs = do
  u ← itrunc sb i fs
  let w = iupdate sb i (put_inode i (record (u.inode i) { type_ = 0 }) u)
  done (put_inode i (record (w.inode i) { valid = false }) w)

-- The caller has a reference: `ref` is not 0, from where `ref--` would make it negative.
unfoldable pub iput : SuperBlock → ℕ → Fs → Outcome Fs
iput sb i fs = do
  let ip = fs.inode i
  u ← if ip.ref == 1 && ip.valid && ip.nlink == 0 then free_inode sb i fs else done fs
  done (put_inode i (record (u.inode i) { ref = (u.inode i).ref - 1 }) u)

unfoldable pub iunlockput : SuperBlock → Bool → ℕ → Fs → Outcome Fs
iunlockput sb holding i fs = iunlock holding i fs >> iput sb i fs

-- kernel/stat.h, without the device.
pub record Stat : Type 0 where
  pub ino : ℕ
  pub type_ : ℕ
  pub nlink : ℕ
  pub size : ℕ

unfoldable pub stati : Inode → Stat
stati ip = record { ino = ip.inum; type_ = ip.type_; nlink = ip.nlink; size = ip.size }

-- One round of the loop of `readi`: the block is copied out, or the loop stops with `tot`, or
-- with -1, which is `none`.
pub data Round : Type 0 where
  stop : Round
  fail : Round
  go : ℕ → Round

unfoldable pub get_chunk : Copy → ℕ → ℕ → ℕ → ℕ → (ℕ → ℕ) → Fs → Round × (ℕ → ℕ) × Fs
get_chunk cp addr off dst m mem u =
    let out = cp.run mem dst (u.content addr) (off % bsize) m in
    if addr == 0 then (stop, mem, u) else if out.0 then (go m, out.1, u) else (fail, out.1, u)

unfoldable pub read_round :
    SuperBlock → Copy → ℕ → ℕ → ℕ → ℕ → (ℕ → ℕ) → Fs → Outcome (Round × (ℕ → ℕ) × Fs)
read_round sb cp i left off dst mem fs = do
  got ← bmap sb i (off / bsize) fs
  done (get_chunk cp got.0 off dst (min left (bsize - off % bsize)) mem got.1)

-- The loop of `readi` with `k` rounds left.
unfoldable pub read_loop :
    SuperBlock → Copy → ℕ → ℕ → ℕ → ℕ → ℕ → ℕ → (ℕ → ℕ) → Fs → Outcome (Option ℕ × (ℕ → ℕ) × Fs)
read_loop sb cp i zero n tot off dst mem fs = done (some tot, mem, fs)
read_loop sb cp i (suc k) n tot off dst mem fs =
    if ltb tot n
    then (read_round sb cp i (n - tot) off dst mem fs >>= λ got. elim got.0 [
      | stop ↦ done (some tot, got.1, got.2)
      | fail ↦ done (none, got.1, got.2)
      | go m ↦ read_loop sb cp i k n (tot + m) (off + m) (dst + m) got.1 got.2
    ])
    else done (some tot, mem, fs)

-- The result, the destination and the file system; -1 is `none`.
unfoldable pub readi :
    SuperBlock → Copy → ℕ → ℕ → ℕ → ℕ → (ℕ → ℕ) → Fs → Outcome (Option ℕ × (ℕ → ℕ) × Fs)
readi sb cp i dst off n mem fs =
    let size = (fs.inode i).size in
    let n' = if ltb size ((off + n) % 2 ^ 32) then size - off else n in
    if ltb size off || ltb ((off + n) % 2 ^ 32) off
    then done (some 0, mem, fs)
    else read_loop sb cp i n' n' 0 off dst mem fs

-- One round of the loop of `writei`: it goes on by `m` bytes, or stops.
unfoldable pub put_chunk : Copy → ℕ → ℕ → ℕ → ℕ → (ℕ → ℕ) → Fs → Option ℕ × Fs
put_chunk cp addr off src m mem u =
    let put = cp.run (u.content addr) (off % bsize) mem src m in
    if addr == 0
    then (none, u)
    else if put.0
    then (some m, write_block addr put.1 u)
    else (none, record u { content = update u.content addr put.1 })

unfoldable pub write_round :
    SuperBlock → Copy → ℕ → ℕ → ℕ → ℕ → (ℕ → ℕ) → Fs → Outcome (Option ℕ × Fs)
write_round sb cp i left off src mem fs = do
  got ← bmap sb i (off / bsize) fs
  done (put_chunk cp got.0 off src (min left (bsize - off % bsize)) mem got.1)

-- The loop of `writei` with `k` rounds left: `tot`, `off` and the file system.
unfoldable pub write_loop :
    SuperBlock → Copy → ℕ → ℕ → ℕ → ℕ → ℕ → ℕ → (ℕ → ℕ) → Fs → Outcome (ℕ × ℕ × Fs)
write_loop sb cp i zero n tot off src mem fs = done (tot, off, fs)
write_loop sb cp i (suc k) n tot off src mem fs =
    if ltb tot n
    then (write_round sb cp i (n - tot) off src mem fs >>= λ got. elim got.0 [
      | none ↦ done (tot, off, got.1)
      | some m ↦ write_loop sb cp i k n (tot + m) (off + m) (src + m) mem got.1
    ])
    else done (tot, off, fs)

-- `if(off > ip->size) ip->size = off;`
unfoldable pub grow : ℕ → ℕ → Fs → Fs
grow i off fs =
    let ip = fs.inode i in
    put_inode i (record ip { size = if ltb ip.size off then off else ip.size }) fs

unfoldable pub writei : SuperBlock → Copy → ℕ → ℕ → ℕ → ℕ → (ℕ → ℕ) → Fs → Outcome (Option ℕ × Fs)
writei sb cp i src off n mem fs =
    let size = (fs.inode i).size in
    if ltb size off || ltb ((off + n) % 2 ^ 32) off || ltb (maxfile * bsize) ((off + n) % 2 ^ 32)
    then done (none, fs)
    else (write_loop sb cp i n n 0 off src mem fs >>= λ got.
        done (some got.0, iupdate sb i (grow i got.1 got.2)))
