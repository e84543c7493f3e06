-- ===== src/Fs/Tests.antt =====
-- A small disk for kernel/fs.c: 32 blocks, the free map in block 5, the inodes in block 4.
use project_opertating_syste.Base.{
  ℕ, List, ◌∷◌, ◌/◌, ◌+◌, ◌-◌, ◌%◌, min, ◌≤◌, ◌<◌, ◌≡◌, refl, sym, ◌∙◌, ap, subst, ◌==◌, true,
  false, ◌⊎◌, if◌then◌else◌, Option, none, some, [], arith, ℕ_discrete, dec_lt, done, panic,
}
use project_opertating_syste.Fs.{
  bsize, Inode, Fs, SuperBlock, bblock, balloc, bfree, take_block, scan_blocks, scan_bits,
}
use project_opertating_syste.Fs.Layout.RoundTrip.{Fits, SameDinode}
use project_opertating_syste.Fs.Bitmap.{
  free_in, MapInv, Allocated, Freed, balloc-Allocated, bfree-Freed,
}
use project_opertating_syste.Fs.Inodes.{iget, ilock, iupdate, ialloc}
use project_opertating_syste.Fs.Inodes.Table.{Unique, GotOrFull, iget-Got}
use project_opertating_syste.Fs.Inodes.OnDisk.{on_disk, Made, ialloc-Made}
use project_opertating_syste.Fs.Files.Reopen.{ilock-iget}
use project_opertating_syste.Fs.Files.{ndirect, maxfile, bmap, itrunc, readi, writei}
use project_opertating_syste.Fs.Files.Put.{Gone, iput-Gone}
use project_opertating_syste.Fs.Files.{iput}
use project_opertating_syste.Fs.Inodes.{put_inode}
use project_opertating_syste.Base.{◌≢◌, true, false, Outcome}
use project_opertating_syste.Fs.Files.Copies.{kernel_copy}
use project_opertating_syste.Fs.Files.Slots.{
  Owns-same, slot, slot-direct, slot-last, slot-none, Held, Owns,
}
use project_opertating_syste.Fs.Dirs.{dirlookup, namex_from}
use project_opertating_syste.Fs.Dirs.Rounds.{namex_from-ends}
use project_opertating_syste.Fs.Dirs.Lookup.{Dir, Found, dirlookup-Found}
use project_opertating_syste.Fs.Files.Mapping.{Mapped}
use project_opertating_syste.Fs.Files.Bmap.{bmap-Mapped}
use project_opertating_syste.Fs.Files.Bytes.{max_bytes}
use project_opertating_syste.Fs.Files.Write.{Written, writei-Written}
use project_opertating_syste.Fs.Files.Read.{Ended, readi-Ended}
use project_opertating_syste.Fs.Files.RoundTrip.{readi-writei}
use project_opertating_syste.Fs.Files.Truncated.{Truncated, Stored, itrunc-Truncated}

abbrev small_disk : SuperBlock
small_disk = record { size = 32; ninodes = 16; inodestart = 4; bmapstart = 5 }

-- Blocks 0 to 9 are in use.
abbrev map_bytes : ℕ → ℕ
map_bytes i = if i == 0 then 255 else if i == 1 then 3 else 0

-- A file with its first block in block 8, and an entry with nothing read yet.
abbrev a_file : Inode
a_file = record {
  inum = 1;
  ref = 1;
  valid = true;
  type_ = 2;
  major = 0;
  minor = 0;
  nlink = 1;
  size = 10;
  addrs = λ k. if k == 0 then 8 else 0;
}

abbrev entry : ℕ → Inode
entry j = if j == 0 then a_file else record a_file { inum = 2; ref = 0; valid = false }

abbrev disk : Fs
disk = record {
  content = λ b i. if b == 5 then map_bytes i else if b == 8 then 7 else 0;
  logged = [];
  inode = entry;
}

disk-MapInv : MapInv small_disk disk
disk-MapInv = record {
  bytes = λ b h i. ground arith;
  reserved = λ b h.
      let at : bblock small_disk b ≡ 5 = omega arith in
      (omega arith, ap (free_in small_disk disk) at);
}

disk-slot : (s : ℕ) → s ≤ maxfile → slot disk 0 s ≡ (if s == 0 then 8 else 0)
disk-slot s h = elim (dec_lt s ndirect) [
  | yes l ↦ slot-direct disk 0 s l
  | no l ↦ elim (ℕ_discrete s maxfile) [
    | yes e ↦ ap (slot disk 0) e ∙ slot-last disk 0 ∙ ground arith
    | no n ↦ slot-none disk 0 s (omega arith) (omega arith) refl ∙ ground arith
  ]
]

disk-Owns : Owns small_disk disk 0
disk-Owns = record {
  map_inv = disk-MapInv;
  small = omega arith;
  boot = refl;
  home_disk = omega arith;
  home_used = refl;
  home_map = λ c h. omega arith;
  held = λ s h n.
      let at : slot disk 0 s ≡ 8 = ground (arith, disk-slot s h) in
      subst (Held small_disk disk 1) (sym at) (record {
        on_disk = omega arith;
        used = refl;
        not_map = λ c l. omega arith;
        not_home = omega arith;
      });
  distinct = λ s t h k n e. ground (arith, disk-slot s h, disk-slot t k);
}

disk-Unique : Unique disk
disk-Unique i j h k a b e = ground arith

a_file-Fits : Fits a_file
a_file-Fits = record {
  type_ = omega arith;
  major = omega arith;
  minor = omega arith;
  nlink = omega arith;
  size = omega arith;
  addrs = λ i h. ground arith;
}

-- Runs of `balloc` and `bmap`: the first free block is 10.
first_free : (balloc small_disk disk).0 ≡ 10
unfolding balloc take_block scan_blocks scan_bits
first_free = refl

balloc-Allocated_example : Allocated small_disk disk (balloc small_disk disk)
balloc-Allocated_example = balloc-Allocated small_disk disk disk-MapInv

bfree-Freed_example :
    (free_in small_disk disk 8 ≡ true → bfree small_disk 8 disk ≡ panic)
    × (free_in small_disk disk 8 ≡ false
        → (u : Fs) × (bfree small_disk 8 disk ≡ done u) × Freed small_disk disk 8 u)
bfree-Freed_example = bfree-Freed small_disk disk 8 disk-MapInv (omega arith) (λ c h. omega arith)

iget-Got_example : GotOrFull 3 disk (iget 3 disk)
iget-Got_example = iget-Got 3 disk disk-Unique

ilock-iget_example :
    (u : Fs) × (iput small_disk 0 (iupdate small_disk 0 disk) ≡ done u)
    × (j : ℕ) × (w : Fs) × (iget 1 u ≡ done (j, w))
    × (x : Fs) × (ilock small_disk j w ≡ done x)
    × SameDinode (x.inode j) a_file
    × ((x.inode j).inum ≡ 1)
    × ((x.inode j).valid ≡ true)
ilock-iget_example =
    ilock-iget small_disk 0 disk disk-Unique (omega arith) refl a_file-Fits
      (λ e. absurd (omega (arith, e))) (λ e. absurd (omega (arith, e)))

ialloc-Made_example : Made small_disk 2 disk (ialloc small_disk 2 disk)
ialloc-Made_example = ialloc-Made small_disk 2 disk (omega arith) disk-Unique

bmap-Mapped_example :
    (r : ℕ × Fs) × (bmap small_disk 0 20 disk ≡ done r) × Mapped small_disk 0 20 disk r
bmap-Mapped_example = bmap-Mapped small_disk 0 disk 20 disk-Owns (omega arith)

abbrev source : ℕ → ℕ
source a = a % 256

writei-Written_example :
    ((10 < 5) ⊎ (max_bytes < 5 + 2000)
      → writei small_disk kernel_copy 0 0 5 2000 source disk ≡ done (none, disk))
    × (5 ≤ 10
        → 5 + 2000 ≤ max_bytes
        → (tot : ℕ) × (u : Fs) × (writei small_disk kernel_copy 0 0 5 2000 source disk
            ≡ done (some tot, u))
          × Written small_disk kernel_copy 0 0 5 2000 source disk tot u
          × ((jp : Inode) → SameDinode (on_disk small_disk u (u.inode 0).inum jp) (u.inode 0)))
writei-Written_example =
    writei-Written small_disk kernel_copy 0 0 5 2000 source disk disk-Owns a_file-Fits (omega arith)
      (omega arith)

readi-Ended_example :
    ((10 < 5) ⊎ (4294967296 ≤ 5 + 100)
      → readi small_disk kernel_copy 0 0 5 100 source disk ≡ done (some 0, source, disk))
    × (5 ≤ 10
        → 5 + 100 < 4294967296
        → (r : Option ℕ × (ℕ → ℕ) × Fs) × (readi small_disk kernel_copy 0 0 5 100 source disk
            ≡ done r)
          × Ended small_disk kernel_copy 0 (min 100 (10 - 5)) 0 5 0 source disk r)
readi-Ended_example =
    readi-Ended small_disk kernel_copy 0 0 5 100 source disk disk-Owns (omega arith) (omega arith)
      (omega arith)

readi-writei_example :
    (tot : ℕ) × (u : Fs) × (writei small_disk kernel_copy 0 0 5 2000 source disk
      ≡ done (some tot, u))
    × (r : Option ℕ × (ℕ → ℕ) × Fs) × (readi small_disk kernel_copy 0 7 5 tot source u ≡ done r)
    × (r.0 ≡ some tot)
    × ((a : ℕ) → a < tot → r.1 (7 + a) ≡ source (0 + a))
readi-writei_example =
    readi-writei small_disk kernel_copy 0 0 5 2000 7 source source disk disk-Owns (omega arith)
      (omega arith) (omega arith)

itrunc-Truncated_example :
    (u : Fs) × (itrunc small_disk 0 disk ≡ done u)
    × Truncated small_disk 0 disk u
    × Stored small_disk 0 disk disk-Owns u
itrunc-Truncated_example =
    itrunc-Truncated small_disk 0 disk disk-Owns a_file-Fits (λ n c h l. omega arith)

-- A directory of one entry: inode 7 with the name "a".
abbrev a_dir : Inode
a_dir = record a_file { type_ = 1; size = 16 }

abbrev dir_disk : Fs
dir_disk = record {
  content = λ b i.
      if b == 5
      then map_bytes i
      else if b == 8
      then (if i == 0 then 7 else if i == 2 then b'a' else 0)
      else 0;
  logged = [];
  inode = λ j. if j == 0 then a_dir else record a_file { ref = 0 };
}

dir-slot : (s : ℕ) → s ≤ maxfile → slot dir_disk 0 s ≡ (if s == 0 then 8 else 0)
dir-slot s h = elim (dec_lt s ndirect) [
  | yes l ↦ slot-direct dir_disk 0 s l
  | no l ↦ elim (ℕ_discrete s maxfile) [
    | yes e ↦ ap (slot dir_disk 0) e ∙ slot-last dir_disk 0 ∙ ground arith
    | no n ↦ slot-none dir_disk 0 s (omega arith) (omega arith) refl ∙ ground arith
  ]
]

dir_disk-Dir : Dir small_disk dir_disk 0
dir_disk-Dir = record {
  owns =
      Owns-same small_disk disk dir_disk 0 disk-Owns
        (λ c h.
          let at : bblock small_disk c ≡ 5 = omega arith in
          ap dir_disk.content at ∙ ap disk.content (sym at))
        refl (λ s h. dir-slot s h ∙ sym (disk-slot s h));
  is_dir = refl;
  size = omega arith;
  whole = refl;
  there = λ k h z.
      let at : k / bsize ≡ 0 = omega arith in
      absurd (ground (arith, z, dir-slot (k / bsize) (omega arith)));
}

-- The name is at 100, the entry is read to 200.
abbrev name_memory : ℕ → ℕ
name_memory a = if a == 100 then b'a' else 0

dirlookup-Found_example :
    Found small_disk 0 100 200 name_memory dir_disk
      (dirlookup small_disk 0 100 200 name_memory dir_disk)
dirlookup-Found_example = dirlookup-Found small_disk 0 100 200 name_memory dir_disk dir_disk-Dir

-- The array `name`, not yet written.
abbrev blank : List ℕ
blank = 0 ∷ 0 ∷ 0 ∷ 0 ∷ 0 ∷ 0 ∷ 0 ∷ 0 ∷ 0 ∷ 0 ∷ 0 ∷ 0 ∷ 0 ∷ 0 ∷ []

namex_from-ends_example :
    (o : Outcome (Option ℕ × (ℕ → ℕ) × Fs)) × ((k : ℕ)
      → 3 < k
      → namex_from small_disk true 100 200 k (b'a' ∷ b'/' ∷ b'a' ∷ []) blank 0 name_memory dir_disk
        ≡ some o)
namex_from-ends_example =
    namex_from-ends small_disk true 100 200 (b'a' ∷ b'/' ∷ b'a' ∷ []) blank 0 name_memory dir_disk
      refl (omega arith, (omega arith, (omega arith, tt)))

iput-Gone_example :
    (0 < (disk.inode 0).ref
      → ((disk.inode 0).ref ≢ 1) ⊎ ((disk.inode 0).valid ≡ false) ⊎ ((disk.inode 0).nlink ≢ 0)
      → iput small_disk 0 disk ≡ done (put_inode 0 (record a_file { ref = 0 }) disk))
    × ((disk.inode 0).ref ≡ 1
        → (disk.inode 0).valid ≡ true
        → (disk.inode 0).nlink ≡ 0
        → (u : Fs) × (iput small_disk 0 disk ≡ done u) × Gone small_disk 0 disk u)
iput-Gone_example = iput-Gone small_disk 0 disk disk-Owns a_file-Fits
