-- ===== src/Fs/Layout.antt =====
-- `struct dinode` of kernel/fs.h in the bytes of a block: 16 and 32-bit fields, low byte first.
pub mod RoundTrip
use project_opertating_syste.Base.{ℕ, zero, suc, ◌+◌, ◌*◌, ◌/◌, ◌%◌, update, for_up}
use project_opertating_syste.Fs.{Inode}

unfoldable pub load16 : (ℕ → ℕ) → ℕ → ℕ
load16 c o = c o + 256 * c (o + 1)

unfoldable pub load32 : (ℕ → ℕ) → ℕ → ℕ
load32 c o = c o + 256 * c (o + 1) + 65536 * c (o + 2) + 16777216 * c (o + 3)

unfoldable pub store16 : ℕ → ℕ → (ℕ → ℕ) → ℕ → ℕ
store16 o v c = update (update c o (v % 256)) (o + 1) (v / 256 % 256)

unfoldable pub store32 : ℕ → ℕ → (ℕ → ℕ) → ℕ → ℕ
store32 o v c =
    update
      (update (update (update c o (v % 256)) (o + 1) (v / 256 % 256)) (o + 2) (v / 65536 % 256))
      (o + 3) (v / 16777216 % 256)

-- NDIRECT + 1
abbrev pub naddrs : ℕ
naddrs = 13

-- The fields that `ilock` copies from the dinode at offset `o`.
unfoldable pub read_dinode : (ℕ → ℕ) → ℕ → Inode → Inode
read_dinode c o ip = record ip {
  type_ = load16 c o;
  major = load16 c (o + 2);
  minor = load16 c (o + 4);
  nlink = load16 c (o + 6);
  size = load32 c (o + 8);
  addrs = λ i. load32 c (o + 12 + 4 * i);
}

unfoldable pub store_addrs : ℕ → ℕ → (ℕ → ℕ) → (ℕ → ℕ) → ℕ → ℕ
store_addrs n o addrs = for_up n (λ i. store32 (o + 4 * i) (addrs i))

-- The fields that `iupdate` copies to it.
unfoldable pub write_dinode : ℕ → Inode → (ℕ → ℕ) → ℕ → ℕ
write_dinode o ip c = store_addrs naddrs (o + 12) ip.addrs (
    store32 (o + 8) ip.size (
      store16 (o + 6) ip.nlink
        (store16 (o + 4) ip.minor (store16 (o + 2) ip.major (store16 o ip.type_ c)))))
