-- ===== src/Fs/Layout/RoundTrip.antt =====
-- What is read from a dinode of kernel/fs.h after one is written.
use project_opertating_syste.Base.{
  ℕ, zero, suc, ◌+◌, ◌*◌, ◌≤◌, ◌<◌, ◌≡◌, refl, sym, ◌∙◌, subst, ◌⊎◌, inl, arith, ℕ_discrete,
}
use project_opertating_syste.Fs.{Inode}
use project_opertating_syste.Fs.Layout.{
  load16, load32, store16, store32, naddrs, read_dinode, store_addrs, write_dinode,
}

-- Outside the `n` bytes from `o` on.
abbrev pub Outside : ℕ → ℕ → ℕ → Type 0
Outside o n a = (a < o) ⊎ (o + n ≤ a)

store16-Outside : (o v : ℕ) (c : ℕ → ℕ) (a : ℕ) → Outside o 2 a → store16 o v c a ≡ c a
unfolding store16
store16-Outside o v c a h = ground arith

pub store32-Outside : (o v : ℕ) (c : ℕ → ℕ) (a : ℕ) → Outside o 4 a → store32 o v c a ≡ c a
unfolding store32
store32-Outside o v c a h = ground arith

store_addrs-Outside :
    (n o : ℕ) (f c : ℕ → ℕ) (a : ℕ) → Outside o (4 * n) a → store_addrs n o f c a ≡ c a
unfolding store_addrs
store_addrs-Outside zero o f c a h = refl
store_addrs-Outside (suc n) o f c a h =
    store32-Outside (o + 4 * n) (f n) (store_addrs n o f c) a (ground arith)
    ∙ store_addrs-Outside n o f c a (ground arith)

load16-store16 : (o v : ℕ) (c : ℕ → ℕ) → v < 65536 → load16 (store16 o v c) o ≡ v
unfolding load16 store16
load16-store16 o v c h = ground arith

pub load32-store32 : (o v : ℕ) (c : ℕ → ℕ) → v < 4294967296 → load32 (store32 o v c) o ≡ v
unfolding load32 store32
load32-store32 o v c h = ground arith

-- A field reads the same where its bytes are the same.
pub load16-same :
    (c d : ℕ → ℕ) (o : ℕ) → ((a : ℕ) → o ≤ a → a < o + 2 → c a ≡ d a) → load16 c o ≡ load16 d o
unfolding load16
load16-same c d o h =
    omega (arith, h o (omega arith) (omega arith), h (o + 1) (omega arith) (omega arith))

pub load32-same :
    (c d : ℕ → ℕ) (o : ℕ) → ((a : ℕ) → o ≤ a → a < o + 4 → c a ≡ d a) → load32 c o ≡ load32 d o
unfolding load32
load32-same c d o h = omega (
  arith,
  h o (omega arith) (omega arith),
  h (o + 1) (omega arith) (omega arith),
  h (o + 2) (omega arith) (omega arith),
  h (o + 3) (omega arith) (omega arith),
)

pub load16-zero : (c : ℕ → ℕ) (o : ℕ) → ((a : ℕ) → o ≤ a → a < o + 2 → c a ≡ 0) → load16 c o ≡ 0
unfolding load16
load16-zero c o h =
    omega (arith, h o (omega arith) (omega arith), h (o + 1) (omega arith) (omega arith))

pub load32-zero : (c : ℕ → ℕ) (o : ℕ) → ((a : ℕ) → o ≤ a → a < o + 4 → c a ≡ 0) → load32 c o ≡ 0
unfolding load32
load32-zero c o h = omega (
  arith,
  h o (omega arith) (omega arith),
  h (o + 1) (omega arith) (omega arith),
  h (o + 2) (omega arith) (omega arith),
  h (o + 3) (omega arith) (omega arith),
)

load32-store_addrs :
    (n o : ℕ) (f c : ℕ → ℕ) (i : ℕ)
    → i < n
    → f i < 4294967296
    → load32 (store_addrs n o f c) (o + 4 * i) ≡ f i
unfolding store_addrs
load32-store_addrs zero o f c i h k = elim h [ ]
load32-store_addrs (suc n) o f c i h k = elim (ℕ_discrete i n) [
  | yes e ↦
      subst (λ x. load32 (store32 (o + 4 * n) (f n) (store_addrs n o f c)) (o + 4 * x) ≡ f x)
        (sym e)
        (load32-store32 (o + 4 * n) (f n) (store_addrs n o f c) (subst (λ x. f x < 4294967296) e k))
  | no e ↦
      load32-same _ (store_addrs n o f c) (o + 4 * i)
        (λ a p q. store32-Outside (o + 4 * n) (f n) (store_addrs n o f c) a (ground arith))
      ∙ load32-store_addrs n o f c i (omega arith) k
]

-- The fields fit.
pub record Fits (ip : Inode) : Type 0 where
  pub type_ : ip.type_ < 65536
  pub major : ip.major < 65536
  pub minor : ip.minor < 65536
  pub nlink : ip.nlink < 65536
  pub size : ip.size < 4294967296
  pub addrs : (i : ℕ) → i < naddrs → ip.addrs i < 4294967296

-- Two inodes have the same fields on disk.
pub record SameDinode (ip jp : Inode) : Type 0 where
  pub type_ : ip.type_ ≡ jp.type_
  pub major : ip.major ≡ jp.major
  pub minor : ip.minor ≡ jp.minor
  pub nlink : ip.nlink ≡ jp.nlink
  pub size : ip.size ≡ jp.size
  pub addrs : (i : ℕ) → i < naddrs → ip.addrs i ≡ jp.addrs i

module _ (o : ℕ) (ip : Inode) (c : ℕ → ℕ) where
  abbrev c1 : ℕ → ℕ
  c1 = store16 o ip.type_ c

  abbrev c2 : ℕ → ℕ
  c2 = store16 (o + 2) ip.major c1

  abbrev c3 : ℕ → ℕ
  c3 = store16 (o + 4) ip.minor c2

  abbrev c4 : ℕ → ℕ
  c4 = store16 (o + 6) ip.nlink c3

  abbrev c5 : ℕ → ℕ
  c5 = store32 (o + 8) ip.size c4

  -- Later fields leave the earlier ones.
  after5 : (a : ℕ) → a < o + 12 → write_dinode o ip c a ≡ c5 a
  unfolding write_dinode
  after5 a h = store_addrs-Outside naddrs (o + 12) ip.addrs c5 a (inl h)

  after4 : (a : ℕ) → a < o + 8 → write_dinode o ip c a ≡ c4 a
  after4 a h = after5 a (omega arith) ∙ store32-Outside (o + 8) ip.size c4 a (inl h)

  after3 : (a : ℕ) → a < o + 6 → write_dinode o ip c a ≡ c3 a
  after3 a h = after4 a (omega arith) ∙ store16-Outside (o + 6) ip.nlink c3 a (inl h)

  after2 : (a : ℕ) → a < o + 4 → write_dinode o ip c a ≡ c2 a
  after2 a h = after3 a (omega arith) ∙ store16-Outside (o + 4) ip.minor c2 a (inl h)

  after1 : (a : ℕ) → a < o + 2 → write_dinode o ip c a ≡ c1 a
  after1 a h = after2 a (omega arith) ∙ store16-Outside (o + 2) ip.major c1 a (inl h)

  -- A dinode that is written and read again is the same.
  pub read_dinode-write_dinode :
      (jp : Inode) → Fits ip → SameDinode (read_dinode (write_dinode o ip c) o jp) ip
  unfolding read_dinode
  read_dinode-write_dinode jp f = record {
    type_ = load16-same _ c1 o (λ a p q. after1 a q) ∙ load16-store16 o ip.type_ c f.type_;
    major =
        load16-same _ c2 (o + 2) (λ a p q. after2 a (omega arith))
        ∙ load16-store16 (o + 2) ip.major c1 f.major;
    minor =
        load16-same _ c3 (o + 4) (λ a p q. after3 a (omega arith))
        ∙ load16-store16 (o + 4) ip.minor c2 f.minor;
    nlink =
        load16-same _ c4 (o + 6) (λ a p q. after4 a (omega arith))
        ∙ load16-store16 (o + 6) ip.nlink c3 f.nlink;
    size =
        load32-same _ c5 (o + 8) (λ a p q. after5 a (omega arith))
        ∙ load32-store32 (o + 8) ip.size c4 f.size;
    addrs = λ i h.
        unfold write_dinode in load32-store_addrs naddrs (o + 12) ip.addrs c5 i h (f.addrs i h);
  }

  -- The 64 bytes of the dinode alone change.
  pub write_dinode-Outside : (a : ℕ) → Outside o 64 a → write_dinode o ip c a ≡ c a
  unfolding write_dinode
  write_dinode-Outside a h =
      store_addrs-Outside naddrs (o + 12) ip.addrs c5 a (ground arith)
      ∙ store32-Outside (o + 8) ip.size c4 a (ground arith)
      ∙ store16-Outside (o + 6) ip.nlink c3 a (ground arith)
      ∙ store16-Outside (o + 4) ip.minor c2 a (ground arith)
      ∙ store16-Outside (o + 2) ip.major c1 a (ground arith)
      ∙ store16-Outside o ip.type_ c a (ground arith)

-- Reading depends on the 64 bytes alone.
pub read_dinode-same :
    (c d : ℕ → ℕ) (o : ℕ) (jp : Inode)
    → ((a : ℕ) → o ≤ a → a < o + 64 → c a ≡ d a)
    → SameDinode (read_dinode c o jp) (read_dinode d o jp)
unfolding read_dinode
read_dinode-same c d o jp h = record {
  type_ = load16-same c d o (λ a p q. h a (omega arith) (omega arith));
  major = load16-same c d (o + 2) (λ a p q. h a (omega arith) (omega arith));
  minor = load16-same c d (o + 4) (λ a p q. h a (omega arith) (omega arith));
  nlink = load16-same c d (o + 6) (λ a p q. h a (omega arith) (omega arith));
  size = load32-same c d (o + 8) (λ a p q. h a (omega arith) (omega arith));
  addrs = λ i l. load32-same c d (o + 12 + 4 * i) (λ a p q. h a (omega arith) (omega arith));
}
