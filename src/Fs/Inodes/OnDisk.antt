-- ===== src/Fs/Inodes/OnDisk.antt =====
-- `iupdate`, `ilock` and `ialloc` of kernel/fs.c on the inodes' blocks.
use project_opertating_syste.Base.{
  ℕ, ◌+◌, ◌-◌, ◌*◌, ◌≤◌, ◌<◌, ◌≡◌, ◌≢◌, refl, sym, ◌∙◌, ap, subst, ◌==◌, ltb, true, false, Option,
  none, some, Outcome, done, panic, ◌>>=◌, arith, ℕ_discrete, ◌∷◌, First, missing, hit,
}
use project_opertating_syste.Fs.{Inode, Fs, SuperBlock, iblock, write_block}
use project_opertating_syste.Fs.Layout.{load16, store16, naddrs, read_dinode, write_dinode}
use project_opertating_syste.Fs.Layout.RoundTrip.{
  Fits, SameDinode, read_dinode-write_dinode, write_dinode-Outside, read_dinode-same, Outside,
  load16-zero, load32-zero,
}
use project_opertating_syste.Fs.Inodes.{
  put_inode, first_index, iupdate, ilock, load_inode, dinode_offset, is_free_inode, fresh_dinode,
  ialloc, ialloc_at, iget,
}
use project_opertating_syste.Fs.Inodes.Table.{
  first_index-First, Unique, Got, GotOrFull, full, got, iget-Got,
}

-- Inode `n` as the disk has it, in the other fields of `ip`.
abbrev pub on_disk : SuperBlock → Fs → ℕ → Inode → Inode
on_disk sb fs n ip = read_dinode (fs.content (iblock sb n)) (dinode_offset n) ip

-- A change of one dinode's 64 bytes leaves the other inodes on disk.
others_same :
    (sb : SuperBlock) (fs u : Fs) (m : ℕ)
    → ((b : ℕ) → b ≢ iblock sb m → u.content b ≡ fs.content b)
    → ((a : ℕ)
        → Outside (dinode_offset m) 64 a
        → u.content (iblock sb m) a ≡ fs.content (iblock sb m) a)
    → (n : ℕ) (ip : Inode) → n ≢ m
    → SameDinode (on_disk sb u n ip) (on_disk sb fs n ip)
others_same sb fs u m h k n ip d =
    read_dinode-same (u.content (iblock sb n)) (fs.content (iblock sb n)) (dinode_offset n) ip
      (λ a p q. elim (ℕ_discrete (iblock sb n) (iblock sb m)) [
        | yes e ↦
            let apart : Outside (dinode_offset m) 64 a = ground arith in
            subst (λ x. u.content x a ≡ fs.content x a) (sym e) (k a apart)
        | no e ↦ ap (λ c. c a) (h (iblock sb n) e)
      ])

-- The file system after `iupdate` of inode `ip`.
pub record Updated (sb : SuperBlock) (ip : Inode) (fs u : Fs) : Type 0 where
  pub written : (jp : Inode) → SameDinode (on_disk sb u ip.inum jp) ip
  pub others :
      (n : ℕ) (jp : Inode) → n ≢ ip.inum → SameDinode (on_disk sb u n jp) (on_disk sb fs n jp)
  pub elsewhere : (b : ℕ) → b ≢ iblock sb ip.inum → u.content b ≡ fs.content b
  pub inode : u.inode ≡ fs.inode
  pub logged : u.logged ≡ iblock sb ip.inum ∷ fs.logged

-- `iupdate` of an inode whose fields fit writes them to its place on disk, where they are read
-- again; no other inode on disk and no other block changes, and the block is logged.
pub iupdate-Updated :
    (sb : SuperBlock) (i : ℕ) (fs : Fs)
    → Fits (fs.inode i)
    → Updated sb (fs.inode i) fs (iupdate sb i fs)
unfolding iupdate
iupdate-Updated sb i fs f =
    let ip = fs.inode i in
    let o = dinode_offset ip.inum in
    let c = fs.content (iblock sb ip.inum) in
    let u = write_block (iblock sb ip.inum) (write_dinode o ip c) fs in
    let here : u.content (iblock sb ip.inum) ≡ write_dinode o ip c = ground arith in
    record {
      written = λ jp.
          subst (λ x. SameDinode (read_dinode x o jp) ip) (sym here)
            (read_dinode-write_dinode o ip c jp f);
      others =
          others_same sb fs u ip.inum (λ b n. ground arith)
            (λ a h. ap (λ x. x a) here ∙ write_dinode-Outside o ip c a h);
      elsewhere = λ b n. ground arith;
      inode = refl;
      logged = refl;
    }

-- `ilock` of an entry in use that is not valid reads the inode, unless its type on disk is 0.
pub ilock-read :
    (sb : SuperBlock) (j : ℕ) (w : Fs)
    → 0 < (w.inode j).ref
    → (w.inode j).valid ≡ false
    → let jp = on_disk sb w (w.inode j).inum (w.inode j) in
      (jp.type_ ≡ 0 → ilock sb j w ≡ panic)
      × (jp.type_ ≢ 0 → ilock sb j w ≡ done (put_inode j (record jp { valid = true }) w))
unfolding ilock load_inode read_dinode
ilock-read sb j w refs stale =
    let in_use : ltb (w.inode j).ref 1 ≡ false = ground arith in
    let jp = on_disk sb w (w.inode j).inum (w.inode j) in
    (
      λ z. let test : (jp.type_ == 0) ≡ true = ground arith in rw (in_use, stale, test) refl,
      λ n. let test : (jp.type_ == 0) ≡ false = ground arith in rw (in_use, stale, test) refl,
    )

pub get-put_inode : (i : ℕ) (ip : Inode) (fs : Fs) → (put_inode i ip fs).inode i ≡ ip
get-put_inode i ip fs = ground arith

-- The file system after `ialloc` chose inode `m` on disk, and before it gets an entry.
pub record Chosen (sb : SuperBlock) (type_ m : ℕ) (fs w : Fs) : Type 0 where
  pub below : m < sb.ninodes
  pub free : is_free_inode sb fs m ≡ true
  pub first : (c : ℕ) → 1 ≤ c → c < m → is_free_inode sb fs c ≡ false
  pub typed : (jp : Inode) → (on_disk sb w m jp).type_ ≡ type_
  pub zeroed :
      (jp : Inode)
      → ((on_disk sb w m jp).nlink ≡ 0)
        × ((on_disk sb w m jp).size ≡ 0)
        × ((i : ℕ) → i < naddrs → (on_disk sb w m jp).addrs i ≡ 0)
  pub others : (n : ℕ) (jp : Inode) → n ≢ m → SameDinode (on_disk sb w n jp) (on_disk sb fs n jp)
  pub inode : w.inode ≡ fs.inode
  pub logged : w.logged ≡ iblock sb m ∷ fs.logged

-- How `ialloc` ends.
pub data Made (sb : SuperBlock) (type_ : ℕ) (fs : Fs) : Outcome (Option ℕ × Fs) → Type 0 where
  no_inode :
      ((c : ℕ) → 1 ≤ c → c < sb.ninodes → is_free_inode sb fs c ≡ false)
      → Made sb type_ fs (done (none, fs))
  no_entry : {m : ℕ} {w : Fs} → Chosen sb type_ m fs w → iget m w ≡ panic → Made sb type_ fs panic
  made :
      {m i : ℕ} {w u : Fs}
      → Chosen sb type_ m fs w
      → Got m w i u
      → Made sb type_ fs (done (some i, u))

fresh-type : (o t : ℕ) (c : ℕ → ℕ) → t < 65536 → load16 (fresh_dinode o t c) o ≡ t
unfolding load16 store16
fresh-type o t c h = ground arith

fresh-zero : (o t : ℕ) (c : ℕ → ℕ) (a : ℕ) → o + 2 ≤ a → a < o + 64 → fresh_dinode o t c a ≡ 0
unfolding store16
fresh-zero o t c a p q = ground arith

fresh-Outside : (o t : ℕ) (c : ℕ → ℕ) (a : ℕ) → Outside o 64 a → fresh_dinode o t c a ≡ c a
unfolding store16
fresh-Outside o t c a h = ground arith

module _ (sb : SuperBlock) (type_ : ℕ) (fs : Fs) (fits : type_ < 65536) where
  abbrev fresh : ℕ → Fs
  fresh m =
      write_block (iblock sb m) (fresh_dinode (dinode_offset m) type_ (fs.content (iblock sb m))) fs

  fresh-Chosen :
      (m : ℕ)
      → m < sb.ninodes
      → is_free_inode sb fs m ≡ true
      → ((c : ℕ) → 1 ≤ c → c < m → is_free_inode sb fs c ≡ false)
      → Chosen sb type_ m fs (fresh m)
  unfolding read_dinode
  fresh-Chosen m h e first =
      let o = dinode_offset m in
      let c = fs.content (iblock sb m) in
      let w = (fresh m).content (iblock sb m) in
      let here : w ≡ fresh_dinode o type_ c = ground arith in
      let zero_at : (a : ℕ) → o + 2 ≤ a → a < o + 64 → w a ≡ 0 =
        λ a p q. ap (λ x. x a) here ∙ fresh-zero o type_ c a p q in
      record {
        below = h;
        free = e;
        first = first;
        typed = λ jp. ap (λ x. load16 x o) here ∙ fresh-type o type_ c fits;
        zeroed = λ jp. (
          load16-zero w (o + 6) (λ a p q. zero_at a (omega arith) (omega arith)),
          load32-zero w (o + 8) (λ a p q. zero_at a (omega arith) (omega arith)),
          λ i l. load32-zero w (o + 12 + 4 * i) (λ a p q. zero_at a (omega arith) (omega arith)),
        );
        others =
            others_same sb fs (fresh m) m (λ b n. ground arith)
              (λ a p. ap (λ x. x a) here ∙ fresh-Outside o type_ c a p);
        inode = refl;
        logged = refl;
      }

  -- `ialloc` of a type that fits, where no inode is in two entries in use. It returns no inode, and
  -- changes nothing, exactly where every inode of the disk from 1 on is taken. Else the first free
  -- one gets the type, with no links, size 0 and no blocks; every other inode on disk stays; and
  -- then it ends as `iget` of that inode: with an entry for it, or in a panic where none is left.
  pub ialloc-Made : Unique fs → Made sb type_ fs (ialloc sb type_ fs)
  unfolding ialloc ialloc_at
  ialloc-Made v =
      at (first_index (is_free_inode sb fs) (sb.ninodes - 1) 1)
        (first_index-First (is_free_inode sb fs) (sb.ninodes - 1) 1)
    where
      entry :
          (m : ℕ) (o : Outcome (ℕ × Fs))
          → Chosen sb type_ m fs (fresh m)
          → iget m (fresh m) ≡ o
          → GotOrFull m (fresh m) o
          → Made sb type_ fs (o >>= λ got. done (some got.0, got.1))
      entry m _ c e (full h k) = no_entry c e
      entry m _ c e (got g) = made c g

      at :
          (o : Option ℕ)
          → First (is_free_inode sb fs) 1 (1 + (sb.ninodes - 1)) o
          → Made sb type_ fs (ialloc_at sb type_ fs o)
      at none (missing h) = no_inode (λ c p q. h c p (omega arith))
      at (some m) (hit p q t h) =
          entry m (iget m (fresh m)) (fresh-Chosen m (omega arith) t (λ c x y. h c x y)) refl
            (iget-Got m (fresh m) v)
