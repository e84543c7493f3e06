-- ===== src/Fs/Files/Put.antt =====
-- `iput` of kernel/fs.c: the last reference to an inode without links frees it.
use project_opertating_syste.Base.{
  ℕ, ◌-◌, ◌≤◌, ◌<◌, ◌≡◌, ◌≢◌, refl, sym, ◌∙◌, ap, subst, ◌==◌, true, false, ◌&&◌, arith, ◌⊎◌, done,
}
use project_opertating_syste.Fs.{Fs, SuperBlock, bblock, iblock}
use project_opertating_syste.Fs.Layout.{load16, read_dinode}
use project_opertating_syste.Fs.Layout.RoundTrip.{Fits}
use project_opertating_syste.Fs.Bitmap.{free_in}
use project_opertating_syste.Fs.Inodes.{put_inode, dinode_offset, iupdate, is_free_inode}
use project_opertating_syste.Fs.Inodes.OnDisk.{get-put_inode, iupdate-Updated}
use project_opertating_syste.Fs.Files.{maxfile, free_inode, iput}
use project_opertating_syste.Fs.Files.Slots.{slot, Owns, free_in-same}
use project_opertating_syste.Fs.Files.Truncated.{Truncated, itrunc-freed}

-- What freeing inode `i` leaves: it is free on disk and so are its blocks, its entry is unused, and
-- no other entry changed.
pub record Gone (sb : SuperBlock) (i : ℕ) (fs u : Fs) : Type 0 where
  pub free_on_disk : is_free_inode sb u (fs.inode i).inum ≡ true
  pub blocks : (s : ℕ) → s ≤ maxfile → slot fs i s ≢ 0 → free_in sb u (slot fs i s) ≡ true
  pub kept :
      (c : ℕ)
      → c < sb.size
      → ((s : ℕ) → s ≤ maxfile → slot fs i s ≢ c)
      → free_in sb u c ≡ free_in sb fs c
  pub ref : (u.inode i).ref ≡ 0
  pub valid : (u.inode i).valid ≡ false
  pub inodes : (j : ℕ) → j ≢ i → u.inode j ≡ fs.inode j

module _ (sb : SuperBlock) (i : ℕ) (fs : Fs) (v : Owns sb fs i) (f : Fits (fs.inode i)) where
  -- The inode, truncated and without a type, goes to the disk.
  module _ (t : Fs) (x : Truncated sb i fs t) where
    abbrev untyped : Fs
    untyped = put_inode i (record (t.inode i) { type_ = 0 }) t

    untyped-here : untyped.inode i ≡ record (t.inode i) { type_ = 0 }
    untyped-here = get-put_inode i (record (t.inode i) { type_ = 0 }) t

    untyped-inum : (untyped.inode i).inum ≡ (fs.inode i).inum
    untyped-inum = ap (λ ip. ip.inum) untyped-here ∙ ap (λ ip. ip.inum) x.fields

    untyped-Fits : Fits (untyped.inode i)
    untyped-Fits =
        let same = x.fields in
        subst Fits (sym untyped-here) (record {
          type_ = omega arith;
          major = omega (arith, f.major, ap (λ ip. ip.major) same);
          minor = omega (arith, f.minor, ap (λ ip. ip.minor) same);
          nlink = omega (arith, f.nlink, ap (λ ip. ip.nlink) same);
          size = omega (arith, ap (λ ip. ip.size) same);
          addrs = λ a h. omega (arith, x.empty a (omega arith));
        })

    abbrev saved : Fs
    saved = iupdate sb i untyped

    abbrev unused : Fs
    unused =
        let w = put_inode i (record (saved.inode i) { valid = false }) saved in
        put_inode i (record (w.inode i) { ref = (w.inode i).ref - 1 }) w

    unused-here :
        (fs.inode i).ref ≡ 1 → ((unused.inode i).ref ≡ 0) × ((unused.inode i).valid ≡ false)
    unused-here e =
        let w = put_inode i (record (saved.inode i) { valid = false }) saved in
        let last = get-put_inode i (record (w.inode i) { ref = (w.inode i).ref - 1 }) w in
        let invalid = get-put_inode i (record (saved.inode i) { valid = false }) saved in
        let old : (saved.inode i).ref ≡ 1 =
          ap (λ g. (g i).ref) (iupdate-Updated sb i untyped untyped-Fits).inode
          ∙ ap (λ ip. ip.ref) untyped-here
          ∙ ap (λ ip. ip.ref) x.fields
          ∙ e in
        (
          ap (λ ip. ip.ref) last ∙ ap (λ ip. ip.ref - 1) invalid ∙ ap (λ n. n - 1) old,
          ap (λ ip. ip.valid) last ∙ ap (λ ip. ip.valid) invalid,
        )

    unused-Gone : (fs.inode i).ref ≡ 1 → Gone sb i fs unused
    unfolding read_dinode
    unused-Gone e =
        let u = iupdate-Updated sb i untyped untyped-Fits in
        let written = (u.written (fs.inode i)).type_ ∙ ap (λ ip. ip.type_) untyped-here in
        let zero_type : load16 (saved.content (iblock sb (fs.inode i).inum))
              (dinode_offset (fs.inode i).inum)
            ≡ 0 =
          subst (λ n. load16 (saved.content (iblock sb n)) (dinode_offset n) ≡ 0) untyped-inum
            written in
        let map : (c : ℕ) → c < sb.size → saved.content (bblock sb c) ≡ t.content (bblock sb c) =
          λ c h.
            u.elsewhere (bblock sb c) (λ q. v.home_map c h (q ∙ ap (iblock sb) untyped-inum)) in
        let entry = unused-here e in
        record {
          free_on_disk = ground (arith, zero_type);
          blocks = λ s h n.
              free_in-same sb t saved map (slot fs i s) (v.held s h n).on_disk ∙ x.freed s h n;
          kept = λ c h n. free_in-same sb t saved map c h ∙ x.kept c h n;
          ref = entry.0;
          valid = entry.1;
          inodes = λ j n.
              let apart : unused.inode j ≡ saved.inode j = ground arith in
              let apart' : untyped.inode j ≡ t.inode j = ground arith in
              apart ∙ ap (λ g. g j) u.inode ∙ apart' ∙ x.inodes j n;
        }

  -- `iput` of an inode in use that owns its blocks and whose fields fit: one reference to it less; and
  -- where that was the last one, the inode has been read and has no links, it is freed: on disk,
  -- its blocks and no others, and its entry. It does not panic.
  pub iput-Gone :
      (0 < (fs.inode i).ref
        → ((fs.inode i).ref ≢ 1) ⊎ ((fs.inode i).valid ≡ false) ⊎ ((fs.inode i).nlink ≢ 0)
        → iput sb i fs ≡ done (put_inode i (record (fs.inode i) { ref = (fs.inode i).ref - 1 }) fs))
      × ((fs.inode i).ref ≡ 1
          → (fs.inode i).valid ≡ true
          → (fs.inode i).nlink ≡ 0
          → (u : Fs) × (iput sb i fs ≡ done u) × Gone sb i fs u)
  unfolding iput free_inode
  iput-Gone = (
    λ p h.
        let test : ((fs.inode i).ref == 1 && (fs.inode i).valid && (fs.inode i).nlink == 0)
            ≡ false =
          ground arith in
        rw test refl,
    λ a b c.
        let test : ((fs.inode i).ref == 1 && (fs.inode i).valid && (fs.inode i).nlink == 0) ≡ true =
          ground arith in
        let (t, e, x) = itrunc-freed sb i fs v in
        rw (test, e) (unused t x, refl, unused-Gone t x a),
  )
