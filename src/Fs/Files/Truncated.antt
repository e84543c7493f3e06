-- ===== src/Fs/Files/Truncated.antt =====
-- `itrunc` of kernel/fs.c: it frees the blocks of the inode.
use project_opertating_syste.Base.{
  ℕ, ◌+◌, ◌≤◌, ◌<◌, ◌≡◌, ◌≢◌, refl, sym, ◌∙◌, ap, subst, ltb, true, arith, done,
}
use project_opertating_syste.Fs.{Inode, Fs, SuperBlock, bblock, iblock}
use project_opertating_syste.Fs.Bitmap.{free_in, MapInv}
use project_opertating_syste.Fs.Layout.{read_dinode}
use project_opertating_syste.Fs.Layout.RoundTrip.{Fits, SameDinode}
use project_opertating_syste.Fs.Inodes.{put_inode, iupdate, dinode_offset}
use project_opertating_syste.Fs.Inodes.OnDisk.{get-put_inode, on_disk, iupdate-Updated}
use project_opertating_syste.Fs.Files.{ndirect, maxfile, itrunc}
use project_opertating_syste.Fs.Files.Slots.{slot, Owns, MapInv-same, free_in-same}
use project_opertating_syste.Fs.Files.Trunc.{
  Freeing, Cleared, start-Freeing, free_direct-Freeing, free_indirect-Freeing,
}

-- What `itrunc` leaves: every block of the inode is free, and no other changed its mark; no block
-- but the map's and the inode's changed; the inode has no blocks and size 0.
pub record Truncated (sb : SuperBlock) (i : ℕ) (fs u : Fs) : Type 0 where
  pub freed : (s : ℕ) → s ≤ maxfile → slot fs i s ≢ 0 → free_in sb u (slot fs i s) ≡ true
  pub kept :
      (c : ℕ)
      → c < sb.size
      → ((s : ℕ) → s ≤ maxfile → slot fs i s ≢ c)
      → free_in sb u c ≡ free_in sb fs c
  pub content :
      (d : ℕ)
      → ((c : ℕ) → c < sb.size → bblock sb c ≢ d)
      → d ≢ iblock sb (fs.inode i).inum
      → u.content d ≡ fs.content d
  pub inodes : (j : ℕ) → j ≢ i → u.inode j ≡ fs.inode j
  pub fields : u.inode i ≡ record (fs.inode i) { addrs = (u.inode i).addrs; size = 0 }
  pub empty : (a : ℕ) → a ≤ ndirect → (u.inode i).addrs a ≡ 0
  pub map_inv : MapInv sb u

module _ (sb : SuperBlock) (i : ℕ) (fs : Fs) (v : Owns sb fs i) where
  abbrev emptied : Fs → Fs
  emptied u = iupdate sb i (put_inode i (record (u.inode i) { size = 0 }) u)

  emptied-here : (u : Fs) → (emptied u).inode i ≡ record (u.inode i) { size = 0 }
  unfolding iupdate
  emptied-here u = get-put_inode i (record (u.inode i) { size = 0 }) u

  emptied-other : (u : Fs) (j : ℕ) → j ≢ i → (emptied u).inode j ≡ u.inode j
  unfolding iupdate
  emptied-other u j n = ground arith

  emptied-elsewhere :
      (u : Fs) (d : ℕ) → d ≢ iblock sb (u.inode i).inum → (emptied u).content d ≡ u.content d
  unfolding iupdate
  emptied-elsewhere u d n =
      let ip : Inode = record (u.inode i) { size = 0 } in
      let apart : d ≢ iblock sb ((put_inode i ip u).inode i).inum =
        λ q. n (q ∙ ap (λ x. iblock sb x.inum) (get-put_inode i ip u)) in
      ground arith

  emptied-Truncated :
      (u : Fs)
      → Freeing sb i fs (maxfile + 1) u
      → Cleared sb i fs v (ndirect + 1) u
      → Truncated sb i fs (emptied u)
  emptied-Truncated u f c =
      let inum : (u.inode i).inum ≡ (fs.inode i).inum = ap (λ ip. ip.inum) f.fields in
      let elsewhere : (d : ℕ)
          → d ≢ iblock sb (fs.inode i).inum
          → (emptied u).content d ≡ u.content d =
        λ d n. emptied-elsewhere u d (λ e. n (e ∙ ap (iblock sb) inum)) in
      let map : (d : ℕ)
          → d < sb.size
          → (emptied u).content (bblock sb d) ≡ u.content (bblock sb d) =
        λ d h. elsewhere (bblock sb d) (v.home_map d h) in
      let here = emptied-here u in
      record {
        freed = λ s h n.
            free_in-same sb u (emptied u) map (slot fs i s) (v.held s h n).on_disk
            ∙ f.freed s (omega arith) n;
        kept =
            λ d h n. free_in-same sb u (emptied u) map d h ∙ f.kept d h (λ s l. n s (omega arith));
        content = λ d n m. elsewhere d m ∙ f.content d n;
        inodes = λ j n. emptied-other u j n ∙ f.inodes j n;
        fields =
            here
            ∙ ap {A = Inode} {B = Inode} (λ ip. record ip { size = 0 }) f.fields
            ∙ ap {A = ℕ → ℕ} {B = Inode} (λ x. record (fs.inode i) { size = 0; addrs = x })
                (ap (λ ip. ip.addrs) (sym here));
        empty = λ a h.
            let test : ltb a (ndirect + 1) ≡ true = ground arith in
            ap (λ ip. ip.addrs a) here ∙ c a h ∙ rw test refl;
        map_inv = MapInv-same sb u (emptied u) map f.map_inv;
      }

  -- The file system before `itrunc` writes the inode back.
  itrunc-emptied :
      (w : Fs) × (itrunc sb i fs ≡ done (emptied w))
      × Freeing sb i fs (maxfile + 1) w
      × Cleared sb i fs v (ndirect + 1) w
  unfolding itrunc
  itrunc-emptied =
      let (u, e, f, c) =
        free_direct-Freeing sb i fs v ndirect 0 fs refl (start-Freeing sb i fs v)
          (λ a h. ground arith) in
      let (w, x, g, d) = free_indirect-Freeing sb i fs v u f c in rw (e, x) (w, refl, g, d)

  -- What `itrunc` leaves in the table and in the map.
  pub itrunc-freed : (u : Fs) × (itrunc sb i fs ≡ done u) × Truncated sb i fs u
  itrunc-freed = let (w, e, f, c) = itrunc-emptied in (emptied w, e, emptied-Truncated w f c)

  -- The inode's place on disk has what its entry has, and the other inodes on disk are as before.
  pub record Stored (u : Fs) : Type 0 where
    pub written : (jp : Inode) → SameDinode (on_disk sb u (fs.inode i).inum jp) (u.inode i)
    pub others :
        (n : ℕ) (jp : Inode)
        → n < sb.ninodes
        → n ≢ (fs.inode i).inum
        → SameDinode (on_disk sb u n jp) (on_disk sb fs n jp)

  module _ (fits : Fits (fs.inode i))
      (apart : (n c : ℕ) → n < sb.ninodes → c < sb.size → bblock sb c ≢ iblock sb n) where
    cleared-Stored :
        (w : Fs)
        → Freeing sb i fs (maxfile + 1) w
        → Truncated sb i fs (emptied w)
        → Stored (emptied w)
    cleared-Stored w f t =
        let g = put_inode i (record (w.inode i) { size = 0 }) w in
        let entry : (emptied w).inode ≡ g.inode = unfold iupdate in refl in
        let here : g.inode i ≡ (emptied w).inode i = sym (ap (λ x. x i) entry) in
        let same = t.fields in
        let small : Fits (g.inode i) = subst Fits (sym here) (record {
          type_ = omega (arith, fits.type_, ap (λ ip. ip.type_) same);
          major = omega (arith, fits.major, ap (λ ip. ip.major) same);
          minor = omega (arith, fits.minor, ap (λ ip. ip.minor) same);
          nlink = omega (arith, fits.nlink, ap (λ ip. ip.nlink) same);
          size = omega (arith, ap (λ ip. ip.size) same);
          addrs = λ a h. omega (arith, t.empty a (omega arith));
        }) in
        let up = iupdate-Updated sb i g small in
        let inum : (g.inode i).inum ≡ (fs.inode i).inum =
          ap (λ ip. ip.inum) here ∙ ap (λ ip. ip.inum) same in
        record {
          written = λ jp.
              subst (λ n. SameDinode (on_disk sb (emptied w) n jp) ((emptied w).inode i)) inum
                (subst (λ x. SameDinode (on_disk sb (emptied w) (g.inode i).inum jp) x) here
                  (up.written jp));
          others = λ n jp h d.
              let before : w.content (iblock sb n) ≡ fs.content (iblock sb n) =
                f.content (iblock sb n) (λ c l. apart n c h l) in
              subst
                (λ (c : ℕ → ℕ).
                  SameDinode (on_disk sb (emptied w) n jp) (read_dinode c (dinode_offset n) jp))
                before (up.others n jp (λ e. d (e ∙ inum)));
        }

    -- `itrunc` of an inode that owns its blocks and whose fields fit, on a disk whose map lies apart
    -- from its inodes, does not panic. It frees every block of the inode, and marks no other one; no
    -- block changes but those of the map and the inode's; the inode has no blocks and size 0, in its
    -- entry and on disk, and no other inode changes, in the table or on disk.
    pub itrunc-Truncated : (u : Fs) × (itrunc sb i fs ≡ done u) × Truncated sb i fs u × Stored u
    itrunc-Truncated =
        let (w, e, f, c) = itrunc-emptied in
        let t = emptied-Truncated w f c in (emptied w, e, t, cleared-Stored w f t)
