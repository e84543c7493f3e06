-- ===== src/Fs/Files/Reopen.antt =====
-- An inode that is written back, dropped from the table and taken up again, kernel/fs.c.
use project_opertating_syste.Base.{
  ℕ, ◌-◌, ◌<◌, ◌≡◌, ◌≢◌, refl, sym, ◌∙◌, ap, subst, ◌==◌, ◌&&◌, true, false, arith, ℕ_discrete, inl,
  inr, Outcome, done,
}
use project_opertating_syste.Fs.{Fs, SuperBlock}
use project_opertating_syste.Fs.Layout.{read_dinode}
use project_opertating_syste.Fs.Layout.RoundTrip.{Fits, SameDinode}
use project_opertating_syste.Fs.Inodes.{ninode, put_inode, iupdate, iget, ilock}
use project_opertating_syste.Fs.Inodes.Table.{Unique, GotOrFull, full, got, iget-Got}
use project_opertating_syste.Fs.Inodes.OnDisk.{on_disk, iupdate-Updated, ilock-read, get-put_inode}
use project_opertating_syste.Fs.Files.{iput}

module _ (sb : SuperBlock) (i : ℕ) (fs : Fs) (unique : Unique fs) (in_table : i < ninode)
    (last : (fs.inode i).ref ≡ 1) where
  -- The inode written back, and its entry given up.
  abbrev dropped : Fs
  dropped =
      let w = iupdate sb i fs in put_inode i (record (w.inode i) { ref = (w.inode i).ref - 1 }) w

  dropped-other : (j : ℕ) → j ≢ i → dropped.inode j ≡ fs.inode j
  unfolding iupdate
  dropped-other j n = ground arith

  dropped-ref : (dropped.inode i).ref ≡ 0
  unfolding iupdate
  dropped-ref = ground arith

  dropped-Unique : Unique dropped
  dropped-Unique j k h l a b e = elim (ℕ_discrete j i) [
    | yes x ↦ absurd (omega (arith, a, ap (λ y. (dropped.inode y).ref) x, dropped-ref))
    | no x ↦ elim (ℕ_discrete k i) [
      | yes y ↦ absurd (omega (arith, b, ap (λ z. (dropped.inode z).ref) y, dropped-ref))
      | no y ↦
          let p = dropped-other j x in
          let q = dropped-other k y in
          unique j k h l (subst (λ ip. 0 < ip.ref) p a) (subst (λ ip. 0 < ip.ref) q b)
            (ap (λ ip. ip.inum) (sym p) ∙ e ∙ ap (λ ip. ip.inum) q)
    ]
  ]

  -- No entry has the inode any more.
  dropped-none :
      (j : ℕ) → j < ninode → 0 < (dropped.inode j).ref → (dropped.inode j).inum ≢ (fs.inode i).inum
  dropped-none j h r e = elim (ℕ_discrete j i) [
    | yes x ↦ absurd (omega (arith, r, ap (λ y. (dropped.inode y).ref) x, dropped-ref))
    | no x ↦
        let p = dropped-other j x in
        x (
          unique j i h in_table (subst (λ ip. 0 < ip.ref) p r) (omega arith)
            (ap (λ ip. ip.inum) (sym p) ∙ e))
  ]

  iput-dropped : (fs.inode i).nlink ≢ 0 → iput sb i (iupdate sb i fs) ≡ done dropped
  unfolding iput iupdate
  iput-dropped n =
      let test : ((fs.inode i).ref == 1 && (fs.inode i).valid && (fs.inode i).nlink == 0) ≡ false =
        ground arith in
      rw test refl

  -- `ilock` of an entry that `iget` recycled for the inode.
  module _ (fits : Fits (fs.inode i)) (typed : (fs.inode i).type_ ≢ 0) where
    -- What is read: the entry, and the inode there.
    abbrev Reads : Outcome (ℕ × Fs) → Type 0
    Reads o =
        (j : ℕ) × (w : Fs) × (o ≡ done (j, w))
        × (x : Fs) × (ilock sb j w ≡ done x)
        × SameDinode (x.inode j) (fs.inode i)
        × ((x.inode j).inum ≡ (fs.inode i).inum)
        × ((x.inode j).valid ≡ true)

    recycled-Reads :
        (j : ℕ) (w : Fs)
        → w.content ≡ dropped.content
        → (w.inode j).inum ≡ (fs.inode i).inum
        → (w.inode j).ref ≡ 1
        → (w.inode j).valid ≡ false
        → Reads (done (j, w))
    unfolding iupdate read_dinode
    recycled-Reads j w same inum one stale =
        let up = iupdate-Updated sb i fs fits in
        let jp = on_disk sb w (w.inode j).inum (w.inode j) in
        let read : SameDinode jp (fs.inode i) =
          subst (λ n. SameDinode (on_disk sb w n (w.inode j)) (fs.inode i)) (sym inum)
            (subst
              (λ (c : ℕ → ℕ → ℕ).
                SameDinode (on_disk sb (record w { content = c }) (fs.inode i).inum (w.inode j))
                  (fs.inode i))
              (sym same) (up.written (w.inode j))) in
        let now = get-put_inode j (record jp { valid = true }) w in
        (
          j,
          w,
          refl,
          put_inode j (record jp { valid = true }) w,
          (ilock-read sb j w (omega (arith, one)) stale).1 (λ z. typed (sym read.type_ ∙ z)),
          subst (λ x. SameDinode x (fs.inode i)) (sym now)
              (record {
                type_ = read.type_;
                major = read.major;
                minor = read.minor;
                nlink = read.nlink;
                size = read.size;
                addrs = read.addrs;
              }),
          ap (λ ip. ip.inum) now ∙ inum,
          ap (λ ip. ip.valid) now,
        )

    got-Reads : (o : Outcome (ℕ × Fs)) → GotOrFull (fs.inode i).inum dropped o → Reads o
    got-Reads _ (full h k) = absurd (k i in_table dropped-ref)
    got-Reads _ (got {i = j} {u = w} g) = elim g.count [
      | inl (held, _) ↦
          absurd (dropped-none j g.in_table (ground (arith, held)) (ground (arith, held)))
      | inr (_, one, stale) ↦ recycled-Reads j w g.content g.has_inum one stale
    ]

  -- An inode with one reference, with links and a type, and with fields that fit, in a table without
  -- two entries in use for one inode: after `iupdate` and `iput`, `iget` of its number returns an
  -- entry, and `ilock` of that entry returns, with the fields that the inode had.
  pub ilock-iget :
      Fits (fs.inode i)
      → (fs.inode i).type_ ≢ 0
      → (fs.inode i).nlink ≢ 0
      → (u : Fs) × (iput sb i (iupdate sb i fs) ≡ done u)
        × (j : ℕ) × (w : Fs) × (iget (fs.inode i).inum u ≡ done (j, w))
        × (x : Fs) × (ilock sb j w ≡ done x)
        × SameDinode (x.inode j) (fs.inode i)
        × ((x.inode j).inum ≡ (fs.inode i).inum)
        × ((x.inode j).valid ≡ true)
  ilock-iget fits typed linked =
      let (j, w, e, x, f, read, inum, valid) =
        got-Reads fits typed (iget (fs.inode i).inum dropped)
          (iget-Got (fs.inode i).inum dropped dropped-Unique) in
      (dropped, iput-dropped linked, j, w, e, x, f, read, inum, valid)
