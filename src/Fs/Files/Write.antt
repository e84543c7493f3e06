-- ===== src/Fs/Files/Write.antt =====
-- `writei` of kernel/fs.c: the bytes it writes, and those it leaves.
use project_opertating_syste.Base.{
  ℕ, ◌+◌, ◌-◌, ◌*◌, ◌/◌, ◌%◌, ◌^◌, ◌≤◌, ◌<◌, ◌≡◌, ◌≢◌, refl, sym, ◌∙◌, ap, subst, ltb, true, false,
  ◌||◌, if◌then◌else◌, none, some, arith, ℕ_discrete, ◌⊎◌, done,
}
use project_opertating_syste.Fs.{Inode, Fs, SuperBlock, bsize}
use project_opertating_syste.Fs.Layout.RoundTrip.{Fits, SameDinode}
use project_opertating_syste.Fs.Inodes.{iupdate}
use project_opertating_syste.Fs.Inodes.OnDisk.{on_disk, iupdate-Updated}
use project_opertating_syste.Fs.Files.{ndirect, maxfile, grow, writei}
use project_opertating_syste.Fs.Files.Copies.{Copy}
use project_opertating_syste.Fs.Files.Slots.{slot, slot-direct, slot-last, Owns}
use project_opertating_syste.Fs.Files.Bytes.{file_byte, max_bytes}
use project_opertating_syste.Fs.Files.WriteRound.{Stopped}
use project_opertating_syste.Fs.Files.Home.{
  home-slot, home-Owns, home-file_byte, home-Stopped, new_size, saved-here, saved-other,
  saved-elsewhere,
}
use project_opertating_syste.Fs.Files.WriteLoop.{Looped, write_loop-Looped}

-- What `writei` leaves where it wrote `tot` bytes.
pub record Written (sb : SuperBlock) (cp : Copy) (i src off n : ℕ) (mem : ℕ → ℕ) (fs : Fs) (tot : ℕ)
    (u : Fs) : Type 0 where
  pub count : tot ≤ n
  pub short : tot < n → Stopped sb cp i (n - tot) (off + tot) (src + tot) mem u
  pub bytes : (a : ℕ) → a < tot → file_byte u i (off + a) ≡ mem (src + a)
  pub there : (a : ℕ) → a < tot → slot u i ((off + a) / bsize) ≢ 0
  pub outside :
      (k : ℕ) → k < max_bytes → (k < off) ⊎ (off + n ≤ k) → file_byte u i k ≡ file_byte fs i k
  pub size :
      (u.inode i).size
      ≡ (if ltb (fs.inode i).size (off + tot) then off + tot else (fs.inode i).size)
  pub fields :
      u.inode i ≡ record (fs.inode i) { addrs = (u.inode i).addrs; size = (u.inode i).size }
  pub inodes : (j : ℕ) → j ≢ i → u.inode j ≡ fs.inode j
  pub owns : Owns sb u i

module _ (sb : SuperBlock) (cp : Copy) (i src off n : ℕ) (mem : ℕ → ℕ) (fs : Fs) where
  saved-Written :
      (r : ℕ × ℕ × Fs)
      → off + n ≤ max_bytes
      → Looped sb cp i n 0 off src mem fs r
      → Written sb cp i src off n mem fs r.0 (iupdate sb i (grow i r.1 r.2))
  saved-Written r fits l =
      let w = iupdate sb i (grow i r.1 r.2) in
      let c = l.changed in
      let here = saved-here sb i r.1 r.2 in
      let inum = ap (λ ip. ip.inum) here in
      let addrs = ap (λ ip. ip.addrs) here in
      let elsewhere = saved-elsewhere sb i r.1 r.2 in
      let old_size = ap (λ ip. ip.size) c.fields in
      let top : r.1 ≡ off + r.0 = omega (arith, l.place) in
      record {
        count = l.most;
        short = λ h.
            let from : src + (r.0 - 0) ≡ src + r.0 = omega arith in
            let stop : Stopped sb cp i (n - r.0) (off + r.0) (src + r.0) mem r.2 =
              subst (λ x. Stopped sb cp i (n - r.0) x (src + r.0) mem r.2) top
                (subst (λ x. Stopped sb cp i (n - r.0) r.1 x mem r.2) from (l.short h)) in
            home-Stopped sb i r.2 w c.owns inum addrs elsewhere cp (n - r.0) (off + r.0) (src + r.0)
              mem (omega (arith, l.most)) stop;
        bytes = λ a h.
            home-file_byte sb i r.2 w c.owns inum addrs elsewhere (off + a) (omega (arith, l.most))
            ∙ l.bytes a (omega arith);
        there = λ a h z. l.there a (omega arith) (
            sym (
              home-slot sb i r.2 w c.owns inum addrs elsewhere ((off + a) / bsize)
                (omega (arith, l.most)))
            ∙ z);
        outside = λ k h o.
            home-file_byte sb i r.2 w c.owns inum addrs elsewhere k h
            ∙ c.outside k h (ground arith);
        size =
            ap (λ ip. ip.size) here
            ∙ ap (λ x. if ltb x r.1 then r.1 else x) old_size
            ∙ ap (λ x. if ltb (fs.inode i).size x then x else (fs.inode i).size) top;
        fields =
            here
            ∙ ap {A = Inode} {B = Inode} (λ ip. record ip { size = new_size sb i r.1 r.2 }) c.fields
            ∙ ap {A = ℕ} {B = Inode}
                (λ x. record (fs.inode i) { size = x; addrs = (r.2.inode i).addrs })
                (sym (ap (λ ip. ip.size) here))
            ∙ ap {A = ℕ → ℕ} {B = Inode}
                (λ x. record (fs.inode i) { size = (w.inode i).size; addrs = x }) (sym addrs);
        inodes = λ j d. saved-other sb i r.1 r.2 j d ∙ c.inodes j d;
        owns = home-Owns sb i r.2 w c.owns inum addrs elsewhere;
      }

  -- How `writei` ends, before what it left is looked at.
  writei-Looped :
      Owns sb fs i
      → off < 4294967296
      → n < 4294967296
      → (((fs.inode i).size < off) ⊎ (max_bytes < off + n)
          → writei sb cp i src off n mem fs ≡ done (none, fs))
        × (off ≤ (fs.inode i).size
            → off + n ≤ max_bytes
            → (r : ℕ × ℕ × Fs) × (writei sb cp i src off n mem fs
                ≡ done (some r.0, iupdate sb i (grow i r.1 r.2)))
              × Looped sb cp i n 0 off src mem fs r)
  unfolding writei
  writei-Looped v a b = (
    λ h.
        let test : (ltb (fs.inode i).size off
              || ltb ((off + n) % 2 ^ 32) off
              || ltb (maxfile * bsize) ((off + n) % 2 ^ 32))
            ≡ true =
          ground arith in
        rw test refl,
    λ h k.
        let test : (ltb (fs.inode i).size off
              || ltb ((off + n) % 2 ^ 32) off
              || ltb (maxfile * bsize) ((off + n) % 2 ^ 32))
            ≡ false =
          ground arith in
        let (r, e, l) =
          write_loop-Looped sb cp i mem n n 0 off src fs v (omega arith) (omega arith)
            (omega arith) in
        rw (test, e) (r, refl, l),
  )

  -- What `writei` leaves in memory.
  pub writei-left :
      Owns sb fs i
      → off ≤ (fs.inode i).size
      → off + n ≤ max_bytes
      → (tot : ℕ) × (u : Fs) × (writei sb cp i src off n mem fs ≡ done (some tot, u))
        × Written sb cp i src off n mem fs tot u
  writei-left v h k =
      let (r, e, l) = (writei-Looped v (omega arith) (omega arith)).1 h k in
      (r.0, iupdate sb i (grow i r.1 r.2), e, saved-Written r k l)

  -- The inode that `writei` leaves fits in its place on disk.
  Written-Fits :
      (tot : ℕ) (u : Fs)
      → Fits (fs.inode i)
      → off + n ≤ max_bytes
      → Written sb cp i src off n mem fs tot u
      → Fits (u.inode i)
  Written-Fits tot u f h w =
      let same = w.fields in
      let held : (s : ℕ) → s ≤ maxfile → slot u i s < 4294967296 = λ s l.
        elim (ℕ_discrete (slot u i s) 0) [
          | yes z ↦ omega (arith, z)
          | no z ↦ omega (arith, (w.owns.held s l z).on_disk, w.owns.small)
        ] in
      record {
        type_ = omega (arith, f.type_, ap (λ ip. ip.type_) same);
        major = omega (arith, f.major, ap (λ ip. ip.major) same);
        minor = omega (arith, f.minor, ap (λ ip. ip.minor) same);
        nlink = omega (arith, f.nlink, ap (λ ip. ip.nlink) same);
        size = ground (arith, f.size, w.size, w.count);
        addrs = λ a l. elim (ℕ_discrete a ndirect) [
          | yes e ↦
              subst (λ x. x < 4294967296) (slot-last u i ∙ ap (u.inode i).addrs (sym e))
                (held maxfile (omega arith))
          | no e ↦
              subst (λ x. x < 4294967296) (slot-direct u i a (omega (arith, e)))
                (held a (omega (arith, e)))
        ];
      }

  iupdate-saves :
      (g : Fs)
      → Fits ((iupdate sb i g).inode i)
      → (jp : Inode)
      → SameDinode
          (on_disk sb (iupdate sb i g) ((iupdate sb i g).inode i).inum jp)
          ((iupdate sb i g).inode i)
  iupdate-saves g f jp =
      let same : (iupdate sb i g).inode ≡ g.inode = unfold iupdate in refl in
      let here : g.inode i ≡ (iupdate sb i g).inode i = sym (ap (λ x. x i) same) in
      let up = iupdate-Updated sb i g (subst Fits (sym here) f) in
      subst (λ x. SameDinode (on_disk sb (iupdate sb i g) x.inum jp) x) here (up.written jp)

  -- `writei` of an inode that owns its blocks and whose fields fit, with an offset and a length of
  -- 32 bits. It returns -1 and changes nothing when the offset is behind the end of the file, or the
  -- last byte behind the largest file. Else it returns, with the number of bytes it wrote, less than
  -- `n` only where the file has no block for the next one and the disk is full, or where the copy of
  -- the next bytes into their block failed. The file has those bytes at the offset, every other byte
  -- outside of the `n` it had, and a size that covers both; the inode's place on disk has what its
  -- entry has; no other inode of the table changes.
  pub writei-Written :
      Owns sb fs i
      → Fits (fs.inode i)
      → off < 4294967296
      → n < 4294967296
      → (((fs.inode i).size < off) ⊎ (max_bytes < off + n)
          → writei sb cp i src off n mem fs ≡ done (none, fs))
        × (off ≤ (fs.inode i).size
            → off + n ≤ max_bytes
            → (tot : ℕ) × (u : Fs) × (writei sb cp i src off n mem fs ≡ done (some tot, u))
              × Written sb cp i src off n mem fs tot u
              × ((jp : Inode) → SameDinode (on_disk sb u (u.inode i).inum jp) (u.inode i)))
  writei-Written v f a b = (
    (writei-Looped v a b).0,
    λ h k.
        let (r, e, l) = (writei-Looped v a b).1 h k in
        let w = saved-Written r k l in
        (
          r.0,
          iupdate sb i (grow i r.1 r.2),
          e,
          w,
          iupdate-saves (grow i r.1 r.2) (Written-Fits r.0 _ f k w),
        ),
  )
