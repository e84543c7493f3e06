-- ===== src/Fs/Files/Home.antt =====
-- The end of `writei`, kernel/fs.c: the size grows, and `iupdate` writes the inode to its block, which
-- leaves the file.
use project_opertating_syste.Base.{
  ℕ, ◌-◌, ◌*◌, ◌/◌, ◌%◌, ◌≤◌, ◌<◌, ◌≡◌, ◌≢◌, sym, ◌∙◌, ap, ltb, false, if◌then◌else◌, arith, inl,
  inr,
}
use project_opertating_syste.Fs.{Fs, SuperBlock, bsize, bblock, iblock}
use project_opertating_syste.Fs.Layout.{load32}
use project_opertating_syste.Fs.Inodes.{iupdate}
use project_opertating_syste.Fs.Inodes.OnDisk.{get-put_inode}
use project_opertating_syste.Fs.Files.{ndirect, maxfile, grow}
use project_opertating_syste.Fs.Files.Copies.{Copy}
use project_opertating_syste.Fs.Files.Slots.{
  slot, slot-last, slot-same, Owns, Owns-same, free_in-same,
}
use project_opertating_syste.Fs.Files.Bytes.{file_byte, file_byte-same, max_bytes}
use project_opertating_syste.Fs.Files.WriteRound.{Stopped}

-- `iupdate` and a change of the size keep the bytes and the blocks.
module _ (sb : SuperBlock) (i : ℕ) (fs u : Fs) (v : Owns sb fs i)
    (inum : (u.inode i).inum ≡ (fs.inode i).inum) (addrs : (u.inode i).addrs ≡ (fs.inode i).addrs)
    (elsewhere : (d : ℕ) → d ≢ iblock sb (fs.inode i).inum → u.content d ≡ fs.content d) where
  pub home-slot : (s : ℕ) → s ≤ maxfile → slot u i s ≡ slot fs i s
  home-slot s h =
      slot-same fs u i s h (λ q. ap (λ f. f s) addrs) (ap (λ f. f ndirect) addrs)
        (λ p q n.
          ap (λ c. load32 c (4 * (s - ndirect)))
            (elsewhere ((fs.inode i).addrs ndirect) (λ e.
              (v.held maxfile (omega arith) (λ z. n (sym (slot-last fs i) ∙ z))).not_home
                (sym e ∙ sym (slot-last fs i)))))

  pub home-Owns : Owns sb u i
  home-Owns = Owns-same sb fs u i v (λ c h. elsewhere (bblock sb c) (v.home_map c h)) inum home-slot

  pub home-file_byte : (k : ℕ) → k < max_bytes → file_byte u i k ≡ file_byte fs i k
  home-file_byte k h = file_byte-same fs u i k (home-slot (k / bsize) (omega arith)) (λ n.
      ap (λ c. c (k % bsize))
        (elsewhere (slot fs i (k / bsize))
          (λ e. (v.held (k / bsize) (omega arith) n).not_home (sym e))))

  pub home-Stopped :
      (cp : Copy) (left off src : ℕ) (mem : ℕ → ℕ)
      → off < max_bytes
      → Stopped sb cp i left off src mem fs
      → Stopped sb cp i left off src mem u
  home-Stopped cp left off src mem h (inl (none_there, full)) = inl (
    home-slot (off / bsize) (omega arith) ∙ none_there,
    λ d k. free_in-same sb fs u (λ x y. elsewhere (bblock sb x) (v.home_map x y)) d k ∙ full d k,
  )
  home-Stopped cp left off src mem h (inr (there, (dst, e))) =
      let at = home-slot (off / bsize) (omega arith) in
      let same =
        elsewhere (slot fs i (off / bsize))
          (λ e. (v.held (off / bsize) (omega arith) there).not_home (sym e)) in
      inr (
        λ z. there (sym at ∙ z),
        (dst, e ∙ ap (λ c. (false, c)) (sym same ∙ ap u.content (sym at))),
      )

-- The end of `writei`: the size grows to `off` and the inode goes to the disk.
module _ (sb : SuperBlock) (i off : ℕ) (fs : Fs) where
  abbrev pub new_size : ℕ
  new_size = if ltb (fs.inode i).size off then off else (fs.inode i).size

  pub saved-here : (iupdate sb i (grow i off fs)).inode i ≡ record (fs.inode i) { size = new_size }
  unfolding grow iupdate
  saved-here = get-put_inode i (record (fs.inode i) { size = new_size }) fs

  pub saved-other : (j : ℕ) → j ≢ i → (iupdate sb i (grow i off fs)).inode j ≡ fs.inode j
  unfolding grow iupdate
  saved-other j n = ground arith

  pub saved-elsewhere :
      (d : ℕ)
      → d ≢ iblock sb (fs.inode i).inum
      → (iupdate sb i (grow i off fs)).content d ≡ fs.content d
  unfolding grow iupdate
  saved-elsewhere d n =
      let e = get-put_inode i (record (fs.inode i) { size = new_size }) fs in
      let apart : d ≢ iblock sb (((grow i off fs).inode i).inum) =
        λ q. n (q ∙ ap (λ ip. iblock sb ip.inum) e) in
      ground arith
