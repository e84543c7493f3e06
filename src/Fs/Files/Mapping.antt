-- ===== src/Fs/Files/Mapping.antt =====
-- A slot of a file gets a block, kernel/fs.c: the blocks and slots that stay.
use project_opertating_syste.Base.{
  ℕ, ◌-◌, ◌*◌, ◌≤◌, ◌<◌, ◌≡◌, ◌≢◌, refl, sym, ◌∙◌, ap, subst, false, arith, dec_lt, update,
}
use project_opertating_syste.Fs.{bsize, Fs, SuperBlock, bblock, write_block}
use project_opertating_syste.Fs.Layout.{load32, store32}
use project_opertating_syste.Fs.Layout.RoundTrip.{
  load32-store32, load32-same, load32-zero, store32-Outside,
}
use project_opertating_syste.Fs.Bitmap.{free_in, Taken}
use project_opertating_syste.Fs.Files.{ndirect, maxfile, set_addr}
use project_opertating_syste.Fs.Files.Slots.{
  slot, slot-direct, slot-last, slot-entry, slot-none, slot-same, Owns, taken-nonzero,
  taken-not_slot, taken-Owns,
}

-- The file system `u` after slot `k` of inode `i` was looked up, with `addr` there.
pub record Mapped (sb : SuperBlock) (i k : ℕ) (fs : Fs) (r : ℕ × Fs) : Type 0 where
  pub owns : Owns sb r.1 i
  pub here : slot r.1 i k ≡ r.0
  pub others : (s : ℕ) → s < maxfile → s ≢ k → slot r.1 i s ≡ slot fs i s
  pub kept :
      (s : ℕ) → s < maxfile → slot fs i s ≢ 0 → r.1.content (slot fs i s) ≡ fs.content (slot fs i s)
  pub old : slot fs i k ≢ 0 → r.0 ≡ slot fs i k
  pub fresh : slot fs i k ≡ 0 → r.0 ≢ 0 → (j : ℕ) → j < bsize → r.1.content r.0 j ≡ 0
  pub full : r.0 ≡ 0 → (c : ℕ) → c < sb.size → free_in sb r.1 c ≡ false
  pub fields : r.1.inode i ≡ record (fs.inode i) { addrs = (r.1.inode i).addrs }
  pub inodes : (j : ℕ) → j ≢ i → r.1.inode j ≡ fs.inode j

module _ (sb : SuperBlock) (i : ℕ) (fs : Fs) (v : Owns sb fs i) where
  -- Nothing changes where there is a block, or none is left.
  pub there-Mapped : (k : ℕ) → slot fs i k ≢ 0 → Mapped sb i k fs (slot fs i k, fs)
  there-Mapped k z = record {
    owns = v;
    here = refl;
    others = λ s h n. refl;
    kept = λ s h n. refl;
    old = λ n. refl;
    fresh = λ e. absurd (z e);
    full = λ e. absurd (z e);
    fields = refl;
    inodes = λ j n. refl;
  }

  pub full-Mapped :
      (k : ℕ)
      → slot fs i k ≡ 0
      → ((c : ℕ) → c < sb.size → free_in sb fs c ≡ false)
      → Mapped sb i k fs (0, fs)
  full-Mapped k z f = record {
    owns = v;
    here = z;
    others = λ s h n. refl;
    kept = λ s h n. refl;
    old = λ n. absurd (n z);
    fresh = λ e n. absurd (n refl);
    full = λ e. f;
    fields = refl;
    inodes = λ j n. refl;
  }

  -- Block `b` is taken, and `u` puts it in slot `k`; `u` changes no other block than `x`.
  module _ (b : ℕ) (w : Fs) (t : Taken sb fs b w) (k : ℕ) (in_range : k ≤ maxfile)
      (empty : slot fs i k ≡ 0) (u : Fs) (here : slot u i k ≡ b)
      (others : (s : ℕ) → s ≤ maxfile → s ≢ k → slot u i s ≡ slot fs i s)
      (map : (c : ℕ) → c < sb.size → u.content (bblock sb c) ≡ w.content (bblock sb c))
      (fields : u.inode i ≡ record (fs.inode i) { addrs = (u.inode i).addrs }) where
    taken-Mapped :
        ((j : ℕ) → j ≢ i → u.inode j ≡ fs.inode j)
        → u.content b ≡ w.content b
        → ((s : ℕ)
            → s < maxfile
            → slot fs i s ≢ 0
            → u.content (slot fs i s) ≡ w.content (slot fs i s))
        → Mapped sb i k fs (b, u)
    taken-Mapped inodes new kept = record {
      owns = taken-Owns sb fs i v b w t u k in_range map (ap (λ ip. ip.inum) fields) here others;
      here = here;
      others = λ s h n. others s (omega arith) n;
      kept = λ s h z.
          kept s h z
          ∙ t.elsewhere (slot fs i s) (taken-not_slot sb fs i v b w t s (omega arith) z)
              (λ e. (v.held s (omega arith) z).not_map b t.on_disk (sym e));
      old = λ n. absurd (n empty);
      fresh = λ e n j h. ap (λ x. x j) new ∙ t.zeroed j h;
      full = λ e. absurd (taken-nonzero sb fs i v b w t e);
      fields = fields;
      inodes = inodes;
    }

  -- A taken block is not one of the file's, so their bytes stay.
  last-kept :
      (b : ℕ) (w : Fs)
      → Taken sb fs b w
      → (fs.inode i).addrs ndirect ≢ 0
      → w.content ((fs.inode i).addrs ndirect) ≡ fs.content ((fs.inode i).addrs ndirect)
  last-kept b w t z =
      let e = slot-last fs i in
      let n : slot fs i maxfile ≢ 0 = λ q. z (sym e ∙ q) in
      subst (λ x. w.content x ≡ fs.content x) e
        (t.elsewhere (slot fs i maxfile) (taken-not_slot sb fs i v b w t maxfile (omega arith) n)
          (λ q. (v.held maxfile (omega arith) n).not_map b t.on_disk (sym q)))

  module _ (b : ℕ) (w : Fs) (t : Taken sb fs b w) where
    set_addr-inode :
        (k : ℕ)
        → (set_addr i k b w).inode i ≡ record (fs.inode i) { addrs = update (fs.inode i).addrs k b }
    set_addr-inode k = ground (arith, t.inode)

    set_addr-at : (k a : ℕ) → ((set_addr i k b w).inode i).addrs a ≡ update (fs.inode i).addrs k b a
    set_addr-at k a = ap (λ ip. ip.addrs a) (set_addr-inode k)

    set_addr-fields :
        (k : ℕ)
        → (set_addr i k b w).inode i
          ≡ record (fs.inode i) { addrs = ((set_addr i k b w).inode i).addrs }
    set_addr-fields k =
        let e = set_addr-inode k in
        e ∙ ap (λ a. record (fs.inode i) { addrs = a }) (sym (ap (λ ip. ip.addrs) e))

    set_addr-others : (k j : ℕ) → j ≢ i → (set_addr i k b w).inode j ≡ fs.inode j
    set_addr-others k j n = ground (arith, t.inode)

    pub direct-Mapped :
        (k : ℕ) → k < ndirect → slot fs i k ≡ 0 → Mapped sb i k fs (b, set_addr i k b w)
    direct-Mapped k h z =
        taken-Mapped b w t k (omega arith) z (set_addr i k b w)
          (slot-direct (set_addr i k b w) i k h ∙ set_addr-at k k ∙ ground arith)
          (λ s l n.
            slot-same fs (set_addr i k b w) i s l (λ q. set_addr-at k s ∙ ground arith)
              (set_addr-at k ndirect ∙ ground arith)
              (λ p q x. ap (λ c. load32 c (4 * (s - ndirect))) (last-kept b w t x)))
          (λ c l. refl) (set_addr-fields k) (set_addr-others k) refl (λ s l n. refl)

    pub last-Mapped : slot fs i maxfile ≡ 0 → Mapped sb i maxfile fs (b, set_addr i ndirect b w)
    last-Mapped z =
        let u = set_addr i ndirect b w in
        let last : (u.inode i).addrs ndirect ≡ b = set_addr-at ndirect ndirect ∙ ground arith in
        taken-Mapped b w t maxfile (omega arith) z u (slot-last u i ∙ last)
          (λ s l n. elim (dec_lt s ndirect) [
            | yes q ↦
                slot-direct u i s q
                ∙ set_addr-at ndirect s
                ∙ ground arith
                ∙ sym (slot-direct fs i s q)
            | no q ↦
                slot-entry u i s (omega arith) (omega arith)
                  (λ x. taken-nonzero sb fs i v b w t (sym last ∙ x))
                ∙ ap (λ x. load32 (u.content x) (4 * (s - ndirect))) last
                ∙ load32-zero (w.content b) (4 * (s - ndirect)) (λ a p r. t.zeroed a (omega arith))
                ∙ sym (slot-none fs i s (omega arith) (omega arith) (sym (slot-last fs i) ∙ z))
          ])
          (λ c l. refl) (set_addr-fields ndirect) (set_addr-others ndirect) refl (λ s l n. refl)

    -- The indirect block `ind`, with `b` in the entry of slot `k`.
    module _ (k : ℕ) (lo : ndirect ≤ k) (hi : k < maxfile) (z : slot fs i k ≡ 0)
        (n : (fs.inode i).addrs ndirect ≢ 0) where
      abbrev pub ind : ℕ
      ind = (fs.inode i).addrs ndirect

      abbrev pub at : ℕ
      at = 4 * (k - ndirect)

      abbrev pub linked : Fs
      linked = write_block ind (store32 at b (w.content ind)) w

      ind-slot : slot fs i maxfile ≢ 0
      ind-slot e = n (sym (slot-last fs i) ∙ e)

      apart : (d : ℕ) → d ≢ ind → linked.content d ≡ w.content d
      apart d h = ground arith

      ind_content : linked.content ind ≡ store32 at b (w.content ind)
      ind_content = ground arith

      linked-inode : linked.inode ≡ fs.inode
      linked-inode = t.inode

      linked-here : slot linked i k ≡ b
      linked-here =
          let last : (linked.inode i).addrs ndirect ≡ ind =
            ap (λ f. (f i).addrs ndirect) linked-inode in
          slot-entry linked i k lo hi (λ e. n (sym last ∙ e))
          ∙ ap (λ x. load32 (linked.content x) at) last
          ∙ ap (λ c. load32 c at) ind_content
          ∙ load32-store32 at b (w.content ind) (omega (arith, t.on_disk, v.small))

      linked-others : (s : ℕ) → s ≤ maxfile → s ≢ k → slot linked i s ≡ slot fs i s
      linked-others s l d =
          slot-same fs linked i s l (λ q. ap (λ f. (f i).addrs s) linked-inode)
            (ap (λ f. (f i).addrs ndirect) linked-inode)
            (λ p q x.
              ap (λ c. load32 c (4 * (s - ndirect))) ind_content
              ∙ load32-same _ (w.content ind) (4 * (s - ndirect))
                  (λ a e f. store32-Outside at b (w.content ind) a (ground arith))
              ∙ ap (λ c. load32 c (4 * (s - ndirect))) (last-kept b w t x))

      pub linked-Mapped : Mapped sb i k fs (b, linked)
      linked-Mapped =
          taken-Mapped b w t k (omega arith) z linked linked-here linked-others
            (λ c l.
              apart (bblock sb c) (λ e.
                (v.held maxfile (omega arith) ind-slot).not_map c l (e ∙ sym (slot-last fs i))))
            (ap (λ f. f i) linked-inode
              ∙ ap (λ a. record (fs.inode i) { addrs = a })
                  (ap (λ f. (f i).addrs) (sym linked-inode)))
            (λ j d. ap (λ f. f j) linked-inode)
            (apart b (λ e.
              taken-not_slot sb fs i v b w t maxfile (omega arith) ind-slot
                (slot-last fs i ∙ sym e)))
            (λ s l d. apart (slot fs i s) (λ e. absurd (
              omega (
                arith,
                v.distinct s maxfile (omega arith) (omega arith) d (e ∙ sym (slot-last fs i)),
              ))))
