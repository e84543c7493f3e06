-- ===== src/Fs/Files/Bmap.antt =====
-- `bmap` of kernel/fs.c: it gives a slot a block, and no other slot changes.
use project_opertating_syste.Base.{
  ℕ, ◌-◌, ◌*◌, ◌≤◌, ◌<◌, ◌≡◌, ◌≢◌, refl, sym, ◌∙◌, ap, subst, ◌==◌, ltb, true, false, if◌then◌else◌,
  arith, ℕ_discrete, dec_lt, done,
}
use project_opertating_syste.Fs.{Inode, Fs, SuperBlock, balloc}
use project_opertating_syste.Fs.Layout.{load32, store32}
use project_opertating_syste.Fs.Bitmap.{Taken, Allocated, full, taken, balloc-Allocated}
use project_opertating_syste.Fs.{write_block}
use project_opertating_syste.Fs.Files.{
  ndirect, nindirect, maxfile, set_addr, map_addr, map_entry, bmap,
}
use project_opertating_syste.Fs.Files.Slots.{
  slot, slot-direct, slot-last, slot-entry, slot-none, Owns, taken-nonzero,
}
use project_opertating_syste.Fs.Files.Mapping.{
  Mapped, there-Mapped, full-Mapped, direct-Mapped, last-Mapped, linked-Mapped,
}

module _ (sb : SuperBlock) (i : ℕ) (fs : Fs) (v : Owns sb fs i) where
  -- What the code does with a slot that holds `addr`, where `link` puts a new block into it.
  filled-Mapped :
      (k addr : ℕ) (link : ℕ → Fs → Fs) (r : ℕ × Fs)
      → slot fs i k ≡ addr
      → ((b : ℕ) (w : Fs) → Taken sb fs b w → slot fs i k ≡ 0 → Mapped sb i k fs (b, link b w))
      → Allocated sb fs r
      → Mapped sb i k fs
          (if addr == 0 then (if r.0 == 0 then (0, r.1) else (r.0, link r.0 r.1)) else (addr, fs))
  filled-Mapped k addr link r e new x = elim (ℕ_discrete addr 0) [
    | no n ↦
        let test : (addr == 0) ≡ false = ground arith in
        rw test
          (subst (λ a. Mapped sb i k fs (a, fs)) e (there-Mapped sb i fs v k (λ z. n (sym e ∙ z))))
    | yes z ↦ let test : (addr == 0) ≡ true = ground arith in rw test (filled r (e ∙ z) x)
  ]
    where
      filled :
          (r : ℕ × Fs)
          → slot fs i k ≡ 0
          → Allocated sb fs r
          → Mapped sb i k fs (if r.0 == 0 then (0, r.1) else (r.0, link r.0 r.1))
      filled (_, _) z (full h) = full-Mapped sb i fs v k z h
      filled (b, w) z (taken t) =
          let nonzero = taken-nonzero sb fs i v b w t in
          let some_block : (b == 0) ≡ false = ground arith in rw some_block (new b w t z)

  -- `map_addr` of a direct slot, and of the indirect block's.
  map_addr-Mapped : (k : ℕ) → k < ndirect → Mapped sb i k fs (map_addr sb i k fs)
  unfolding map_addr
  map_addr-Mapped k h =
      filled-Mapped k ((fs.inode i).addrs k) (set_addr i k) (balloc sb fs) (slot-direct fs i k h)
        (λ b w t z. direct-Mapped sb i fs v b w t k h z) (balloc-Allocated sb fs v.map_inv)

  map_last-Mapped : Mapped sb i maxfile fs (map_addr sb i ndirect fs)
  unfolding map_addr
  map_last-Mapped =
      filled-Mapped maxfile ((fs.inode i).addrs ndirect) (set_addr i ndirect) (balloc sb fs)
        (slot-last fs i) (λ b w t z. last-Mapped sb i fs v b w t z)
        (balloc-Allocated sb fs v.map_inv)

  map_entry-Mapped :
      (k ind : ℕ)
      → ndirect ≤ k
      → k < maxfile
      → (fs.inode i).addrs ndirect ≡ ind
      → ind ≢ 0
      → Mapped sb i k fs (map_entry sb ind (k - ndirect) fs)
  unfolding map_entry
  map_entry-Mapped k ind lo hi e n =
      filled-Mapped k (load32 (fs.content ind) (4 * (k - ndirect)))
        (λ b w. write_block ind (store32 (4 * (k - ndirect)) b (w.content ind)) w) (balloc sb fs)
        (slot-entry fs i k lo hi (λ z. n (sym e ∙ z))
          ∙ ap (λ x. load32 (fs.content x) (4 * (k - ndirect))) e)
        (λ b w t z.
          subst
            (λ x.
              Mapped sb i k fs (b, write_block x (store32 (4 * (k - ndirect)) b (w.content x)) w))
            e (linked-Mapped sb i fs v b w t k lo hi z (λ q. n (sym e ∙ q))))
        (balloc-Allocated sb fs v.map_inv)

-- One slot after the indirect block's.
then-Mapped :
    (sb : SuperBlock) (i k ind : ℕ) (fs u : Fs) (r : ℕ × Fs)
    → k < maxfile
    → Mapped sb i maxfile fs (ind, u)
    → Mapped sb i k u r
    → Mapped sb i k fs r
then-Mapped sb i k ind fs u r h m n =
    let same = m.others k h (omega arith) in
    record {
      owns = n.owns;
      here = n.here;
      others = λ s l d. n.others s l d ∙ m.others s l (omega arith);
      kept = λ s l d.
          let e = m.others s l (omega arith) in
          subst (λ b. r.1.content b ≡ fs.content b) e
            (n.kept s l (λ z. d (sym e ∙ z))
              ∙ subst (λ b. u.content b ≡ fs.content b) (sym e) (m.kept s l d));
      old = λ d. n.old (λ z. d (sym same ∙ z)) ∙ same;
      fresh = λ z d j l. n.fresh (same ∙ z) d j l;
      full = n.full;
      fields =
          n.fields
          ∙ ap {A = Inode} {B = Inode} (λ ip. record ip { addrs = (r.1.inode i).addrs }) m.fields;
      inodes = λ j d. n.inodes j d ∙ m.inodes j d;
    }

-- No indirect block is left.
without-Mapped :
    (sb : SuperBlock) (i k : ℕ) (fs u : Fs)
    → ndirect ≤ k
    → k < maxfile
    → Mapped sb i maxfile fs (0, u)
    → Mapped sb i k fs (0, u)
without-Mapped sb i k fs u lo hi m =
    let none_now = slot-none u i k lo hi (sym (slot-last u i) ∙ m.here) in
    record {
      owns = m.owns;
      here = none_now;
      others = λ s l d. m.others s l (omega arith);
      kept = m.kept;
      old = λ d. absurd (d (sym (m.others k hi (omega arith)) ∙ none_now));
      fresh = λ z d. absurd (d refl);
      full = m.full;
      fields = m.fields;
      inodes = m.inodes;
    }

-- `bmap`, of an inode that owns its blocks and a block number of the largest file's, returns the
-- block in that slot, the one that was there if there was one, else a new one filled with zeros.
-- It returns 0 only when no block of the disk is free. No other slot changes, nor the content of a
-- block in them, nor another field or inode, and the inode owns its blocks again.
pub bmap-Mapped :
    (sb : SuperBlock) (i : ℕ) (fs : Fs) (k : ℕ)
    → Owns sb fs i
    → k < maxfile
    → (r : ℕ × Fs) × (bmap sb i k fs ≡ done r) × Mapped sb i k fs r
unfolding bmap
bmap-Mapped sb i fs k v h = elim (dec_lt k ndirect) [
  | yes l ↦
      let direct : ltb k ndirect ≡ true = ground arith in
      (map_addr sb i k fs, rw direct refl, map_addr-Mapped sb i fs v k l)
  | no l ↦
      let direct : ltb k ndirect ≡ false = ground arith in
      let entry : ltb (k - ndirect) nindirect ≡ true = ground arith in
      rw (direct, entry)
        (indirect (map_addr sb i ndirect fs) (omega arith) (map_last-Mapped sb i fs v))
]
  where
    indirect :
        (q : ℕ × Fs)
        → ndirect ≤ k
        → Mapped sb i maxfile fs q
        → (r : ℕ × Fs) × ((if q.0 == 0
              then done (0, q.1)
              else done (map_entry sb q.0 (k - ndirect) q.1))
            ≡ done r)
          × Mapped sb i k fs r
    indirect (ind, u) l m = elim (ℕ_discrete ind 0) [
      | yes z ↦
          let test : (ind == 0) ≡ true = ground arith in
          (
            (0, u),
            rw test refl,
            without-Mapped sb i k fs u l h (subst (λ x. Mapped sb i maxfile fs (x, u)) z m),
          )
      | no n ↦
          let test : (ind == 0) ≡ false = ground arith in
          (
            map_entry sb ind (k - ndirect) u,
            rw test refl,
            then-Mapped sb i k ind fs u _ h m
                (map_entry-Mapped sb i u m.owns k ind l h (sym (slot-last u i) ∙ m.here) n),
          )
    ]
