-- ===== src/Fs/Files/WriteRound.antt =====
-- One round of the loop of `writei`, kernel/fs.c.
use project_opertating_syste.Base.{
  ℕ, ◌+◌, ◌-◌, ◌/◌, ◌%◌, min, ◌≤◌, ◌<◌, ◌≡◌, ◌≢◌, refl, sym, ◌∙◌, ap, subst, ◌==◌, true, false,
  update, Option, none, some, arith, ℕ_discrete, Bool-cases, ◌⊎◌, inl, inr, done,
}
use project_opertating_syste.Fs.{Inode, Fs, SuperBlock, bsize, write_block}
use project_opertating_syste.Fs.Bitmap.{free_in}
use project_opertating_syste.Fs.Files.{maxfile, put_chunk, write_round}
use project_opertating_syste.Fs.Files.Copies.{Copy}
use project_opertating_syste.Fs.Files.Slots.{slot, Owns}
use project_opertating_syste.Fs.Files.Mapping.{Mapped}
use project_opertating_syste.Fs.Files.Bmap.{bmap-Mapped}
use project_opertating_syste.Fs.Files.Bytes.{
  file_byte, max_bytes, Changed, Changed-refl, Changed-trans, Mapped-Changed, put-Owns, put-others,
  put-here, get-here, slot-stays,
}

-- Why a write stops at offset `off` with `left` bytes to write, from `src` on: the file has no block
-- there and none of the disk is free; or the copy of the next bytes, up to the end of their block or
-- of the write, failed, and left in the block what it has.
abbrev pub Stopped : SuperBlock → Copy → ℕ → ℕ → ℕ → ℕ → (ℕ → ℕ) → Fs → Type 0
Stopped sb cp i left off src mem u =
    ((slot u i (off / bsize) ≡ 0) × ((c : ℕ) → c < sb.size → free_in sb u c ≡ false))
    ⊎ ((slot u i (off / bsize) ≢ 0)
        × ((dst : ℕ → ℕ) × (cp.run dst (off % bsize) mem src (min left (bsize - off % bsize))
              ≡ (false, u.content (slot u i (off / bsize))))))

pub data RoundDone (sb : SuperBlock) (cp : Copy) (i left off src : ℕ) (mem : ℕ → ℕ) (fs : Fs)
    : Option ℕ × Fs → Type 0 where
  went :
      {m : ℕ} {u : Fs}
      → 0 < m
      → m ≤ left
      → Changed sb i off (off + m) fs u
      → ((a : ℕ) → a < m → file_byte u i (off + a) ≡ mem (src + a))
      → ((a : ℕ) → a < m → slot u i ((off + a) / bsize) ≢ 0)
      → RoundDone sb cp i left off src mem fs (some m, u)
  ended :
      {u : Fs}
      → Changed sb i off (off + left) fs u
      → Stopped sb cp i left off src mem u
      → RoundDone sb cp i left off src mem fs (none, u)

module _ (sb : SuperBlock) (cp : Copy) (i : ℕ) (mem : ℕ → ℕ) where
  -- A copy into the block at `off`.
  module _ (off src m : ℕ) (u w : Fs) (v : Owns sb u i) (positive : 0 < m)
      (within : m ≤ bsize - off % bsize) (fits : off + m ≤ max_bytes)
      (there : slot u i (off / bsize) ≢ 0) (inodes : w.inode ≡ u.inode)
      (elsewhere : (d : ℕ) → d ≢ slot u i (off / bsize) → w.content d ≡ u.content d)
      (here : w.content (slot u i (off / bsize))
        ≡ (cp.run (u.content (slot u i (off / bsize))) (off % bsize) mem src m).1) where
    abbrev block : ℕ
    block = slot u i (off / bsize)

    in_file : off / bsize < maxfile
    in_file = omega arith

    put-Changed : Changed sb i off (off + m) u w
    put-Changed = record {
      owns = put-Owns sb i (off / bsize) u w v in_file there inodes elsewhere;
      outside = λ k h o. elim (ℕ_discrete (k / bsize) (off / bsize)) [
        | no d ↦ put-others sb i (off / bsize) u w v in_file there inodes elsewhere k h d
        | yes e ↦
            put-here sb i (off / bsize) u w v in_file there inodes elsewhere k e
            ∙ ap (λ c. c (k % bsize)) here
            ∙ cp.outside (u.content block) (off % bsize) mem src m (k % bsize) (ground arith)
            ∙ sym (get-here u i (off / bsize) k there e)
      ];
      mapped = λ s h n.
          slot-stays sb i (off / bsize) u w v in_file there inodes elsewhere s (omega arith);
      fields =
          ap (λ f. f i) inodes
          ∙ ap {A = ℕ → ℕ} {B = Inode} (λ a. record (u.inode i) { addrs = a })
              (ap (λ f. (f i).addrs) (sym inodes));
      inodes = λ j n. ap (λ f. f j) inodes;
    }

    put-bytes :
        (cp.run (u.content block) (off % bsize) mem src m).0 ≡ true
        → (a : ℕ) → a < m
        → file_byte w i (off + a) ≡ mem (src + a)
    put-bytes ok a h =
        let at : (off + a) % bsize ≡ off % bsize + a = omega arith in
        put-here sb i (off / bsize) u w v in_file there inodes elsewhere (off + a) (omega arith)
        ∙ ap (λ c. c ((off + a) % bsize)) here
        ∙ ap (cp.run (u.content block) (off % bsize) mem src m).1 at
        ∙ cp.copied (u.content block) (off % bsize) mem src m ok a h

  -- The copy into the block that `bmap` found.
  put_chunk-RoundDone :
      (left off src m : ℕ) (fs : Fs) (addr : ℕ) (u : Fs)
      → Mapped sb i (off / bsize) fs (addr, u)
      → 0 < m
      → m ≤ left
      → m ≡ min left (bsize - off % bsize)
      → off + left ≤ max_bytes
      → RoundDone sb cp i left off src mem fs (put_chunk cp addr off src m mem u)
  unfolding put_chunk
  put_chunk-RoundDone left off src m fs addr u mapped positive short within fits =
      elim (ℕ_discrete addr 0) [
        | yes z ↦
            let test : (addr == 0) ≡ true = ground arith in
            rw test (
              ended
                (Changed-trans sb i off off off (off + left) fs u u (omega arith) (omega arith) same
                  (Changed-refl sb i off (off + left) u mapped.owns))
                (inl (mapped.here ∙ z, mapped.full z)))
        | no n ↦
            let test : (addr == 0) ≡ false = ground arith in
            let put = cp.run (u.content addr) (off % bsize) mem src m in
            elim (Bool-cases put.0) [
              | inl e ↦
                  rw (test, e)
                    (went positive short
                      (chunk (write_block addr put.1 u) n refl (λ d q. ground arith) (ground arith))
                      (bytes (write_block addr put.1 u) n refl (λ d q. ground arith) (ground arith)
                        e)
                      (filled (write_block addr put.1 u) n refl (λ d q. ground arith)))
              | inr e ↦
                  let left_over : Fs = record u { content = update u.content addr put.1 } in
                  rw (test, e)
                    (ended
                      (widen left_over
                        (chunk left_over n refl (λ d q. ground arith) (ground arith)))
                      (inr (refusal left_over n refl (λ d q. ground arith) (ground arith) e)))
            ]
      ]
    where
      same : Changed sb i off off fs u
      same = Mapped-Changed sb i (off / bsize) off fs (addr, u) mapped

      chunk :
          (w : Fs)
          → addr ≢ 0
          → w.inode ≡ u.inode
          → ((d : ℕ) → d ≢ addr → w.content d ≡ u.content d)
          → w.content addr ≡ (cp.run (u.content addr) (off % bsize) mem src m).1
          → Changed sb i off (off + m) fs w
      chunk w n e d h =
          Changed-trans sb i off off off (off + m) fs u w (omega arith) (omega arith) same (
            put-Changed off src m u w mapped.owns positive (omega arith) (omega arith)
              (λ z. n (sym mapped.here ∙ z)) e (λ x y. d x (λ z. y (z ∙ sym mapped.here)))
              (subst (λ x. w.content x ≡ (cp.run (u.content x) (off % bsize) mem src m).1)
                (sym mapped.here) h))

      bytes :
          (w : Fs)
          → addr ≢ 0
          → w.inode ≡ u.inode
          → ((d : ℕ) → d ≢ addr → w.content d ≡ u.content d)
          → w.content addr ≡ (cp.run (u.content addr) (off % bsize) mem src m).1
          → (cp.run (u.content addr) (off % bsize) mem src m).0 ≡ true
          → (a : ℕ) → a < m
          → file_byte w i (off + a) ≡ mem (src + a)
      bytes w n e d h ok =
          put-bytes off src m u w mapped.owns positive (omega arith) (omega arith)
            (λ z. n (sym mapped.here ∙ z)) e (λ x y. d x (λ z. y (z ∙ sym mapped.here)))
            (subst (λ x. w.content x ≡ (cp.run (u.content x) (off % bsize) mem src m).1)
              (sym mapped.here) h)
            (subst (λ x. (cp.run (u.content x) (off % bsize) mem src m).0 ≡ true) (sym mapped.here)
              ok)

      filled :
          (w : Fs)
          → addr ≢ 0
          → w.inode ≡ u.inode
          → ((d : ℕ) → d ≢ addr → w.content d ≡ u.content d)
          → (a : ℕ) → a < m
          → slot w i ((off + a) / bsize) ≢ 0
      filled w n e d a h z =
          let block_of : (off + a) / bsize ≡ off / bsize = omega arith in
          let there : slot u i (off / bsize) ≢ 0 = λ x. n (sym mapped.here ∙ x) in
          there (
            sym (
              slot-stays sb i (off / bsize) u w mapped.owns (omega arith) there e
                (λ x y. d x (λ q. y (q ∙ sym mapped.here))) (off / bsize) (omega arith))
            ∙ ap (slot w i) (sym block_of)
            ∙ z)

      same_slot :
          (w : Fs)
          → addr ≢ 0
          → w.inode ≡ u.inode
          → ((d : ℕ) → d ≢ addr → w.content d ≡ u.content d)
          → slot w i (off / bsize) ≡ addr
      same_slot w n e d =
          slot-stays sb i (off / bsize) u w mapped.owns (omega arith) (λ x. n (sym mapped.here ∙ x))
            e (λ x y. d x (λ q. y (q ∙ sym mapped.here))) (off / bsize) (omega arith)
          ∙ mapped.here

      refusal :
          (w : Fs)
          → addr ≢ 0
          → w.inode ≡ u.inode
          → ((d : ℕ) → d ≢ addr → w.content d ≡ u.content d)
          → w.content addr ≡ (cp.run (u.content addr) (off % bsize) mem src m).1
          → (cp.run (u.content addr) (off % bsize) mem src m).0 ≡ false
          → (slot w i (off / bsize) ≢ 0)
            × ((old : ℕ → ℕ) × (cp.run old (off % bsize) mem src (min left (bsize - off % bsize))
                  ≡ (false, w.content (slot w i (off / bsize)))))
      refusal w n e d h bad =
          let at = same_slot w n e d in
          let length_here : min left (bsize - off % bsize) ≡ m = sym within in
          (
            λ z. n (sym at ∙ z),
            (
              u.content addr,
              rw (length_here, at)
                  (ap (λ b. (b, (cp.run (u.content addr) (off % bsize) mem src m).1)) bad
                    ∙ ap (λ c. (false, c)) (sym h)),
            ),
          )

      widen : (w : Fs) → Changed sb i off (off + m) fs w → Changed sb i off (off + left) fs w
      widen w c =
          Changed-trans sb i off (off + m) off (off + left) fs w w (omega arith) (omega arith) c
            (Changed-refl sb i off (off + left) w c.owns)

  pub write_round-RoundDone :
      (left off src : ℕ) (fs : Fs)
      → Owns sb fs i
      → 0 < left
      → off + left ≤ max_bytes
      → (r : Option ℕ × Fs) × (write_round sb cp i left off src mem fs ≡ done r)
        × RoundDone sb cp i left off src mem fs r
  unfolding write_round
  write_round-RoundDone left off src fs v l h =
      let (got, e, mapped) = bmap-Mapped sb i fs (off / bsize) v (omega arith) in
      let m = min left (bsize - off % bsize) in
      rw e (
        put_chunk cp got.0 off src m mem got.1,
        refl,
        put_chunk-RoundDone left off src m fs got.0 got.1 mapped (omega arith) (omega arith) refl h,
      )
