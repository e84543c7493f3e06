-- ===== src/Fs/Files/ReadRound.antt =====
-- One round of the loop of `readi`, kernel/fs.c.
use project_opertating_syste.Base.{
  ℕ, ◌+◌, ◌-◌, ◌/◌, ◌%◌, min, ◌≤◌, ◌<◌, ◌≡◌, ◌≢◌, refl, sym, ◌∙◌, ap, ◌==◌, true, false, arith,
  ℕ_discrete, Bool-cases, ◌⊎◌, inl, inr, done,
}
use project_opertating_syste.Fs.{Fs, SuperBlock, bsize}
use project_opertating_syste.Fs.Files.{Round, stop, fail, go, get_chunk, read_round}
use project_opertating_syste.Fs.Files.Copies.{Copy}
use project_opertating_syste.Fs.Files.Slots.{slot, Owns}
use project_opertating_syste.Fs.Files.Mapping.{Mapped}
use project_opertating_syste.Fs.Files.Bmap.{bmap-Mapped}
use project_opertating_syste.Fs.Files.Bytes.{
  file_byte, max_bytes, Changed, Mapped-Changed, get-here,
}

-- Outside the `n` bytes at `dst`, `out` is `mem`.
abbrev pub Keeps : ℕ → ℕ → (ℕ → ℕ) → (ℕ → ℕ) → Type 0
Keeps dst n mem out = (a : ℕ) → (a < dst) ⊎ (dst + n ≤ a) → out a ≡ mem a

-- The copy that makes `readi` fail, with `left` bytes to read at `off`: after `got` bytes of the file
-- are at `dst`, the copy of the next bytes, those up to the end of their block or of the read,
-- from the block to `dst + got` fails, and leaves `out`.
pub record FailedCopy (cp : Copy) (i left off dst : ℕ) (mem : ℕ → ℕ) (fs : Fs) (out : ℕ → ℕ)
    : Type 0 where
  pub got : ℕ
  pub before : got < left
  pub to : ℕ → ℕ
  pub from : ℕ → ℕ
  pub to_bytes : (a : ℕ) → a < got → to (dst + a) ≡ file_byte fs i (off + a)
  pub to_keeps : Keeps dst got mem to
  pub from_bytes :
      (a : ℕ)
      → a < min (left - got) (bsize - (off + got) % bsize)
      → from ((off + got) % bsize + a) ≡ file_byte fs i (off + got + a)
  pub refused :
      cp.run to
        (dst + got)
        from
        ((off + got) % bsize)
        (min (left - got) (bsize - (off + got) % bsize))
      ≡ (false, out)

pub data RoundDone (sb : SuperBlock) (cp : Copy) (i left off dst : ℕ) (mem : ℕ → ℕ) (fs : Fs)
    : Round × (ℕ → ℕ) × Fs → Type 0 where
  went :
      {m : ℕ} {out : ℕ → ℕ} {u : Fs}
      → 0 < m
      → m ≤ left
      → Changed sb i 0 0 fs u
      → ((a : ℕ) → a < m → out (dst + a) ≡ file_byte fs i (off + a))
      → Keeps dst m mem out
      → RoundDone sb cp i left off dst mem fs (go m, out, u)
  stopped :
      {u : Fs}
      → Changed sb i 0 0 fs u
      → slot fs i (off / bsize) ≡ 0
      → RoundDone sb cp i left off dst mem fs (stop, mem, u)
  failed :
      {out : ℕ → ℕ} {u : Fs}
      → Changed sb i 0 0 fs u
      → FailedCopy cp i left off dst mem fs out
      → Keeps dst left mem out
      → RoundDone sb cp i left off dst mem fs (fail, out, u)

module _ (sb : SuperBlock) (cp : Copy) (i : ℕ) where
  get_chunk-RoundDone :
      (left off dst m : ℕ) (mem : ℕ → ℕ) (fs : Fs) (addr : ℕ) (u : Fs)
      → Mapped sb i (off / bsize) fs (addr, u)
      → 0 < m
      → m ≤ left
      → m ≡ min left (bsize - off % bsize)
      → off + left ≤ max_bytes
      → RoundDone sb cp i left off dst mem fs (get_chunk cp addr off dst m mem u)
  unfolding get_chunk
  get_chunk-RoundDone left off dst m mem fs addr u mapped positive short within fits =
      elim (ℕ_discrete addr 0) [
        | yes z ↦
            let test : (addr == 0) ≡ true = ground arith in
            rw test (stopped same (empty (ℕ_discrete (slot fs i (off / bsize)) 0) z))
        | no n ↦
            let test : (addr == 0) ≡ false = ground arith in
            let out = cp.run mem dst (u.content addr) (off % bsize) m in
            elim (Bool-cases out.0) [
              | inl e ↦
                  rw (test, e)
                    (went positive short same (λ a h. bytes n e a h)
                      (cp.outside mem dst (u.content addr) (off % bsize) m))
              | inr e ↦
                  rw (test, e)
                    (failed same (refusal n e)
                      (λ a o. cp.outside mem dst (u.content addr) (off % bsize) m a (ground arith)))
            ]
      ]
    where
      same : Changed sb i 0 0 fs u
      same = Mapped-Changed sb i (off / bsize) 0 fs (addr, u) mapped

      empty : Dec (slot fs i (off / bsize) ≡ 0) → addr ≡ 0 → slot fs i (off / bsize) ≡ 0
      empty (yes e) z = e
      empty (no n) z = sym (mapped.old n) ∙ z

      block_bytes :
          addr ≢ 0 → (a : ℕ) → a < m → u.content addr (off % bsize + a) ≡ file_byte fs i (off + a)
      block_bytes n a h =
          let at : (off + a) % bsize ≡ off % bsize + a = omega arith in
          ap (u.content addr) (sym at)
          ∙ ap (λ b. u.content b ((off + a) % bsize)) (sym mapped.here)
          ∙ sym (get-here u i (off / bsize) (off + a) (λ z. n (sym mapped.here ∙ z)) (omega arith))
          ∙ same.outside (off + a) (omega arith) (inr (omega arith))

      bytes :
          addr ≢ 0
          → (cp.run mem dst (u.content addr) (off % bsize) m).0 ≡ true
          → (a : ℕ) → a < m
          → (cp.run mem dst (u.content addr) (off % bsize) m).1 (dst + a) ≡ file_byte fs i (off + a)
      bytes n e a h = cp.copied mem dst (u.content addr) (off % bsize) m e a h ∙ block_bytes n a h

      refusal :
          addr ≢ 0
          → (cp.run mem dst (u.content addr) (off % bsize) m).0 ≡ false
          → FailedCopy cp i left off dst mem fs (cp.run mem dst (u.content addr) (off % bsize) m).1
      refusal n e =
          let length_here : min left (bsize - off % bsize) ≡ m = sym within in
          let same_off : off + 0 ≡ off = omega arith in
          let same_dst : dst + 0 ≡ dst = omega arith in
          let same_left : left - 0 ≡ left = omega arith in
          record {
            got = 0;
            before = omega arith;
            to = mem;
            from = u.content addr;
            to_bytes = λ a h. absurd (omega arith);
            to_keeps = λ a o. refl;
            from_bytes = λ a h. rw same_off (block_bytes n a (omega arith));
            refused =
                rw (same_off, same_dst, same_left, length_here)
                  (ap (λ b. (b, (cp.run mem dst (u.content addr) (off % bsize) m).1)) e);
          }

  pub read_round-RoundDone :
      (left off dst : ℕ) (mem : ℕ → ℕ) (fs : Fs)
      → Owns sb fs i
      → 0 < left
      → off + left ≤ max_bytes
      → (r : Round × (ℕ → ℕ) × Fs) × (read_round sb cp i left off dst mem fs ≡ done r)
        × RoundDone sb cp i left off dst mem fs r
  unfolding read_round
  read_round-RoundDone left off dst mem fs v l h =
      let (got, e, mapped) = bmap-Mapped sb i fs (off / bsize) v (omega arith) in
      let m = min left (bsize - off % bsize) in
      rw e (
        get_chunk cp got.0 off dst m mem got.1,
        refl,
        get_chunk-RoundDone left off dst m mem fs got.0 got.1 mapped (omega arith) (omega arith)
            refl h,
      )
