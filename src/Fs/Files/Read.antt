-- ===== src/Fs/Files/Read.antt =====
-- `readi` of kernel/fs.c: the bytes it reads.
use project_opertating_syste.Base.{
  ℕ, zero, suc, ◌+◌, ◌-◌, ◌/◌, ◌%◌, ◌^◌, min, ◌≤◌, ◌<◌, ◌≡◌, refl, sym, ◌∙◌, ap, subst, ltb, true,
  false, ◌||◌, if◌then◌else◌, Option, none, some, arith, ℕ_discrete, dec_lt, ◌⊎◌, inl, inr, done,
}
use project_opertating_syste.Fs.{Fs, SuperBlock, bsize}
use project_opertating_syste.Fs.Files.{Round, stop, fail, go, read_loop, readi}
use project_opertating_syste.Fs.Files.Copies.{Copy}
use project_opertating_syste.Fs.Files.Slots.{slot, Owns}
use project_opertating_syste.Fs.Files.Bytes.{
  file_byte, max_bytes, Changed, Changed-refl, Changed-trans,
}
use project_opertating_syste.Fs.Files.ReadRound.{
  Keeps, FailedCopy, RoundDone, went, stopped, failed, read_round-RoundDone,
}

-- How the loop of `readi` ends, from `tot` on.
pub data Ended (sb : SuperBlock) (cp : Copy) (i n tot off dst : ℕ) (mem : ℕ → ℕ) (fs : Fs)
    : Option ℕ × (ℕ → ℕ) × Fs → Type 0 where
  -- It read `got` bytes more, fewer than were asked for only at a block that is not there.
  read :
      {total got : ℕ} {out : ℕ → ℕ} {u : Fs}
      → total ≡ tot + got
      → total ≤ n
      → Changed sb i 0 0 fs u
      → ((a : ℕ) → a < got → out (dst + a) ≡ file_byte fs i (off + a))
      → Keeps dst got mem out
      → (total < n → slot fs i ((off + got) / bsize) ≡ 0)
      → Ended sb cp i n tot off dst mem fs (some total, out, u)
  -- A copy of this call failed.
  fault :
      {out : ℕ → ℕ} {u : Fs}
      → Changed sb i 0 0 fs u
      → FailedCopy cp i (n - tot) off dst mem fs out
      → Keeps dst (n - tot) mem out
      → Ended sb cp i n tot off dst mem fs (none, out, u)

module _ (sb : SuperBlock) (cp : Copy) (i : ℕ) where
  here-Ended :
      (n tot off dst : ℕ) (mem : ℕ → ℕ) (fs u : Fs)
      → tot ≤ n
      → Changed sb i 0 0 fs u
      → (tot < n → slot fs i (off / bsize) ≡ 0)
      → Ended sb cp i n tot off dst mem fs (some tot, mem, u)
  here-Ended n tot off dst mem fs u h c s =
      read {got = 0} (omega arith) h c (λ a l. absurd (omega arith)) (λ a o. refl)
        (λ l. let at : off + 0 ≡ off = omega arith in rw at (s l))

  go-Ended :
      (n tot off dst m : ℕ) (mem out : ℕ → ℕ) (fs u : Fs) (r : Option ℕ × (ℕ → ℕ) × Fs)
      → m ≤ n - tot
      → off + (n - tot) ≤ max_bytes
      → tot < n
      → Changed sb i 0 0 fs u
      → ((a : ℕ) → a < m → out (dst + a) ≡ file_byte fs i (off + a))
      → Keeps dst m mem out
      → Ended sb cp i n (tot + m) (off + m) (dst + m) out u r
      → Ended sb cp i n tot off dst mem fs r
  go-Ended n tot off dst m mem out fs u (_, q, w) h fits below c bytes keep
        (read {total = t} {got = g} e l d more kept short) =
      read {got = m + g} {out = q} (omega arith) l
        (Changed-trans sb i 0 0 0 0 fs u w (omega arith) (omega arith) c d)
        (λ a x. elim (dec_lt a m) [
          | yes y ↦ kept (dst + a) (inl (omega arith)) ∙ bytes a y
          | no y ↦
              let to : dst + m + (a - m) ≡ dst + a = omega arith in
              let from : off + m + (a - m) ≡ off + a = omega arith in
              ap q (sym to)
              ∙ more (a - m) (omega arith)
              ∙ ap (file_byte u i) from
              ∙ c.outside (off + a) (omega arith) (inr (omega arith))
        ])
        (λ a o. kept a (ground arith) ∙ keep a (ground arith))
        (λ x. elim (ℕ_discrete (slot fs i ((off + (m + g)) / bsize)) 0) [
          | yes z ↦ z
          | no z ↦
              let at : off + m + g ≡ off + (m + g) = omega arith in
              sym (c.mapped ((off + (m + g)) / bsize) (omega arith) z)
              ∙ ap (λ p. slot u i (p / bsize)) (sym at)
              ∙ short x
        ])
  go-Ended n tot off dst m mem out fs u (_, q, w) h fits below c bytes keep (fault d e kept) =
      fault (Changed-trans sb i 0 0 0 0 fs u w (omega arith) (omega arith) c d) later
        (λ a o. kept a (ground arith) ∙ keep a (ground arith))
    where
      later : FailedCopy cp i (n - tot) off dst mem fs q
      later =
          let at : off + m + e.got ≡ off + (m + e.got) = omega arith in
          let rest : n - (tot + m) - e.got ≡ n - tot - (m + e.got) = omega arith in
          let to_here : dst + m + e.got ≡ dst + (m + e.got) = omega arith in
          record {
            got = m + e.got;
            before = omega (arith, e.before);
            to = e.to;
            from = e.from;
            to_bytes = λ a x. elim (dec_lt a m) [
              | yes y ↦ e.to_keeps (dst + a) (inl (omega arith)) ∙ bytes a y
              | no y ↦
                  let there : dst + m + (a - m) ≡ dst + a = omega arith in
                  let source : off + m + (a - m) ≡ off + a = omega arith in
                  ap e.to (sym there)
                  ∙ e.to_bytes (a - m) (omega arith)
                  ∙ ap (file_byte u i) source
                  ∙ c.outside (off + a) (omega (arith, e.before)) (inr (omega arith))
            ];
            to_keeps = λ a o. e.to_keeps a (ground arith) ∙ keep a (ground arith);
            from_bytes = λ a x.
                let source : off + m + e.got + a ≡ off + (m + e.got) + a = omega arith in
                subst (λ x. e.from (x % bsize + a) ≡ file_byte fs i (off + (m + e.got) + a)) at
                  (e.from_bytes a (omega arith)
                    ∙ ap (file_byte u i) source
                    ∙ c.outside (off + (m + e.got) + a) (omega (arith, e.before))
                        (inr (omega arith)));
            refused =
                subst
                  (λ x.
                    cp.run e.to (dst + (m + e.got)) e.from (x % bsize)
                      (min (n - tot - (m + e.got)) (bsize - x % bsize))
                    ≡ (false, q))
                  at
                  (subst
                    (λ x.
                      cp.run e.to (dst + (m + e.got)) e.from ((off + m + e.got) % bsize)
                        (min x (bsize - (off + m + e.got) % bsize))
                      ≡ (false, q))
                    rest
                    (subst
                      (λ x.
                        cp.run e.to x e.from ((off + m + e.got) % bsize)
                          (min (n - (tot + m) - e.got) (bsize - (off + m + e.got) % bsize))
                        ≡ (false, q))
                      to_here e.refused));
          }

  -- With enough fuel the loop returns.
  abbrev Loops : ℕ → ℕ → ℕ → ℕ → ℕ → (ℕ → ℕ) → Fs → Type 0
  Loops k n tot off dst mem fs =
      Owns sb fs i
      → tot ≤ n
      → n ≤ tot + k
      → off + (n - tot) ≤ max_bytes
      → (r : Option ℕ × (ℕ → ℕ) × Fs) × (read_loop sb cp i k n tot off dst mem fs ≡ done r)
        × Ended sb cp i n tot off dst mem fs r

  read_loop-Ended : (k n tot off dst : ℕ) (mem : ℕ → ℕ) (fs : Fs) → Loops k n tot off dst mem fs
  unfolding read_loop
  read_loop-Ended zero n tot off dst mem fs v h enough fits = (
    (some tot, mem, fs),
    refl,
    here-Ended n tot off dst mem fs fs h (Changed-refl sb i 0 0 fs v) (λ l. absurd (omega arith)),
  )
  read_loop-Ended (suc k) n tot off dst mem fs v h enough fits = elim (dec_lt tot n) [
    | no l ↦
        let test : ltb tot n ≡ false = ground arith in
        rw test (
          (some tot, mem, fs),
          refl,
          here-Ended n tot off dst mem fs fs h (Changed-refl sb i 0 0 fs v) (λ q. absurd (l q)),
        )
    | yes l ↦
        let test : ltb tot n ≡ true = ground arith in
        let (got, e, d) =
          read_round-RoundDone sb cp i (n - tot) off dst mem fs v (omega arith) fits in
        rw (test, e) (round (λ t o s q u. read_loop-Ended k n t o s q u) got d l)
  ]
    where
      round :
          ((t o s : ℕ) (q : ℕ → ℕ) (u : Fs) → Loops k n t o s q u)
          → (got : Round × (ℕ → ℕ) × Fs) → RoundDone sb cp i (n - tot) off dst mem fs got
          → tot < n
          → (r : Option ℕ × (ℕ → ℕ) × Fs) × (elim got.0 [
            | stop ↦ done (some tot, got.1, got.2)
            | fail ↦ done (none, got.1, got.2)
            | go m ↦ read_loop sb cp i k n (tot + m) (off + m) (dst + m) got.1 got.2
          ]
              ≡ done r)
            × Ended sb cp i n tot off dst mem fs r
      round rest (stop, _, u) (stopped c s) l =
          ((some tot, mem, u), refl, here-Ended n tot off dst mem fs u h c (λ _. s))
      round rest (fail, out, u) (failed c e keep) l = ((none, out, u), refl, fault c e keep)
      round rest (go m, out, u) (went p q c bytes keep) l =
          let (r, e, x) =
            rest (tot + m) (off + m) (dst + m) out u c.owns (omega arith) (omega arith)
              (omega arith) in
          (r, e, go-Ended n tot off dst m mem out fs u r q fits l c bytes keep x)

  -- `readi` of an inode that owns its blocks and whose size is at most that of the largest file, with
  -- an offset and a length of 32 bits. From behind the end, or where the last offset wraps, it reads
  -- 0 bytes and changes nothing. Else, for the length cut off at the end of the file: it returns
  -- -1 only where the copy of the next bytes from a block of the file to their place in the
  -- destination failed, which leaves the destination as it is; or the number of bytes, less than asked for only up to a block that
  -- is not there; the destination has the file's bytes, and no other byte changes; no byte of
  -- this file changes, nor any other inode of the table.
  pub readi-Ended :
      (dst off n : ℕ) (mem : ℕ → ℕ) (fs : Fs)
      → Owns sb fs i
      → (fs.inode i).size ≤ max_bytes
      → off < 4294967296
      → n < 4294967296
      → (((fs.inode i).size < off) ⊎ (4294967296 ≤ off + n)
          → readi sb cp i dst off n mem fs ≡ done (some 0, mem, fs))
        × (off ≤ (fs.inode i).size
            → off + n < 4294967296
            → (r : Option ℕ × (ℕ → ℕ) × Fs) × (readi sb cp i dst off n mem fs ≡ done r)
              × Ended sb cp i (min n ((fs.inode i).size - off)) 0 off dst mem fs r)
  unfolding readi
  readi-Ended dst off n mem fs v s a b = (
    λ h.
        let test : (ltb (fs.inode i).size off || ltb ((off + n) % 2 ^ 32) off) ≡ true =
          ground arith in
        rw test refl,
    λ h k.
        let test : (ltb (fs.inode i).size off || ltb ((off + n) % 2 ^ 32) off) ≡ false =
          ground arith in
        let cut : (if ltb (fs.inode i).size ((off + n) % 2 ^ 32)
              then (fs.inode i).size - off
              else n)
            ≡ min n ((fs.inode i).size - off) =
          ground arith in
        let m = min n ((fs.inode i).size - off) in
        let (r, e, l) =
          read_loop-Ended m m 0 off dst mem fs v (omega arith) (omega arith) (omega arith) in
        rw (test, cut) (r, e, l),
  )
