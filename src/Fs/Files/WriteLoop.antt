-- ===== src/Fs/Files/WriteLoop.antt =====
-- The loop of `writei`, kernel/fs.c: the bytes it writes, and those it leaves.
use project_opertating_syste.Base.{
  ℕ, zero, suc, ◌+◌, ◌-◌, ◌/◌, ◌≤◌, ◌<◌, ◌≡◌, ◌≢◌, refl, sym, ◌∙◌, ap, subst, ltb, true, false,
  Option, none, some, arith, dec_lt, inl, done,
}
use project_opertating_syste.Fs.{Fs, SuperBlock, bsize}
use project_opertating_syste.Fs.Files.{write_loop}
use project_opertating_syste.Fs.Files.Copies.{Copy}
use project_opertating_syste.Fs.Files.Slots.{slot, Owns}
use project_opertating_syste.Fs.Files.Bytes.{
  file_byte, max_bytes, Changed, Changed-refl, Changed-trans,
}
use project_opertating_syste.Fs.Files.WriteRound.{
  Stopped, RoundDone, went, ended, write_round-RoundDone,
}

-- The loop went from `tot` and `off` to `r`.
pub record Looped (sb : SuperBlock) (cp : Copy) (i n tot off src : ℕ) (mem : ℕ → ℕ) (fs : Fs)
    (r : ℕ × ℕ × Fs) : Type 0 where
  pub least : tot ≤ r.0
  pub most : r.0 ≤ n
  pub place : r.1 + tot ≡ off + r.0
  pub bytes : (a : ℕ) → tot + a < r.0 → file_byte r.2 i (off + a) ≡ mem (src + a)
  pub there : (a : ℕ) → tot + a < r.0 → slot r.2 i ((off + a) / bsize) ≢ 0
  pub changed : Changed sb i off (off + (n - tot)) fs r.2
  pub short : r.0 < n → Stopped sb cp i (n - r.0) r.1 (src + (r.0 - tot)) mem r.2

module _ (sb : SuperBlock) (cp : Copy) (i : ℕ) (mem : ℕ → ℕ) where
  stop-Looped :
      (n tot off src : ℕ) (fs u : Fs)
      → tot ≤ n
      → Changed sb i off (off + (n - tot)) fs u
      → (tot < n → Stopped sb cp i (n - tot) off src mem u)
      → Looped sb cp i n tot off src mem fs (tot, off, u)
  stop-Looped n tot off src fs u h c s = record {
    least = omega arith;
    most = h;
    place = refl;
    bytes = λ a l. absurd (omega arith);
    there = λ a l. absurd (omega arith);
    changed = c;
    short = λ l.
        let here : src + (tot - tot) ≡ src = omega arith in
        subst (λ x. Stopped sb cp i (n - tot) off x mem u) (sym here) (s l);
  }

  go-Looped :
      (n tot off src m : ℕ) (fs u : Fs) (r : ℕ × ℕ × Fs)
      → tot < n
      → m ≤ n - tot
      → off + (n - tot) ≤ max_bytes
      → Changed sb i off (off + m) fs u
      → ((a : ℕ) → a < m → file_byte u i (off + a) ≡ mem (src + a))
      → ((a : ℕ) → a < m → slot u i ((off + a) / bsize) ≢ 0)
      → Looped sb cp i n (tot + m) (off + m) (src + m) mem u r
      → Looped sb cp i n tot off src mem fs r
  go-Looped n tot off src m fs u r h l fits c bytes filled rest = record {
    least = omega (arith, rest.least);
    most = rest.most;
    place = omega (arith, rest.place);
    bytes = λ a x. elim (dec_lt a m) [
      | yes y ↦
          rest.changed.outside (off + a) (omega (arith, rest.most)) (inl (omega arith)) ∙ bytes a y
      | no y ↦
          let far : off + m + (a - m) ≡ off + a = omega arith in
          let from : src + m + (a - m) ≡ src + a = omega arith in
          subst (λ p. file_byte r.2 i p ≡ mem (src + a)) far
            (rest.bytes (a - m) (omega arith) ∙ ap mem from)
    ];
    there = λ a x. elim (dec_lt a m) [
      | yes y ↦ λ z. filled a y (
          sym (rest.changed.mapped ((off + a) / bsize) (omega (arith, rest.most)) (filled a y)) ∙ z)
      | no y ↦
          let far : off + m + (a - m) ≡ off + a = omega arith in
          subst (λ p. slot r.2 i (p / bsize) ≢ 0) far (rest.there (a - m) (omega arith))
    ];
    changed =
        Changed-trans sb i off (off + m) (off + m) (off + (n - tot)) fs u r.2 (omega arith)
          (omega arith) c
          (subst (λ hi. Changed sb i (off + m) hi u r.2) (omega arith) rest.changed);
    short = λ x.
        let far : src + m + (r.0 - (tot + m)) ≡ src + (r.0 - tot) = omega (arith, rest.least) in
        subst (λ y. Stopped sb cp i (n - r.0) r.1 y mem r.2) far (rest.short x);
  }

  -- With enough fuel the loop returns.
  abbrev pub Loops : ℕ → ℕ → ℕ → ℕ → ℕ → Fs → Type 0
  Loops k n tot off src fs =
      Owns sb fs i
      → tot ≤ n
      → n ≤ tot + k
      → off + (n - tot) ≤ max_bytes
      → (r : ℕ × ℕ × Fs) × (write_loop sb cp i k n tot off src mem fs ≡ done r)
        × Looped sb cp i n tot off src mem fs r

  pub write_loop-Looped : (k n tot off src : ℕ) (fs : Fs) → Loops k n tot off src fs
  unfolding write_loop
  write_loop-Looped zero n tot off src fs v h enough fits = (
    (tot, off, fs),
    refl,
    stop-Looped n tot off src fs fs h (Changed-refl sb i off (off + (n - tot)) fs v)
        (λ l. absurd (omega arith)),
  )
  write_loop-Looped (suc k) n tot off src fs v h enough fits = elim (dec_lt tot n) [
    | no l ↦
        let test : ltb tot n ≡ false = ground arith in
        rw test (
          (tot, off, fs),
          refl,
          stop-Looped n tot off src fs fs h (Changed-refl sb i off (off + (n - tot)) fs v)
              (λ q. absurd (l q)),
        )
    | yes l ↦
        let test : ltb tot n ≡ true = ground arith in
        let (got, e, d) =
          write_round-RoundDone sb cp i mem (n - tot) off src fs v (omega arith) fits in
        rw (test, e) (round (λ t o s u. write_loop-Looped k n t o s u) got d l)
  ]
    where
      round :
          ((t o s : ℕ) (u : Fs) → Loops k n t o s u)
          → (got : Option ℕ × Fs) → RoundDone sb cp i (n - tot) off src mem fs got
          → tot < n
          → (r : ℕ × ℕ × Fs) × (elim got.0 [
            | none ↦ done (tot, off, got.1)
            | some m ↦ write_loop sb cp i k n (tot + m) (off + m) (src + m) mem got.1
          ]
              ≡ done r)
            × Looped sb cp i n tot off src mem fs r
      round rest (none, u) (ended c s) l =
          ((tot, off, u), refl, stop-Looped n tot off src fs u h c (λ _. s))
      round rest (some m, u) (went p q c bytes filled) l =
          let (r, e, x) =
            rest (tot + m) (off + m) (src + m) u c.owns (omega arith) (omega arith) (omega arith) in
          (r, e, go-Looped n tot off src m fs u r l q fits c bytes filled x)
