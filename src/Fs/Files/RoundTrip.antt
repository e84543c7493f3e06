-- ===== src/Fs/Files/RoundTrip.antt =====
-- What `readi` reads after `writei`, kernel/fs.c.
use project_opertating_syste.Base.{
  ℕ, ◌+◌, ◌-◌, min, ◌≤◌, ◌<◌, ◌≡◌, ◌∙◌, ap, subst, Option, some, arith, dec_lt, done,
}
use project_opertating_syste.Fs.{Fs, SuperBlock}
use project_opertating_syste.Fs.Files.{readi, writei}
use project_opertating_syste.Fs.Files.Copies.{Copy, kernel_copy}
use project_opertating_syste.Fs.Files.Slots.{Owns}
use project_opertating_syste.Fs.Files.Bytes.{max_bytes}
use project_opertating_syste.Fs.Files.Write.{Written, writei-left}
use project_opertating_syste.Fs.Files.Read.{Ended, read, fault, readi-Ended}

-- What a `readi` of `tot` bytes within the kernel gives, after a `writei` that wrote them.
read-Written :
    (sb : SuperBlock) (cp : Copy) (i src off n dst : ℕ) (mem out : ℕ → ℕ) (fs : Fs) (tot : ℕ)
    (u : Fs)
    → off + tot ≤ max_bytes
    → Written sb cp i src off n mem fs tot u
    → (r : Option ℕ × (ℕ → ℕ) × Fs) → Ended sb kernel_copy i tot 0 off dst out u r
    → (r.0 ≡ some tot) × ((a : ℕ) → a < tot → r.1 (dst + a) ≡ mem (src + a))
read-Written sb cp i src off n dst mem out fs tot u fits w (_, q, _)
      (read {total = t} {got = g} e l d bytes keep short) =
    let all : t ≡ tot = elim (dec_lt t tot) [
      | yes h ↦ absurd (w.there g (omega arith) (short h))
      | no h ↦ omega arith
    ] in
    (ap some all, λ a h. bytes a (omega arith) ∙ w.bytes a h)
read-Written sb cp i src off n dst mem out fs tot u fits w r (fault d f keep) =
    absurd (ground (arith, ap (λ p. p.0) f.refused))

-- `writei` of an inode that owns its blocks and whose size is at most that of the largest file,
-- at an offset in the file and with room for the bytes, writes `tot` bytes; and a `readi` of as
-- many bytes at that offset then, by a copy in the kernel, returns `tot` and the bytes written.
pub readi-writei :
    (sb : SuperBlock) (cp : Copy) (i src off n dst : ℕ) (mem out : ℕ → ℕ) (fs : Fs)
    → Owns sb fs i
    → (fs.inode i).size ≤ max_bytes
    → off ≤ (fs.inode i).size
    → off + n ≤ max_bytes
    → (tot : ℕ) × (u : Fs) × (writei sb cp i src off n mem fs ≡ done (some tot, u))
      × (r : Option ℕ × (ℕ → ℕ) × Fs) × (readi sb kernel_copy i dst off tot out u ≡ done r)
      × (r.0 ≡ some tot)
      × ((a : ℕ) → a < tot → r.1 (dst + a) ≡ mem (src + a))
readi-writei sb cp i src off n dst mem out fs v s h k =
    let (tot, u, e, w) = writei-left sb cp i src off n mem fs v h k in
    let grown : (u.inode i).size ≤ max_bytes = ground (arith, w.size, w.count) in
    let within : off + tot ≤ (u.inode i).size = ground (arith, w.size, w.count) in
    let (r, f, d) =
      (readi-Ended sb kernel_copy i dst off tot out u w.owns grown (omega arith)
          (omega (arith, w.count))).1
        (omega arith) (omega (arith, w.count)) in
    let whole : min tot ((u.inode i).size - off) ≡ tot = omega arith in
    let same : Ended sb kernel_copy i tot 0 off dst out u r =
      subst (λ x. Ended sb kernel_copy i x 0 off dst out u r) whole d in
    let (x, y) =
      read-Written sb cp i src off n dst mem out fs tot u (omega (arith, w.count)) w r same in
    (tot, u, e, r, f, x, y)
