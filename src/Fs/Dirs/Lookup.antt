-- ===== src/Fs/Dirs/Lookup.antt =====
-- `dirlookup` of kernel/fs.c finds the first entry with the name.
use project_opertating_syste.Base.{
  ℕ, zero, suc, ◌+◌, ◌-◌, ◌*◌, ◌/◌, ◌%◌, min, ◌≤◌, ◌<◌, ◌≡◌, ◌≢◌, refl, sym, ◌∙◌, ap, subst,
  fun_ext, ◌==◌, ltb, leb, Bool, true, false, not, ◌&&◌, ◌⊎◌, inl, inr, Option, none, some,
  if◌then◌else◌, arith, dec_lt, Bool-cases, Outcome, done, ◌>>=◌, First, missing, hit, First-here,
  First-next, ℤ, pos, negsuc,
}
use project_opertating_syste.Strings.{Memory, strncmp}
use project_opertating_syste.Strings.Compare.{c_string, strncmp_iff}
use project_opertating_syste.Path.{dirsiz}
use project_opertating_syste.Fs.{Fs, SuperBlock, bsize}
use project_opertating_syste.Fs.Layout.{load16}
use project_opertating_syste.Fs.Inodes.{iget}
use project_opertating_syste.Fs.Files.Copies.{kernel_copy}
use project_opertating_syste.Fs.Files.Slots.{slot, Owns}
use project_opertating_syste.Fs.Files.Bytes.{
  file_byte, max_bytes, Changed, Changed-refl, Changed-trans,
}
use project_opertating_syste.Fs.Files.Read.{Ended, read, fault, readi-Ended}
use project_opertating_syste.Fs.Dirs.{
  t_dir, dirent_size, namecmp, is_zero, is_whole, read_dirent, find_name, dirlookup,
}

-- A directory of whole entries, whose blocks are all there.
pub record Dir (sb : SuperBlock) (fs : Fs) (i : ℕ) : Type 0 where
  pub owns : Owns sb fs i
  pub is_dir : (fs.inode i).type_ ≡ t_dir
  pub size : (fs.inode i).size ≤ max_bytes
  pub whole : (fs.inode i).size % dirent_size ≡ 0
  pub there : (k : ℕ) → k < (fs.inode i).size → slot fs i (k / bsize) ≢ 0

-- The memory with the directory entry at offset `off` in it.
abbrev pub shown : Fs → ℕ → ℕ → ℕ → Memory → Memory
shown fs i de off mem a =
    if leb de a && ltb a (de + dirent_size) then file_byte fs i (off + (a - de)) else mem a

-- Entry `k` is in use, and its name, cut after `DIRSIZ` bytes, is the string at `name`.
pub record Named (fs : Fs) (i name de : ℕ) (mem : Memory) (k : ℕ) : Type 0 where
  pub in_use : load16 (shown fs i de (k * dirent_size) mem) de ≢ 0
  pub same :
      c_string dirsiz name (shown fs i de (k * dirent_size) mem)
      ≡ c_string dirsiz (de + 2) (shown fs i de (k * dirent_size) mem)

-- The test of `dirlookup` on entry `k`.
abbrev has_name : Fs → ℕ → ℕ → ℕ → Memory → ℕ → Bool
has_name fs i name de mem k =
    let m = shown fs i de (k * dirent_size) mem in
    not (load16 m de == 0) && is_zero (namecmp name (de + 2) m)

is_zero-true : (z : ℤ) → is_zero z ≡ true → z ≡ pos 0
unfolding is_zero
is_zero-true (pos n) h = ground arith
is_zero-true (negsuc n) h = absurd (ground arith)

has_name-Named :
    (fs : Fs) (i name de : ℕ) (mem : Memory) (k : ℕ)
    → has_name fs i name de mem k ≡ true
    → Named fs i name de mem k
unfolding namecmp
has_name-Named fs i name de mem k h =
    let m = shown fs i de (k * dirent_size) mem in
    let zero_result : is_zero (strncmp dirsiz name (de + 2) m) ≡ true = ground arith in
    record {
      in_use = λ z. ground (arith, z);
      same = (strncmp_iff dirsiz name (de + 2) m).0 (is_zero-true _ zero_result);
    }

Named-has_name :
    (fs : Fs) (i name de : ℕ) (mem : Memory) (k : ℕ)
    → has_name fs i name de mem k ≡ false
    → ¬ Named fs i name de mem k
unfolding namecmp is_zero
Named-has_name fs i name de mem k h n =
    let m = shown fs i de (k * dirent_size) mem in
    let equal = (strncmp_iff dirsiz name (de + 2) m).1 n.same in
    let free : (load16 m de == 0) ≡ false = ground (arith, n.in_use) in
    let test : has_name fs i name de mem k ≡ true = rw (free, equal) refl in
    absurd (ground (arith, test))

Dir-Changed :
    (sb : SuperBlock) (i : ℕ) (fs u : Fs) → Dir sb fs i → Changed sb i 0 0 fs u → Dir sb u i
Dir-Changed sb i fs u d c =
    let size : (u.inode i).size ≡ (fs.inode i).size = ap (λ ip. ip.size) c.fields in
    record {
      owns = c.owns;
      is_dir = ap (λ ip. ip.type_) c.fields ∙ d.is_dir;
      size = rw size d.size;
      whole = rw size d.whole;
      there = λ k h z.
          let l : k < (fs.inode i).size = omega (arith, h, size) in
          d.there k l (sym (c.mapped (k / bsize) (omega (arith, d.size)) (d.there k l)) ∙ z);
    }

module _ (sb : SuperBlock) (i name de : ℕ) where
  -- An entry is read whole.
  whole_entry :
      (off : ℕ) (mem : Memory) (fs : Fs) (r : Option ℕ × Memory × Fs)
      → Dir sb fs i
      → off + dirent_size ≤ (fs.inode i).size
      → Ended sb kernel_copy i dirent_size 0 off de mem fs r
      → (r.0 ≡ some dirent_size) × (r.1 ≡ shown fs i de off mem) × Changed sb i 0 0 fs r.2
  whole_entry off mem fs (_, out, u) d h (read {total = t} {got = g} e l c bytes keep short) =
      let all : t ≡ dirent_size = elim (dec_lt t dirent_size) [
        | yes q ↦ absurd (d.there (off + g) (omega arith) (short q))
        | no q ↦ omega arith
      ] in
      (ap some all, fun_ext (λ a. byte a all), c)
    where
      byte : (a : ℕ) → t ≡ dirent_size → out a ≡ shown fs i de off mem a
      byte a all = elim (Bool-cases (leb de a && ltb a (de + dirent_size))) [
        | inl q ↦
            let back : de + (a - de) ≡ a = ground arith in
            rw q (ap out (sym back) ∙ bytes (a - de) (ground arith))
        | inr q ↦ rw q (keep a (ground arith))
      ]
  whole_entry off mem fs r d h (fault c f keep) = absurd (ground (arith, ap (λ p. p.0) f.refused))

  read_dirent_lem :
      (off : ℕ) (mem : Memory) (fs : Fs)
      → Dir sb fs i
      → off + dirent_size ≤ (fs.inode i).size
      → (u : Fs) × (read_dirent sb i de off mem fs ≡ done (shown fs i de off mem, u))
        × Changed sb i 0 0 fs u
  unfolding read_dirent is_whole
  read_dirent_lem off mem fs d h =
      let (r, e, x) =
        (readi-Ended sb kernel_copy i de off dirent_size mem fs d.owns d.size
            (omega (arith, d.size)) (omega arith)).1
          (omega arith) (omega (arith, d.size)) in
      let sixteen : min dirent_size ((fs.inode i).size - off) ≡ dirent_size = omega arith in
      let (total, out, c) =
        whole_entry off mem fs r d h
          (subst (λ n. Ended sb kernel_copy i n 0 off de mem fs r) sixteen x) in
      rw (e, total, out) (r.2, refl, c)

  -- The memory before an entry is read matters only outside of it.
  shown-same :
      (off : ℕ) (mem m : Memory) (fs u : Fs)
      → Changed sb i 0 0 fs u
      → ((a : ℕ) → (a < de) ⊎ (de + dirent_size ≤ a) → m a ≡ mem a)
      → off + dirent_size ≤ max_bytes
      → shown u i de off m ≡ shown fs i de off mem
  shown-same off mem m fs u c h l = fun_ext byte
    where
      byte : (a : ℕ) → shown u i de off m a ≡ shown fs i de off mem a
      byte a = elim (Bool-cases (leb de a && ltb a (de + dirent_size))) [
        | inl q ↦ rw q (c.outside (off + (a - de)) (ground arith) (inr (omega arith)))
        | inr q ↦ rw q (h a (ground arith))
      ]

-- How the loop of `dirlookup` ends, by the number of the entry that it finds.
data Looked (sb : SuperBlock) (i de : ℕ) (mem : Memory) (fs : Fs)
    : Option ℕ → Option ℕ × Memory × Fs → Type 0 where
  nowhere : {m : Memory} {u : Fs} → Changed sb i 0 0 fs u → Looked sb i de mem fs none (none, m, u)
  at :
      {q : ℕ} {u : Fs}
      → Changed sb i 0 0 fs u
      → Looked sb i de mem fs
          (some q)
          (some (q * dirent_size), shown fs i de (q * dirent_size) mem, u)

module _ (sb : SuperBlock) (i name de : ℕ) (mem : Memory) (fs : Fs) (d : Dir sb fs i) where
  abbrev entries : ℕ
  entries = (fs.inode i).size / dirent_size

  abbrev Finds : ℕ → ℕ → Memory → Fs → Type 0
  Finds k j m u =
      (o : Option ℕ) × First (has_name fs i name de mem) j entries o
      × (r : Option ℕ × Memory × Fs) × (find_name sb i name de k (j * dirent_size) m u ≡ done r)
      × Looked sb i de mem fs o r

  find_name-Finds :
      (k j : ℕ) (m : Memory) (u : Fs)
      → Changed sb i 0 0 fs u
      → ((a : ℕ) → (a < de) ⊎ (de + dirent_size ≤ a) → m a ≡ mem a)
      → entries < j + k
      → Finds k j m u
  unfolding find_name
  find_name-Finds zero j m u c same h =
      (none, missing (λ x p q. absurd (omega arith)), (none, m, u), refl, nowhere c)
  find_name-Finds (suc k) j m u c same h =
      let size : (u.inode i).size ≡ (fs.inode i).size = ap (λ ip. ip.size) c.fields in
      elim (dec_lt (j * dirent_size) (fs.inode i).size) [
        | no l ↦
            let test : ltb (j * dirent_size) (fs.inode i).size ≡ false = ground arith in
            rw (size, test)
              (none, missing (λ x p q. absurd (omega arith)), (none, m, u), refl, nowhere c)
        | yes l ↦
            let test : ltb (j * dirent_size) (fs.inode i).size ≡ true = ground arith in
            let dir = Dir-Changed sb i fs u d c in
            let (w, e, g) =
              read_dirent_lem sb i name de (j * dirent_size) m u dir
                (omega (arith, size, d.whole)) in
            let view =
              shown-same sb i name de (j * dirent_size) mem m fs u c same
                (omega (arith, d.size, d.whole)) in
            let both = Changed-trans sb i 0 0 0 0 fs u w (omega arith) (omega arith) c g in
            let rest =
              find_name-Finds k (j + 1) (shown fs i de (j * dirent_size) mem) w both
                (λ a o. ground arith) (omega arith) in
            let place : j * dirent_size + dirent_size ≡ (j + 1) * dirent_size = omega arith in
            rw (size, test, e, view, place)
              (elim (Bool-cases (has_name fs i name de mem j)) [
                | inl t ↦ rw t (
                  some j,
                  First-here (has_name fs i name de mem) j entries (omega (arith, d.whole)) t,
                  (some (j * dirent_size), shown fs i de (j * dirent_size) mem, w),
                  refl,
                  at both,
                )
                | inr t ↦ rw t (
                  rest.0,
                  First-next (has_name fs i name de mem) j entries rest.0 t rest.1,
                  rest.2,
                  rest.3,
                  rest.4,
                )
              ])
      ]

-- How `dirlookup` ends: without an entry of that name, or as `iget` of the inode that the first
-- such entry `k` names.
pub data Found (sb : SuperBlock) (i name de : ℕ) (mem : Memory) (fs : Fs)
    : Outcome (Option (ℕ × ℕ) × Memory × Fs) → Type 0 where
  absent :
      {m : Memory} {u : Fs}
      → ((k : ℕ) → k < (fs.inode i).size / dirent_size → ¬ Named fs i name de mem k)
      → Changed sb i 0 0 fs u
      → Found sb i name de mem fs (done (none, m, u))
  found :
      {k : ℕ} {u : Fs}
      → k < (fs.inode i).size / dirent_size
      → Named fs i name de mem k
      → ((c : ℕ) → c < k → ¬ Named fs i name de mem c)
      → Changed sb i 0 0 fs u
      → Found sb i name de mem fs (
          iget (load16 (shown fs i de (k * dirent_size) mem) de) u >>= λ ip.
          done (some (ip.0, k * dirent_size), shown fs i de (k * dirent_size) mem, ip.1))

-- `dirlookup` in a directory of whole entries whose blocks are all there: it finds the first entry
-- in use whose name, cut after 14 bytes, is the string at `name`, and then ends as `iget` of the inode of that entry does, with its offset;
-- it returns no inode exactly where there is no such entry. The directory does not change.
pub dirlookup-Found :
    (sb : SuperBlock) (i name de : ℕ) (mem : Memory) (fs : Fs)
    → Dir sb fs i
    → Found sb i name de mem fs (dirlookup sb i name de mem fs)
unfolding dirlookup
dirlookup-Found sb i name de mem fs d =
    let test : ((fs.inode i).type_ == t_dir) ≡ true = ground (arith, d.is_dir) in
    let (o, f, r, e, x) =
      find_name-Finds sb i name de mem fs d ((fs.inode i).size / dirent_size + 1) 0 mem fs
        (Changed-refl sb i 0 0 fs d.owns) (λ a p. refl) (omega arith) in
    rw (test, e) (ends o r f x)
  where
    ends :
        (o : Option ℕ) (r : Option ℕ × Memory × Fs)
        → First (has_name fs i name de mem) 0 ((fs.inode i).size / dirent_size) o
        → Looked sb i de mem fs o r
        → Found sb i name de mem fs (elim r.0 [
          | none ↦ done (none, r.1, r.2)
          | some off ↦ iget (load16 r.1 de) r.2 >>= λ ip. done (some (ip.0, off), r.1, ip.1)
        ])
    ends none _ (missing h) (nowhere c) =
        absent (λ k l. Named-has_name fs i name de mem k (h k (omega arith) l)) c
    ends (some k) _ (hit p q t h) (at c) =
        found q (has_name-Named fs i name de mem k t)
          (λ x l. Named-has_name fs i name de mem x (h x (omega arith) l)) c
