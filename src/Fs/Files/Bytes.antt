-- ===== src/Fs/Files/Bytes.antt =====
-- The bytes of a file, kernel/fs.c, which `bmap` keeps.
use project_opertating_syste.Base.{
  ℕ, ◌-◌, ◌*◌, ◌/◌, ◌%◌, ◌≤◌, ◌<◌, ◌≡◌, ◌≢◌, refl, sym, ◌∙◌, ap, subst, ◌==◌, true, false,
  if◌then◌else◌, arith, ℕ_discrete, ◌⊎◌,
}
use project_opertating_syste.Fs.{Inode, Fs, SuperBlock, bsize, bblock}
use project_opertating_syste.Fs.Layout.{load32}
use project_opertating_syste.Fs.Files.{ndirect, maxfile}
use project_opertating_syste.Fs.Files.Slots.{slot, slot-last, slot-same, Owns, Owns-same}
use project_opertating_syste.Fs.Files.Mapping.{Mapped}

-- Byte `k` of the file of inode `i`; a block that is not there reads as zeros.
unfoldable pub file_byte : Fs → ℕ → ℕ → ℕ
file_byte fs i k = let b = slot fs i (k / bsize) in if b == 0 then 0 else fs.content b (k % bsize)

abbrev pub max_bytes : ℕ
max_bytes = maxfile * bsize

module _ (fs : Fs) (i k : ℕ) where
  pub file_byte-hole : slot fs i (k / bsize) ≡ 0 → file_byte fs i k ≡ 0
  unfolding file_byte
  file_byte-hole e = let test : (slot fs i (k / bsize) == 0) ≡ true = ground arith in rw test refl

  pub file_byte-there :
      slot fs i (k / bsize) ≢ 0 → file_byte fs i k ≡ fs.content (slot fs i (k / bsize)) (k % bsize)
  unfolding file_byte
  file_byte-there n = let test : (slot fs i (k / bsize) == 0) ≡ false = ground arith in rw test refl

-- A byte stays where its slot and the block in it do.
pub file_byte-same :
    (fs u : Fs) (i k : ℕ)
    → slot u i (k / bsize) ≡ slot fs i (k / bsize)
    → (slot fs i (k / bsize) ≢ 0
        → u.content (slot fs i (k / bsize)) (k % bsize)
          ≡ fs.content (slot fs i (k / bsize)) (k % bsize))
    → file_byte u i k ≡ file_byte fs i k
file_byte-same fs u i k e c = elim (ℕ_discrete (slot fs i (k / bsize)) 0) [
  | yes z ↦ file_byte-hole u i k (e ∙ z) ∙ sym (file_byte-hole fs i k z)
  | no n ↦
      file_byte-there u i k (λ q. n (sym e ∙ q))
      ∙ ap (λ b. u.content b (k % bsize)) e
      ∙ c n
      ∙ sym (file_byte-there fs i k n)
]

-- From `fs` to `u` the file changes in the bytes from `lo` to `hi` only, and nothing else but the
-- addresses of its blocks changes in an inode.
pub record Changed (sb : SuperBlock) (i lo hi : ℕ) (fs u : Fs) : Type 0 where
  pub owns : Owns sb u i
  pub outside : (k : ℕ) → k < max_bytes → (k < lo) ⊎ (hi ≤ k) → file_byte u i k ≡ file_byte fs i k
  -- A block of the file stays in its slot.
  pub mapped : (s : ℕ) → s < maxfile → slot fs i s ≢ 0 → slot u i s ≡ slot fs i s
  pub fields : u.inode i ≡ record (fs.inode i) { addrs = (u.inode i).addrs }
  pub inodes : (j : ℕ) → j ≢ i → u.inode j ≡ fs.inode j

pub Changed-refl :
    (sb : SuperBlock) (i lo hi : ℕ) (fs : Fs) → Owns sb fs i → Changed sb i lo hi fs fs
Changed-refl sb i lo hi fs v = record {
  owns = v;
  outside = λ k h o. refl;
  mapped = λ s h n. refl;
  fields = refl;
  inodes = λ j n. refl;
}

pub Changed-trans :
    (sb : SuperBlock) (i lo hi mid top : ℕ) (fs u w : Fs)
    → lo ≤ mid
    → hi ≤ top
    → Changed sb i lo hi fs u
    → Changed sb i mid top u w
    → Changed sb i lo top fs w
Changed-trans sb i lo hi mid top fs u w p q a b = record {
  owns = b.owns;
  outside = λ k h o. b.outside k h (ground arith) ∙ a.outside k h (ground arith);
  mapped = λ s h n. let e = a.mapped s h n in b.mapped s h (λ z. n (sym e ∙ z)) ∙ e;
  fields =
      b.fields
      ∙ ap {A = Inode} {B = Inode} (λ ip. record ip { addrs = (w.inode i).addrs }) a.fields;
  inodes = λ j n. b.inodes j n ∙ a.inodes j n;
}

-- `bmap` changes no byte.
pub Mapped-Changed :
    (sb : SuperBlock) (i bn lo : ℕ) (fs : Fs) (r : ℕ × Fs)
    → Mapped sb i bn fs r
    → Changed sb i lo lo fs r.1
Mapped-Changed sb i bn lo fs r m = record {
  owns = m.owns;
  outside = λ k h o. elim (ℕ_discrete (k / bsize) bn) [
    | no d ↦
        file_byte-same fs r.1 i k (m.others (k / bsize) (omega arith) d)
          (λ n. ap (λ c. c (k % bsize)) (m.kept (k / bsize) (omega arith) n))
    | yes e ↦ elim (ℕ_discrete (slot fs i bn) 0) [
      | no n ↦
          let there : slot fs i (k / bsize) ≢ 0 = λ q. n (ap (slot fs i) (sym e) ∙ q) in
          file_byte-same fs r.1 i k (ap (slot r.1 i) e ∙ m.here ∙ m.old n ∙ ap (slot fs i) (sym e))
            (λ _. ap (λ c. c (k % bsize)) (m.kept (k / bsize) (omega arith) there))
      | yes z ↦ new k e z (ℕ_discrete r.0 0) ∙ sym (file_byte-hole fs i k (ap (slot fs i) e ∙ z))
    ]
  ];
  mapped = λ s h n. elim (ℕ_discrete s bn) [
    | yes e ↦
        subst (λ x. slot r.1 i x ≡ slot fs i x) (sym e)
          (m.here ∙ m.old (λ z. n (ap (slot fs i) e ∙ z)))
    | no d ↦ m.others s h d
  ];
  fields = m.fields;
  inodes = m.inodes;
}
  where
    new : (k : ℕ) → k / bsize ≡ bn → slot fs i bn ≡ 0 → Dec (r.0 ≡ 0) → file_byte r.1 i k ≡ 0
    new k e z (yes q) = file_byte-hole r.1 i k (ap (slot r.1 i) e ∙ m.here ∙ q)
    new k e z (no n) =
        let at : slot r.1 i (k / bsize) ≡ r.0 = ap (slot r.1 i) e ∙ m.here in
        file_byte-there r.1 i k (λ q. n (sym at ∙ q))
        ∙ ap (λ b. r.1.content b (k % bsize)) at
        ∙ m.fresh z n (k % bsize) (omega arith)

-- A change to the content of one block of the file.
module _ (sb : SuperBlock) (i bn : ℕ) (fs u : Fs) (v : Owns sb fs i) (in_file : bn < maxfile)
    (there : slot fs i bn ≢ 0) (inodes : u.inode ≡ fs.inode)
    (elsewhere : (d : ℕ) → d ≢ slot fs i bn → u.content d ≡ fs.content d) where
  pub slot-stays : (s : ℕ) → s ≤ maxfile → slot u i s ≡ slot fs i s
  slot-stays s h =
      let addrs = ap (λ f. (f i).addrs) inodes in
      slot-same fs u i s h (λ q. ap (λ f. f s) addrs) (ap (λ f. f ndirect) addrs)
        (λ p q n.
          ap (λ c. load32 c (4 * (s - ndirect)))
            (elsewhere ((fs.inode i).addrs ndirect) (λ e. absurd (
              omega (
                arith,
                v.distinct bn maxfile (omega arith) (omega arith) there
                    (sym e ∙ sym (slot-last fs i)),
              )))))

  pub put-Owns : Owns sb u i
  put-Owns =
      Owns-same sb fs u i v
        (λ c h. elsewhere (bblock sb c) ((v.held bn (omega arith) there).not_map c h))
        (ap (λ f. (f i).inum) inodes) slot-stays

  -- The bytes of the other blocks stay.
  pub put-others : (k : ℕ) → k < max_bytes → k / bsize ≢ bn → file_byte u i k ≡ file_byte fs i k
  put-others k h d = file_byte-same fs u i k (slot-stays (k / bsize) (omega arith)) (λ n.
      ap (λ c. c (k % bsize))
        (elsewhere (slot fs i (k / bsize))
          (λ e. d (v.distinct (k / bsize) bn (omega arith) (omega arith) n e))))

  -- And those of the block are its content.
  pub put-here : (k : ℕ) → k / bsize ≡ bn → file_byte u i k ≡ u.content (slot fs i bn) (k % bsize)
  put-here k e =
      let at : slot u i (k / bsize) ≡ slot fs i bn =
        ap (slot u i) e ∙ slot-stays bn (omega arith) in
      file_byte-there u i k (λ z. there (sym at ∙ z)) ∙ ap (λ b. u.content b (k % bsize)) at

pub get-here :
    (fs : Fs) (i bn k : ℕ)
    → slot fs i bn ≢ 0
    → k / bsize ≡ bn
    → file_byte fs i k ≡ fs.content (slot fs i bn) (k % bsize)
get-here fs i bn k n e =
    let at : slot fs i (k / bsize) ≡ slot fs i bn = ap (slot fs i) e in
    file_byte-there fs i k (λ z. n (sym at ∙ z)) ∙ ap (λ b. fs.content b (k % bsize)) at
