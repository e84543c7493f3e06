-- ===== src/Fs/Bitmap.antt =====
-- `balloc` and `bfree` of kernel/fs.c on the free map.
use project_opertating_syste.Base.{
  ℕ, zero, suc, ◌+◌, ◌*◌, ◌/◌, ◌%◌, ◌-◌, ◌≤◌, ◌<◌, ◌≡◌, ◌≢◌, refl, sym, ◌∙◌, subst, ◌==◌, ltb, Bool,
  true, false, not, ◌&&◌, ◌||◌, Option, none, some, ◌∷◌, if◌then◌else◌, done, panic, arith,
  ℕ_discrete, Bool-cases, inl, inr, First, missing, hit, First-here, First-skip, First-next,
}
use project_opertating_syste.Fs.{
  bsize, bpb, SuperBlock, bblock, Fs, write_block, bzero, is_free, mark, unmark, scan_bits,
  scan_blocks, take_block, balloc, bfree,
}
use project_opertating_syste.Fs.Bits.{is_free-mark, is_free-unmark, mark_bytes, unmark_bytes}

-- Is block `b` free in the map?
abbrev pub free_in : SuperBlock → Fs → ℕ → Bool
free_in sb fs b = is_free (fs.content (bblock sb b)) (b % bpb)

-- The map's blocks hold bytes, and are in use themselves.
pub record MapInv (sb : SuperBlock) (fs : Fs) : Type 0 where
  pub bytes : (b : ℕ) → b < sb.size → (i : ℕ) → fs.content (bblock sb b) i < 256
  pub reserved :
      (b : ℕ) → b < sb.size → (bblock sb b < sb.size) × (free_in sb fs (bblock sb b) ≡ false)

abbrev in_disk : SuperBlock → Fs → ℕ → Bool
in_disk sb fs c = ltb c sb.size && free_in sb fs c

scan_bits-First :
    (k bi b size : ℕ) (bits : ℕ → ℕ)
    → First (λ c. ltb (b + c) size && is_free bits c) bi (bi + k) (scan_bits k bi b size bits)
unfolding scan_bits
scan_bits-First zero bi b size bits = missing (λ c p q. absurd (omega arith))
scan_bits-First (suc k) bi b size bits = elim (Bool-cases (ltb (b + bi) size)) [
  | inr e ↦ rw (e, scan_bits) (missing (λ c p q. ground arith))
  | inl e ↦ elim (Bool-cases (is_free bits bi)) [
    | inl f ↦
        rw (e, f, scan_bits)
          (First-here (λ c. ltb (b + c) size && is_free bits c) bi (bi + suc k) (omega arith)
            (rw (e, f) refl))
    | inr f ↦
        rw (e, f, scan_bits)
          (First-next (λ c. ltb (b + c) size && is_free bits c) bi (bi + suc k)
            (scan_bits k (bi + 1) b size bits) (rw (e, f) refl)
            (subst
              (λ h.
                First (λ c. ltb (b + c) size && is_free bits c) (bi + 1) h
                  (scan_bits k (bi + 1) b size bits))
              (omega arith) (scan_bits-First k (bi + 1) b size bits)))
  ]
]

module _ (sb : SuperBlock) (fs : Fs) where
  -- The map's block for `b` has the bits of the blocks from `b` on.
  same_block :
      (b c : ℕ)
      → b % bpb ≡ 0
      → c < bpb
      → free_in sb fs (b + c) ≡ is_free (fs.content (bblock sb b)) c
  same_block b c al h =
      let block : bblock sb (b + c) ≡ bblock sb b = omega arith in
      let bit : (b + c) % bpb ≡ c = omega arith in rw (block, bit) refl

  bits-test :
      (b c : ℕ)
      → b % bpb ≡ 0
      → b ≤ c
      → c < b + bpb
      → in_disk sb fs c ≡ (ltb (b + (c - b)) sb.size && is_free (fs.content (bblock sb b)) (c - b))
  bits-test b c al l h =
      let there : b + (c - b) ≡ c = omega arith in
      rw (sym (same_block b (c - b) al (omega arith)), there) refl

  -- The search goes from one block of the map to the next.
  blocks-First :
      (b hi : ℕ) (rest found : Option ℕ)
      → b % bpb ≡ 0
      → b + bpb ≤ hi
      → First (λ c. ltb (b + c) sb.size && is_free (fs.content (bblock sb b)) c) 0 (0 + bpb) found
      → First (in_disk sb fs) (b + bpb) hi rest
      → First (in_disk sb fs) b hi (elim found [ none ↦ rest | some bi ↦ some (b + bi) ])
  blocks-First b hi rest none al l (missing h) f =
      First-skip (in_disk sb fs) b hi (b + bpb) rest (omega arith)
        (λ c p q. bits-test b c al p q ∙ h (c - b) (omega arith) (omega arith)) f
  blocks-First b hi rest (some bi) al l (hit p q t h) f =
      let there : b + bi - b ≡ bi = omega arith in
      hit (omega arith) (omega arith)
        (bits-test b (b + bi) al (omega arith) (omega arith) ∙ rw there t)
        (λ c x y. bits-test b c al x (omega arith) ∙ h (c - b) (omega arith) (omega arith))

  scan_blocks-First :
      (k b : ℕ) → b % bpb ≡ 0 → First (in_disk sb fs) b (b + k * bpb) (scan_blocks sb k b fs)
  unfolding scan_blocks
  scan_blocks-First zero b al = missing (λ c p q. absurd (omega arith))
  scan_blocks-First (suc k) b al = elim (Bool-cases (ltb b sb.size)) [
    | inr e ↦ rw e (missing (λ c p q. ground arith))
    | inl e ↦ rw e (
        blocks-First b (b + suc k * bpb) (scan_blocks sb k (b + bpb) fs)
          (scan_bits bpb 0 b sb.size (fs.content (bblock sb b))) al (omega arith)
          (scan_bits-First bpb 0 b sb.size (fs.content (bblock sb b)))
          (subst (λ h. First (in_disk sb fs) (b + bpb) h (scan_blocks sb k (b + bpb) fs))
            (omega arith) (scan_blocks-First k (b + bpb) (omega arith))))
  ]

-- The file system after `b` is allocated.
pub record Taken (sb : SuperBlock) (fs : Fs) (b : ℕ) (u : Fs) : Type 0 where
  pub on_disk : b < sb.size
  pub was_free : free_in sb fs b ≡ true
  -- It is the first free block, and no other one changes its mark.
  pub first : (c : ℕ) → c < b → free_in sb fs c ≡ false
  pub map : (c : ℕ) → c < sb.size → free_in sb u c ≡ (not (c == b) && free_in sb fs c)
  pub zeroed : (i : ℕ) → i < bsize → u.content b i ≡ 0
  pub elsewhere : (d : ℕ) → d ≢ b → d ≢ bblock sb b → u.content d ≡ fs.content d
  pub inode : u.inode ≡ fs.inode
  pub logged : u.logged ≡ b ∷ bblock sb b ∷ fs.logged
  pub map_inv : MapInv sb u

-- How `balloc` ends.
pub data Allocated (sb : SuperBlock) (fs : Fs) : ℕ × Fs → Type 0 where
  full : ((c : ℕ) → c < sb.size → free_in sb fs c ≡ false) → Allocated sb fs (0, fs)
  taken : {b : ℕ} {u : Fs} → Taken sb fs b u → Allocated sb fs (b, u)

module _ (sb : SuperBlock) (fs : Fs) (v : MapInv sb fs) (b : ℕ) (on_disk : b < sb.size) where
  abbrev map_block : ℕ
  map_block = bblock sb b

  -- The bits of a changed map block are those of the map.
  changed_map :
      (w : Fs) (bits : ℕ → ℕ)
      → w.content map_block ≡ bits
      → ((c : ℕ)
          → c < sb.size
          → bblock sb c ≢ map_block
          → w.content (bblock sb c) ≡ fs.content (bblock sb c))
      → (c : ℕ) → c < sb.size
      → free_in sb w c
        ≡ (if bblock sb c == map_block then is_free bits (c % bpb) else free_in sb fs c)
  changed_map w bits e same c h = elim (ℕ_discrete (bblock sb c) map_block) [
    | yes x ↦ let test : (bblock sb c == map_block) ≡ true = ground arith in rw (test, x, e) refl
    | no x ↦
        let test : (bblock sb c == map_block) ≡ false = ground arith in rw (test, same c h x) refl
  ]

  mark_map :
      (c : ℕ)
      → (if bblock sb c == map_block
          then is_free (mark (fs.content map_block) (b % bpb)) (c % bpb)
          else free_in sb fs c)
        ≡ (not (c == b) && free_in sb fs c)
  mark_map c = elim (ℕ_discrete (bblock sb c) map_block) [
    | yes x ↦
        let test : (bblock sb c == map_block) ≡ true = ground arith in
        let same : (c == b) ≡ (c % bpb == b % bpb) = ground arith in
        rw (test, same, x)
          (is_free-mark (fs.content map_block) (v.bytes b on_disk) (b % bpb) (c % bpb))
    | no x ↦
        let test : (bblock sb c == map_block) ≡ false = ground arith in
        let other : (c == b) ≡ false = ground arith in rw (test, other) refl
  ]

  unmark_map :
      (c : ℕ)
      → (if bblock sb c == map_block
          then is_free (unmark (fs.content map_block) (b % bpb)) (c % bpb)
          else free_in sb fs c)
        ≡ (c == b || free_in sb fs c)
  unmark_map c = elim (ℕ_discrete (bblock sb c) map_block) [
    | yes x ↦
        let test : (bblock sb c == map_block) ≡ true = ground arith in
        let same : (c == b) ≡ (c % bpb == b % bpb) = ground arith in
        rw (test, same, x)
          (is_free-unmark (fs.content map_block) (v.bytes b on_disk) (b % bpb) (c % bpb))
    | no x ↦
        let test : (bblock sb c == map_block) ≡ false = ground arith in
        let other : (c == b) ≡ false = ground arith in rw (test, other) refl
  ]

  abbrev freed : Fs
  freed = write_block map_block (unmark (fs.content map_block) (b % bpb)) fs

  freed-map : (c : ℕ) → c < sb.size → free_in sb freed c ≡ (c == b || free_in sb fs c)
  freed-map c h =
      let bits = unmark (fs.content map_block) (b % bpb) in
      changed_map freed bits (ground arith) (λ d k n. ground arith) c h ∙ unmark_map c

  module _ (free : free_in sb fs b ≡ true) where
    abbrev marked : Fs
    marked = write_block map_block (mark (fs.content map_block) (b % bpb)) fs

    abbrev after : Fs
    unfolding bzero
    after = bzero b marked

    apart : (c : ℕ) → c < sb.size → bblock sb c ≢ b
    apart c h e =
        let used : free_in sb fs b ≡ false =
          subst (λ x. free_in sb fs x ≡ false) e (v.reserved c h).1 in
        absurd (ground (arith, used, free))

    after-map : (c : ℕ) → c < sb.size → free_in sb after c ≡ (not (c == b) && free_in sb fs c)
    unfolding bzero
    after-map c h =
        let bits = mark (fs.content map_block) (b % bpb) in
        let here : after.content map_block ≡ bits = ground (arith, apart b on_disk) in
        changed_map after bits here (λ d k n. ground (arith, apart d k)) c h ∙ mark_map c

    after_bytes : (d : ℕ) → d < sb.size → (i : ℕ) → after.content (bblock sb d) i < 256
    unfolding bzero
    after_bytes d h i =
        ground
          (arith, v.bytes d h i, mark_bytes (fs.content map_block) (v.bytes b on_disk) (b % bpb) i)

    take-Taken : ((c : ℕ) → c < b → free_in sb fs c ≡ false) → Taken sb fs b after
    unfolding bzero
    take-Taken first = record {
      on_disk = on_disk;
      was_free = free;
      first = first;
      map = after-map;
      zeroed = λ i h. ground arith;
      elsewhere = λ d n m. ground arith;
      inode = refl;
      logged = refl;
      map_inv = record {
        bytes = after_bytes;
        reserved = λ c h. (
          ground (arith, (v.reserved c h).0),
          after-map (bblock sb c) (v.reserved c h).0 ∙ ground (arith, (v.reserved c h).1),
        );
      };
    }

-- `balloc`, in a file system whose map blocks hold bytes and are in use: it returns 0 and changes
-- nothing exactly when no block of the disk is free. Otherwise it returns the first free block and
-- marks it, and no other; the block is zeroed, no block changes but this one and its map block, and
-- these two are logged.
pub balloc-Allocated : (sb : SuperBlock) (fs : Fs) → MapInv sb fs → Allocated sb fs (balloc sb fs)
unfolding balloc take_block bzero
balloc-Allocated sb fs v =
    at (scan_blocks sb (sb.size / bpb + 1) 0 fs)
      (scan_blocks-First sb fs (sb.size / bpb + 1) 0 (omega arith))
  where
    at :
        (o : Option ℕ)
        → First (in_disk sb fs) 0 (0 + (sb.size / bpb + 1) * bpb) o
        → Allocated sb fs (take_block sb o fs)
    at none (missing h) = full (λ c k. let z = h c (omega arith) (omega arith) in ground (arith, z))
    at (some b) (hit p q t h) =
        let lt : b < sb.size = ground (arith, t) in
        let free : free_in sb fs b ≡ true = ground (arith, t) in
        taken
          (take-Taken sb fs v b lt free (λ c k. let z = h c (omega arith) k in ground (arith, z)))

-- The file system after block `b` is freed.
pub record Freed (sb : SuperBlock) (fs : Fs) (b : ℕ) (u : Fs) : Type 0 where
  pub map : (c : ℕ) → c < sb.size → free_in sb u c ≡ (c == b || free_in sb fs c)
  pub elsewhere : (d : ℕ) → d ≢ bblock sb b → u.content d ≡ fs.content d
  pub inode : u.inode ≡ fs.inode
  pub logged : u.logged ≡ bblock sb b ∷ fs.logged
  pub map_inv : MapInv sb u

-- `bfree` of a block of the disk that is not one of the map's: it panics exactly when the block is
-- free. Otherwise it marks the block free, and no other one, and no block changes but its map
-- block, which is logged.
pub bfree-Freed :
    (sb : SuperBlock) (fs : Fs) (b : ℕ)
    → MapInv sb fs
    → b < sb.size
    → ((c : ℕ) → c < sb.size → bblock sb c ≢ b)
    → (free_in sb fs b ≡ true → bfree sb b fs ≡ panic)
      × (free_in sb fs b ≡ false → (u : Fs) × (bfree sb b fs ≡ done u) × Freed sb fs b u)
unfolding bfree
bfree-Freed sb fs b v h apart = (
  λ e. rw e refl,
  λ e. (
    write_block (bblock sb b) (unmark (fs.content (bblock sb b)) (b % bpb)) fs,
    rw e refl,
    record {
      map = freed-map sb fs v b h;
      elsewhere = λ d n. ground arith;
      inode = refl;
      logged = refl;
      map_inv = record {
        bytes = λ d p i. ground (
          arith,
          v.bytes d p i,
          unmark_bytes (fs.content (bblock sb b)) (v.bytes b h) (b % bpb) i,
        );
        reserved = λ c k. (
          (v.reserved c k).0,
          freed-map sb fs v b h (bblock sb c) (v.reserved c k).0
              ∙ ground (arith, (v.reserved c k).1, apart c k),
        );
      };
    },
  ),
)
