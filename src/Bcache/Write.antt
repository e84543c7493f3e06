-- ===== src/Bcache/Write.antt =====
-- `bwrite`, `brelse`, `bpin` and `bunpin` of kernel/bio.c.
use project_opertating_syste.Base.{
  ℕ, ◌≡◌, ◌≢◌, refl, sym, ◌∙◌, subst, inl, inr, ◌==◌, true, false, arith, ℕ_discrete, Bool-cases,
  if◌then◌else◌, List, ◌∷◌, update, done,
}
use project_opertating_syste.Buffers.{Block}
use project_opertating_syste.Bcache.{Bcache, put_buf, bwrite, brelse, down, unlink}
use project_opertating_syste.Bcache.Search.{member, member-unlink}
use project_opertating_syste.Bcache.Contents.{
  Inv, Shows, counted-Inv, counted-Shows, get-put_buf_ne,
}

-- A cache that another one, with the same members in some order, the same buffers and the same
-- disk, agrees with.
module _ (root : ℕ) (c : Bcache) (order : List ℕ)
    (same : (j : ℕ) → member j order ≡ member j c.order) where
  abbrev reordered : Bcache
  reordered = record c { order = order }

  reordered-Inv : Inv root c → Inv root reordered
  reordered-Inv v = record {
    device = λ j m. v.device j (sym (same j) ∙ m);
    unique = λ d n j k z m m'. v.unique d n j k z (sym (same j) ∙ m) (sym (same k) ∙ m');
    clean = λ j m. v.clean j (sym (same j) ∙ m);
  }

  reordered-Shows : (d n : ℕ) (x : Block) → Shows d n c x → Shows d n reordered x
  reordered-Shows d n x s = record {
    cached = λ j m. s.cached j (sym (same j) ∙ m);
    absent = λ all. s.absent (λ j m. all j (same j ∙ m));
  }

-- What `brelse` leaves.
pub record Released (root i : ℕ) (c u : Bcache) : Type 0 where
  pub count : (u.bufs i).refcnt ≡ down (c.bufs i).refcnt
  pub others : (j : ℕ) → j ≢ i → u.bufs j ≡ c.bufs j
  pub disk : u.disk ≡ c.disk
  pub members : (j : ℕ) → member j u.order ≡ member j c.order
  -- An unused buffer is the first of the list, where `bget` looks last for one to take.
  pub order : u.order ≡ (if down (c.bufs i).refcnt == 0 then i ∷ unlink i c.order else c.order)
  pub shows : (n : ℕ) (x : Block) → Shows root n c x → Shows root n u x
  pub invariant : Inv root u

module _ (root i : ℕ) (c : Bcache) (v : Inv root c) (here : member i c.order ≡ true)
    (saved : down (c.bufs i).refcnt ≡ 0
      → (c.bufs i).valid ≡ true
      → (c.bufs i).content ≡ c.disk (c.bufs i).blockno) where
  abbrev less : Bcache
  less = put_buf i (record (c.bufs i) { refcnt = down (c.bufs i).refcnt }) c

  less-Inv : Inv root less
  less-Inv = counted-Inv root c v i _ saved

  -- The cache that `brelse` leaves: buffer `i` moves, or it stays.
  abbrev moved : Bcache
  moved = record less { order = i ∷ unlink i c.order }

  moved-Released : down (c.bufs i).refcnt == 0 ≡ true → Released root i c moved
  moved-Released z =
      let same = λ (j : ℕ). member-unlink i j c.order here in
      record {
        count = ground arith;
        others = λ j n. get-put_buf_ne i j _ c n;
        disk = refl;
        members = same;
        order = rw z refl;
        shows = λ n x s.
            reordered-Shows root less (i ∷ unlink i c.order) same root n x
              (counted-Shows root c v i _ root n x s);
        invariant = reordered-Inv root less (i ∷ unlink i c.order) same less-Inv;
      }

  less-Released : down (c.bufs i).refcnt == 0 ≡ false → Released root i c less
  less-Released z = record {
    count = ground arith;
    others = λ j n. get-put_buf_ne i j _ c n;
    disk = refl;
    members = λ j. refl;
    order = rw z refl;
    shows = λ n x s. counted-Shows root c v i _ root n x s;
    invariant = less-Inv;
  }

  -- `brelse` by the holder of a buffer, whose content is on the disk if it is the last reference,
  -- returns: it takes one reference off, puts a buffer that is unused then at the front of the
  -- list, which has the same members, and keeps the disk, the content of each block and the
  -- invariant.
  pub brelse-Released : (u : Bcache) × (brelse true i c ≡ done u) × Released root i c u
  unfolding brelse
  brelse-Released = elim (Bool-cases (down (c.bufs i).refcnt == 0)) [
    | inl z ↦ (moved, ground (arith, z), moved-Released z)
    | inr z ↦ (less, ground (arith, z), less-Released z)
  ]

-- What `bwrite` leaves.
pub record Written (root i : ℕ) (c u : Bcache) : Type 0 where
  pub bufs : u.bufs ≡ c.bufs
  pub order : u.order ≡ c.order
  pub disk : (n : ℕ) → u.disk n ≡ (if n == (c.bufs i).blockno then (c.bufs i).content else c.disk n)
  pub shows : (n : ℕ) (x : Block) → Shows root n c x → Shows root n u x
  pub invariant : Inv root u

module _ (root i : ℕ) (c : Bcache) (v : Inv root c) (positive : (root == 0) ≡ false)
    (here : member i c.order ≡ true) (valid : (c.bufs i).valid ≡ true) where
  abbrev written : Bcache
  written = record c { disk = update c.disk (c.bufs i).blockno (c.bufs i).content }

  -- A valid buffer for the block that is written is the written one.
  only_one :
      (j : ℕ)
      → member j c.order ≡ true
      → (c.bufs j).valid ≡ true
      → (c.bufs j).blockno ≡ (c.bufs i).blockno
      → j ≡ i
  only_one j m l e =
      v.unique root (c.bufs i).blockno j i positive m here (ground (arith, v.device j m l))
        (ground (arith, v.device i here valid))

  written-Inv : Inv root written
  written-Inv = record {
    device = v.device;
    unique = v.unique;
    clean = λ j m z l. elim (ℕ_discrete (c.bufs j).blockno (c.bufs i).blockno) [
      | yes e ↦
          let same = only_one j m l e in
          subst (λ k. (c.bufs k).content ≡ written.disk (c.bufs k).blockno) (sym same)
            (ground arith)
      | no e ↦ v.clean j m z l ∙ ground arith
    ];
  }

  written-Shows : (n : ℕ) (x : Block) → Shows root n c x → Shows root n written x
  written-Shows n x s = record {
    cached = s.cached;
    absent = λ all. elim (ℕ_discrete n (c.bufs i).blockno) [
      | yes e ↦ absurd (ground (arith, all i here, valid, v.device i here valid))
      | no e ↦ ground (arith, s.absent all)
    ];
  }

  -- `bwrite` by the holder of a valid buffer returns: the block on the disk has the content of the
  -- buffer, no other block of the disk and no buffer changes, and it keeps the content of each block and
  -- the invariant.
  pub bwrite-Written : (u : Bcache) × (bwrite true i c ≡ done u) × Written root i c u
  unfolding bwrite
  bwrite-Written = (
    written,
    refl,
    record {
      bufs = refl;
      order = refl;
      disk = λ n. refl;
      shows = written-Shows;
      invariant = written-Inv;
    },
  )
