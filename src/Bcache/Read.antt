-- ===== src/Bcache/Read.antt =====
-- `bget` and `bread` of kernel/bio.c, and the contents that the cache shows.
use project_opertating_syste.Base.{
  ℕ, ◌+◌, ◌<◌, ◌≡◌, ◌≢◌, ◌^◌, refl, ◌∙◌, ap, ◌⊎◌, inl, inr, ◌==◌, true, false, arith, Bool-cases,
  Option-cases, Outcome, done, panic, ◌>>=◌,
}
use project_opertating_syste.Buffers.{Block}
use project_opertating_syste.Bcache.{
  Bcache, hit, put_buf, fill, bget, bget_with, bread, up, find_cached, find_unused,
}
use project_opertating_syste.Bcache.Search.{
  member, find_cached-some, find_cached-none, find_unused-some, find_unused-none,
}
use project_opertating_syste.Bcache.Contents.{
  Inv, Shows, counted-Inv, counted-Shows, taken-Inv, taken-Shows, read_in-Inv, read_in-Shows,
  get-put_buf, get-put_buf_ne,
}

-- The cache `u` that `bget` leaves when it returns buffer `i` for the block.
pub record Got (root b : ℕ) (c : Bcache) (i : ℕ) (u : Bcache) : Type 0 where
  pub here : member i u.order ≡ true
  pub order : u.order ≡ c.order
  pub disk : u.disk ≡ c.disk
  pub key : hit root b (u.bufs i) ≡ true
  -- It had the block and has one more reference, or it was unused and has one.
  pub count :
      ((hit root b (c.bufs i) ≡ true) × ((u.bufs i).refcnt ≡ up (c.bufs i).refcnt))
      ⊎ (((c.bufs i).refcnt ≡ 0) × ((u.bufs i).refcnt ≡ 1))
  pub others : (j : ℕ) → j ≢ i → u.bufs j ≡ c.bufs j
  -- The content of each block of the disk is what it was.
  pub shows : (n : ℕ) (x : Block) → Shows root n c x → Shows root n u x
  pub invariant : Inv root u

-- How `bget` and `bread` end: a panic when no buffer has the block and all are in use.
pub data GotOrFull (P : ℕ → Bcache → Type 0) (root b : ℕ) (c : Bcache)
    : Outcome (ℕ × Bcache) → Type 0 where
  full :
      ((j : ℕ) → member j c.order ≡ true → hit root b (c.bufs j) ≡ false)
      → ((j : ℕ) → member j c.order ≡ true → (c.bufs j).refcnt ≢ 0)
      → GotOrFull P root b c panic
  got : {i : ℕ} {u : Bcache} → P i u → GotOrFull P root b c (done (i, u))

-- A buffer can take one more reference.
abbrev pub Countable : Bcache → Type 0
Countable c = (i : ℕ) → member i c.order ≡ true → (c.bufs i).refcnt + 1 < 2 ^ 32

module _ (root b : ℕ) (c : Bcache) (v : Inv root c) (small : Countable c) where
  counted-Got :
      (i : ℕ)
      → member i c.order ≡ true
      → hit root b (c.bufs i) ≡ true
      → Got root b c i (put_buf i (record (c.bufs i) { refcnt = up (c.bufs i).refcnt }) c)
  counted-Got i m h = record {
    here = m;
    order = refl;
    disk = refl;
    key = ground arith;
    count = inl (h, ground arith);
    others = λ j n. get-put_buf_ne i j _ c n;
    shows = counted-Shows root c v i _ root;
    invariant = counted-Inv root c v i _ (λ z. absurd (omega (arith, small i m)));
  }

  taken-Got :
      (i : ℕ)
      → member i c.order ≡ true
      → (c.bufs i).refcnt ≡ 0
      → ((j : ℕ) → member j c.order ≡ true → hit root b (c.bufs j) ≡ false)
      → Got root b c i
          (put_buf i (record (c.bufs i) { dev = root; blockno = b; valid = false; refcnt = 1 }) c)
  taken-Got i m z fresh = record {
    here = m;
    order = refl;
    disk = refl;
    key = ground arith;
    count = inr (z, ground arith);
    others = λ j n. get-put_buf_ne i j _ c n;
    shows = taken-Shows root c v root b i z m fresh root;
    invariant = taken-Inv root c v root b i z m fresh;
  }

  bget-Got : GotOrFull (Got root b c) root b c (bget root b c)
  unfolding bget bget_with
  bget-Got = elim (Option-cases (find_cached root b c.bufs c.order)) [
    | inr (i, e) ↦
        let (m, h) = find_cached-some root b c.bufs c.order i e in
        rw (e, bget_with) (got (counted-Got i m h))
    | inl e ↦
        let fresh = find_cached-none root b c.bufs c.order e in
        elim (Option-cases (find_unused c.bufs c.order)) [
          | inr (i, f) ↦
              let (m, z) = find_unused-some c.bufs c.order i f in
              rw (e, f, bget_with) (got (taken-Got i m z fresh))
          | inl f ↦ rw (e, f, bget_with) (full fresh (find_unused-none c.bufs c.order f))
        ]
  ]

-- The cache that `bread` leaves: as `bget` does, and the buffer is valid and has the content of the
-- block.
pub record Read (root b : ℕ) (c : Bcache) (i : ℕ) (u : Bcache) : Type 0 where
  pub got_it : Got root b c i u
  pub valid : (u.bufs i).valid ≡ true
  pub content : (x : Block) → Shows root b c x → (u.bufs i).content ≡ x

module _ (root b : ℕ) (c : Bcache) (positive : (root == 0) ≡ false) (i : ℕ) (u : Bcache)
    (g : Got root b c i u) where
  -- The buffer is read from the disk.
  abbrev read_in : Bcache
  read_in = put_buf i (record (u.bufs i) { content = u.disk (u.bufs i).blockno; valid = true }) u

  read_in-count :
      ((hit root b (c.bufs i) ≡ true) × ((read_in.bufs i).refcnt ≡ up (c.bufs i).refcnt))
      ⊎ (((c.bufs i).refcnt ≡ 0) × ((read_in.bufs i).refcnt ≡ 1))
  read_in-count = elim g.count [
    | inl (h, n) ↦ inl (h, ap (λ x. x.refcnt) (get-put_buf i _ u) ∙ n)
    | inr (z, n) ↦ inr (z, ap (λ x. x.refcnt) (get-put_buf i _ u) ∙ n)
  ]

  read_in-Got : (u.bufs i).valid ≡ false → Got root b c i read_in
  read_in-Got e = record {
    here = g.here;
    order = g.order;
    disk = g.disk;
    key = ap (hit root b) (get-put_buf i _ u) ∙ g.key;
    count = read_in-count;
    others = λ j n. get-put_buf_ne i j _ u n ∙ g.others j n;
    shows = λ n x s. read_in-Shows root u g.invariant i g.here root n x e positive (g.shows n x s);
    invariant = read_in-Inv root u g.invariant i g.here (ground (arith, g.key));
  }

  fill-Got : Got root b c i (fill i u)
  unfolding fill
  fill-Got = elim (Bool-cases (u.bufs i).valid) [ inl e ↦ rw e g | inr e ↦ rw e (read_in-Got e) ]

  fill_valid : ((fill i u).bufs i).valid ≡ true
  unfolding fill
  fill_valid = elim (Bool-cases (u.bufs i).valid) [ inl e ↦ rw e e | inr e ↦ ground (arith, e) ]

  fill-Read : Read root b c i (fill i u)
  fill-Read = record {
    got_it = fill-Got;
    valid = fill_valid;
    content = λ x s. (fill-Got.shows b x s).cached i fill-Got.here fill-Got.key fill_valid;
  }

-- `bread` of a block of the disk's device (not 0), in a cache with the invariant whose counts can grow: it
-- panics exactly where no buffer has the block and all are in use. Otherwise the buffer that it
-- returns is one for the block, valid, with the content that the cache showed for it, and one more
-- reference than before (or one, when it was unused); the other buffers and the disk are as they
-- were, the content of each block of the device is what it was, and the invariant holds.
pub bread-Read :
    (root b : ℕ) (c : Bcache)
    → (root == 0) ≡ false
    → Inv root c
    → Countable c
    → GotOrFull (Read root b c) root b c (bread root b c)
unfolding bread
bread-Read root b c z v small = at (bget root b c) (bget-Got root b c v small)
  where
    at :
        (o : Outcome (ℕ × Bcache))
        → GotOrFull (Got root b c) root b c o
        → GotOrFull (Read root b c) root b c (o >>= λ r. done (r.0, fill r.0 r.1))
    at _ (full h k) = full h k
    at _ (got {i = i} {u = u} g) = got (fill-Read root b c z i u g)
