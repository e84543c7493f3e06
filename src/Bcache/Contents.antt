-- ===== src/Bcache/Contents.antt =====
-- Which content the buffer cache of kernel/bio.c shows for each block, and its invariant.
use project_opertating_syste.Base.{
  ℕ, ◌≡◌, ◌≢◌, refl, sym, ◌∙◌, ap, subst, inl, inr, ◌==◌, true, false, ◌&&◌, arith, ℕ_discrete,
  Bool-cases,
}
use project_opertating_syste.Buffers.{Block}
use project_opertating_syste.Bcache.{Buf, Bcache, hit, put_buf}
use project_opertating_syste.Bcache.Search.{member}

-- `root` is the device of the disk.
pub record Inv (root : ℕ) (c : Bcache) : Type 0 where
  -- Only the blocks of the disk are valid.
  pub device : (i : ℕ) → member i c.order ≡ true → (c.bufs i).valid ≡ true → (c.bufs i).dev ≡ root
  -- A block of a device other than 0, which `binit` leaves in the buffers, is in one buffer at most.
  pub unique :
      (dev b i j : ℕ)
      → (dev == 0) ≡ false
      → member i c.order ≡ true
      → member j c.order ≡ true
      → hit dev b (c.bufs i) ≡ true
      → hit dev b (c.bufs j) ≡ true
      → i ≡ j
  -- An unused buffer that is valid has what the disk has.
  pub clean :
      (i : ℕ)
      → member i c.order ≡ true
      → (c.bufs i).refcnt ≡ 0
      → (c.bufs i).valid ≡ true
      → (c.bufs i).content ≡ c.disk (c.bufs i).blockno

-- Content `v` is the one to see for the block: it is in the valid buffer of the block, and on the
-- disk if there is none.
pub record Shows (dev b : ℕ) (c : Bcache) (v : Block) : Type 0 where
  pub cached :
      (i : ℕ)
      → member i c.order ≡ true
      → hit dev b (c.bufs i) ≡ true
      → (c.bufs i).valid ≡ true
      → (c.bufs i).content ≡ v
  pub absent :
      ((i : ℕ) → member i c.order ≡ true → hit dev b (c.bufs i) ≡ true → (c.bufs i).valid ≡ false)
      → c.disk b ≡ v

pub get-put_buf : (i : ℕ) (x : Buf) (c : Bcache) → (put_buf i x c).bufs i ≡ x
get-put_buf i x c = ground arith

pub get-put_buf_ne : (i j : ℕ) (x : Buf) (c : Bcache) → j ≢ i → (put_buf i x c).bufs j ≡ c.bufs j
get-put_buf_ne i j x c n = ground arith

-- A statement about the buffers, after an assignment to one.
pub at_buf :
    (P : ℕ → Buf → Type 0) (i : ℕ) (x : Buf) (c : Bcache)
    → P i x
    → ((j : ℕ) → j ≢ i → P j (c.bufs j))
    → (j : ℕ) → P j ((put_buf i x c).bufs j)
at_buf P i x c a b j = elim (ℕ_discrete j i) [
  | yes e ↦
      subst (λ k. P k ((put_buf i x c).bufs k)) (sym e) (subst (P i) (sym (get-put_buf i x c)) a)
  | no e ↦ subst (P j) (sym (get-put_buf_ne i j x c e)) (b j e)
]

-- A change of the reference count alone.
module _ (root : ℕ) (c : Bcache) (v : Inv root c) (i n : ℕ) where
  abbrev counted : Bcache
  counted = put_buf i (record (c.bufs i) { refcnt = n }) c

  same_key : (dev b j : ℕ) → hit dev b (counted.bufs j) ≡ hit dev b (c.bufs j)
  same_key dev b j = ground arith

  same_valid : (j : ℕ) → (counted.bufs j).valid ≡ (c.bufs j).valid
  same_valid j = ground arith

  same_content : (j : ℕ) → (counted.bufs j).content ≡ (c.bufs j).content
  same_content j = ground arith

  pub counted-Shows : (dev b : ℕ) (x : Block) → Shows dev b c x → Shows dev b counted x
  counted-Shows dev b x s = record {
    cached = λ j m h l.
        same_content j ∙ s.cached j m (sym (same_key dev b j) ∙ h) (sym (same_valid j) ∙ l);
    absent = λ all. s.absent (λ j m h. sym (same_valid j) ∙ all j m (same_key dev b j ∙ h));
  }

  -- When the count becomes 0, the disk has the content.
  pub counted-Inv :
      (n ≡ 0 → (c.bufs i).valid ≡ true → (c.bufs i).content ≡ c.disk (c.bufs i).blockno)
      → Inv root counted
  counted-Inv h = record {
    device = λ j m l. ground (arith, v.device j m);
    unique = λ dev b j k z m m' p q.
        v.unique dev b j k z m m' (sym (same_key dev b j) ∙ p) (sym (same_key dev b k) ∙ q);
    clean =
        at_buf
          (λ j x.
            member j c.order ≡ true → x.refcnt ≡ 0 → x.valid ≡ true → x.content ≡ c.disk x.blockno)
          i _ c (λ m r l. h r l) (λ j n m r l. v.clean j m r l);
  }

-- An unused buffer is taken for a block that no buffer has.
module _ (root : ℕ) (c : Bcache) (v : Inv root c) (dev b i : ℕ) (unused : (c.bufs i).refcnt ≡ 0)
    (here : member i c.order ≡ true)
    (fresh : (j : ℕ) → member j c.order ≡ true → hit dev b (c.bufs j) ≡ false) where
  abbrev taken_buf : Buf
  taken_buf = record (c.bufs i) { dev = dev; blockno = b; valid = false; refcnt = 1 }

  abbrev taken : Bcache
  taken = put_buf i taken_buf c

  pub taken-Inv : Inv root taken
  taken-Inv = record {
    device =
        at_buf (λ j x. member j c.order ≡ true → x.valid ≡ true → x.dev ≡ root) i _ c
          (λ m l. absurd (ground arith)) (λ j n m l. v.device j m l);
    unique = λ d n j k z m m' p q. elim (ℕ_discrete j i) [
      | yes x ↦ elim (ℕ_discrete k i) [
        | yes y ↦ x ∙ sym y
        | no y ↦ absurd (ground (arith, fresh k m'))
      ]
      | no x ↦ elim (ℕ_discrete k i) [
        | yes y ↦ absurd (ground (arith, fresh j m))
        | no y ↦ v.unique d n j k z m m' (ground arith) (ground arith)
      ]
    ];
    clean =
        at_buf
          (λ j x.
            member j c.order ≡ true → x.refcnt ≡ 0 → x.valid ≡ true → x.content ≡ c.disk x.blockno)
          i _ c (λ m r l. absurd (ground arith)) (λ j n m r l. v.clean j m r l);
  }

  pub taken-Shows : (d n : ℕ) (x : Block) → Shows d n c x → Shows d n taken x
  taken-Shows d n x s = record {
    cached =
        at_buf (λ j y. member j c.order ≡ true → hit d n y ≡ true → y.valid ≡ true → y.content ≡ x)
          i _ c (λ m h l. absurd (ground arith)) (λ j ne m h l. s.cached j m h l);
    absent = λ all. elim (Bool-cases (hit d n (c.bufs i) && (c.bufs i).valid)) [
      | inl y ↦
          let block : (c.bufs i).blockno ≡ n = ground arith in
          sym (ap c.disk block)
          ∙ sym (v.clean i here unused (ground arith))
          ∙ s.cached i here (ground arith) (ground arith)
      | inr y ↦ s.absent (λ j m h. elim (ℕ_discrete j i) [
        | yes e ↦ ground (arith, y)
        | no e ↦
            ap (λ r. r.valid) (sym (get-put_buf_ne i j taken_buf c e))
            ∙ all j m (ap (hit d n) (get-put_buf_ne i j taken_buf c e) ∙ h)
      ])
    ];
  }

-- A buffer that is not valid is filled from the disk.
module _ (root : ℕ) (c : Bcache) (v : Inv root c) (i : ℕ) (here : member i c.order ≡ true) where
  abbrev read_buf : Buf
  read_buf = record (c.bufs i) { content = c.disk (c.bufs i).blockno; valid = true }

  abbrev read_in : Bcache
  read_in = put_buf i read_buf c

  kept_key : (dev b j : ℕ) → hit dev b (read_in.bufs j) ≡ hit dev b (c.bufs j)
  kept_key dev b j = ground arith

  pub read_in-Inv : (c.bufs i).dev ≡ root → Inv root read_in
  read_in-Inv same = record {
    device =
        at_buf (λ j x. member j c.order ≡ true → x.valid ≡ true → x.dev ≡ root) i _ c (λ m l. same)
          (λ j n m l. v.device j m l);
    unique = λ dev b j k z m m' p q.
        v.unique dev b j k z m m' (sym (kept_key dev b j) ∙ p) (sym (kept_key dev b k) ∙ q);
    clean =
        at_buf
          (λ j x.
            member j c.order ≡ true → x.refcnt ≡ 0 → x.valid ≡ true → x.content ≡ c.disk x.blockno)
          i _ c (λ m r l. refl) (λ j n m r l. v.clean j m r l);
  }

  pub read_in-Shows :
      (d n : ℕ) (x : Block)
      → (c.bufs i).valid ≡ false
      → (d == 0) ≡ false
      → Shows d n c x
      → Shows d n read_in x
  read_in-Shows d n x not_valid z s = record {
    cached =
        at_buf (λ j y. member j c.order ≡ true → hit d n y ≡ true → y.valid ≡ true → y.content ≡ x)
          i _ c
          (λ m h l.
            let block : (c.bufs i).blockno ≡ n = ground arith in
            ap c.disk block
            ∙ s.absent (λ j m' h'.
              let same : j ≡ i = v.unique d n j i z m' here h' h in
              subst (λ k. (c.bufs k).valid ≡ false) (sym same) not_valid))
          (λ j ne m h l. s.cached j m h l);
    absent = λ all. s.absent (λ j m h. elim (ℕ_discrete j i) [
      | yes e ↦ subst (λ k. (c.bufs k).valid ≡ false) (sym e) not_valid
      | no e ↦
          ap (λ r. r.valid) (sym (get-put_buf_ne i j read_buf c e)) ∙ all j m (kept_key d n j ∙ h)
    ]);
  }
