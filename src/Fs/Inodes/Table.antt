-- ===== src/Fs/Inodes/Table.antt =====
-- `iget` of kernel/fs.c: an inode is in one entry of the table at most.
use project_opertating_syste.Base.{
  ℕ, zero, suc, ◌+◌, ◌<◌, ◌≡◌, ◌≢◌, refl, sym, ◌∙◌, subst, Bool, true, false, Option, none, some,
  Outcome, done, panic, arith, ℕ_discrete, Bool-cases, inl, inr, ◌⊎◌, First, missing, hit,
  First-here, First-next,
}
use project_opertating_syste.Fs.{Fs}
use project_opertating_syste.Fs.Inodes.{
  ninode, put_inode, first_index, holds_inum, is_empty, iget_with, iget,
}

pub first_index-First : (test : ℕ → Bool) (k i : ℕ) → First test i (i + k) (first_index test k i)
unfolding first_index
first_index-First test zero i = missing (λ c p q. absurd (omega arith))
first_index-First test (suc k) i = elim (Bool-cases (test i)) [
  | inl e ↦ rw (e, first_index) (First-here test i (i + suc k) (omega arith) e)
  | inr e ↦
      rw (e, first_index)
        (First-next test i (i + suc k) (first_index test k (i + 1)) e (
          subst (λ h. First test (i + 1) h (first_index test k (i + 1))) (omega arith)
            (first_index-First test k (i + 1))))
]

-- No inode is in two entries that are in use.
abbrev pub Unique : Fs → Type 0
Unique fs =
    (i j : ℕ)
    → i < ninode
    → j < ninode
    → 0 < (fs.inode i).ref
    → 0 < (fs.inode j).ref
    → (fs.inode i).inum ≡ (fs.inode j).inum
    → i ≡ j

-- What `iget` leaves when it returns entry `i`.
pub record Got (inum : ℕ) (fs : Fs) (i : ℕ) (u : Fs) : Type 0 where
  pub in_table : i < ninode
  pub has_inum : (u.inode i).inum ≡ inum
  -- One more reference to the entry that had the inode; or an unused entry, with one reference and
  -- nothing read yet.
  pub count :
      ((holds_inum fs inum i ≡ true)
        × (u.inode i ≡ record (fs.inode i) { ref = (fs.inode i).ref + 1 }))
      ⊎ (((fs.inode i).ref ≡ 0) × ((u.inode i).ref ≡ 1) × ((u.inode i).valid ≡ false))
  pub others : (j : ℕ) → j ≢ i → u.inode j ≡ fs.inode j
  pub content : u.content ≡ fs.content
  pub logged : u.logged ≡ fs.logged
  pub unique : Unique u

-- How `iget` ends: it panics when no entry has the inode and none is unused.
pub data GotOrFull (inum : ℕ) (fs : Fs) : Outcome (ℕ × Fs) → Type 0 where
  full :
      ((i : ℕ) → i < ninode → holds_inum fs inum i ≡ false)
      → ((i : ℕ) → i < ninode → (fs.inode i).ref ≢ 0)
      → GotOrFull inum fs panic
  got : {i : ℕ} {u : Fs} → Got inum fs i u → GotOrFull inum fs (done (i, u))

module _ (inum : ℕ) (fs : Fs) (v : Unique fs) where
  again-Got :
      (i : ℕ)
      → i < ninode
      → holds_inum fs inum i ≡ true
      → Got inum fs i (put_inode i (record (fs.inode i) { ref = (fs.inode i).ref + 1 }) fs)
  again-Got i h e = record {
    in_table = h;
    has_inum = ground (arith, e);
    count = inl (e, ground arith);
    others = λ j n. ground arith;
    content = refl;
    logged = refl;
    unique = λ j k a b c d x. v j k a b (ground (arith, e)) (ground (arith, e)) (ground arith);
  }

  recycled-Got :
      (i : ℕ)
      → i < ninode
      → (fs.inode i).ref ≡ 0
      → ((j : ℕ) → j < ninode → holds_inum fs inum j ≡ false)
      → Got inum fs i (put_inode i (record (fs.inode i) { inum = inum; ref = 1; valid = false }) fs)
  recycled-Got i h z fresh = record {
    in_table = h;
    has_inum = ground arith;
    count = inr (z, ground arith, ground arith);
    others = λ j n. ground arith;
    content = refl;
    logged = refl;
    unique = λ j k a b c d x. elim (ℕ_discrete j i) [
      | yes p ↦ elim (ℕ_discrete k i) [
        | yes q ↦ p ∙ sym q
        | no q ↦ absurd (ground (arith, fresh k b))
      ]
      | no p ↦ elim (ℕ_discrete k i) [
        | yes q ↦ absurd (ground (arith, fresh j a))
        | no q ↦ v j k a b (ground arith) (ground arith) (ground arith)
      ]
    ];
  }

  with-Got :
      (o e : Option ℕ)
      → First (holds_inum fs inum) 0 (0 + ninode) o
      → First (is_empty fs) 0 (0 + ninode) e
      → GotOrFull inum fs (iget_with inum fs o e)
  unfolding iget_with
  with-Got (some i) e (hit p q t h) f = got (again-Got i (omega arith) t)
  with-Got none (some i) (missing h) (hit p q t k) =
      got
        (recycled-Got i (omega arith) (ground (arith, t)) (λ j l. h j (omega arith) (omega arith)))
  with-Got none none (missing h) (missing k) =
      full (λ j l. h j (omega arith) (omega arith))
        (λ j l z. let w = k j (omega arith) (omega arith) in absurd (ground (arith, w)))

  -- `iget`, from a table where no inode is in two entries in use: it panics exactly where no entry
  -- has the inode and none is unused. Otherwise it returns an entry for the inode: the one that has
  -- it, with one more reference, or an unused one, with one reference and not valid. No other entry
  -- changes, nor any block, and no inode is in two entries in use.
  pub iget-Got : GotOrFull inum fs (iget inum fs)
  unfolding iget
  iget-Got =
      with-Got _ _ (first_index-First (holds_inum fs inum) ninode 0)
        (first_index-First (is_empty fs) ninode 0)
