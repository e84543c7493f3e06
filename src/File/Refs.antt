-- ===== src/File/Refs.antt =====
-- The reference counts of kernel/file.c against the references that there are.
use project_opertating_syste.Base.{
  ℕ, zero, suc, ◌+◌, ◌-◌, ◌≤◌, ◌<◌, ◌≡◌, ◌≢◌, refl, sym, ◌∙◌, subst, inl, inr, ◌==◌, ltb, true,
  false, Option, none, some, if◌then◌else◌, update, done, List, [], ◌∷◌, arith, ℕ_discrete,
  Bool-cases, Option-cases,
}
use project_opertating_syste.File.{
  File, fd_none, nothing, close_below, nfile, find_free, alloc_found, filealloc, filedup, fileclose,
}

-- How many of the references, by file, are to file `i`; and the list without one of them.
abbrev pub count : ℕ → List ℕ → ℕ
count i [] = 0
count i (j ∷ held) = (if i == j then 1 else 0) + count i held

abbrev pub remove : ℕ → List ℕ → List ℕ
remove i [] = []
remove i (j ∷ held) = let rest = remove i held in if i == j then held else j ∷ rest

count-remove :
    (i j : ℕ) (held : List ℕ)
    → 0 < count i held
    → count j (remove i held) ≡ count j held - (if j == i then 1 else 0)
count-remove i j [] h = elim h [ ]
count-remove i j (k ∷ held) h = ground (arith, count-remove i j held)

find_free-some :
    (k i j : ℕ) (files : ℕ → File)
    → find_free k i files ≡ some j
    → ((files j).ref ≡ 0) × (j < i + k)
unfolding find_free
find_free-some zero i j files e = absurd (ground arith)
find_free-some (suc k) i j files e = elim (Bool-cases ((files i).ref == 0)) [
  | inl z ↦ let same : i ≡ j = ground (arith, z) in (ground arith, omega arith)
  | inr z ↦ let (a, b) = find_free-some k (i + 1) j files (ground (arith, z)) in (a, omega arith)
]

find_free-none :
    (k i j : ℕ) (files : ℕ → File)
    → find_free k i files ≡ none
    → i ≤ j
    → j < i + k
    → (files j).ref ≢ 0
unfolding find_free
find_free-none zero i j files e l h = absurd (omega arith)
find_free-none (suc k) i j files e l h = elim (Bool-cases ((files i).ref == 0)) [
  | inl z ↦ absurd (ground (arith, z))
  | inr z ↦ elim (ℕ_discrete j i) [
    | yes x ↦ subst (λ y. (files y).ref ≢ 0) (sym x) (λ w. ground arith)
    | no x ↦ find_free-none k (i + 1) j files (ground (arith, z)) (omega arith) (omega arith)
  ]
]

-- The table agrees with the references that descriptors and calls hold.
abbrev pub Counted : (ℕ → File) → List ℕ → Type 0
Counted files held = (i : ℕ) → (files i).ref ≡ count i held

-- How `filealloc` ends, where `held` are the references: all files are in use and nothing changes,
-- or file `i`, to which there was no reference, has one.
pub data Opened (files : ℕ → File) (held : List ℕ) : Option ℕ × (ℕ → File) → Type 0 where
  full : ((i : ℕ) → i < nfile → 0 < count i held) → Opened files held (none, files)
  opened :
      {u : ℕ → File} (i : ℕ)
      → i < nfile
      → count i held ≡ 0
      → Counted u (i ∷ held)
      → Opened files held (some i, u)

-- `filealloc` in a table that counts the references: it fails, and changes nothing, only where there
-- is a reference to every file; else it returns a file of the table to which there was none, and
-- the table counts the references with the new one.
pub filealloc-Opened :
    (files : ℕ → File) (held : List ℕ) → Counted files held → Opened files held (filealloc files)
unfolding filealloc alloc_found
filealloc-Opened files held v = elim (Option-cases (find_free nfile 0 files)) [
  | inl e ↦
      rw (e, alloc_found)
        (full (λ i l.
          let used = find_free-none nfile 0 i files e (omega arith) (omega arith) in
          ground (arith, v i, used)))
  | inr (i, e) ↦
      let (z, l) = find_free-some nfile 0 i files e in
      rw (e, alloc_found) (opened i (omega arith) (sym (v i) ∙ z) (λ j. ground (arith, v j, z)))
]

-- `filedup` by a holder of a reference returns, and the table counts the references with the new
-- one.
pub filedup-Counted :
    (files : ℕ → File) (held : List ℕ) (i : ℕ)
    → Counted files held
    → 0 < count i held
    → (u : ℕ → File) × (filedup i files ≡ done u) × Counted u (i ∷ held)
unfolding filedup
filedup-Counted files held i v h =
    let in_use : ltb (files i).ref 1 ≡ false = ground (arith, v i) in
    (
      update files i (record (files i) { ref = (files i).ref + 1 }),
      rw in_use refl,
      λ j. ground (arith, v j, v i),
    )

-- `fileclose` by a holder of a reference returns: it closes what is below exactly when the reference is the last one, and
-- else nothing; the table counts the references that are left.
pub fileclose-Counted :
    (files : ℕ → File) (held : List ℕ) (i : ℕ)
    → Counted files held
    → 0 < count i held
    → (u : ℕ → File) × (fileclose i files
        ≡ done (
            if count i (remove i held) == 0
            then (close_below (files i).type_ (files i).writable, u)
            else (nothing, u)))
      × Counted u (remove i held)
unfolding fileclose
fileclose-Counted files held i v h =
    let in_use : ltb (files i).ref 1 ≡ false = ground (arith, v i) in
    let one_less = λ (j : ℕ). count-remove i j held h in
    elim (Bool-cases (ltb 0 ((files i).ref - 1))) [
      | inl more ↦
          let others_left : (count i (remove i held) == 0) ≡ false =
            ground (arith, v i, one_less i) in
          (
            update files i (record (files i) { ref = (files i).ref - 1 }),
            rw (in_use, more, others_left) refl,
            λ j. ground (arith, v j, v i, one_less j),
          )
      | inr last ↦
          let none_left : (count i (remove i held) == 0) ≡ true = ground (arith, v i, one_less i) in
          (
            update files i (record (files i) { ref = 0; type_ = fd_none }),
            rw (in_use, last, none_left) refl,
            λ j. ground (arith, v j, v i, one_less j),
          )
    ]
