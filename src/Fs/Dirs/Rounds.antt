-- ===== src/Fs/Dirs/Rounds.antt =====
-- The loop of `namex`, kernel/fs.c, ends: each round takes an element off the path.
use project_opertating_syste.Base.{
  ℕ, zero, suc, ◌<◌, ◌≡◌, refl, ◌∙◌, Bool, Option, none, some, List, length, All, arith, Outcome,
  done, panic,
}
use project_opertating_syste.Strings.{Memory}
use project_opertating_syste.Path.{dirsiz, skipelem}
use project_opertating_syste.Path.Elements.{NonZero}
use project_opertating_syste.Path.Skip.{Skip, Skipped, goes, skipelem-Skip}
use project_opertating_syste.Fs.{Fs, SuperBlock}
use project_opertating_syste.Fs.Dirs.{Loop, Walk, next, result, namex_next, namex_round, namex_from}

module _ (sb : SuperBlock) (parent : Bool) (name de : ℕ) where
  -- Two loops that agree on shorter paths.
  abbrev Agree : List ℕ → Loop → Loop → Type 0
  Agree path f g =
      (rest bytes : List ℕ) (ip : ℕ) (mem : Memory) (fs : Fs)
      → length rest < length path
      → length bytes ≡ dirsiz
      → All NonZero rest
      → f rest bytes ip mem fs ≡ g rest bytes ip mem fs

  next-same :
      (path : List ℕ) (f g : Loop) (cut : List ℕ × List ℕ)
      → Agree path f g
      → Skipped path cut
      → (got : Outcome (Walk × Memory × Fs)) → namex_next f cut got ≡ namex_next g cut got
  unfolding namex_next
  next-same path f g cut a s panic = refl
  next-same path f g cut a s (done (next i, mem, fs)) =
      a cut.1 cut.0 i mem fs s.shorter s.room s.clean
  next-same path f g cut a s (done (result r, mem, fs)) = refl

  round-same :
      (path : List ℕ) (f g : Loop)
      → Agree path f g
      → (o : Option (List ℕ × List ℕ)) → Skip path o
      → (ip : ℕ) (mem : Memory) (fs : Fs)
      → namex_round sb parent name de f o ip mem fs ≡ namex_round sb parent name de g o ip mem fs
  unfolding namex_round
  round-same path f g a none s ip mem fs = refl
  round-same path f g a (some cut) (goes s) ip mem fs = next-same path f g cut a s _

  -- Any two numbers of rounds above the length of the path give the same end.
  namex_from-rounds :
      (k m : ℕ) (path bytes : List ℕ) (ip : ℕ) (mem : Memory) (fs : Fs)
      → length path < k
      → length path < m
      → length bytes ≡ dirsiz
      → All NonZero path
      → namex_from sb parent name de k path bytes ip mem fs
        ≡ namex_from sb parent name de m path bytes ip mem fs
  unfolding namex_from
  namex_from-rounds zero m path bytes ip mem fs p q n h = absurd (omega arith)
  namex_from-rounds (suc k) zero path bytes ip mem fs p q n h = absurd (omega arith)
  namex_from-rounds (suc k) (suc m) path bytes ip mem fs p q n h =
      round-same path (namex_from sb parent name de k) (namex_from sb parent name de m)
        (λ x y i o u a b c. namex_from-rounds k m x y i o u (omega arith) (omega arith) b c)
        (skipelem path bytes) (skipelem-Skip path bytes n h) ip mem fs

  -- A loop that ends on shorter paths.
  abbrev Ends : List ℕ → Loop → Type 0
  Ends path f =
      (rest bytes : List ℕ) (ip : ℕ) (mem : Memory) (fs : Fs)
      → length rest < length path
      → length bytes ≡ dirsiz
      → All NonZero rest
      → (o : Outcome (Option ℕ × Memory × Fs)) × (f rest bytes ip mem fs ≡ some o)

  next-Ends :
      (path : List ℕ) (f : Loop) (cut : List ℕ × List ℕ)
      → Ends path f
      → Skipped path cut
      → (got : Outcome (Walk × Memory × Fs))
      → (o : Outcome (Option ℕ × Memory × Fs)) × (namex_next f cut got ≡ some o)
  unfolding namex_next
  next-Ends path f cut a s panic = (panic, refl)
  next-Ends path f cut a s (done (next i, mem, fs)) =
      a cut.1 cut.0 i mem fs s.shorter s.room s.clean
  next-Ends path f cut a s (done (result r, mem, fs)) = (done (r, mem, fs), refl)

  round-Ends :
      (path : List ℕ) (f : Loop)
      → Ends path f
      → (o : Option (List ℕ × List ℕ)) → Skip path o
      → (ip : ℕ) (mem : Memory) (fs : Fs)
      → (e : Outcome (Option ℕ × Memory × Fs)) × (namex_round sb parent name de f o ip mem fs
          ≡ some e)
  unfolding namex_round
  round-Ends path f a none s ip mem fs = (_, refl)
  round-Ends path f a (some cut) (goes s) ip mem fs = next-Ends path f cut a s _

  some_end :
      (k : ℕ) (path bytes : List ℕ) (ip : ℕ) (mem : Memory) (fs : Fs)
      → length path < k
      → length bytes ≡ dirsiz
      → All NonZero path
      → (o : Outcome (Option ℕ × Memory × Fs)) × (namex_from sb parent name de k path bytes ip mem
            fs
          ≡ some o)
  unfolding namex_from
  some_end zero path bytes ip mem fs p n h = absurd (omega arith)
  some_end (suc k) path bytes ip mem fs p n h =
      round-Ends path (namex_from sb parent name de k)
        (λ x y i o u a b c. some_end k x y i o u (omega arith) b c) (skipelem path bytes)
        (skipelem-Skip path bytes n h) ip mem fs

  -- The loop of `namex` ends within one round more than the path has bytes: for a path without NUL
  -- and an array `name` of `DIRSIZ` bytes, there is one outcome, a result or a panic of the kernel,
  -- that every number of rounds above the length of the path gives, and no such number is too small.
  pub namex_from-ends :
      (path bytes : List ℕ) (ip : ℕ) (mem : Memory) (fs : Fs)
      → length bytes ≡ dirsiz
      → All NonZero path
      → (o : Outcome (Option ℕ × Memory × Fs)) × ((k : ℕ)
          → length path < k
          → namex_from sb parent name de k path bytes ip mem fs ≡ some o)
  namex_from-ends path bytes ip mem fs n h =
      let (o, e) = some_end (suc (length path)) path bytes ip mem fs (omega arith) n h in
      (
        o,
        λ k l. namex_from-rounds k (suc (length path)) path bytes ip mem fs l (omega arith) n h ∙ e,
      )
