-- ===== src/Bcache/Search.antt =====
-- What the two searches of `bget` in kernel/bio.c find.
use project_opertating_syste.Base.{
  ℕ, ◌≡◌, ◌≢◌, refl, sym, subst, inl, inr, ◌==◌, Bool, true, false, ◌||◌, none, some, arith,
  ℕ_discrete, Bool-cases, Option-cases, List, [], ◌∷◌,
}
use project_opertating_syste.Bcache.{Buf, hit, find_cached, find_unused, unlink}

-- Is the index in the list?
abbrev pub member : ℕ → List ℕ → Bool
member i [] = false
member i (j ∷ order) = i == j || member i order

pub find_cached-some :
    (dev b : ℕ) (bufs : ℕ → Buf) (order : List ℕ) (i : ℕ)
    → find_cached dev b bufs order ≡ some i
    → (member i order ≡ true) × (hit dev b (bufs i) ≡ true)
unfolding find_cached
find_cached-some dev b bufs [] i e = absurd (ground arith)
find_cached-some dev b bufs (j ∷ order) i e = elim (Bool-cases (hit dev b (bufs j))) [
  | inl h ↦ ground (arith, h)
  | inr h ↦
      let (m, x) = find_cached-some dev b bufs order i (ground (arith, h)) in (ground (arith, m), x)
]

pub find_cached-none :
    (dev b : ℕ) (bufs : ℕ → Buf) (order : List ℕ)
    → find_cached dev b bufs order ≡ none
    → (i : ℕ) → member i order ≡ true
    → hit dev b (bufs i) ≡ false
unfolding find_cached
find_cached-none dev b bufs [] e i m = absurd (ground arith)
find_cached-none dev b bufs (j ∷ order) e i m = elim (Bool-cases (hit dev b (bufs j))) [
  | inl h ↦ absurd (ground (arith, h))
  | inr h ↦ elim (ℕ_discrete i j) [
    | yes x ↦ subst (λ k. hit dev b (bufs k) ≡ false) (sym x) h
    | no x ↦ find_cached-none dev b bufs order (ground (arith, h)) i (ground arith)
  ]
]

pub find_unused-some :
    (bufs : ℕ → Buf) (order : List ℕ) (i : ℕ)
    → find_unused bufs order ≡ some i
    → (member i order ≡ true) × ((bufs i).refcnt ≡ 0)
unfolding find_unused
find_unused-some bufs [] i e = absurd (ground arith)
find_unused-some bufs (j ∷ order) i e = elim (Option-cases (find_unused bufs order)) [
  | inl h ↦ ground (arith, h)
  | inr (k, h) ↦
      let same : k ≡ i = ground (arith, h) in
      let (m, x) = find_unused-some bufs order k h in (ground (arith, m), ground (arith, x))
]

pub find_unused-none :
    (bufs : ℕ → Buf) (order : List ℕ)
    → find_unused bufs order ≡ none
    → (i : ℕ) → member i order ≡ true
    → (bufs i).refcnt ≢ 0
unfolding find_unused
find_unused-none bufs [] e i m = absurd (ground arith)
find_unused-none bufs (j ∷ order) e i m = elim (Option-cases (find_unused bufs order)) [
  | inl h ↦ elim (ℕ_discrete i j) [
    | yes x ↦ λ z. ground (arith, h)
    | no x ↦ find_unused-none bufs order h i (ground arith)
  ]
  | inr (k, h) ↦ absurd (ground (arith, h))
]

member-unlink_ne : (i j : ℕ) (order : List ℕ) → j ≢ i → member j (unlink i order) ≡ member j order
unfolding unlink
member-unlink_ne i j [] n = refl
member-unlink_ne i j (k ∷ order) n = ground (arith, member-unlink_ne i j order n)

-- Moving a buffer of the list to its front keeps the members.
pub member-unlink :
    (i j : ℕ) (order : List ℕ)
    → member i order ≡ true
    → member j (i ∷ unlink i order) ≡ member j order
member-unlink i j order m = elim (ℕ_discrete j i) [
  | yes e ↦ ground (arith, subst (λ x. member x order ≡ true) (sym e) m)
  | no e ↦ ground (arith, member-unlink_ne i j order e)
]
