-- ===== src/Log/Listed.antt =====
-- The blocks that a log header lists (kernel/log.c).
use project_opertating_syste.Base.{
  ℕ, zero, suc, ◌+◌, ◌≤◌, ◌<◌, ◌≡◌, refl, ◌≢◌, inl, inr, Bool, true, false, ◌||◌, arith, ◌==◌,
  Bool-cases, update,
}

-- Is `x` among the first `n` entries?
unfoldable pub listed : ℕ → (ℕ → ℕ) → ℕ → Bool
listed zero f x = false
listed (suc n) f x = (f n == x) || listed n f x

pub listed-zero : (f : ℕ → ℕ) (x : ℕ) → listed 0 f x ≡ false
unfolding listed
listed-zero f x = refl

pub listed_suc : (n : ℕ) (f : ℕ → ℕ) (x : ℕ) → listed (n + 1) f x ≡ ((f n == x) || listed n f x)
listed_suc n f x = let e : n + 1 ≡ suc n = omega arith in rw e (unfold listed in refl)

pub listed-false : (n : ℕ) (f : ℕ → ℕ) (x i : ℕ) → listed n f x ≡ false → i < n → f i ≢ x
unfolding listed
listed-false zero f x i h q = elim q [ ]
listed-false (suc n) f x i h q = ground (arith, listed-false n f x i)

pub listed-true : (n : ℕ) (f : ℕ → ℕ) (x : ℕ) → listed n f x ≡ true → (i : ℕ) × (i < n) × (f i ≡ x)
unfolding listed
listed-true zero f x h = cc
listed-true (suc n) f x h = elim (Bool-cases (f n == x)) [
  | inl e ↦ (n, omega arith, ground arith)
  | inr e ↦ let (i, q, r) = listed-true n f x (ground arith) in (i, omega arith, r)
]

pub listed-eq :
    (n : ℕ) (f g : ℕ → ℕ) (x : ℕ) → ((i : ℕ) → i < n → f i ≡ g i) → listed n f x ≡ listed n g x
unfolding listed
listed-eq zero f g x h = refl
listed-eq (suc n) f g x h = ground (arith, h n, listed-eq n f g x (λ i q. h i (omega arith)))

-- Adding an entry adds exactly that block to the blocks listed.
pub listed-update :
    (n k : ℕ) (f : ℕ → ℕ) (b x : ℕ) → n ≤ k → listed n (update f k b) x ≡ listed n f x
unfolding listed
listed-update zero k f b x h = refl
listed-update (suc n) k f b x h = ground (arith, listed-update n k f b x)

pub listed_of_entry : (n : ℕ) (f : ℕ → ℕ) (i : ℕ) → i < n → listed n f (f i) ≡ true
unfolding listed
listed_of_entry zero f i h = elim h [ ]
listed_of_entry (suc n) f i h = ground (arith, listed_of_entry n f i)
