-- ===== src/Fs/Bits.antt =====
-- One bit of a byte of the free map of kernel/fs.c, set, cleared and read.
use project_opertating_syste.Base.{
  ℕ, zero, suc, ◌/◌, ◌%◌, ◌^◌, ◌-◌, ◌<◌, ◌≡◌, refl, ◌==◌, ltb, Bool, true, false, not, ◌&&◌, ◌||◌,
  if◌then◌else◌, bit_and, bit_or, arith, ltb→lt, ℕ_discrete,
}
use project_opertating_syste.Fs.{is_free, mark, unmark}

-- Does the test hold at each number under the bound?
holds_under : (ℕ → Bool) → ℕ → Bool
holds_under test zero = true
holds_under test (suc top) = if test top then holds_under test top else false

holds_under-at :
    (test : ℕ → Bool) (top : ℕ) → holds_under test top ≡ true → (c : ℕ) → c < top → test c ≡ true
unfolding holds_under
holds_under-at test zero e c l = absurd (omega arith)
holds_under-at test (suc top) e c l = elim (ℕ_discrete c top) [
  | yes q ↦ ground (arith, e)
  | no q ↦
      let rest : holds_under test top ≡ true = ground (arith, e) in
      holds_under-at test top rest c (omega arith)
]

bool_eq : Bool → Bool → Bool
bool_eq true b = b
bool_eq false b = not b

bool_eq_sound : (a b : Bool) → bool_eq a b ≡ true → a ≡ b
unfolding bool_eq
bool_eq_sound a b h = ground arith

-- A law for every byte `x` and bits `k` and `j`, checked at each.
abbrev every : (ℕ → ℕ → ℕ → Bool) → Bool
unfolding holds_under
every p = holds_under (λ x. holds_under (λ k. holds_under (λ j. p x k j) 8) 8) 256

every-at :
    (p : ℕ → ℕ → ℕ → Bool) (x k j : ℕ) → every p ≡ true → x < 256 → k < 8 → j < 8 → p x k j ≡ true
unfolding holds_under
every-at p x k j e hx hk hj =
    let byte = holds_under-at (λ x. holds_under (λ k. holds_under (λ j. p x k j) 8) 8) 256 e x hx in
    let bit = holds_under-at (λ k. holds_under (λ j. p x k j) 8) 8 byte k hk in
    holds_under-at (λ j. p x k j) 8 bit j hj

abbrev set_law : ℕ → ℕ → ℕ → Bool
set_law x k j =
    bool_eq (bit_and (bit_or x (2 ^ k)) (2 ^ j) == 0) (not (j == k) && bit_and x (2 ^ j) == 0)
    && ltb (bit_or x (2 ^ k)) 256

abbrev clear_law : ℕ → ℕ → ℕ → Bool
clear_law x k j =
    bool_eq (bit_and (bit_and x (255 - 2 ^ k)) (2 ^ j) == 0) (j == k || bit_and x (2 ^ j) == 0)
    && ltb (bit_and x (255 - 2 ^ k)) 256

set_table : every set_law ≡ true
unfolding holds_under bool_eq
set_table = refl

clear_table : every clear_law ≡ true
unfolding holds_under bool_eq
clear_table = refl

and_left : (a b : Bool) → a && b ≡ true → a ≡ true
and_left a b h = ground arith

and_right : (a b : Bool) → a && b ≡ true → b ≡ true
and_right a b h = ground arith

module _ (x k j : ℕ) (hx : x < 256) (hk : k < 8) (hj : j < 8) where
  set_at : set_law x k j ≡ true
  set_at = every-at set_law x k j set_table hx hk hj

  clear_at : clear_law x k j ≡ true
  clear_at = every-at clear_law x k j clear_table hx hk hj

  set_bit : (bit_and (bit_or x (2 ^ k)) (2 ^ j) == 0) ≡ (not (j == k) && bit_and x (2 ^ j) == 0)
  set_bit = bool_eq_sound _ _ (and_left _ _ set_at)

  set_byte : bit_or x (2 ^ k) < 256
  set_byte = ltb→lt _ _ (and_right _ _ set_at)

  clear_bit : (bit_and (bit_and x (255 - 2 ^ k)) (2 ^ j) == 0) ≡ (j == k || bit_and x (2 ^ j) == 0)
  clear_bit = bool_eq_sound _ _ (and_left _ _ clear_at)

  clear_byte : bit_and x (255 - 2 ^ k) < 256
  clear_byte = ltb→lt _ _ (and_right _ _ clear_at)

-- The bits of a block of the map, after one is set or cleared.
module _ (bits : ℕ → ℕ) (bytes : (i : ℕ) → bits i < 256) (bi : ℕ) where
  pub is_free-mark : (c : ℕ) → is_free (mark bits bi) c ≡ (not (c == bi) && is_free bits c)
  is_free-mark c = elim (ℕ_discrete (c / 8) (bi / 8)) [
    | yes e ↦
        let here : mark bits bi (c / 8) ≡ bit_or (bits (c / 8)) (2 ^ (bi % 8)) = ground arith in
        let same : (c == bi) ≡ (c % 8 == bi % 8) = ground arith in
        rw (here, same)
          (set_bit (bits (c / 8)) (bi % 8) (c % 8) (bytes (c / 8)) (omega arith) (omega arith))
    | no e ↦
        let here : mark bits bi (c / 8) ≡ bits (c / 8) = ground arith in
        let differ : (c == bi) ≡ false = ground arith in rw (here, differ) refl
  ]

  pub is_free-unmark : (c : ℕ) → is_free (unmark bits bi) c ≡ (c == bi || is_free bits c)
  is_free-unmark c = elim (ℕ_discrete (c / 8) (bi / 8)) [
    | yes e ↦
        let here : unmark bits bi (c / 8) ≡ bit_and (bits (c / 8)) (255 - 2 ^ (bi % 8)) =
          ground arith in
        let same : (c == bi) ≡ (c % 8 == bi % 8) = ground arith in
        rw (here, same)
          (clear_bit (bits (c / 8)) (bi % 8) (c % 8) (bytes (c / 8)) (omega arith) (omega arith))
    | no e ↦
        let here : unmark bits bi (c / 8) ≡ bits (c / 8) = ground arith in
        let differ : (c == bi) ≡ false = ground arith in rw (here, differ) refl
  ]

  pub mark_bytes : (i : ℕ) → mark bits bi i < 256
  mark_bytes i = ground (
    arith,
    bytes i,
    set_byte (bits (bi / 8)) (bi % 8) 0 (bytes (bi / 8)) (omega arith) (omega arith),
  )

  pub unmark_bytes : (i : ℕ) → unmark bits bi i < 256
  unmark_bytes i = ground (
    arith,
    bytes i,
    clear_byte (bits (bi / 8)) (bi % 8) 0 (bytes (bi / 8)) (omega arith) (omega arith),
  )
