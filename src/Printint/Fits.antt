-- ===== src/Printint/Fits.antt =====
-- When the characters of `printint` fit in its buffer.
use project_opertating_syste.Base.{
  ℕ, zero, suc, ◌+◌, ◌-◌, ◌*◌, ◌/◌, ◌%◌, ◌^◌, ◌≤◌, ◌<◌, ◌≡◌, refl, ◌∙◌, subst, inl, inr, ◌==◌, leb,
  Bool, true, false, ◌&&◌, Option, none, some, List, [], ◌∷◌, if◌then◌else◌, length, arith,
  Bool-cases, Option-cases, ltb,
}
use project_opertating_syste.Printint.{digit, emit, put_sign, print_bits, printint, user_printint}

-- The powers of a base.
unfoldable pub power : ℕ → ℕ → ℕ
power base zero = 1
power base (suc k) = power base k * base

-- In a base for which division does what the hypotheses say.
module _ (ten base : ℕ) (grows : (m : ℕ) → 0 < m → 0 < m * base)
    (below : (x m : ℕ) → x < m * base → x / base < m)
    (above : (x m : ℕ) → m * base ≤ x → m ≤ x / base) where
  power_positive : (k : ℕ) → 0 < power base k
  unfolding power
  power_positive zero = omega arith
  power_positive (suc k) = grows _ (power_positive k)

  -- A number below `base ^ k` takes at most `k` characters.
  emit-some :
      (room k x : ℕ) (buf : List ℕ)
      → x < power base k
      → 0 < k
      → k ≤ room
      → (out : List ℕ) × (emit ten room base x buf ≡ some out) × (length out ≤ length buf + k)
  unfolding emit power
  emit-some room zero x buf h p l = elim p [ ]
  emit-some zero (suc k) x buf h p l = absurd (omega arith)
  emit-some (suc room) (suc zero) x buf h p l =
      let small : x / base < 1 = below x 1 h in
      let last : (x / base == 0) ≡ true = ground (arith, small) in
      (digit ten (x % base) ∷ buf, rw (last, emit) refl, omega arith)
  emit-some (suc room) (suc (suc k)) x buf h p l = elim (Bool-cases (x / base == 0)) [
    | inl z ↦ (digit ten (x % base) ∷ buf, rw (z, emit) refl, omega arith)
    | inr z ↦
        let (out, e, n) =
          emit-some room (suc k) (x / base) (digit ten (x % base) ∷ buf) (below x _ h) (omega arith)
            (omega arith) in
        (out, rw (z, emit) e, omega (arith, n))
  ]

  -- A number of at least `base ^ room` does not fit.
  emit-none : (room x : ℕ) (buf : List ℕ) → power base room ≤ x → emit ten room base x buf ≡ none
  unfolding emit power
  emit-none zero x buf h = refl
  emit-none (suc room) x buf h =
      let big : power base room ≤ x / base = above x _ h in
      let not_last : (x / base == 0) ≡ false = ground (arith, big, power_positive room) in
      rw (not_last, emit) (emit-none room (x / base) (digit ten (x % base) ∷ buf) big)

  -- A number of at least `base ^ k` takes more than `k` characters.
  length-emit :
      (room k x : ℕ) (buf out : List ℕ)
      → power base k ≤ x
      → emit ten room base x buf ≡ some out
      → length buf + suc k ≤ length out
  unfolding emit power
  length-emit zero k x buf out h e = absurd (ground arith)
  length-emit (suc room) zero x buf out h e = elim (Bool-cases (x / base == 0)) [
    | inl z ↦
        let same : digit ten (x % base) ∷ buf ≡ out = ground (arith, z, e) in
        subst (λ o. length buf + 1 ≤ length o) same (omega arith)
    | inr z ↦
        let longer =
          length-emit room zero (x / base) (digit ten (x % base) ∷ buf) out (ground (arith, z))
            (ground (arith, z, e)) in
        omega (arith, longer)
  ]
  length-emit (suc room) (suc k) x buf out h e =
      let big : power base k ≤ x / base = above x _ h in
      let not_last : (x / base == 0) ≡ false = ground (arith, big, power_positive k) in
      let longer =
        length-emit room k (x / base) (digit ten (x % base) ∷ buf) out big
          (ground (arith, not_last, e)) in
      omega (arith, longer)

module _ (ten room k x : ℕ) (p : 0 < k) (l : k ≤ room) where
  decimal_fits :
      x < power 10 k → (out : List ℕ) × (emit ten room 10 x [] ≡ some out) × (length out ≤ k)
  decimal_fits h =
      let (out, e, n) =
        emit-some ten 10 (λ m q. omega arith) (λ y m q. omega arith) (λ y m q. omega arith) room k x
          [] h p l in
      (out, e, omega (arith, n))

  hex_fits : x < power 16 k → (out : List ℕ) × (emit ten room 16 x [] ≡ some out) × (length out ≤ k)
  hex_fits h =
      let (out, e, n) =
        emit-some ten 16 (λ m q. omega arith) (λ y m q. omega arith) (λ y m q. omega arith) room k x
          [] h p l in
      (out, e, omega (arith, n))

put_sign-some :
    (neg : Bool) (o : Option (List ℕ)) (out : List ℕ)
    → o ≡ some out
    → length out < 16
    → (all : List ℕ) × (put_sign neg o ≡ some all)
unfolding put_sign
put_sign-some false o out e l = (out, rw e refl)
put_sign-some true o out e l = (b'-' ∷ out, rw e (ground arith))

-- `printint` of user/printf.c stays within its buffer for every `int`, in base 10, signed or not,
-- and in base 16 without a sign.
pub user_printint-some :
    (xx : ℕ)
    → xx < 2 ^ 32
    → ((sgn : Bool) → (out : List ℕ) × (user_printint xx 10 sgn ≡ some out))
      × ((out : List ℕ) × (user_printint xx 16 false ≡ some out))
unfolding user_printint print_bits power
user_printint-some xx h = (
  λ sgn.
      let neg : Bool = sgn && leb (2 ^ 31) xx in
      let x : ℕ = if neg then (2 ^ 32 - xx) % 2 ^ 32 else xx in
      let small : x < 10 ^ 10 = ground arith in
      let (out, e, l) = decimal_fits b'A' 16 10 x (omega arith) (omega arith) small in
      put_sign-some neg (emit b'A' 16 10 x []) out e (omega (arith, l)),
  let (out, e, l) = hex_fits b'A' 16 8 xx (omega arith) (omega arith) h in
      put_sign-some false (emit b'A' 16 16 xx []) out e (omega (arith, l)),
)

pub put_sign-false : (o : Option (List ℕ)) → put_sign false o ≡ o
unfolding put_sign
put_sign-false none = refl
put_sign-false (some out) = refl

put_sign-none : (room x : ℕ) → 10 ^ 15 ≤ x → put_sign true (emit b'a' room 10 x []) ≡ none
unfolding put_sign
put_sign-none room x big = elim (Option-cases (emit b'a' room 10 x [])) [
  | inl e ↦ rw e refl
  | inr (out, e) ↦
      let long =
        length-emit b'a' 10 (λ m q. omega arith) (λ y m q. omega arith) (λ y m q. omega arith) room
          15 x [] out (unfold power in omega arith) e in
      let full : ltb (length out) 16 ≡ false = ground (arith, long) in rw (e, full) refl
]

-- What `printint` of kernel/printf.c does with the 64 bits `xx`: `some` where its characters stay
-- within the buffer.
pub record Prints (xx : ℕ) : Type 0 where
  pub hex : (out : List ℕ) × (printint xx 16 false ≡ some out)
  pub short : xx < 10 ^ 16 → (out : List ℕ) × (printint xx 10 false ≡ some out)
  pub long : 10 ^ 16 ≤ xx → printint xx 10 false ≡ none
  pub positive : xx < 2 ^ 63 → printint xx 10 true ≡ printint xx 10 false
  pub negative_short :
      2 ^ 63 ≤ xx → 2 ^ 64 - xx < 10 ^ 15 → (out : List ℕ) × (printint xx 10 true ≡ some out)
  pub negative_long : 2 ^ 63 ≤ xx → 10 ^ 15 ≤ 2 ^ 64 - xx → printint xx 10 true ≡ none

-- `printint` of kernel/printf.c, on any 64 bits, stays within its buffer in base 16 without a sign.
-- In base 10, unsigned, it does so for the numbers below 10 ^ 16, and stores past the end of the
-- buffer for all others; signed, it does the same with the numbers that are not negative, stays
-- within it for negative ones above -10 ^ 15, and stores past its end for all other negative ones.
pub printint-some : (xx : ℕ) → xx < 2 ^ 64 → Prints xx
unfolding printint print_bits
printint-some xx h = record {
  hex =
      let (out, e, l) =
        hex_fits b'a' 16 16 xx (omega arith) (omega arith) (unfold power in omega arith) in
      (out, put_sign-false (emit b'a' 16 16 xx []) ∙ e);
  short = λ small.
      let (out, e, l) =
        decimal_fits b'a' 16 16 xx (omega arith) (omega arith) (unfold power in omega arith) in
      (out, put_sign-false (emit b'a' 16 10 xx []) ∙ e);
  long = λ big.
      put_sign-false (emit b'a' 16 10 xx [])
      ∙ emit-none b'a' 10 (λ m q. omega arith) (λ y m q. omega arith) (λ y m q. omega arith) 16 xx
          [] (unfold power in omega arith);
  positive = λ plus. let test : leb (2 ^ 63) xx ≡ false = ground arith in rw test refl;
  negative_short = λ minus small.
      let test : leb (2 ^ 63) xx ≡ true = ground arith in
      let size : (2 ^ 64 - xx) % 2 ^ 64 ≡ 2 ^ 64 - xx = omega arith in
      let (out, e, l) =
        decimal_fits b'a' 16 15 (2 ^ 64 - xx) (omega arith) (omega arith)
          (unfold power in omega arith) in
      rw (test, size)
        (put_sign-some true (emit b'a' 16 10 (2 ^ 64 - xx) []) out e (omega (arith, l)));
  negative_long = λ minus big.
      let test : leb (2 ^ 63) xx ≡ true = ground arith in
      let size : (2 ^ 64 - xx) % 2 ^ 64 ≡ 2 ^ 64 - xx = omega arith in
      rw (test, size) (put_sign-none 16 (2 ^ 64 - xx) big);
}
