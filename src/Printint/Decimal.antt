-- ===== src/Printint/Decimal.antt =====
-- What `atoi` reads of what `printint` writes.
use project_opertating_syste.Base.{
  ℕ, zero, suc, ◌+◌, ◌/◌, ◌%◌, ◌^◌, ◌≤◌, ◌<◌, ◌≡◌, sym, ◌∙◌, subst, inl, inr, ◌==◌, false, none,
  some, List, [], ◌∷◌, arith, dec_lt, Bool-cases,
}
use project_opertating_syste.Printint.{digit, emit, atoi_from, atoi, user_printint, print_bits}
use project_opertating_syste.Printint.Fits.{user_printint-some, put_sign-false}

-- One digit more.
atoi_from-digit :
    (ten x : ℕ) (buf : List ℕ)
    → x + b'0' < 2 ^ 31
    → atoi_from (x / 10) (digit ten (x % 10) ∷ buf) ≡ atoi_from x buf
unfolding atoi_from
atoi_from-digit ten x buf h = ground arith

atoi_from-overflow :
    (ten x : ℕ) (buf : List ℕ)
    → 2 ^ 31 ≤ x + b'0'
    → atoi_from (x / 10) (digit ten (x % 10) ∷ buf) ≡ none
unfolding atoi_from
atoi_from-overflow ten x buf h = ground arith

module _ (ten : ℕ) where
  atoi_from-emit :
      (room x : ℕ) (buf out : List ℕ)
      → x + b'0' < 2 ^ 31
      → emit ten room 10 x buf ≡ some out
      → atoi_from 0 out ≡ atoi_from x buf
  unfolding emit
  atoi_from-emit zero x buf out h e = absurd (ground arith)
  atoi_from-emit (suc room) x buf out h e = elim (Bool-cases (x / 10 == 0)) [
    | inl z ↦
        let last : x / 10 ≡ 0 = ground (arith, z) in
        let same : digit ten (x % 10) ∷ buf ≡ out = ground (arith, z, e) in
        subst (λ o. atoi_from 0 o ≡ atoi_from x buf) same
          (subst (λ n. atoi_from n (digit ten (x % 10) ∷ buf) ≡ atoi_from x buf) last
            (atoi_from-digit ten x buf h))
    | inr z ↦
        atoi_from-emit room (x / 10) (digit ten (x % 10) ∷ buf) out (omega arith)
          (ground (arith, z, e))
        ∙ atoi_from-digit ten x buf h
  ]

  atoi_from-none :
      (room x : ℕ) (buf out : List ℕ)
      → 2 ^ 31 ≤ x + b'0'
      → emit ten room 10 x buf ≡ some out
      → atoi_from 0 out ≡ none
  unfolding emit
  atoi_from-none zero x buf out h e = absurd (ground arith)
  atoi_from-none (suc room) x buf out h e = elim (Bool-cases (x / 10 == 0)) [
    | inl z ↦ let last : x / 10 ≡ 0 = ground (arith, z) in absurd (omega arith)
    | inr z ↦
        let rest : emit ten room 10 (x / 10) (digit ten (x % 10) ∷ buf) ≡ some out =
          ground (arith, z, e) in
        elim (dec_lt (x / 10 + b'0') (2 ^ 31)) [
          | yes l ↦
              atoi_from-emit room (x / 10) (digit ten (x % 10) ∷ buf) out l rest
              ∙ atoi_from-overflow ten x buf h
          | no l ↦ atoi_from-none room (x / 10) (digit ten (x % 10) ∷ buf) out (omega arith) rest
        ]
  ]

-- `printint` of user/printf.c writes every unsigned 32-bit number in base 10, and `atoi` of what it
-- writes is the number, if the number plus 48 is below 2 ^ 31; for all others an `int` overflows in
-- `atoi`.
pub atoi-user_printint :
    (xx : ℕ)
    → xx < 2 ^ 32
    → (out : List ℕ) × (user_printint xx 10 false ≡ some out)
      × (xx + b'0' < 2 ^ 31 → atoi out ≡ some xx)
      × (2 ^ 31 ≤ xx + b'0' → atoi out ≡ none)
unfolding atoi atoi_from user_printint print_bits
atoi-user_printint xx h =
    let (out, e) = (user_printint-some xx h).0 false in
    let written = sym (put_sign-false (emit b'A' 16 10 xx [])) ∙ e in
    (
      out,
      e,
      λ small. atoi_from-emit b'A' 16 xx [] out small written,
      λ big. atoi_from-none b'A' 16 xx [] out big written,
    )
