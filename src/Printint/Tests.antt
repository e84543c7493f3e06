-- ===== src/Printint/Tests.antt =====
-- Numbers that `printint` of kernel/printf.c and user/printf.c write, and `atoi` of user/ulib.c reads.
use project_opertating_syste.Base.{
  ℕ, ◌+◌, ◌-◌, ◌^◌, ◌<◌, ◌≤◌, ◌≡◌, refl, true, false, none, some, List, [], ◌∷◌, arith,
}
use project_opertating_syste.Printint.{
  printint, user_printint, print_bits, emit, put_sign, atoi, atoi_from,
}
use project_opertating_syste.Printint.Fits.{Prints, printint-some}
use project_opertating_syste.Printint.Decimal.{atoi-user_printint}

minus_one : user_printint (2 ^ 32 - 1) 10 true ≡ some (b'-' ∷ b'1' ∷ [])
unfolding user_printint print_bits emit put_sign
minus_one = refl

hex : printint 255 16 false ≡ some (b'f' ∷ b'f' ∷ [])
unfolding printint print_bits emit put_sign
hex = refl

too_long : printint (10 ^ 16) 10 false ≡ none
unfolding printint print_bits emit put_sign
too_long = refl

stops : atoi (b'4' ∷ b'2' ∷ b'x' ∷ []) ≡ some 42
unfolding atoi atoi_from
stops = refl

printint-some_example : Prints 12345
printint-some_example = printint-some 12345 (omega arith)

atoi-user_printint_example :
    (out : List ℕ) × (user_printint 12345 10 false ≡ some out)
    × (12345 + b'0' < 2 ^ 31 → atoi out ≡ some 12345)
    × (2 ^ 31 ≤ 12345 + b'0' → atoi out ≡ none)
atoi-user_printint_example = atoi-user_printint 12345 (omega arith)

-- The largest `int` has no defined reading.
int_max : atoi (b'2' ∷ b'1' ∷ b'4' ∷ b'7' ∷ b'4' ∷ b'8' ∷ b'3' ∷ b'6' ∷ b'4' ∷ b'7' ∷ []) ≡ none
unfolding atoi atoi_from
int_max = refl
