-- ===== src/Printint.antt =====
-- `printint` of kernel/printf.c and of user/printf.c, and `atoi` of user/ulib.c. A number is its bit
-- pattern. The characters in `buf` are a list with the last stored first: the order in which they
-- are printed. A store past the end of `buf` has no defined effect: it is `none`.
pub mod Fits
pub mod Decimal
mod Tests
use project_opertating_syste.Base.{
  ℕ, zero, suc, ◌+◌, ◌-◌, ◌*◌, ◌/◌, ◌%◌, ◌^◌, ◌==◌, ltb, leb, Bool, true, false, ◌&&◌, Option, none,
  some, List, [], ◌∷◌, if◌then◌else◌, length,
}

-- `digits[d]`, where the table has its letters from `ten` on: 'a' in the kernel, 'A' for the user.
abbrev pub digit : ℕ → ℕ → ℕ
digit ten d = if ltb d 10 then b'0' + d else ten + (d - 10)

-- The do loop, with room for so many more characters in `buf`.
unfoldable pub emit : ℕ → ℕ → ℕ → ℕ → List ℕ → Option (List ℕ)
emit ten zero base x buf = none
emit ten (suc room) base x buf =
    let buf' = digit ten (x % base) ∷ buf in
    let rest = emit ten room base (x / base) buf' in if x / base == 0 then some buf' else rest

-- `if(neg) buf[i++] = '-';`
unfoldable pub put_sign : Bool → Option (List ℕ) → Option (List ℕ)
put_sign neg none = none
put_sign false (some buf) = some buf
put_sign true (some buf) = if ltb (length buf) 16 then some (b'-' ∷ buf) else none

-- For a number of `w` bits.
unfoldable pub print_bits : ℕ → ℕ → ℕ → ℕ → Bool → Option (List ℕ)
print_bits ten w xx base sgn =
    let neg = sgn && leb (2 ^ (w - 1)) xx in
    let x = if neg then (2 ^ w - xx) % 2 ^ w else xx in put_sign neg (emit ten 16 base x [])

unfoldable pub printint : ℕ → ℕ → Bool → Option (List ℕ)
printint = print_bits b'a' 64

unfoldable pub user_printint : ℕ → ℕ → Bool → Option (List ℕ)
user_printint = print_bits b'A' 32

-- The loop of `atoi`, on the bytes before the NUL. `n*10 + *s++ - '0'` is `int` arithmetic from left
-- to right: its overflow has no defined effect, and is `none`.
unfoldable pub atoi_from : ℕ → List ℕ → Option ℕ
atoi_from n [] = some n
atoi_from n (c ∷ s) =
    let rest = atoi_from (n * 10 + c - b'0') s in
    if leb b'0' c && leb c b'9' then if ltb (n * 10 + c) (2 ^ 31) then rest else none else some n

unfoldable pub atoi : List ℕ → Option ℕ
atoi s = atoi_from 0 s
