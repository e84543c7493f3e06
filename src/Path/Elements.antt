-- ===== src/Path/Elements.antt =====
-- `skipelem` of kernel/fs.c against the elements of a path: its parts between slashes that are not
-- empty.
use project_opertating_syste.Base.{
  ℕ, zero, suc, ◌+◌, ◌-◌, ◌≤◌, ◌≡◌, ◌≢◌, refl, ap, ◌==◌, false, List, [], ◌∷◌, ◌++◌, if◌then◌else◌,
  length, take, drop, All, arith, Bool-cases, inl, inr,
}
use project_opertating_syste.Path.{slash, skip_slashes, span_element}

-- The parts of a path between slashes, empty ones included: the first, and the others.
unfoldable pub split : List ℕ → List ℕ × List (List ℕ)
split [] = ([], [])
split (c ∷ path) =
    let (front, others) = split path in
    if c == slash then ([], front ∷ others) else (c ∷ front, others)

unfoldable pub not_empty : List (List ℕ) → List (List ℕ)
not_empty [] = []
not_empty ([] ∷ parts) = not_empty parts
not_empty ((c ∷ s) ∷ parts) = (c ∷ s) ∷ not_empty parts

unfoldable pub elements : List ℕ → List (List ℕ)
unfolding split not_empty
elements path = not_empty ((split path).0 ∷ (split path).1)

-- The string in an array of bytes: up to the first NUL.
unfoldable pub string_in : List ℕ → List ℕ
string_in [] = []
string_in (c ∷ s) = if c == 0 then [] else c ∷ string_in s

abbrev pub NonZero : ℕ → Type 0
NonZero c = c ≢ 0

pub elements-skip_slashes : (path : List ℕ) → elements (skip_slashes path) ≡ elements path
unfolding elements skip_slashes
elements-skip_slashes [] = refl
elements-skip_slashes (c ∷ path) = ground (arith, elements-skip_slashes path)

-- What `skip_slashes` leaves does not begin with a slash.
pub skip_slashes-head :
    (path : List ℕ) (c : ℕ) (r : List ℕ) → skip_slashes path ≡ c ∷ r → (c == slash) ≡ false
unfolding skip_slashes
skip_slashes-head [] c r e = cc
skip_slashes-head (d ∷ path) c r e = ground (arith, skip_slashes-head path c r)

pub length-skip_slashes : (path : List ℕ) → length (skip_slashes path) ≤ length path
unfolding skip_slashes
length-skip_slashes [] = omega arith
length-skip_slashes (c ∷ path) = ground (arith, length-skip_slashes path)

pub NonZero-skip_slashes : (path : List ℕ) → All NonZero path → All NonZero (skip_slashes path)
unfolding skip_slashes
NonZero-skip_slashes [] h = tt
NonZero-skip_slashes (c ∷ path) h = elim (Bool-cases (c == slash)) [
  | inl e ↦ rw e (NonZero-skip_slashes path h.1)
  | inr e ↦ rw e h
]

-- The element at the front of a path, and the rest of the path behind it.
pub record Spanned (path s rest : List ℕ) : Type 0 where
  pub front : (split path).0 ≡ s
  pub others : not_empty (split path).1 ≡ elements rest
  pub short : length s + length rest ≡ length path
  pub clean : All NonZero path → All NonZero s × All NonZero rest

pub span_element-Spanned :
    (path : List ℕ) → Spanned path (span_element path).0 (span_element path).1
unfolding elements span_element
span_element-Spanned [] = record {
  front = refl;
  others = refl;
  short = refl;
  clean = λ h. (tt, tt);
}
span_element-Spanned (c ∷ path) =
    let ih = span_element-Spanned path in
    elim (Bool-cases (c == slash)) [
      | inl e ↦
          rw e (record { front = rw e; others = rw e; short = omega arith; clean = λ h. (tt, h) })
      | inr e ↦ rw e (record {
        front = rw e (ap (λ s. c ∷ s) ih.front);
        others = rw e ih.others;
        short = omega (arith, ih.short);
        clean = λ h. ((h.0, (ih.clean h.1).0), (ih.clean h.1).1);
      })
    ]

pub string_in-append : (s t : List ℕ) → All NonZero s → string_in (s ++ t) ≡ s ++ string_in t
unfolding string_in
string_in-append [] t h = refl
string_in-append (c ∷ s) t h = ground (arith, string_in-append s t h.1)

pub All-take : (n : ℕ) (s : List ℕ) → All NonZero s → All NonZero (take n s)
All-take zero s h = tt
All-take (suc n) [] h = tt
All-take (suc n) (c ∷ s) h = (h.0, All-take n s h.1)

pub take_all : (n : ℕ) (s : List ℕ) → length s ≤ n → take n s ≡ s
take_all zero [] h = refl
take_all zero (c ∷ s) h = absurd (omega arith)
take_all (suc n) [] h = refl
take_all (suc n) (c ∷ s) h = ap (λ t. c ∷ t) (take_all n s (omega arith))

pub length-take_le : (n : ℕ) (s : List ℕ) → n ≤ length s → length (take n s) ≡ n
length-take_le zero s h = refl
length-take_le (suc n) [] h = absurd (omega arith)
length-take_le (suc n) (c ∷ s) h = ap suc (length-take_le n s (omega arith))

pub length-drop : (n : ℕ) (s : List ℕ) → length (drop n s) ≡ length s - n
length-drop zero s = omega arith
length-drop (suc n) [] = omega arith
length-drop (suc n) (c ∷ s) = omega (arith, length-drop n s)

pub drop_all : (n : ℕ) (s : List ℕ) → length s ≤ n → drop n s ≡ []
drop_all zero [] h = refl
drop_all zero (c ∷ s) h = absurd (omega arith)
drop_all (suc n) [] h = refl
drop_all (suc n) (c ∷ s) h = drop_all n s (omega arith)
