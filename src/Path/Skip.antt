-- ===== src/Path/Skip.antt =====
-- What `skipelem` of kernel/fs.c returns.
use project_opertating_syste.Base.{
  ℕ, ◌+◌, ◌≤◌, ◌<◌, ◌≡◌, refl, ap, sym, ◌∙◌, subst, ◌==◌, leb, false, Option, none, some, List, [],
  ◌∷◌, ◌++◌, append-nil, length, length-append, take, drop, All, arith, Bool-cases, List-cases, inl,
  inr,
}
use project_opertating_syste.Path.{dirsiz, slash, skip_slashes, span_element, fill_name, skipelem}
use project_opertating_syste.Path.Elements.{
  elements, string_in, NonZero, elements-skip_slashes, skip_slashes-head, length-skip_slashes,
  NonZero-skip_slashes, span_element-Spanned, string_in-append, All-take, take_all, length-take_le,
  length-drop, drop_all, Spanned,
}

string_in_end : (s t : List ℕ) → s ++ string_in (0 ∷ t) ≡ s
unfolding string_in
string_in_end s t = append-nil s

fill_name_long :
    (s name : List ℕ)
    → length name ≡ dirsiz
    → All NonZero s
    → dirsiz ≤ length s
    → (string_in (take dirsiz s ++ drop dirsiz name) ≡ take dirsiz s)
      × (length (take dirsiz s ++ drop dirsiz name) ≡ dirsiz)
fill_name_long s name n h long =
    rw (drop_all dirsiz name (omega arith), append-nil)
      (
        ap string_in (sym (append-nil (take dirsiz s)))
            ∙ string_in-append (take dirsiz s) [] (All-take dirsiz s h)
            ∙ unfold string_in in append-nil (take dirsiz s),
        length-take_le dirsiz s long,
      )

fill_name_short :
    (s name : List ℕ)
    → length name ≡ dirsiz
    → All NonZero s
    → length s < dirsiz
    → (string_in (s ++ (0 ∷ drop (length s + 1) name)) ≡ take dirsiz s)
      × (length (s ++ (0 ∷ drop (length s + 1) name)) ≡ dirsiz)
fill_name_short s name n h short = (
  string_in-append s (0 ∷ drop (length s + 1) name) h
      ∙ string_in_end s (drop (length s + 1) name)
      ∙ sym (take_all dirsiz s (omega arith)),
  omega (arith, length-append s (0 ∷ drop (length s + 1) name), length-drop (length s + 1) name),
)

-- The name array holds the element, cut after `DIRSIZ` bytes, and keeps its size.
fill_name_lem :
    (s name : List ℕ)
    → length name ≡ dirsiz
    → All NonZero s
    → (string_in (fill_name s name) ≡ take dirsiz s) × (length (fill_name s name) ≡ dirsiz)
unfolding fill_name
fill_name_lem s name n h = elim (Bool-cases (leb dirsiz (length s))) [
  | inl e ↦ rw e (fill_name_long s name n h (ground arith))
  | inr e ↦ rw e (fill_name_short s name n h (ground arith))
]

-- What `skipelem` returns with the first element `s` of the path.
pub record Skipped (path : List ℕ) (r : List ℕ × List ℕ) : Type 0 where
  pub s : List ℕ
  pub next : elements path ≡ s ∷ elements r.1
  pub named : string_in r.0 ≡ take dirsiz s
  pub room : length r.0 ≡ dirsiz
  pub last : elements r.1 ≡ [] → r.1 ≡ []
  pub shorter : length r.1 < length path
  pub clean : All NonZero r.1

pub data Skip (path : List ℕ) : Option (List ℕ × List ℕ) → Type 0 where
  ends : elements path ≡ [] → Skip path none
  goes : {r : List ℕ × List ℕ} → Skipped path r → Skip path (some r)

-- A path that does not begin with a slash, and has no element, is empty.
last_of_head :
    (p : List ℕ)
    → ((c : ℕ) (r : List ℕ) → p ≡ c ∷ r → (c == slash) ≡ false)
    → elements p ≡ []
    → p ≡ []
unfolding elements
last_of_head [] h e = refl
last_of_head (c ∷ r) h e = let k = h c r refl in absurd (ground (arith, k))

span_cons :
    (c : ℕ) (r : List ℕ)
    → (c == slash) ≡ false
    → span_element (c ∷ r) ≡ (c ∷ (span_element r).0, (span_element r).1)
unfolding span_element
span_cons c r e = rw e

elements-Spanned :
    (c : ℕ) (path s rest : List ℕ)
    → Spanned path (c ∷ s) rest
    → elements path ≡ (c ∷ s) ∷ elements rest
unfolding elements
elements-Spanned c path s rest sp = rw sp.front (ap (λ (l : List (List ℕ)). (c ∷ s) ∷ l) sp.others)

-- A path that does not begin with a slash has the element that `span_element` finds first.
elements-cons :
    (c : ℕ) (r : List ℕ)
    → (c == slash) ≡ false
    → (elements (c ∷ r) ≡ (span_element (c ∷ r)).0 ∷ elements (span_element (c ∷ r)).1)
      × (0 < length (span_element (c ∷ r)).0)
elements-cons c r e =
    let sp =
      subst (λ q. Spanned (c ∷ r) q.0 q.1) (span_cons c r e) (span_element-Spanned (c ∷ r)) in
    rw (span_cons c r e)
      (elements-Spanned c (c ∷ r) (span_element r).0 (span_element r).1 sp, omega arith)

-- The case of a path whose first byte, the slashes skipped, is `c`.
Skip-skip_slashes :
    (path name : List ℕ) (c : ℕ) (r : List ℕ)
    → skip_slashes path ≡ c ∷ r
    → length name ≡ dirsiz
    → All NonZero path
    → Skip path
        (some (fill_name (span_element (c ∷ r)).0 name, skip_slashes (span_element (c ∷ r)).1))
Skip-skip_slashes path name c r e n h =
    let sp = span_element-Spanned (c ∷ r) in
    let first = elements-cons c r (skip_slashes-head path c r e) in
    let nz = sp.clean (subst (All NonZero) e (NonZero-skip_slashes path h)) in
    let filled = fill_name_lem (span_element (c ∷ r)).0 name n nz.0 in
    goes (record {
      s = (span_element (c ∷ r)).0;
      next =
          sym (elements-skip_slashes path)
          ∙ ap elements e
          ∙ first.0
          ∙ ap (λ l. (span_element (c ∷ r)).0 ∷ l)
              (sym (elements-skip_slashes (span_element (c ∷ r)).1));
      named = filled.0;
      room = filled.1;
      last = last_of_head _ (skip_slashes-head (span_element (c ∷ r)).1);
      shorter = omega (
        arith,
        length-skip_slashes (span_element (c ∷ r)).1,
        length-skip_slashes path,
        ap length e,
        sp.short,
        first.1,
      );
      clean = NonZero-skip_slashes (span_element (c ∷ r)).1 nz.1;
    })

-- For a path and a name array of `DIRSIZ` bytes, with no NUL in the path: `skipelem` returns null
-- exactly when the path has no element. Otherwise the name holds the first element, cut after
-- `DIRSIZ` bytes, the path that it returns has the other elements, and it is empty exactly when
-- there are none; it is shorter than the path.
pub skipelem-Skip :
    (path name : List ℕ) → length name ≡ dirsiz → All NonZero path → Skip path (skipelem path name)
unfolding skipelem
skipelem-Skip path name n h = elim (List-cases (skip_slashes path)) [
  | inl e ↦
      rw (e, skipelem)
        (ends (sym (elements-skip_slashes path) ∙ ap elements e ∙ unfold elements in refl))
  | inr (c, r, e) ↦ rw (e, skipelem) (Skip-skip_slashes path name c r e n h)
]
