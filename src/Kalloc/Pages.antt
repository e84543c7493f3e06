-- ===== src/Kalloc/Pages.antt =====
-- The free list of kernel/kalloc.c as a list of pages.
use project_opertating_syste.Base.{
  ℕ, zero, suc, ◌+◌, ◌-◌, ◌*◌, ◌/◌, ◌%◌, ◌≤◌, ◌<◌, ◌≡◌, ◌≢◌, refl, sym, subst, ◌⊎◌, inl, inr, ◌==◌,
  ltb, leb, Bool, true, false, ◌&&◌, ◌||◌, arith, ℕ_discrete, Bool-cases, List, [], ◌∷◌, update,
  done,
}
use project_opertating_syste.Kalloc.{
  Kmem, kfree, kalloc, fill_page, page_size, phys_top, free_pages, freerange, kinit, page_round_up,
}

-- A page that `kfree` takes: aligned, past the kernel and below the top of memory.
pub record Page (end p : ℕ) : Type 0 where
  pub aligned : p % page_size ≡ 0
  pub past_kernel : end ≤ p
  pub below_top : p < phys_top

abbrev pub among : ℕ → List ℕ → Bool
among p [] = false
among p (q ∷ qs) = p == q || among p qs

-- From pointer `p`, the words of memory lead through the pages of the list, which are distinct, and end at 0.
pub data Chain (end : ℕ) (mem : ℕ → ℕ) : ℕ → List ℕ → Type 0 where
  empty : Chain end mem 0 []
  link :
      {p : ℕ} {ps : List ℕ}
      → Page end p
      → among p ps ≡ false
      → Chain end mem (mem p) ps
      → Chain end mem p (p ∷ ps)

-- A change inside page `q` leaves a chain of other pages.
frame :
    (end q : ℕ) (mem mem' : ℕ → ℕ)
    → q % page_size ≡ 0
    → ((a : ℕ) → (leb q a && ltb a (q + page_size)) ≡ false → mem' a ≡ mem a)
    → (p : ℕ) (ps : List ℕ) → among q ps ≡ false
    → Chain end mem p ps
    → Chain end mem' p ps
frame end q mem mem' al h _ [] n empty = empty
frame end q mem mem' al h p (_ ∷ ps) n (link g d c) =
    let other : p ≢ q = λ e. ground arith in
    let apart : (leb q p && ltb p (q + page_size)) ≡ false = ground (arith, g.aligned, al) in
    link g d (
      subst (λ x. Chain end mem' x ps) (sym (h p apart))
        (frame end q mem mem' al h (mem p) ps (ground arith) c))

-- `kfree` of a page that is not on the free list returns, and puts it in front of the list.
pub kfree-Chain :
    (end p : ℕ) (k : Kmem) (ps : List ℕ)
    → Page end p
    → among p ps ≡ false
    → Chain end k.mem k.freelist ps
    → (u : Kmem) × (kfree end p k ≡ done u) × Chain end u.mem u.freelist (p ∷ ps)
unfolding kfree
kfree-Chain end p k ps g n c =
    let mem' : ℕ → ℕ = update (fill_page p 1 k.mem) p k.freelist in
    (
      record { freelist = p; mem = mem' },
      ground (arith, g.aligned, g.past_kernel, g.below_top),
      link g n (
          subst (λ x. Chain end mem' x ps) (ground arith)
            (frame end p k.mem mem' g.aligned (λ a h. ground arith) k.freelist ps n c)),
    )

-- How `kalloc` ends: with 0 and no change when the list is empty, else with its first page, each of
-- whose words is junk, and which leaves the list; other memory is as before.
pub data Allocated (end : ℕ) (k : Kmem) : List ℕ → ℕ × Kmem → Type 0 where
  no_memory : {u : Kmem} → u ≡ k → Allocated end k [] (0, u)
  page :
      {p : ℕ} {ps : List ℕ} {u : Kmem}
      → p ≢ 0
      → Page end p
      → among p ps ≡ false
      → Chain end u.mem u.freelist ps
      → ((a : ℕ) → p ≤ a → a < p + page_size → u.mem a ≡ 5 * 72340172838076673)
      → ((a : ℕ) → (a < p) ⊎ (p + page_size ≤ a) → u.mem a ≡ k.mem a)
      → Allocated end k (p ∷ ps) (p, u)

-- `kalloc`, from a free list of distinct pages past a kernel image that does not end at 0: with an
-- empty list it returns 0 and changes nothing. Else it returns the first page, which is not 0; the
-- free list is the rest of the list; each word of the page has eight bytes 5; and no memory outside
-- the page changes.
pub kalloc-Allocated :
    (end : ℕ) (k : Kmem) (ps : List ℕ)
    → 0 < end
    → Chain end k.mem k.freelist ps
    → Allocated end k ps (kalloc k)
unfolding kalloc
kalloc-Allocated end k ps pos c = at k.freelist ps c refl
  where
    at :
        (r : ℕ) (ps : List ℕ)
        → Chain end k.mem r ps
        → k.freelist ≡ r
        → Allocated end k ps (kalloc k)
    at _ _ empty e = rw e (no_memory refl)
    at r _ (link {ps = qs} g d c) e =
        let not_null : (r == 0) ≡ false = ground (arith, g.past_kernel) in
        rw (e, not_null)
          (page (λ z. omega (arith, g.past_kernel)) g d
            (frame end r k.mem (fill_page r 5 k.mem) g.aligned (λ a h. ground arith) (k.mem r) qs d
              c)
            (λ a x y. ground arith) (λ a x. ground arith))

-- The pages that `free_pages` gives, on top of those of a list.
unfoldable pub pages_from : ℕ → ℕ → List ℕ → List ℕ
pages_from p zero ps = ps
pages_from p (suc n) ps = pages_from (p + page_size) n (p ∷ ps)

below_not_among : (p : ℕ) (ps : List ℕ) → ((q : ℕ) → among q ps ≡ true → q < p) → among p ps ≡ false
below_not_among p ps h = elim (Bool-cases (among p ps)) [
  | inl e ↦ absurd (omega (arith, h p e))
  | inr e ↦ e
]

free_pages-Chain :
    (end n p : ℕ) (k : Kmem) (ps : List ℕ)
    → p % page_size ≡ 0
    → end ≤ p
    → p + n * page_size ≤ phys_top
    → ((q : ℕ) → among q ps ≡ true → q < p)
    → Chain end k.mem k.freelist ps
    → (u : Kmem) × (free_pages end n p k ≡ done u) × Chain end u.mem u.freelist (pages_from p n ps)
unfolding free_pages pages_from
free_pages-Chain end zero p k ps al lo hi h c = (k, refl, c)
free_pages-Chain end (suc n) p k ps al lo hi h c =
    let g : Page end p = record { aligned = al; past_kernel = lo; below_top = omega arith } in
    let (u, e, d) = kfree-Chain end p k ps g (below_not_among p ps h) c in
    let below : (q : ℕ) → among q (p ∷ ps) ≡ true → q < p + page_size =
      λ q m. ground (arith, h q) in
    let (w, f, x) =
      free_pages-Chain end n (p + page_size) u (p ∷ ps) (omega arith) (omega arith) (omega arith)
        below d in
    (w, rw (e, f) refl, x)

pages_from-keeps :
    (n q p : ℕ) (ps : List ℕ) → among p ps ≡ true → among p (pages_from q n ps) ≡ true
unfolding pages_from
pages_from-keeps zero q p ps h = h
pages_from-keeps (suc n) q p ps h = pages_from-keeps n (q + page_size) p (q ∷ ps) (ground arith)

pages_from-has :
    (n q p : ℕ) (ps : List ℕ)
    → q % page_size ≡ 0
    → p % page_size ≡ 0
    → q ≤ p
    → p < q + n * page_size
    → among p (pages_from q n ps) ≡ true
unfolding pages_from
pages_from-has zero q p ps al bl lo hi = absurd (omega arith)
pages_from-has (suc n) q p ps al bl lo hi = elim (ℕ_discrete p q) [
  | yes e ↦ pages_from-keeps n (q + page_size) p (q ∷ ps) (ground arith)
  | no e ↦
      pages_from-has n (q + page_size) p (q ∷ ps) (omega arith) bl (omega (arith, e)) (omega arith)
]

-- `kinit` returns, when the kernel's image ends below the top of memory by a page at least, and
-- leaves on the free list, whatever memory held, exactly the pages between the end of the image and
-- the top: each address there that is a multiple of 4096, once, and no other.
pub kinit-Chain :
    (end : ℕ) (mem : ℕ → ℕ)
    → end + page_size ≤ phys_top
    → (u : Kmem) × (ps : List ℕ) × (kinit end mem ≡ done u)
      × Chain end u.mem u.freelist ps
      × ((p : ℕ) → Page end p → among p ps ≡ true)
unfolding kinit freerange
kinit-Chain end mem h =
    let first = page_round_up end in
    let n = (phys_top - first) / page_size in
    let (u, e, c) =
      free_pages-Chain end n first (record { freelist = 0; mem = mem }) [] (omega arith)
        (omega arith) (omega arith) (λ q m. absurd (ground arith)) empty in
    (
      u,
      pages_from first n [],
      e,
      c,
      λ p g.
          pages_from-has n first p [] (omega arith) g.aligned
            (omega (arith, g.past_kernel, g.aligned)) (omega (arith, g.below_top, g.aligned)),
    )
