-- ===== src/Vm/Unmap.antt =====
-- `uvmunmap` of kernel/vm.c removes the pages of its range, and no other.
use project_opertating_syste.Base.{
  ℕ, zero, suc, ◌+◌, ◌*◌, ◌%◌, ◌≤◌, ◌<◌, ◌≡◌, ◌≢◌, refl, sym, ◌∙◌, ap, subst, ◌==◌, leb, ltb, Bool,
  true, false, not, ◌||◌, if◌then◌else◌, List, ◌∷◌, ◌&&◌, none, some, arith, inr, ◌⊎◌, done, panic,
}
use project_opertating_syste.Kalloc.{phys_top}
use project_opertating_syste.Vm.{
  Vm, pg_size, max_va, pte_to_pa, pte_flags, is_valid, given, give_page, entry_of, unmap_from,
  uvmunmap,
}
use project_opertating_syste.Vm.Tree.{Tree}
use project_opertating_syste.Vm.Removed.{
  Present, Removed, after, after-Removed, walk-Present, then-Removed,
}

-- The pages that the entries of the `n` pages from `va` on name, each on top of those before it.
abbrev pub freed_from : ℕ → Vm → ℕ → ℕ → List ℕ → List ℕ
freed_from pt vm va zero ps = ps
freed_from pt vm va (suc n) ps =
    freed_from pt vm (va + pg_size) n
      (elim (entry_of pt va vm) [ none ↦ ps | some e ↦ pte_to_pa e ∷ ps ])

-- The `n` pages from `va` on are removed; with `do_free` they are the first free pages, and no byte
-- outside them changed; without, no byte and no free page changed.
pub record Unmapped (pt : ℕ) (do_free : Bool) (vm : Vm) (va n : ℕ) (u : Vm) : Type 0 where
  pub tables : Removed pt vm va n u
  pub byte :
      (b : ℕ)
      → (do_free ≡ true
          → (k e : ℕ) → k < n
          → entry_of pt (va + k * pg_size) vm ≡ some e
          → (b < pte_to_pa e) ⊎ (pte_to_pa e + pg_size ≤ b))
      → u.byte b ≡ vm.byte b
  pub free : u.free ≡ (if do_free then freed_from pt vm va n vm.free else vm.free)

freed-same :
    (pt n va : ℕ) (vm w : Vm) (ps : List ℕ)
    → ((k : ℕ) → k < n → entry_of pt (va + k * pg_size) w ≡ entry_of pt (va + k * pg_size) vm)
    → freed_from pt w va n ps ≡ freed_from pt vm va n ps
freed-same pt zero va vm w ps h = refl
freed-same pt (suc n) va vm w ps h =
    let at_va : va + 0 * pg_size ≡ va = omega arith in
    let here : entry_of pt va w ≡ entry_of pt va vm =
      subst (λ x. entry_of pt x w ≡ entry_of pt x vm) at_va (h 0 (omega arith)) in
    rw here (
      freed-same pt n (va + pg_size) vm w _ (λ k l.
        let next : va + suc k * pg_size ≡ va + pg_size + k * pg_size = omega arith in
        subst (λ x. entry_of pt x w ≡ entry_of pt x vm) next (h (suc k) (omega arith))))

-- Before the first page with entry `e`, the byte and the list.
free-after :
    (pt va n e : ℕ) (do_free : Bool) (vm w u : Vm)
    → entry_of pt va vm ≡ some e
    → w.free ≡ (if do_free then pte_to_pa e ∷ vm.free else vm.free)
    → ((k : ℕ)
        → k < n
        → entry_of pt (va + pg_size + k * pg_size) w ≡ entry_of pt (va + pg_size + k * pg_size) vm)
    → u.free ≡ (if do_free then freed_from pt w (va + pg_size) n w.free else w.free)
    → u.free ≡ (if do_free then freed_from pt vm va (suc n) vm.free else vm.free)
free-after pt va n e false vm w u h f same g = g ∙ f
free-after pt va n e true vm w u h f same g =
    rw h (g ∙ ap (freed_from pt w (va + pg_size) n) f ∙ freed-same pt n (va + pg_size) vm w _ same)

module _ (end pt : ℕ) (do_free : Bool) where
  -- The pages that are given back are pages that `kfree` takes.
  abbrev pub Freeable : Vm → ℕ → Type 0
  Freeable vm va =
      do_free ≡ true
      → (e : ℕ) → entry_of pt va vm ≡ some e
      → (end ≤ pte_to_pa e) × (pte_to_pa e < phys_top)

  give_page-done :
      (d : Bool) (p : ℕ) (vm : Vm)
      → p % pg_size ≡ 0
      → (d ≡ true → (end ≤ p) × (p < phys_top))
      → (if d then give_page end p vm else done vm) ≡ done (if d then given p vm else vm)
  unfolding give_page
  give_page-done false p vm al h = refl
  give_page-done true p vm al h =
      let test : (not (p % pg_size == 0) || ltb p end || leb phys_top p) ≡ false =
        ground (arith, al, h refl) in
      rw test refl

  after-byte :
      (d : Bool) (p b : ℕ) (vm : Vm)
      → (d ≡ true → (b < p) ⊎ (p + pg_size ≤ b))
      → (if d then given p vm else vm).byte b ≡ vm.byte b
  after-byte false p b vm h = refl
  after-byte true p b vm h =
      let apart : (leb p b && ltb b (p + pg_size)) ≡ false = ground (arith, h refl) in rw apart refl

  after-free :
      (d : Bool) (p : ℕ) (vm : Vm)
      → (if d then given p vm else vm).free ≡ (if d then p ∷ vm.free else vm.free)
  after-free false p vm = refl
  after-free true p vm = refl

  unmap_from-Unmapped :
      (n va : ℕ) (vm : Vm)
      → Tree vm pt
      → va % pg_size ≡ 0
      → va + n * pg_size ≤ max_va
      → ((k : ℕ) → k < n → Present pt vm (va + k * pg_size) × Freeable vm (va + k * pg_size))
      → (u : Vm) × (unmap_from end n do_free pt va vm ≡ done u) × Unmapped pt do_free vm va n u
  unfolding unmap_from
  unmap_from-Unmapped zero va vm t al fits there = (
    vm,
    refl,
    record {
      tables = record { gone = λ k h. absurd (omega arith); others = λ b h o. refl; tree = t };
      byte = λ b h. refl;
      free = both do_free;
    },
  )
    where
      both : (d : Bool) → vm.free ≡ (if d then vm.free else vm.free)
      both true = refl
      both false = refl
  unmap_from-Unmapped (suc n) va vm t al fits there =
      let at_va : va + 0 * pg_size ≡ va = omega arith in
      let first = there 0 (omega arith) in
      let (e, h, valid, leaf) = subst (Present pt vm) at_va first.0 in
      let range = subst (Freeable vm) at_va first.1 in
      let (at, w, x, y) = walk-Present pt do_free va vm t (omega arith) al e h in
      let one = after-Removed pt do_free va vm t (omega arith) al at w in
      let next_vm = after pt do_free va vm t (omega arith) al at in
      let valid_at : is_valid (vm.table at.0 at.1) ≡ true = ap is_valid x ∙ valid in
      let leaf_at : pte_flags (vm.table at.0 at.1) ≢ 1 = λ q. leaf (ap pte_flags (sym x) ∙ q) in
      let flags_at : (pte_flags (vm.table at.0 at.1) == 1) ≡ false = ground (arith, leaf_at) in
      let range_at : do_free ≡ true
          → (end ≤ pte_to_pa (vm.table at.0 at.1)) × (pte_to_pa (vm.table at.0 at.1) < phys_top) =
        λ f. subst (λ z. (end ≤ pte_to_pa z) × (pte_to_pa z < phys_top)) (sym x) (range f e h) in
      let kept : (k : ℕ)
          → k < n
          → entry_of pt (va + pg_size + k * pg_size) next_vm
            ≡ entry_of pt (va + pg_size + k * pg_size) vm =
        λ k l. one.others (va + pg_size + k * pg_size) (omega arith) (inr (omega arith)) in
      let next : (k : ℕ) → va + pg_size + k * pg_size ≡ va + suc k * pg_size = λ k. omega arith in
      let (u, z, rest) =
        unmap_from-Unmapped n (va + pg_size) next_vm one.tree (omega arith) (omega arith) (λ k l.
          let (there_k, range_k) = there (suc k) (omega arith) in
          let (d, p, q, r) = there_k in
          (
            (d, kept k l ∙ ap (λ c. entry_of pt c vm) (next k) ∙ p, q, r),
            λ f e2 g. range_k f e2 (ap (λ c. entry_of pt c vm) (sym (next k)) ∙ sym (kept k l) ∙ g),
          )) in
      rw
        (
          y,
          valid_at,
          flags_at,
          give_page-done do_free (pte_to_pa (vm.table at.0 at.1)) vm (omega arith) range_at,
        )
        (
          u,
          z,
          record {
            tables = then-Removed pt vm va n next_vm u fits one rest.tables;
            byte = λ b c.
                rest.byte b (λ f k e2 l g.
                  c f (suc k) e2 (omega arith)
                    (ap (λ a. entry_of pt a vm) (sym (next k)) ∙ sym (kept k l) ∙ g))
                ∙ after-byte do_free (pte_to_pa (vm.table at.0 at.1)) b vm (λ f.
                  subst (λ z. (b < pte_to_pa z) ⊎ (pte_to_pa z + pg_size ≤ b)) (sym x)
                    (c f 0 e (omega arith) (ap (λ a. entry_of pt a vm) at_va ∙ h)));
            free =
                free-after pt va n e do_free vm next_vm u h
                  (after-free do_free (pte_to_pa (vm.table at.0 at.1)) vm
                    ∙ ap (λ z. if do_free then pte_to_pa z ∷ vm.free else vm.free) x)
                  kept rest.free;
          },
        )

  -- `uvmunmap` of pages below the end of the user's addresses, where the tables form a tree. From an
  -- address that is not aligned it panics. From an aligned one, with each of the pages mapped by a
  -- leaf, and, if they are to be freed, to a page between the end of the kernel and the top of
  -- memory, it does not: the entries of these pages are 0 then, those of all other addresses stay,
  -- and the tables are a tree. With `do_free` the pages are the first free ones, the last on top, and
  -- no byte outside them changes; without, no byte and no free page changes.
  pub uvmunmap-Unmapped :
      (va n : ℕ) (vm : Vm)
      → Tree vm pt
      → va + n * pg_size ≤ max_va
      → (va % pg_size ≢ 0 → uvmunmap end pt va n do_free vm ≡ panic)
        × (va % pg_size ≡ 0
            → ((k : ℕ) → k < n → Present pt vm (va + k * pg_size) × Freeable vm (va + k * pg_size))
            → (u : Vm) × (uvmunmap end pt va n do_free vm ≡ done u) × Unmapped pt do_free vm va n u)
  unfolding uvmunmap
  uvmunmap-Unmapped va n vm t fits = (
    λ h. let test : (va % pg_size == 0) ≡ false = ground arith in rw test refl,
    λ h there.
        let test : (va % pg_size == 0) ≡ true = ground arith in
        rw test (unmap_from-Unmapped n va vm t h fits there),
  )
