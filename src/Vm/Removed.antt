-- ===== src/Vm/Removed.antt =====
-- One round of `uvmunmap`, kernel/vm.c, and what it does to the tables.
use project_opertating_syste.Base.{
  ℕ, suc, ◌+◌, ◌-◌, ◌*◌, ◌/◌, ◌%◌, ◌≤◌, ◌<◌, ◌≡◌, ◌≢◌, refl, sym, ◌∙◌, ap, subst, leb, Bool, true,
  false, if◌then◌else◌, Option, none, some, arith, ℕ_discrete, inl, inr, ◌⊎◌, done, panic,
}
use project_opertating_syste.Vm.{
  Vm, pg_size, max_va, px, pte_to_pa, pte_flags, is_valid, put_pte, given, walk_from, walk, read_at,
  entry_of,
}
use project_opertating_syste.Vm.Tree.{
  At, root, down, Tree, walk_from-same, walk_from-At, changed-Tree, entry_of-other,
  entry_of-changed,
}

-- The bytes and the list of free pages play no part in the tables.
module _ (pt : ℕ) (vm : Vm) (q : ℕ) where
  At-given : (va l p : ℕ) → At (given q vm) pt va l p → At vm pt va l p
  At-given va _ _ root = root
  At-given va l _ (down a v) = down (At-given va (suc l) _ a) v

  given-Tree : Tree vm pt → Tree (given q vm) pt
  given-Tree t = record {
    separate =
        λ va wa l k p h j a b. t.separate va wa l k p h j (At-given va l p a) (At-given wa k p b);
  }

  entry_of-given : (va : ℕ) → entry_of pt va (given q vm) ≡ entry_of pt va vm
  unfolding entry_of read_at
  entry_of-given va =
      let same = (walk_from-same pt va 2 pt vm (given q vm) root (λ k p a. refl)).0 in
      ap (read_at (given q vm)) same ∙ either (walk_from false va 2 pt vm).0
    where
      either : (o : Option (ℕ × ℕ)) → read_at (given q vm) o ≡ read_at vm o
      either none = refl
      either (some at) = refl

-- There is a page at `va`, mapped by a leaf.
abbrev pub Present : ℕ → Vm → ℕ → Type 0
Present pt vm va = (e : ℕ) × (entry_of pt va vm ≡ some e) × (is_valid e ≡ true) × (pte_flags e ≢ 1)

-- The `n` pages from `va` on are gone, and the entries of all others and the tree stay.
pub record Removed (pt : ℕ) (vm : Vm) (va n : ℕ) (u : Vm) : Type 0 where
  pub gone : (k : ℕ) → k < n → entry_of pt (va + k * pg_size) u ≡ some 0
  pub others :
      (b : ℕ) → b < max_va → (b < va) ⊎ (va + n * pg_size ≤ b) → entry_of pt b u ≡ entry_of pt b vm
  pub tree : Tree u pt

given-Removed :
    (pt : ℕ) (vm : Vm) (va n q : ℕ) (u : Vm) → Removed pt vm va n u → Removed pt vm va n (given q u)
given-Removed pt vm va n q u m = record {
  gone = λ k h. entry_of-given pt u q (va + k * pg_size) ∙ m.gone k h;
  others = λ b h o. entry_of-given pt u q b ∙ m.others b h o;
  tree = given-Tree pt u q m.tree;
}

-- One page.
module _ (pt : ℕ) (do_free : Bool) (va : ℕ) (vm : Vm) (t : Tree vm pt) (small : va < max_va)
    (aligned : va % pg_size ≡ 0) where
  -- What a round makes of the tables.
  abbrev pub after : ℕ × ℕ → Vm
  after at = put_pte at.0 at.1 0 (if do_free then given (pte_to_pa (vm.table at.0 at.1)) vm else vm)

  pub after-Removed :
      (at : ℕ × ℕ) → (walk_from false va 2 pt vm).0 ≡ some at → Removed pt vm va 1 (after at)
  after-Removed at w =
      let (a, x) = walk_from-At pt va 2 pt vm at root w in
      let there : (walk_from false va 2 pt vm).0 ≡ some (at.0, px 0 va) =
        w ∙ ap {B = Option (ℕ × ℕ)} (λ y. some (at.0, y)) x in
      let plain : Removed pt vm va 1 (put_pte at.0 (px 0 va) 0 vm) = record {
        gone = λ k h.
            let at_va : va + k * pg_size ≡ va = omega arith in
            ap (λ b. entry_of pt b (put_pte at.0 (px 0 va) 0 vm)) at_va
            ∙ entry_of-changed pt va vm t small at.0 a 0 there;
        others = λ b h o.
            let apart : b / 4096 ≢ va / 4096 = elim o [
              | inl l ↦ omega arith
              | inr l ↦ omega arith
            ] in
            entry_of-other pt va vm t small at.0 a 0 b h apart;
        tree = changed-Tree pt va vm t small at.0 a 0;
      } in
      subst (λ y. Removed pt vm va 1 (after (at.0, y))) (sym x) (freed plain do_free)
    where
      freed :
          Removed pt vm va 1 (put_pte at.0 (px 0 va) 0 vm)
          → (d : Bool)
          → Removed pt vm va 1 (
              put_pte at.0
                (px 0 va)
                0
                (if d then given (pte_to_pa (vm.table at.0 (px 0 va))) vm else vm))
      freed m true =
          given-Removed pt vm va 1 (pte_to_pa (vm.table at.0 (px 0 va)))
            (put_pte at.0 (px 0 va) 0 vm) m
      freed m false = m

  -- The walk finds the entry.
  pub walk-Present :
      (e : ℕ)
      → entry_of pt va vm ≡ some e
      → (at : ℕ × ℕ) × ((walk_from false va 2 pt vm).0 ≡ some at)
        × (vm.table at.0 at.1 ≡ e)
        × (walk false pt va vm ≡ done (some at, vm))
  unfolding entry_of read_at walk
  walk-Present e h = found (walk_from false va 2 pt vm).0 refl h
    where
      found :
          (o : Option (ℕ × ℕ))
          → (walk_from false va 2 pt vm).0 ≡ o
          → read_at vm o ≡ some e
          → (at : ℕ × ℕ) × ((walk_from false va 2 pt vm).0 ≡ some at)
            × (vm.table at.0 at.1 ≡ e)
            × ((if leb max_va va then panic else done (walk_from false va 2 pt vm))
                ≡ done (some at, vm))
      found none w r = absurd (ground (arith, r))
      found (some at) w r =
          let test : leb max_va va ≡ false = ground arith in
          let still : (walk_from false va 2 pt vm).1 ≡ vm =
            (walk_from-same pt va 2 pt vm vm root (λ k q a. refl)).1 in
          (at, w, ground (arith, r), rw (test, w, still) refl)

-- One page and then the others.
pub then-Removed :
    (pt : ℕ) (vm : Vm) (va n : ℕ) (w u : Vm)
    → va + suc n * pg_size ≤ max_va
    → Removed pt vm va 1 w
    → Removed pt w (va + pg_size) n u
    → Removed pt vm va (suc n) u
then-Removed pt vm va n w u fits a b = record {
  gone = λ k h. elim (ℕ_discrete k 0) [
    | yes e ↦
        let at_va : va + k * pg_size ≡ va + 0 * pg_size = omega arith in
        ap (λ c. entry_of pt c u) at_va
        ∙ b.others (va + 0 * pg_size) (omega arith) (inl (omega arith))
        ∙ a.gone 0 (omega arith)
    | no e ↦
        let next : va + k * pg_size ≡ va + pg_size + (k - 1) * pg_size = omega arith in
        ap (λ c. entry_of pt c u) next ∙ b.gone (k - 1) (omega arith)
  ];
  others = λ c h o.
      let far : (c < va + pg_size) ⊎ (va + pg_size + n * pg_size ≤ c) = ground (arith, o) in
      let near : (c < va) ⊎ (va + 1 * pg_size ≤ c) = ground (arith, o) in
      b.others c h far ∙ a.others c h near;
  tree = b.tree;
}
