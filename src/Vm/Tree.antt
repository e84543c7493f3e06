-- ===== src/Vm/Tree.antt =====
-- The tables of kernel/vm.c below a root form a tree; a change of one leaf entry changes one page.
use project_opertating_syste.Base.{
  ℕ, zero, suc, ◌+◌, ◌*◌, ◌/◌, ◌^◌, ◌<◌, ◌≡◌, ◌≢◌, refl, sym, ◌∙◌, ap, subst, true, false, Option,
  none, some, arith, ℕ_discrete, Bool-cases, inl, inr,
}
use project_opertating_syste.Vm.{
  Vm, max_va, px, pte_to_pa, is_valid, put_pte, walk_from, read_at, entry_of,
}

-- The walk for `va` comes to table `p` at a level.
pub data At (vm : Vm) (pt va : ℕ) : ℕ → ℕ → Type 0 where
  root : At vm pt va 2 pt
  down :
      {l p : ℕ}
      → At vm pt va (suc l) p
      → is_valid (vm.table p (px (suc l) va)) ≡ true
      → At vm pt va l (pte_to_pa (vm.table p (px (suc l) va)))

-- A table has one level, and one part of the addresses.
pub record Tree (vm : Vm) (pt : ℕ) : Type 0 where
  pub separate :
      (va wa l k p : ℕ)
      → va < max_va
      → wa < max_va
      → At vm pt va l p
      → At vm pt wa k p
      → (l ≡ k) × (va / 2 ^ (12 + 9 * (l + 1)) ≡ wa / 2 ^ (12 + 9 * (l + 1)))

module _ (pt va : ℕ) where
  -- A walk that allocates nothing reads the tables on its way, and changes nothing.
  pub walk_from-same :
      (l p : ℕ) (vm u : Vm)
      → At vm pt va l p
      → ((k q : ℕ) → At vm pt va (suc k) q → u.table q (px (suc k) va) ≡ vm.table q (px (suc k) va))
      → ((walk_from false va l p u).0 ≡ (walk_from false va l p vm).0)
        × ((walk_from false va l p vm).1 ≡ vm)
  unfolding walk_from
  walk_from-same zero p vm u a h = (refl, refl)
  walk_from-same (suc l) p vm u a h = elim (Bool-cases (is_valid (vm.table p (px (suc l) va)))) [
    | inl e ↦
        rw (h l p a, e)
          (walk_from-same l (pte_to_pa (vm.table p (px (suc l) va))) vm u (down a e) h)
    | inr e ↦ rw (h l p a, e) (refl, refl)
  ]

  -- And it ends at a table of level 0.
  pub walk_from-At :
      (l p : ℕ) (vm : Vm) (at : ℕ × ℕ)
      → At vm pt va l p
      → (walk_from false va l p vm).0 ≡ some at
      → At vm pt va 0 at.0 × (at.1 ≡ px 0 va)
  unfolding walk_from
  walk_from-At zero p vm at a e =
      let same : (p, px 0 va) ≡ at = ap {B = ℕ × ℕ} (λ o. elim o [ none ↦ at | some x ↦ x ]) e in
      (subst (At vm pt va 0) (ap (λ x. x.0) same) a, sym (ap (λ x. x.1) same))
  walk_from-At (suc l) p vm at a e = elim (Bool-cases (is_valid (vm.table p (px (suc l) va)))) [
    | inl v ↦
        walk_from-At l (pte_to_pa (vm.table p (px (suc l) va))) vm at (down a v)
          (ground (arith, v, e))
    | inr v ↦ absurd (ground (arith, v, e))
  ]

-- A change of the leaf entry of `va`.
module _ (pt va : ℕ) (vm : Vm) (t : Tree vm pt) (small : va < max_va) (p : ℕ) (a : At vm pt va 0 p)
    (e : ℕ) where
  abbrev changed : Vm
  changed = put_pte p (px 0 va) e vm

  -- The other levels stay.
  upper :
      (wa : ℕ)
      → wa < max_va
      → (k q : ℕ) → At vm pt wa (suc k) q
      → changed.table q (px (suc k) wa) ≡ vm.table q (px (suc k) wa)
  upper wa h k q b = elim (ℕ_discrete q p) [
    | yes x ↦ absurd (
        omega (arith, (t.separate va wa 0 (suc k) p small h a (subst (At vm pt wa (suc k)) x b)).0))
    | no x ↦ ground arith
  ]

  -- So the tree does.
  At-back : (wa : ℕ) → wa < max_va → (l q : ℕ) → At changed pt wa l q → At vm pt wa l q
  At-back wa h _ _ root = root
  At-back wa h l _ (down {p = q} b v) =
      let old = At-back wa h (suc l) q b in
      let same = upper wa h l q old in
      subst (λ x. At vm pt wa l (pte_to_pa x)) (sym same) (down old (ap is_valid (sym same) ∙ v))

  pub changed-Tree : Tree changed pt
  changed-Tree = record {
    separate =
        λ va wa l k q h j b c. t.separate va wa l k q h j (At-back va h l q b) (At-back wa j k q c);
  }

  walk-changed :
      (wa : ℕ) → wa < max_va → (walk_from false wa 2 pt changed).0 ≡ (walk_from false wa 2 pt vm).0
  walk-changed wa h = (walk_from-same pt wa 2 pt vm changed root (upper wa h)).0

  -- The pages of other addresses are mapped as before.
  pub entry_of-other :
      (wa : ℕ) → wa < max_va → wa / 4096 ≢ va / 4096 → entry_of pt wa changed ≡ entry_of pt wa vm
  unfolding entry_of read_at
  entry_of-other wa h n =
      ap (read_at changed) (walk-changed wa h) ∙ read (walk_from false wa 2 pt vm).0 refl
    where
      read :
          (o : Option (ℕ × ℕ))
          → (walk_from false wa 2 pt vm).0 ≡ o
          → read_at changed o ≡ read_at vm o
      read none w = refl
      read (some at) w =
          let (b, x) = walk_from-At pt wa 2 pt vm at root w in
          ap some (elim (ℕ_discrete at.0 p) [
            | no d ↦ ground arith
            | yes d ↦
                let part = (t.separate va wa 0 0 p small h a (subst (At vm pt wa 0) d b)).1 in
                let apart : at.1 ≢ px 0 va = omega (arith, part, x) in ground arith
          ])

  pub entry_of-changed :
      (walk_from false va 2 pt vm).0 ≡ some (p, px 0 va) → entry_of pt va changed ≡ some e
  unfolding entry_of read_at
  entry_of-changed w = ap (read_at changed) (walk-changed va small ∙ w) ∙ ap some (ground arith)
