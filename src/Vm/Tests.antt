-- ===== src/Vm/Tests.antt =====
-- A small page table for kernel/vm.c: the user's page 0 is the page at 16384.
use project_opertating_syste.Base.{
  ℕ, suc, ◌+◌, ◌*◌, ◌/◌, ◌^◌, ◌<◌, ◌≢◌, ◌%◌, ◌≡◌, refl, sym, subst, ◌==◌, true, ◌&&◌, if◌then◌else◌,
  [], arith, ℕ_discrete, done, panic,
}
use project_opertating_syste.Vm.{px, pg_size, max_va, pte_to_pa, is_valid, uvmunmap}
use project_opertating_syste.Vm.Tree.{At, root, down, Tree}
use project_opertating_syste.Vm.Removed.{Present}
use project_opertating_syste.Vm.Unmap.{Freeable, Unmapped, uvmunmap-Unmapped}
use project_opertating_syste.Vm.{Vm, read_at, walk_from, entry_of, walkaddr, make_pte, copyin}
use project_opertating_syste.Vm.Copyin.{Copied, copyin-Copied}

-- The root is at 4096, and the tables below it at 8192 and 12288.
abbrev one_page : Vm
one_page = record {
  table = λ p i.
      if i == 0
      then (if p == 4096
          then make_pte 8192 0
          else if p == 8192
          then make_pte 12288 0
          else if p == 12288
          then make_pte 16384 22
          else 0)
      else 0;
  byte = λ a. a % 251;
  free = [];
}

page_zero : walkaddr 4096 0 one_page ≡ 16384
unfolding walkaddr entry_of read_at walk_from
page_zero = refl

page_one : walkaddr 4096 4096 one_page ≡ 0
unfolding walkaddr entry_of read_at walk_from
page_one = refl

copyin-Copied_example :
    Copied 4096 one_page (λ a. 0) 50 4000 200 (copyin 4096 one_page (λ a. 0) 50 4000 200)
copyin-Copied_example = copyin-Copied 4096 one_page (λ a. 0) 50 4000 200

-- The same tables, with the user's page where `kalloc` gives pages.
abbrev high_page : Vm
high_page = record one_page {
  table = λ p i. if i == 0 && p == 12288 then make_pte 2281693184 22 else one_page.table p i;
}

-- The three tables of `high_page`, with the addresses that come to them.
data Place (va : ℕ) : ℕ → ℕ → Type 0 where
  top : Place va 2 4096
  middle : px 2 va ≡ 0 → Place va 1 8192
  bottom : px 2 va ≡ 0 → px 1 va ≡ 0 → Place va 0 12288

Place-down :
    (va l p : ℕ)
    → Place va (suc l) p
    → is_valid (high_page.table p (px (suc l) va)) ≡ true
    → Place va l (pte_to_pa (high_page.table p (px (suc l) va)))
Place-down va _ _ top v = elim (ℕ_discrete (px 2 va) 0) [
  | yes e ↦ subst (λ i. Place va 1 (pte_to_pa (high_page.table 4096 i))) (sym e) (middle e)
  | no n ↦ absurd (ground (arith, v, n))
]
Place-down va _ _ (middle h) v = elim (ℕ_discrete (px 1 va) 0) [
  | yes e ↦ subst (λ i. Place va 0 (pte_to_pa (high_page.table 8192 i))) (sym e) (bottom h e)
  | no n ↦ absurd (ground (arith, v, n))
]

At-Place : (va l p : ℕ) → At high_page 4096 va l p → Place va l p
At-Place va _ _ root = top
At-Place va l _ (down {p = q} a v) = Place-down va l q (At-Place va (suc l) q a) v

Place-apart :
    (va wa l k p : ℕ)
    → va < max_va
    → wa < max_va
    → Place va l p
    → Place wa k p
    → (l ≡ k) × (va / 2 ^ (12 + 9 * (l + 1)) ≡ wa / 2 ^ (12 + 9 * (l + 1)))
Place-apart va wa _ _ _ h j top top = (refl, omega arith)
Place-apart va wa _ _ _ h j (middle a) (middle b) = (refl, omega (arith, a, b))
Place-apart va wa _ _ _ h j (bottom a c) (bottom b d) = (refl, omega (arith, a, b, c, d))

high_page-Tree : Tree high_page 4096
high_page-Tree = record {
  separate =
      λ va wa l k p h j a b. Place-apart va wa l k p h j (At-Place va l p a) (At-Place wa k p b);
}

uvmunmap-Unmapped_example :
    (0 % pg_size ≢ 0 → uvmunmap 2281680896 4096 0 1 true high_page ≡ panic)
    × (0 % pg_size ≡ 0
        → ((k : ℕ)
            → k < 1
            → Present 4096 high_page (0 + k * pg_size)
              × Freeable 2281680896 4096 true high_page (0 + k * pg_size))
        → (u : Vm) × (uvmunmap 2281680896 4096 0 1 true high_page ≡ done u)
          × Unmapped 4096 true high_page 0 1 u)
uvmunmap-Unmapped_example =
    uvmunmap-Unmapped 2281680896 4096 true 0 1 high_page high_page-Tree (omega arith)
