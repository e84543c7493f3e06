-- ===== src/Kalloc/Tests.antt =====
-- kernel/kalloc.c with two pages of memory past the kernel.
use project_opertating_syste.Base.{
  ℕ, List, true, ◌+◌, ◌-◌, ◌/◌, ◌≡◌, refl, arith, [], ◌∷◌, done, panic,
}
use project_opertating_syste.Kalloc.{Kmem, kinit, kfree, kalloc, page_size, phys_top, page_round_up}
use project_opertating_syste.Kalloc.Pages.{
  among, Chain, Page, Allocated, empty, link, pages_from, kalloc-Allocated, kinit-Chain,
}

-- The image ends five bytes below a page boundary, two pages below the top.
abbrev end : ℕ
end = 2281693179

abbrev last_page : ℕ
last_page = 2281697280

last_page-Page : Page end last_page
last_page-Page = record { aligned = refl; past_kernel = omega arith; below_top = omega arith }

-- One page is free.
abbrev one_free : Kmem
one_free = record { freelist = last_page; mem = λ _. 0 }

one_free-Chain : Chain end one_free.mem one_free.freelist (last_page ∷ [])
one_free-Chain = link last_page-Page refl empty

kinit-Chain_example :
    (u : Kmem) × (ps : List ℕ) × (kinit end (λ _. 7) ≡ done u)
    × Chain end u.mem u.freelist ps
    × ((p : ℕ) → Page end p → among p ps ≡ true)
kinit-Chain_example = kinit-Chain end (λ _. 7) (omega arith)

two_pages :
    pages_from (page_round_up end) ((phys_top - page_round_up end) / page_size) []
    ≡ last_page ∷ 2281693184 ∷ []
unfolding pages_from
two_pages = refl

kalloc-Allocated_example : Allocated end one_free (last_page ∷ []) (kalloc one_free)
kalloc-Allocated_example =
    kalloc-Allocated end one_free (last_page ∷ []) (omega arith) one_free-Chain

misaligned : kfree end (last_page + 8) one_free ≡ panic
unfolding kfree
misaligned = refl
