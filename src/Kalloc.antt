-- ===== src/Kalloc.antt =====
-- kernel/kalloc.c: the allocator of physical pages. Memory is a function from the address of a
-- pointer-sized word to its value; `end`, the end of the kernel's image, is set by the linker.
pub mod Pages
mod Tests
use project_opertating_syste.Base.{
  ℕ, zero, suc, ◌+◌, ◌-◌, ◌*◌, ◌/◌, ◌%◌, ◌^◌, ◌==◌, ltb, leb, Bool, true, false, not, ◌&&◌, ◌||◌,
  if◌then◌else◌, update, Outcome, done, panic, ◌>>=◌, ◌>>◌, panic_if,
}

abbrev pub page_size : ℕ
page_size = 4096

-- kernel/memlayout.h: KERNBASE + 128*1024*1024
abbrev pub phys_top : ℕ
phys_top = 2281701376

pub record Kmem : Type 0 where
  pub freelist : ℕ
  pub mem : ℕ → ℕ

-- `memset(pa, c, PGSIZE)`: each word of the page has byte `c` eight times.
abbrev pub fill_page : ℕ → ℕ → (ℕ → ℕ) → ℕ → ℕ
fill_page pa c mem a = if leb pa a && ltb a (pa + page_size) then c * 72340172838076673 else mem a

unfoldable pub kfree : ℕ → ℕ → Kmem → Outcome Kmem
kfree end pa k = do
  panic_if (not (pa % page_size == 0) || ltb pa end || leb phys_top pa)
  let junk = fill_page pa 1 k.mem
  done (record { freelist = pa; mem = update junk pa k.freelist })

unfoldable pub kalloc : Kmem → ℕ × Kmem
kalloc k =
    let r = k.freelist in
    if not (r == 0) then (r, record { freelist = k.mem r; mem = fill_page r 5 k.mem }) else (r, k)

abbrev pub page_round_up : ℕ → ℕ
page_round_up a = ((a + page_size - 1) / page_size) * page_size

-- The loop of `freerange` from `p`, with `n` rounds left.
unfoldable pub free_pages : ℕ → ℕ → ℕ → Kmem → Outcome Kmem
free_pages end zero p k = done k
free_pages end (suc n) p k = do k1 ← kfree end p k; free_pages end n (p + page_size) k1

-- The rounds are those for which `p + PGSIZE <= pa_end`.
unfoldable pub freerange : ℕ → ℕ → ℕ → Kmem → Outcome Kmem
freerange end start stop k =
    let p = page_round_up start in free_pages end ((stop - p) / page_size) p k

unfoldable pub kinit : ℕ → (ℕ → ℕ) → Outcome Kmem
kinit end mem = freerange end end phys_top (record { freelist = 0; mem = mem })
