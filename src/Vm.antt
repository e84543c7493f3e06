-- ===== src/Vm.antt =====
-- Page tables and user memory, kernel/vm.c. A page table is a page of 512 entries; the bytes of
-- the other pages are apart from them. `kalloc` is seen by its list of free pages, and what it fills
-- a page with is overwritten by each caller here; `end` is the end of the kernel's image, which the
-- linker sets. Sums do not wrap.
pub mod Copyin
pub mod Tree
pub mod Removed
pub mod Unmap
mod Tests
use project_opertating_syste.Base.{
  ℕ, zero, suc, ◌+◌, ◌-◌, ◌*◌, ◌/◌, ◌%◌, ◌^◌, min, ◌==◌, ltb, leb, Bool, true, false, not, ◌&&◌,
  ◌||◌, Option, none, some, List, [], ◌∷◌, if◌then◌else◌, update, Outcome, done, panic, ◌>>=◌, ◌>>◌,
  panic_if,
}
use project_opertating_syste.Kalloc.{phys_top}
use project_opertating_syste.Fs.Files.Copies.{memmove_copy}

-- kernel/riscv.h
abbrev pub pg_size : ℕ
pg_size = 4096

abbrev pub max_va : ℕ
max_va = 274877906944

abbrev pub page_down : ℕ → ℕ
page_down a = a / pg_size * pg_size

abbrev pub page_up : ℕ → ℕ
page_up a = (a + pg_size - 1) / pg_size * pg_size

-- PX(level, va)
abbrev pub px : ℕ → ℕ → ℕ
px level va = va / 2 ^ (12 + 9 * level) % 512

abbrev pub pte_to_pa : ℕ → ℕ
pte_to_pa e = e / 2 ^ 10 * 2 ^ 12 % 2 ^ 64

abbrev pub pa_to_pte : ℕ → ℕ
pa_to_pte pa = pa / 2 ^ 12 * 2 ^ 10

abbrev pub pte_flags : ℕ → ℕ
pte_flags e = e % 1024

abbrev pub is_valid : ℕ → Bool
is_valid e = e % 2 == 1

abbrev pub is_writable : ℕ → Bool
is_writable e = e / 4 % 2 == 1

abbrev pub is_user : ℕ → Bool
is_user e = e / 16 % 2 == 1

-- `PA2PTE(pa) | perm | PTE_V`: the address has its low ten bits 0, and `perm` has no others.
abbrev pub make_pte : ℕ → ℕ → ℕ
make_pte pa perm = pa_to_pte pa + (perm / 2 * 2 + 1)

-- Entry `i` of the page table at `p` is `table p i`.
pub record Vm : Type 0 where
  pub table : ℕ → ℕ → ℕ
  pub byte : ℕ → ℕ
  pub free : List ℕ

abbrev pub put_pte : ℕ → ℕ → ℕ → Vm → Vm
put_pte p i e vm = record vm { table = update vm.table p (update (vm.table p) i e) }

abbrev pub clear_table : ℕ → Vm → Vm
clear_table p vm = record vm { table = update vm.table p (λ i. 0) }

abbrev pub clear_page : ℕ → Vm → Vm
clear_page p vm = record vm { byte = λ a. if leb p a && ltb a (p + pg_size) then 0 else vm.byte a }

-- A page from `kalloc`.
unfoldable pub take_page : Vm → Option (ℕ × Vm)
take_page vm = elim vm.free [ [] ↦ none | p ∷ ps ↦ some (p, record vm { free = ps }) ]

-- What `kfree` leaves of a page that it takes: its bytes are 1, and it is the first free page.
abbrev pub given : ℕ → Vm → Vm
given p vm = record vm {
  byte = λ a. if leb p a && ltb a (p + pg_size) then 1 else vm.byte a;
  free = p ∷ vm.free;
}

-- `kfree` of a page that is no table.
unfoldable pub give_page : ℕ → ℕ → Vm → Outcome Vm
give_page end p vm =
    panic_if (not (p % pg_size == 0) || ltb p end || leb phys_top p) >> done (given p vm)

-- The loop of `walk` from `level` down, in the table `pt`: the table and the index of the entry.
unfoldable pub walk_from : Bool → ℕ → ℕ → ℕ → Vm → Option (ℕ × ℕ) × Vm
walk_from alloc va zero pt vm = (some (pt, px 0 va), vm)
walk_from alloc va (suc level) pt vm =
    let e = vm.table pt (px (suc level) va) in
    let down = walk_from alloc va level (pte_to_pa e) vm in
    let grown : Option (ℕ × ℕ) × Vm = elim (take_page vm) [
      | none ↦ (none, vm)
      | some got ↦
          walk_from alloc va level got.0
            (put_pte pt (px (suc level) va) (make_pte got.0 0) (clear_table got.0 got.1))
    ] in
    if is_valid e then down else if not alloc then (none, vm) else grown

unfoldable pub walk : Bool → ℕ → ℕ → Vm → Outcome (Option (ℕ × ℕ) × Vm)
walk alloc pt va vm = if leb max_va va then panic else done (walk_from alloc va 2 pt vm)

unfoldable pub read_at : Vm → Option (ℕ × ℕ) → Option ℕ
read_at vm none = none
read_at vm (some at) = some (vm.table at.0 at.1)

-- The entry for `va`, where there is one; `walk` without allocation does not change the tables.
unfoldable pub entry_of : ℕ → ℕ → Vm → Option ℕ
entry_of pt va vm = read_at vm (walk_from false va 2 pt vm).0

unfoldable pub walkaddr : ℕ → ℕ → Vm → ℕ
walkaddr pt va vm =
    let pa : ℕ = elim (entry_of pt va vm) [
      | none ↦ 0
      | some e ↦ if not (is_valid e) then 0 else if not (is_user e) then 0 else pte_to_pa e
    ] in
    if leb max_va va then 0 else pa

-- The loop of `mappages` over `k` pages; `false` is -1. What it mapped before it failed stays.
unfoldable pub map_from : ℕ → ℕ → ℕ → ℕ → ℕ → Vm → Outcome (Bool × Vm)
map_from zero pt a pa perm vm = done (true, vm)
map_from (suc k) pt a pa perm vm = walk true pt a vm >>= λ got. elim got.0 [
  | none ↦ done (false, got.1)
  | some at ↦
      panic_if (is_valid (got.1.table at.0 at.1))
      >> map_from k pt (a + pg_size) (pa + pg_size) perm
          (put_pte at.0 at.1 (make_pte pa perm) got.1)
]

unfoldable pub mappages : ℕ → ℕ → ℕ → ℕ → ℕ → Vm → Outcome (Bool × Vm)
mappages pt va size pa perm vm = do
  panic_if (not (va % pg_size == 0))
  panic_if (not (size % pg_size == 0))
  panic_if (size == 0)
  map_from (size / pg_size) pt va pa perm vm

unfoldable pub uvmcreate : Vm → Option (ℕ × Vm)
uvmcreate vm = elim (take_page vm) [
  | none ↦ none
  | some got ↦ some (got.0, clear_table got.0 got.1)
]

-- `*pte &= ~PTE_U`
unfoldable pub uvmclear : ℕ → ℕ → Vm → Outcome Vm
uvmclear pt va vm = walk false pt va vm >>= λ got. elim got.0 [
  | none ↦ panic
  | some at ↦
      let e = vm.table at.0 at.1 in done (put_pte at.0 at.1 (if is_user e then e - 16 else e) vm)
]

module _ (end : ℕ) where
  -- The loop of `uvmunmap` over `k` pages.
  unfoldable pub unmap_from : ℕ → Bool → ℕ → ℕ → Vm → Outcome Vm
  unmap_from zero do_free pt a vm = done vm
  unmap_from (suc k) do_free pt a vm = walk false pt a vm >>= λ got. elim got.0 [
    | none ↦ panic
    | some at ↦
        let e = vm.table at.0 at.1 in
        panic_if (not (is_valid e))
        >> (panic_if (pte_flags e == 1)
            >> ((if do_free then give_page end (pte_to_pa e) vm else done vm) >>= λ u.
                unmap_from k do_free pt (a + pg_size) (put_pte at.0 at.1 0 u)))
  ]

  unfoldable pub uvmunmap : ℕ → ℕ → ℕ → Bool → Vm → Outcome Vm
  uvmunmap pt va npages do_free vm =
      panic_if (not (va % pg_size == 0)) >> unmap_from npages do_free pt va vm

  unfoldable pub uvmdealloc : ℕ → ℕ → ℕ → Vm → Outcome (ℕ × Vm)
  uvmdealloc pt oldsz newsz vm =
      if leb oldsz newsz
      then done (oldsz, vm)
      else if ltb (page_up newsz) (page_up oldsz)
      then (uvmunmap pt (page_up newsz) ((page_up oldsz - page_up newsz) / pg_size) true vm >>= λ u.
          done (newsz, u))
      else done (newsz, vm)

  -- The loop of `uvmalloc` from `a`, with `k` rounds left; `false` is the return of 0.
  unfoldable pub grow_from : ℕ → ℕ → ℕ → ℕ → ℕ → ℕ → Vm → Outcome (Bool × Vm)
  grow_from zero pt a oldsz newsz xperm vm = done (true, vm)
  grow_from (suc k) pt a oldsz newsz xperm vm =
      if ltb a newsz
      then elim (take_page vm) [
        | none ↦ uvmdealloc pt a oldsz vm >>= λ got. done (false, got.1)
        | some page ↦
            mappages pt a pg_size page.0 (2 + 16 + xperm) (clear_page page.0 page.1) >>= λ got.
            if got.0
            then grow_from k pt (a + pg_size) oldsz newsz xperm got.1
            else (give_page end page.0 got.1 >>= λ u.
                uvmdealloc pt a oldsz u >>= λ w. done (false, w.1))
      ]
      else done (true, vm)

  -- The new size, 0 for an error.
  unfoldable pub uvmalloc : ℕ → ℕ → ℕ → ℕ → Vm → Outcome (ℕ × Vm)
  uvmalloc pt oldsz newsz xperm vm =
      if ltb newsz oldsz
      then done (oldsz, vm)
      else (grow_from (newsz / pg_size + 1) pt (page_up oldsz) (page_up oldsz) newsz xperm vm
          >>= λ got. done (if got.0 then newsz else 0, got.1))

  -- The loop of `uvmcopy` over the pages from `i`; `false` is the jump to `err`, with the page there.
  unfoldable pub copy_pages : ℕ → ℕ → ℕ → ℕ → Vm → Outcome (Bool × ℕ × Vm)
  copy_pages zero old new i vm = done (true, i, vm)
  copy_pages (suc k) old new i vm = walk false old i vm >>= λ got. elim got.0 [
    | none ↦ panic
    | some at ↦
        let e = vm.table at.0 at.1 in
        panic_if (not (is_valid e)) >> elim (take_page vm) [
          | none ↦ done (false, i, vm)
          | some page ↦
              let u : Vm = record page.1 {
                byte = memmove_copy page.1.byte page.0 page.1.byte (pte_to_pa e) pg_size;
              } in
              mappages new i pg_size page.0 (pte_flags e) u >>= λ done_one.
              if done_one.0
              then copy_pages k old new (i + pg_size) done_one.1
              else (give_page end page.0 done_one.1 >>= λ w. done (false, i, w))
        ]
  ]

  unfoldable pub uvmcopy : ℕ → ℕ → ℕ → Vm → Outcome (Bool × Vm)
  uvmcopy old new sz vm = copy_pages (page_up sz / pg_size) old new 0 vm >>= λ got.
      if got.0
      then done (true, got.2)
      else (uvmunmap new 0 (got.1 / pg_size) true got.2 >>= λ u. done (false, u))

-- The loop of `copyin` with `k` rounds left, to the buffer `dst` at `d`; `false` is -1.
unfoldable pub copyin_from : ℕ → ℕ → Vm → (ℕ → ℕ) → ℕ → ℕ → ℕ → Bool × (ℕ → ℕ)
copyin_from zero pt vm dst d va len = (true, dst)
copyin_from (suc k) pt vm dst d va len =
    let va0 = page_down va in
    let pa0 = walkaddr pt va0 vm in
    let n = min len (pg_size - (va - va0)) in
    let rest =
      copyin_from k pt vm (memmove_copy dst d vm.byte (pa0 + (va - va0)) n) (d + n) (va0 + pg_size)
        (len - n) in
    if ltb 0 len then (if pa0 == 0 then (false, dst) else rest) else (true, dst)

unfoldable pub copyin : ℕ → Vm → (ℕ → ℕ) → ℕ → ℕ → ℕ → Bool × (ℕ → ℕ)
copyin pt vm dst d va len = copyin_from len pt vm dst d va len

-- The page that `copyout` may write at `va0`, 0 for none.
unfoldable pub writable_page : ℕ → ℕ → Vm → ℕ
writable_page pt va0 vm =
    let pa : ℕ = elim (entry_of pt va0 vm) [
      | none ↦ 0
      | some e ↦
          if not (is_valid e) || not (is_user e) || not (is_writable e) then 0 else pte_to_pa e
    ] in
    if leb max_va va0 then 0 else pa

unfoldable pub copyout_from : ℕ → ℕ → ℕ → (ℕ → ℕ) → ℕ → ℕ → Vm → Bool × Vm
copyout_from zero pt va src s len vm = (true, vm)
copyout_from (suc k) pt va src s len vm =
    let va0 = page_down va in
    let pa0 = writable_page pt va0 vm in
    let n = min len (pg_size - (va - va0)) in
    let rest =
      copyout_from k pt (va0 + pg_size) src (s + n) (len - n)
        (record vm { byte = memmove_copy vm.byte (pa0 + (va - va0)) src s n }) in
    if ltb 0 len then (if pa0 == 0 then (false, vm) else rest) else (true, vm)

unfoldable pub copyout : ℕ → ℕ → (ℕ → ℕ) → ℕ → ℕ → Vm → Bool × Vm
copyout pt va src s len vm = copyout_from len pt va src s len vm

-- The inner loop of `copyinstr`, over `n` bytes: did it find the NUL?
unfoldable pub copy_string : ℕ → (ℕ → ℕ) → ℕ → (ℕ → ℕ) → ℕ → Bool × (ℕ → ℕ)
copy_string zero src p dst d = (false, dst)
copy_string (suc n) src p dst d =
    let rest = copy_string n src (p + 1) (update dst d (src p)) (d + 1) in
    if src p == 0 then (true, update dst d 0) else rest

unfoldable pub copyinstr_from : ℕ → ℕ → Vm → (ℕ → ℕ) → ℕ → ℕ → ℕ → Bool × (ℕ → ℕ)
copyinstr_from zero pt vm dst d va max = (false, dst)
copyinstr_from (suc k) pt vm dst d va max =
    let va0 = page_down va in
    let pa0 = walkaddr pt va0 vm in
    let n = min max (pg_size - (va - va0)) in
    let part = copy_string n vm.byte (pa0 + (va - va0)) dst d in
    let rest = copyinstr_from k pt vm part.1 (d + n) (va0 + pg_size) (max - n) in
    if ltb 0 max
    then (if pa0 == 0 then (false, dst) else if part.0 then part else rest)
    else (false, dst)

unfoldable pub copyinstr : ℕ → Vm → (ℕ → ℕ) → ℕ → ℕ → ℕ → Bool × (ℕ → ℕ)
copyinstr pt vm dst d va max = copyinstr_from max pt vm dst d va max
