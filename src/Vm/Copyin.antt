-- ===== src/Vm/Copyin.antt =====
-- `copyin` of kernel/vm.c copies what the user's page table shows.
use project_opertating_syste.Base.{
  ℕ, zero, suc, ◌+◌, ◌-◌, ◌%◌, min, ◌≤◌, ◌<◌, ◌≡◌, ◌≢◌, refl, sym, ◌∙◌, ap, subst, ◌==◌, ltb, Bool,
  true, false, not, leb, Option, none, some, if◌then◌else◌, arith, ℕ_discrete, dec_lt, ◌⊎◌, inl,
}
use project_opertating_syste.Fs.Files.Copies.{memmove_copy, memmove-copied, memmove-outside}
use project_opertating_syste.Vm.{
  Vm, pg_size, page_down, max_va, px, is_valid, is_user, pte_to_pa, walk_from, read_at, entry_of,
  walkaddr, copyin_from, copyin,
}
use project_opertating_syste.Vm.Tree.{At, root, down, walk_from-At}

abbrev Walks : ℕ → Vm → ℕ → Type 0
Walks pt vm a = walkaddr pt (page_down a) vm ≢ 0

abbrev walked_byte : ℕ → Vm → ℕ → ℕ
walked_byte pt vm a = vm.byte (walkaddr pt (page_down a) vm + a % pg_size)

-- The copy as `walkaddr` sees it.
record Walked (pt : ℕ) (vm : Vm) (dst : ℕ → ℕ) (d va len : ℕ) (r : Bool × (ℕ → ℕ)) : Type 0 where
  outside : (a : ℕ) → (a < d) ⊎ (d + len ≤ a) → r.1 a ≡ dst a
  bytes :
      r.0 ≡ true
      → (a : ℕ) → a < len
      → (Walks pt vm (va + a)) × (r.1 (d + a) ≡ walked_byte pt vm (va + a))
  fault : r.0 ≡ false → (a : ℕ) × (a < len) × (walkaddr pt (page_down (va + a)) vm ≡ 0)

module _ (pt : ℕ) (vm : Vm) where
  -- The part of the copy on the first page, and the rest.
  page-Walked :
      (dst : ℕ → ℕ) (d va len n : ℕ) (r : Bool × (ℕ → ℕ))
      → n ≤ len
      → n ≡ min len (pg_size - (va - page_down va))
      → Walks pt vm va
      → Walked pt vm
          (memmove_copy dst d vm.byte (walkaddr pt (page_down va) vm + (va - page_down va)) n)
          (d + n)
          (page_down va + pg_size)
          (len - n)
          r
      → Walked pt vm dst d va len r
  page-Walked dst d va len n r h e m c =
      let from = walkaddr pt (page_down va) vm + (va - page_down va) in
      record {
        outside = λ a o.
            c.outside a (ground arith) ∙ memmove-outside dst d vm.byte from n a (ground arith);
        bytes = λ ok a l. elim (dec_lt a n) [
          | yes x ↦
              let here : page_down (va + a) ≡ page_down va = omega arith in
              let at : from + a ≡ walkaddr pt (page_down va) vm + (va + a) % pg_size =
                omega arith in
              (
                λ z. m (ap (λ p. walkaddr pt p vm) (sym here) ∙ z),
                c.outside (d + a) (inl (omega arith))
                    ∙ memmove-copied dst d vm.byte from n a x
                    ∙ ap vm.byte at
                    ∙ ap (λ p. vm.byte (walkaddr pt p vm + (va + a) % pg_size)) (sym here),
              )
          | no x ↦
              let place : page_down va + pg_size + (a - n) ≡ va + a = omega arith in
              let to : d + n + (a - n) ≡ d + a = omega arith in
              let rest = c.bytes ok (a - n) (omega arith) in
              (
                subst (Walks pt vm) place rest.0,
                ap r.1 (sym to) ∙ rest.1 ∙ ap (walked_byte pt vm) place,
              )
        ];
        fault = λ bad.
            let (a, l, z) = c.fault bad in
            let place : page_down va + pg_size + a ≡ va + (n + a) = omega arith in
            (n + a, omega arith, ap (λ p. walkaddr pt (page_down p) vm) (sym place) ∙ z);
      }

  copyin_from-Walked :
      (k : ℕ) (dst : ℕ → ℕ) (d va len : ℕ)
      → len ≤ k
      → Walked pt vm dst d va len (copyin_from k pt vm dst d va len)
  unfolding copyin_from
  copyin_from-Walked zero dst d va len h = record {
    outside = λ a o. refl;
    bytes = λ ok a l. absurd (omega arith);
    fault = λ bad. absurd (ground (arith, bad));
  }
  copyin_from-Walked (suc k) dst d va len h = elim (dec_lt 0 len) [
    | no x ↦
        let test : ltb 0 len ≡ false = ground arith in
        rw test (record {
          outside = λ a o. refl;
          bytes = λ ok a l. absurd (omega arith);
          fault = λ bad. absurd (ground (arith, bad));
        })
    | yes x ↦
        let test : ltb 0 len ≡ true = ground arith in
        let pa = walkaddr pt (page_down va) vm in
        elim (ℕ_discrete pa 0) [
          | yes z ↦
              let none_there : (pa == 0) ≡ true = ground arith in
              rw (test, none_there)
                (record {
                  outside = λ a o. refl;
                  bytes = λ ok a l. absurd (ground (arith, ok));
                  fault = λ bad. (0, x, ap (λ p. walkaddr pt (page_down p) vm) (omega arith) ∙ z);
                })
          | no z ↦
              let there : (pa == 0) ≡ false = ground arith in
              let n = min len (pg_size - (va - page_down va)) in
              rw (test, there)
                (page-Walked dst d va len n _ (omega arith) refl z
                  (copyin_from-Walked k _ (d + n) (page_down va + pg_size) (len - n) (omega arith)))
        ]
  ]

-- The page tables show the user the page `pa` at `va`: the entries of the two upper levels are valid,
-- and that of the last is valid, for the user, and has the address `pa`.
pub record Shown (pt : ℕ) (vm : Vm) (va pa : ℕ) : Type 0 where
  pub below : va < max_va
  pub last : ℕ
  pub way : At vm pt va 0 last
  pub valid : is_valid (vm.table last (px 0 va)) ≡ true
  pub user : is_user (vm.table last (px 0 va)) ≡ true
  pub address : pte_to_pa (vm.table last (px 0 va)) ≡ pa

module _ (pt : ℕ) (vm : Vm) (va : ℕ) where
  -- The walk goes the way that the tables show.
  At-walk_from :
      (l p : ℕ) → At vm pt va l p → (walk_from false va 2 pt vm).0 ≡ (walk_from false va l p vm).0
  unfolding walk_from
  At-walk_from _ _ root = refl
  At-walk_from l _ (down {p = q} a v) = At-walk_from (suc l) q a ∙ rw v refl

  Shown-walkaddr : (pa : ℕ) → Shown pt vm va pa → walkaddr pt va vm ≡ pa
  unfolding walkaddr entry_of read_at walk_from
  Shown-walkaddr pa s =
      let test : leb max_va va ≡ false = ground (arith, s.below) in
      let there : (walk_from false va 2 pt vm).0 ≡ some (s.last, px 0 va) =
        At-walk_from 0 s.last s.way in
      rw (there, test, s.valid, s.user) s.address

  walkaddr-Shown : walkaddr pt va vm ≢ 0 → Shown pt vm va (walkaddr pt va vm)
  unfolding walkaddr entry_of read_at
  walkaddr-Shown n = found (walk_from false va 2 pt vm).0 refl
    where
      found :
          (o : Option (ℕ × ℕ))
          → (walk_from false va 2 pt vm).0 ≡ o
          → Shown pt vm va (walkaddr pt va vm)
      found none w = absurd (n (rw w (ground arith)))
      found (some at) w =
          let (a, x) = walk_from-At pt va 2 pt vm at root w in
          let e = vm.table at.0 at.1 in
          let here : vm.table at.0 (px 0 va) ≡ e = ap (vm.table at.0) (sym x) in
          let some_page : (if leb max_va va
                then 0
                else if not (is_valid e)
                then 0
                else if not (is_user e)
                then 0
                else pte_to_pa e)
              ≢ 0 =
            λ z. n (rw w z) in
          record {
            below = ground (arith, some_page);
            last = at.0;
            way = a;
            valid = ap is_valid here ∙ ground (arith, some_page);
            user = ap is_user here ∙ ground (arith, some_page);
            address = ap pte_to_pa here ∙ rw w (ground (arith, some_page));
          }

-- A copy of `len` bytes from `va` to the buffer `dst` at `d`.
pub record Copied (pt : ℕ) (vm : Vm) (dst : ℕ → ℕ) (d va len : ℕ) (r : Bool × (ℕ → ℕ))
    : Type 0 where
  pub outside : (a : ℕ) → (a < d) ⊎ (d + len ≤ a) → r.1 a ≡ dst a
  pub bytes :
      r.0 ≡ true
      → (a : ℕ) → a < len
      → (pa : ℕ) × Shown pt vm (page_down (va + a)) pa
        × (pa ≢ 0)
        × (r.1 (d + a) ≡ vm.byte (pa + (va + a) % pg_size))
  pub fault :
      r.0 ≡ false → (a : ℕ) × (a < len) × ((pa : ℕ) → Shown pt vm (page_down (va + a)) pa → pa ≡ 0)

-- `copyin` returns 0 exactly where the page tables show the user a page, not the one at 0, for each of
-- the addresses, by valid entries and with the user's bit in the last one, and below the largest
-- address; then the buffer has the bytes of these pages. Else it returns -1. It changes nothing
-- outside the buffer.
pub copyin-Copied :
    (pt : ℕ) (vm : Vm) (dst : ℕ → ℕ) (d va len : ℕ)
    → Copied pt vm dst d va len (copyin pt vm dst d va len)
unfolding copyin
copyin-Copied pt vm dst d va len =
    let w = copyin_from-Walked pt vm len dst d va len (omega arith) in
    record {
      outside = w.outside;
      bytes = λ ok a h.
          let (n, e) = w.bytes ok a h in
          (walkaddr pt (page_down (va + a)) vm, walkaddr-Shown pt vm (page_down (va + a)) n, n, e);
      fault = λ bad.
          let (a, h, z) = w.fault bad in
          (a, h, λ pa s. sym (Shown-walkaddr pt vm (page_down (va + a)) pa s) ∙ z);
    }
