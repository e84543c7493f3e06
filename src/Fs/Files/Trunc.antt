-- ===== src/Fs/Files/Trunc.antt =====
-- The loops of `itrunc`, kernel/fs.c: each block of the inode is freed once.
use project_opertating_syste.Base.{
  ℕ, zero, suc, ◌+◌, ◌-◌, ◌*◌, ◌≤◌, ◌<◌, ◌≡◌, ◌≢◌, refl, sym, ◌∙◌, ap, subst, ◌==◌, ltb, true,
  false, if◌then◌else◌, update, arith, ℕ_discrete, dec_lt, done,
}
use project_opertating_syste.Fs.{Inode, Fs, SuperBlock, bblock, bfree}
use project_opertating_syste.Fs.Layout.{load32}
use project_opertating_syste.Fs.Bitmap.{free_in, MapInv, Freed, bfree-Freed}
use project_opertating_syste.Fs.Inodes.OnDisk.{get-put_inode}
use project_opertating_syste.Fs.Files.{
  ndirect, nindirect, maxfile, set_addr, free_direct, free_entries, free_indirect,
}
use project_opertating_syste.Fs.Files.Slots.{
  slot, slot-direct, slot-last, slot-entry, slot-none, Owns, MapInv-same,
}

-- From `fs` to `u` the blocks in the first `k` slots of inode `i` are freed, and no other.
pub record Freeing (sb : SuperBlock) (i : ℕ) (fs : Fs) (k : ℕ) (u : Fs) : Type 0 where
  pub map_inv : MapInv sb u
  pub freed : (s : ℕ) → s < k → slot fs i s ≢ 0 → free_in sb u (slot fs i s) ≡ true
  pub kept :
      (c : ℕ) → c < sb.size → ((s : ℕ) → s < k → slot fs i s ≢ c) → free_in sb u c ≡ free_in sb fs c
  pub content : (d : ℕ) → ((c : ℕ) → c < sb.size → bblock sb c ≢ d) → u.content d ≡ fs.content d
  pub inodes : (j : ℕ) → j ≢ i → u.inode j ≡ fs.inode j
  pub fields : u.inode i ≡ record (fs.inode i) { addrs = (u.inode i).addrs }

module _ (sb : SuperBlock) (i : ℕ) (fs : Fs) (v : Owns sb fs i) where
  pub start-Freeing : Freeing sb i fs 0 fs
  start-Freeing = record {
    map_inv = v.map_inv;
    freed = λ s h. absurd (omega arith);
    kept = λ c h n. refl;
    content = λ d n. refl;
    inodes = λ j n. refl;
    fields = refl;
  }

  -- An empty slot has nothing to free.
  empty-Freeing :
      (k : ℕ) (u : Fs) → slot fs i k ≡ 0 → Freeing sb i fs k u → Freeing sb i fs (k + 1) u
  empty-Freeing k u z f = record {
    map_inv = f.map_inv;
    freed = λ s h n. elim (ℕ_discrete s k) [
      | yes e ↦ absurd (n (ap (slot fs i) e ∙ z))
      | no d ↦ f.freed s (omega arith) n
    ];
    kept = λ c h n. f.kept c h (λ s l. n s (omega arith));
    content = f.content;
    inodes = f.inodes;
    fields = f.fields;
  }

  -- The slot's block is still in use, so that `bfree` does not panic.
  module _ (k : ℕ) (u : Fs) (below : k ≤ maxfile) (n : slot fs i k ≢ 0)
      (f : Freeing sb i fs k u) where
    still_used : free_in sb u (slot fs i k) ≡ false
    still_used =
        let h = v.held k below n in
        f.kept (slot fs i k) h.on_disk
          (λ s l e. absurd (omega (arith, v.distinct k s below (omega arith) n (sym e))))
        ∙ h.used

    Freed-Freeing : (w : Fs) → Freed sb u (slot fs i k) w → Freeing sb i fs (k + 1) w
    Freed-Freeing w g = record {
      map_inv = g.map_inv;
      freed = λ s h z. elim (ℕ_discrete s k) [
        | yes e ↦
            let b = slot fs i k in
            subst (λ x. free_in sb w (slot fs i x) ≡ true) (sym e)
              (ground (arith, g.map b (v.held k below n).on_disk))
        | no d ↦ ground (
          arith,
          g.map (slot fs i s) (v.held s (omega arith) z).on_disk,
          f.freed s (omega arith) z,
        )
      ];
      kept = λ c h z.
          ground (arith, g.map c h, z k (omega arith), f.kept c h (λ s l. z s (omega arith)));
      content = λ d z.
          g.elsewhere d (λ e. z (slot fs i k) (v.held k below n).on_disk (sym e)) ∙ f.content d z;
      inodes = λ j d. ap (λ t. t j) g.inode ∙ f.inodes j d;
      fields =
          ap (λ t. t i) g.inode
          ∙ f.fields
          ∙ ap {A = ℕ → ℕ} {B = Inode} (λ x. record (fs.inode i) { addrs = x })
              (ap (λ t. (t i).addrs) (sym g.inode));
    }

    bfree-Freeing :
        (w : Fs) × (bfree sb (slot fs i k) u ≡ done w)
        × Freeing sb i fs (k + 1) w
        × (w.inode ≡ u.inode)
    bfree-Freeing =
        let h = v.held k below n in
        let (w, e, g) =
          (bfree-Freed sb u (slot fs i k) f.map_inv h.on_disk h.not_map).1 still_used in
        (w, e, Freed-Freeing w g, g.inode)

  -- The addresses below `k` are cleared, and the others not.
  abbrev pub Cleared : ℕ → Fs → Type 0
  Cleared k u =
      (a : ℕ) → a ≤ ndirect → (u.inode i).addrs a ≡ (if ltb a k then 0 else (fs.inode i).addrs a)

  clear-at :
      (a x : ℕ) (u : Fs) → ((set_addr i a 0 u).inode i).addrs x ≡ update (u.inode i).addrs a 0 x
  clear-at a x u =
      ap (λ ip. ip.addrs x)
        (get-put_inode i (record (u.inode i) { addrs = update (u.inode i).addrs a 0 }) u)

  clear-Freeing : (k a : ℕ) (u : Fs) → Freeing sb i fs k u → Freeing sb i fs k (set_addr i a 0 u)
  clear-Freeing k a u f =
      let ip : Inode = record (u.inode i) { addrs = update (u.inode i).addrs a 0 } in
      let here = get-put_inode i ip u in
      record {
        map_inv = MapInv-same sb u (set_addr i a 0 u) (λ c h. refl) f.map_inv;
        freed = f.freed;
        kept = f.kept;
        content = f.content;
        inodes = λ j n.
            let apart : (set_addr i a 0 u).inode j ≡ u.inode j = ground arith in
            apart ∙ f.inodes j n;
        fields =
            here
            ∙ ap {A = Inode} {B = Inode} (λ x. record x { addrs = update (u.inode i).addrs a 0 })
                f.fields
            ∙ ap {A = ℕ → ℕ} {B = Inode} (λ x. record (fs.inode i) { addrs = x })
                (ap (λ x. x.addrs) (sym here));
      }

  Cleared-here : (k : ℕ) (u : Fs) → k < ndirect → Cleared k u → (u.inode i).addrs k ≡ slot fs i k
  Cleared-here k u h c =
      let test : ltb k k ≡ false = ground arith in
      c k (omega arith) ∙ rw test (sym (slot-direct fs i k h))

  Cleared-next :
      (k : ℕ) (u w : Fs)
      → Cleared k u
      → (w.inode i).addrs k ≡ 0
      → ((a : ℕ) → a ≢ k → (w.inode i).addrs a ≡ (u.inode i).addrs a)
      → Cleared (k + 1) w
  Cleared-next k u w c z same a h = elim (ℕ_discrete a k) [
    | yes e ↦ let test : ltb a (k + 1) ≡ true = ground arith in rw test (ap (w.inode i).addrs e ∙ z)
    | no d ↦ let test : ltb a (k + 1) ≡ ltb a k = ground arith in rw test (same a d ∙ c a h)
  ]

  -- The indirect block is not of the map, so `bfree` leaves it.
  entry-here :
      (k j ind : ℕ) (u : Fs)
      → j < nindirect
      → (fs.inode i).addrs ndirect ≡ ind
      → ind ≢ 0
      → Freeing sb i fs k u
      → load32 (u.content ind) (4 * j) ≡ slot fs i (ndirect + j)
  entry-here k j ind u h at d f =
      let last : slot fs i maxfile ≡ ind = slot-last fs i ∙ at in
      let entry = slot-entry fs i (ndirect + j) (omega arith) (omega arith) (λ z. d (sym at ∙ z)) in
      let place : ndirect + j - ndirect ≡ j = omega arith in
      ap (λ c. load32 c (4 * j))
        (f.content ind (λ c l e.
          (v.held maxfile (omega arith) (λ z. d (sym last ∙ z))).not_map c l (e ∙ sym last)))
      ∙ ap (λ b. load32 (fs.content b) (4 * j)) (sym at)
      ∙ ap (λ x. load32 (fs.content ((fs.inode i).addrs ndirect)) (4 * x)) (sym place)
      ∙ sym entry

  pub free_direct-Freeing :
      (n k : ℕ) (u : Fs)
      → k + n ≡ ndirect
      → Freeing sb i fs k u
      → Cleared k u
      → (w : Fs) × (free_direct sb i n k u ≡ done w) × Freeing sb i fs ndirect w × Cleared ndirect w
  unfolding free_direct
  free_direct-Freeing zero k u e f c =
      let at : k ≡ ndirect = omega arith in
      (u, refl, subst (λ x. Freeing sb i fs x u) at f, subst (λ x. Cleared x u) at c)
  free_direct-Freeing (suc n) k u e f c =
      let here : (u.inode i).addrs k ≡ slot fs i k = Cleared-here k u (omega arith) c in
      elim (ℕ_discrete ((u.inode i).addrs k) 0) [
        | yes z ↦
            let test : ((u.inode i).addrs k == 0) ≡ true = ground arith in
            rw test (
              free_direct-Freeing n (k + 1) u (omega arith) (empty-Freeing k u (sym here ∙ z) f)
                (Cleared-next k u u c z (λ a d. refl)))
        | no z ↦
            let test : ((u.inode i).addrs k == 0) ≡ false = ground arith in
            let (w, x, g, s) = bfree-Freeing k u (omega arith) (λ q. z (here ∙ q)) f in
            rw (test, here, x)
              (free_direct-Freeing n (k + 1) (set_addr i k 0 w) (omega arith)
                (clear-Freeing (k + 1) k w g)
                (Cleared-next k u (set_addr i k 0 w) c (clear-at k k w ∙ ground arith) (λ a d.
                  let apart : update (w.inode i).addrs k 0 a ≡ (w.inode i).addrs a = ground arith in
                  clear-at k a w ∙ apart ∙ ap (λ t. (t i).addrs a) s)))
      ]

  free_entries-Freeing :
      (n j ind : ℕ) (u : Fs)
      → j + n ≡ nindirect
      → (fs.inode i).addrs ndirect ≡ ind
      → ind ≢ 0
      → Freeing sb i fs (ndirect + j) u
      → (w : Fs) × (free_entries sb ind n j u ≡ done w)
        × Freeing sb i fs maxfile w
        × (w.inode ≡ u.inode)
  unfolding free_entries
  free_entries-Freeing zero j ind u e at z f =
      (u, refl, subst (λ x. Freeing sb i fs x u) (omega arith) f, refl)
  free_entries-Freeing (suc n) j ind u e at d f =
      let here : load32 (u.content ind) (4 * j) ≡ slot fs i (ndirect + j) =
        entry-here (ndirect + j) j ind u (omega arith) at d f in
      let next : ndirect + j + 1 ≡ ndirect + (j + 1) = omega arith in
      elim (ℕ_discrete (load32 (u.content ind) (4 * j)) 0) [
        | yes z ↦
            let test : (load32 (u.content ind) (4 * j) == 0) ≡ true = ground arith in
            rw test (
              free_entries-Freeing n (j + 1) ind u (omega arith) at d (
                subst (λ x. Freeing sb i fs x u) next
                  (empty-Freeing (ndirect + j) u (sym here ∙ z) f)))
        | no z ↦
            let test : (load32 (u.content ind) (4 * j) == 0) ≡ false = ground arith in
            let (w, x, g, s) = bfree-Freeing (ndirect + j) u (omega arith) (λ q. z (here ∙ q)) f in
            let (t, y, h, r) =
              free_entries-Freeing n (j + 1) ind w (omega arith) at d
                (subst (λ x. Freeing sb i fs x w) next g) in
            rw (test, here, x) (t, y, h, r ∙ s)
      ]

  -- Without an indirect block there is nothing behind the direct slots.
  none-Freeing :
      (u : Fs)
      → (fs.inode i).addrs ndirect ≡ 0
      → Freeing sb i fs ndirect u
      → Freeing sb i fs (maxfile + 1) u
  none-Freeing u z f = record {
    map_inv = f.map_inv;
    freed = λ s h n. elim (dec_lt s ndirect) [
      | yes l ↦ f.freed s l n
      | no l ↦ elim (ℕ_discrete s maxfile) [
        | yes e ↦ absurd (n (ap (slot fs i) e ∙ slot-last fs i ∙ z))
        | no d ↦ absurd (n (slot-none fs i s (omega arith) (omega arith) z))
      ]
    ];
    kept = λ c h n. f.kept c h (λ s l. n s (omega arith));
    content = f.content;
    inodes = f.inodes;
    fields = f.fields;
  }

  -- What `free_indirect` leaves, after the first loop.
  pub free_indirect-Freeing :
      (u : Fs)
      → Freeing sb i fs ndirect u
      → Cleared ndirect u
      → (w : Fs) × (free_indirect sb i u ≡ done w)
        × Freeing sb i fs (maxfile + 1) w
        × Cleared (ndirect + 1) w
  unfolding free_indirect
  free_indirect-Freeing u f c =
      let here : (u.inode i).addrs ndirect ≡ (fs.inode i).addrs ndirect = c ndirect (omega arith) in
      let last = slot-last fs i in
      elim (ℕ_discrete ((u.inode i).addrs ndirect) 0) [
        | yes z ↦
            let test : ((u.inode i).addrs ndirect == 0) ≡ true = ground arith in
            rw test
              (u, refl, none-Freeing u (sym here ∙ z) f, Cleared-next ndirect u u c z (λ a d. refl))
        | no z ↦
            let test : ((u.inode i).addrs ndirect == 0) ≡ false = ground arith in
            let (w, x, g, s) =
              free_entries-Freeing nindirect 0 ((u.inode i).addrs ndirect) u refl (sym here) z f in
            let (t, y, h, r) =
              bfree-Freeing maxfile w (omega arith) (λ q. z (here ∙ sym last ∙ q)) g in
            let block : (u.inode i).addrs ndirect ≡ slot fs i maxfile = here ∙ sym last in
            let y' : bfree sb ((u.inode i).addrs ndirect) w ≡ done t =
              ap (λ b. bfree sb b w) block ∙ y in
            rw (test, x, y')
              (
                set_addr i ndirect 0 t,
                refl,
                clear-Freeing (maxfile + 1) ndirect t h,
                Cleared-next ndirect u (set_addr i ndirect 0 t) c
                    (clear-at ndirect ndirect t ∙ ground arith)
                    (λ a d.
                      let apart : update (t.inode i).addrs ndirect 0 a ≡ (t.inode i).addrs a =
                        ground arith in
                      clear-at ndirect a t ∙ apart ∙ ap (λ q. (q i).addrs a) (r ∙ s)),
              )
      ]
