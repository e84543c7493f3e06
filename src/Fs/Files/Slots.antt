-- ===== src/Fs/Files/Slots.antt =====
-- The blocks of a file, kernel/fs.c: twelve from the inode, 256 from its indirect block, and that
-- block.
use project_opertating_syste.Base.{
  ℕ, ◌-◌, ◌*◌, ◌≤◌, ◌<◌, ◌≡◌, ◌≢◌, refl, sym, ◌∙◌, ap, subst, ◌==◌, ltb, true, false, not, ◌&&◌,
  if◌then◌else◌, arith, ℕ_discrete, dec_lt,
}
use project_opertating_syste.Fs.{Fs, SuperBlock, bblock, iblock}
use project_opertating_syste.Fs.Layout.{load32}
use project_opertating_syste.Fs.Bitmap.{free_in, MapInv, Taken}
use project_opertating_syste.Fs.Files.{ndirect, maxfile}

-- The block in slot `s` of inode `i`, 0 for none; slot 268 is the indirect block's.
unfoldable pub slot : Fs → ℕ → ℕ → ℕ
slot fs i s =
    let addrs = (fs.inode i).addrs in
    let ind = addrs ndirect in
    if ltb s ndirect
    then addrs s
    else if ltb s maxfile
    then (if ind == 0 then 0 else load32 (fs.content ind) (4 * (s - ndirect)))
    else ind

module _ (fs : Fs) (i : ℕ) where
  pub slot-direct : (s : ℕ) → s < ndirect → slot fs i s ≡ (fs.inode i).addrs s
  unfolding slot
  slot-direct s h = ground arith

  pub slot-last : slot fs i maxfile ≡ (fs.inode i).addrs ndirect
  unfolding slot
  slot-last = refl

  pub slot-entry :
      (s : ℕ)
      → ndirect ≤ s
      → s < maxfile
      → (fs.inode i).addrs ndirect ≢ 0
      → slot fs i s ≡ load32 (fs.content ((fs.inode i).addrs ndirect)) (4 * (s - ndirect))
  unfolding slot
  slot-entry s h k n =
      let lo : ltb s ndirect ≡ false = ground arith in
      let hi : ltb s maxfile ≡ true = ground arith in
      let some_block : ((fs.inode i).addrs ndirect == 0) ≡ false = ground arith in
      rw (lo, hi, some_block) refl

  pub slot-none :
      (s : ℕ) → ndirect ≤ s → s < maxfile → (fs.inode i).addrs ndirect ≡ 0 → slot fs i s ≡ 0
  unfolding slot
  slot-none s h k e =
      let lo : ltb s ndirect ≡ false = ground arith in
      let hi : ltb s maxfile ≡ true = ground arith in
      let no_block : ((fs.inode i).addrs ndirect == 0) ≡ true = ground arith in
      rw (lo, hi, no_block) refl

-- A slot stays where its address does.
pub slot-same :
    (fs u : Fs) (i s : ℕ)
    → s ≤ maxfile
    → (s < ndirect → (u.inode i).addrs s ≡ (fs.inode i).addrs s)
    → (u.inode i).addrs ndirect ≡ (fs.inode i).addrs ndirect
    → (ndirect ≤ s
        → s < maxfile
        → (fs.inode i).addrs ndirect ≢ 0
        → load32 (u.content ((fs.inode i).addrs ndirect)) (4 * (s - ndirect))
          ≡ load32 (fs.content ((fs.inode i).addrs ndirect)) (4 * (s - ndirect)))
    → slot u i s ≡ slot fs i s
slot-same fs u i s h direct last entry = elim (dec_lt s ndirect) [
  | yes l ↦ slot-direct u i s l ∙ direct l ∙ sym (slot-direct fs i s l)
  | no l ↦ elim (ℕ_discrete s maxfile) [
    | yes e ↦
        subst (λ x. slot u i x ≡ slot fs i x) (sym e) (slot-last u i ∙ last ∙ sym (slot-last fs i))
    | no e ↦ elim (ℕ_discrete ((fs.inode i).addrs ndirect) 0) [
      | yes z ↦
          slot-none u i s (omega arith) (omega arith) (last ∙ z)
          ∙ sym (slot-none fs i s (omega arith) (omega arith) z)
      | no z ↦
          slot-entry u i s (omega arith) (omega arith) (λ q. z (sym last ∙ q))
          ∙ ap (λ x. load32 (u.content x) (4 * (s - ndirect))) last
          ∙ entry (omega arith) (omega arith) z
          ∙ sym (slot-entry fs i s (omega arith) (omega arith) z)
    ]
  ]
]

-- A block that inode `n` may hold: it is on the disk and in use, and neither a block of the map
-- nor that of the inode.
pub record Held (sb : SuperBlock) (fs : Fs) (n b : ℕ) : Type 0 where
  pub on_disk : b < sb.size
  pub used : free_in sb fs b ≡ false
  pub not_map : (c : ℕ) → c < sb.size → bblock sb c ≢ b
  pub not_home : iblock sb n ≢ b

-- The blocks of inode `i` are blocks that it may hold, no two of them the same.
pub record Owns (sb : SuperBlock) (fs : Fs) (i : ℕ) : Type 0 where
  pub map_inv : MapInv sb fs
  pub small : sb.size ≤ 4294967296
  pub boot : free_in sb fs 0 ≡ false
  pub home_disk : iblock sb (fs.inode i).inum < sb.size
  pub home_used : free_in sb fs (iblock sb (fs.inode i).inum) ≡ false
  pub home_map : (c : ℕ) → c < sb.size → bblock sb c ≢ iblock sb (fs.inode i).inum
  pub held : (s : ℕ) → s ≤ maxfile → slot fs i s ≢ 0 → Held sb fs (fs.inode i).inum (slot fs i s)
  pub distinct :
      (s t : ℕ) → s ≤ maxfile → t ≤ maxfile → slot fs i s ≢ 0 → slot fs i s ≡ slot fs i t → s ≡ t

-- What holds of the map after a change that leaves its blocks.
pub free_in-same :
    (sb : SuperBlock) (w u : Fs)
    → ((c : ℕ) → c < sb.size → u.content (bblock sb c) ≡ w.content (bblock sb c))
    → (c : ℕ) → c < sb.size
    → free_in sb u c ≡ free_in sb w c
free_in-same sb w u h c k = rw (h c k) refl

pub MapInv-same :
    (sb : SuperBlock) (w u : Fs)
    → ((c : ℕ) → c < sb.size → u.content (bblock sb c) ≡ w.content (bblock sb c))
    → MapInv sb w
    → MapInv sb u
MapInv-same sb w u h v = record {
  bytes = λ b k i. rw (h b k) (v.bytes b k i);
  reserved = λ b k. (
    (v.reserved b k).0,
    free_in-same sb w u h (bblock sb b) (v.reserved b k).0 ∙ (v.reserved b k).1,
  );
}

-- A change that leaves the map and the slots leaves what `i` owns.
pub Owns-same :
    (sb : SuperBlock) (fs u : Fs) (i : ℕ)
    → Owns sb fs i
    → ((c : ℕ) → c < sb.size → u.content (bblock sb c) ≡ fs.content (bblock sb c))
    → (u.inode i).inum ≡ (fs.inode i).inum
    → ((s : ℕ) → s ≤ maxfile → slot u i s ≡ slot fs i s)
    → Owns sb u i
Owns-same sb fs u i v h n same =
    let free : (c : ℕ) → c < sb.size → free_in sb u c ≡ free_in sb fs c = free_in-same sb fs u h in
    let home : iblock sb (u.inode i).inum ≡ iblock sb (fs.inode i).inum = ap (iblock sb) n in
    record {
      map_inv = MapInv-same sb fs u h v.map_inv;
      small = v.small;
      boot = free 0 (omega (arith, v.home_disk)) ∙ v.boot;
      home_disk = rw home v.home_disk;
      home_used = rw home (free _ v.home_disk ∙ v.home_used);
      home_map = λ c k. rw home (v.home_map c k);
      held = λ s k z.
          let old = v.held s k (λ e. z (same s k ∙ e)) in
          subst (λ b. Held sb u (u.inode i).inum b) (sym (same s k))
            (record {
              on_disk = old.on_disk;
              used = free _ old.on_disk ∙ old.used;
              not_map = old.not_map;
              not_home = λ e. old.not_home (sym home ∙ e);
            });
      distinct =
          λ s t k l z e. v.distinct s t k l (λ x. z (same s k ∙ x)) (sym (same s k) ∙ e ∙ same t l);
    }

-- A block that was free is new to the inode.
module _ (sb : SuperBlock) (fs : Fs) (i : ℕ) (v : Owns sb fs i) (b : ℕ) (w : Fs)
    (t : Taken sb fs b w) where
  pub taken-nonzero : b ≢ 0
  taken-nonzero = ground (arith, v.boot, t.was_free)

  pub taken-not_slot : (s : ℕ) → s ≤ maxfile → slot fs i s ≢ 0 → slot fs i s ≢ b
  taken-not_slot s h z = ground (arith, (v.held s h z).used, t.was_free)

  pub taken-not_map : (c : ℕ) → c < sb.size → bblock sb c ≢ b
  taken-not_map c h = ground (arith, (v.map_inv.reserved c h).1, t.was_free)

  pub taken-not_home : iblock sb (fs.inode i).inum ≢ b
  taken-not_home = ground (arith, v.home_used, t.was_free)

  -- The inode owns it once it stands in a slot.
  module _ (u : Fs) (k : ℕ) (in_range : k ≤ maxfile)
      (map : (c : ℕ) → c < sb.size → u.content (bblock sb c) ≡ w.content (bblock sb c))
      (same_inum : (u.inode i).inum ≡ (fs.inode i).inum) (here : slot u i k ≡ b)
      (others : (s : ℕ) → s ≤ maxfile → s ≢ k → slot u i s ≡ slot fs i s) where
    free_now : (c : ℕ) → c < sb.size → free_in sb u c ≡ (not (c == b) && free_in sb fs c)
    free_now c h = free_in-same sb w u map c h ∙ t.map c h

    still_used : (c : ℕ) → c < sb.size → free_in sb fs c ≡ false → free_in sb u c ≡ false
    still_used c h e = ground (arith, free_now c h)

    home : iblock sb (u.inode i).inum ≡ iblock sb (fs.inode i).inum
    home = ap (iblock sb) same_inum

    new-Held : Held sb u (u.inode i).inum b
    new-Held = record {
      on_disk = t.on_disk;
      used = ground (arith, free_now b t.on_disk);
      not_map = taken-not_map;
      not_home = λ e. taken-not_home (sym home ∙ e);
    }

    old-Held : (s : ℕ) → s ≤ maxfile → slot fs i s ≢ 0 → Held sb u (u.inode i).inum (slot fs i s)
    old-Held s h z =
        let old = v.held s h z in
        record {
          on_disk = old.on_disk;
          used = still_used _ old.on_disk old.used;
          not_map = old.not_map;
          not_home = λ e. old.not_home (sym home ∙ e);
        }

    pub taken-Owns : Owns sb u i
    taken-Owns = record {
      map_inv = MapInv-same sb w u map t.map_inv;
      small = v.small;
      boot = still_used 0 (omega (arith, v.home_disk)) v.boot;
      home_disk = rw home v.home_disk;
      home_used = rw home (still_used _ v.home_disk v.home_used);
      home_map = λ c h. rw home (v.home_map c h);
      held = λ s h z. elim (ℕ_discrete s k) [
        | yes e ↦
            subst (λ x. Held sb u (u.inode i).inum (slot u i x)) (sym e)
              (subst (Held sb u (u.inode i).inum) (sym here) new-Held)
        | no e ↦
            subst (Held sb u (u.inode i).inum) (sym (others s h e))
              (old-Held s h (λ x. z (others s h e ∙ x)))
      ];
      distinct = λ s r h l z e. elim (ℕ_discrete s k) [
        | yes x ↦ elim (ℕ_discrete r k) [
          | yes y ↦ x ∙ sym y
          | no y ↦ absurd (
              taken-not_slot r l (λ q. z (e ∙ others r l y ∙ q))
                (sym (others r l y) ∙ sym e ∙ ap (slot u i) x ∙ here))
        ]
        | no x ↦ elim (ℕ_discrete r k) [
          | yes y ↦ absurd (
              taken-not_slot s h (λ q. z (others s h x ∙ q))
                (sym (others s h x) ∙ e ∙ ap (slot u i) y ∙ here))
          | no y ↦
              v.distinct s r h l (λ q. z (others s h x ∙ q)) (sym (others s h x) ∙ e ∙ others r l y)
        ]
      ];
    }
