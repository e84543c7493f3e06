-- ===== src/Log/Crash/Recovery.antt =====
-- `initlog` of kernel/log.c on the disk that a crash left.
use project_opertating_syste.Base.{ℕ, ◌<◌, ◌≡◌, refl, ◌∙◌, sym, true, false, List, [], ◌∷◌}
use project_opertating_syste.Buffers.{Block, Buffers, bread, brelse, reboot}
use project_opertating_syste.Log.{Log, SuperBlock, get_head, read_head, recover_from_log, initlog}
use project_opertating_syste.Log.Listed.{listed, listed-eq}
use project_opertating_syste.Log.Crash.Phases.{Home, get_head_block}
use project_opertating_syste.Log.Crash.Settle.{
  entry, Image, settled, InLog, install_and_clear, install_and_clear-Image, disk-install_and_clear,
  settled-install_and_clear, cleared,
}

-- The disk after a boot that stops after `power` writes.
unfoldable pub boot : SuperBlock → ℕ → (ℕ → Block) → ℕ → Block
boot sb power d = (initlog sb (reboot power d)).1.disk

-- The disk after several boots, of which each may be cut short.
unfoldable pub boots : SuperBlock → List ℕ → (ℕ → Block) → ℕ → Block
boots sb [] d = d
boots sb (k ∷ ks) d = boots sb ks (boot sb k d)

module _ (sb : SuperBlock) (new d : ℕ → Block) (k : ℕ) where
  open sb use {logstart, nlog}

  -- The log and the buffers after `read_head`.
  abbrev lg : Log
  lg = record {
    start = logstart;
    size = nlog;
    outstanding = 0;
    committing = false;
    lh = get_head (d logstart) (record { n = 0; block = λ _. 0 });
  }

  abbrev s : Buffers
  s = brelse logstart (bread logstart (reboot k d))

  boot-eq : boot sb k d ≡ (install_and_clear true lg s).disk
  unfolding boot initlog recover_from_log read_head install_and_clear
  boot-eq = refl

  n_eq : lg.lh.n ≡ d logstart 0
  unfolding get_head
  n_eq = refl

  block_eq : (i : ℕ) → i < d logstart 0 → lg.lh.block i ≡ entry d logstart i
  block_eq = get_head_block (d logstart) (record { n = 0; block = λ _. 0 })

  booted-InLog : Image logstart nlog new d → InLog lg new s
  booted-InLog im = record {
    small = rw n_eq im.small;
    homes = λ i q. let q' = rw n_eq at q in rw (block_eq i q') (im.homes i q');
    cached = λ i q. let q' = rw n_eq at q in rw (block_eq i q') (im.logged i q');
    logged = λ i q. let q' = rw n_eq at q in rw (block_eq i q') (im.logged i q');
    head_n = sym n_eq;
    head_block = λ i q. let q' = rw n_eq at q in sym (block_eq i q');
  }

  -- A boot, complete or not, leaves a usable log.
  pub boot-Image : Image logstart nlog new d → Image logstart nlog new (boot sb k d)
  boot-Image im = rw boot-eq (install_and_clear-Image lg new s (booted-InLog im) true)

  listed_eq : (x : ℕ) → listed lg.lh.n lg.lh.block x ≡ listed (d logstart 0) (entry d logstart) x
  listed_eq x = rw n_eq (listed-eq (d logstart 0) lg.lh.block (entry d logstart) x block_eq)

  -- A boot, complete or not, does not change what the blocks settle to.
  pub settled-boot :
      Image logstart nlog new d
      → (x : ℕ) → Home logstart nlog x
      → settled logstart new (boot sb k d) x ≡ settled logstart new d x
  unfolding settled
  settled-boot im x h =
      rw (boot-eq, ← listed_eq x)
        (unfold settled in settled-install_and_clear lg new s (booted-InLog im) true x h)

  -- A boot that has the power it needs settles every block, and clears the header.
  pub boot_complete :
      Image logstart nlog new d
      → d logstart 0 < k
      → (boot sb k d logstart 0 ≡ 0)
        × ((x : ℕ) → Home logstart nlog x → boot sb k d x ≡ settled logstart new d x)
  unfolding settled
  boot_complete im p = rw boot-eq (
    cleared lg new s (booted-InLog im) true (rw n_eq p),
    λ x h.
        rw (← listed_eq x) (disk-install_and_clear lg new s (booted-InLog im) true (rw n_eq p) x h),
  )

module _ (sb : SuperBlock) (new : ℕ → Block) where
  open sb use {logstart, nlog}

  pub boots-Image :
      (ks : List ℕ) (d : ℕ → Block)
      → Image logstart nlog new d
      → Image logstart nlog new (boots sb ks d)
  unfolding boots
  boots-Image [] d im = im
  boots-Image (k ∷ ks) d im = boots-Image ks (boot sb k d) (boot-Image sb new d k im)

  pub settled-boots :
      (ks : List ℕ) (d : ℕ → Block)
      → Image logstart nlog new d
      → (x : ℕ) → Home logstart nlog x
      → settled logstart new (boots sb ks d) x ≡ settled logstart new d x
  unfolding boots
  settled-boots [] d im x h = refl
  settled-boots (k ∷ ks) d im x h =
      settled-boots ks (boot sb k d) (boot-Image sb new d k im) x h ∙ settled-boot sb new d k im x h
