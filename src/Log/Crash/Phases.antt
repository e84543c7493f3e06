-- ===== src/Log/Crash/Phases.antt =====
-- What each phase of a commit leaves on the disk, wherever the power fails.
use project_opertating_syste.Base.{
  ℕ, zero, suc, ◌+◌, ◌-◌, ◌≤◌, ◌<◌, ◌≡◌, refl, ◌⊎◌, inl, ◌≢◌, Bool, arith, for_up, update,
}
use project_opertating_syste.Buffers.{Block, Buffers}
use project_opertating_syste.Log.{LogHeader, Log, install_one, put_head, get_head, write_log_one}

-- A block outside the log, which has `size` blocks from `start` on.
abbrev pub Home : (start size : ℕ) → ℕ → Type 0
Home start size x = (x < start) ⊎ (start + size ≤ x)

-- The header's words, for the entries that count.
pub put_head_n : (lh : LogHeader) (hb : Block) → put_head lh hb 0 ≡ lh.n
unfolding put_head
put_head_n lh hb = go lh.n
  where
    go : (m : ℕ) → for_up m (λ i c. update c (i + 1) (lh.block i)) (update hb 0 lh.n) 0 ≡ lh.n
    go zero = refl
    go (suc m) = ground (arith, go m)

pub put_head_block :
    (lh : LogHeader) (hb : Block) (i : ℕ) → i < lh.n → put_head lh hb (i + 1) ≡ lh.block i
unfolding put_head
put_head_block lh hb i h = go lh.n h
  where
    go :
        (m : ℕ)
        → i < m
        → for_up m (λ i c. update c (i + 1) (lh.block i)) (update hb 0 lh.n) (i + 1) ≡ lh.block i
    go zero h = elim h [ ]
    go (suc m) h = ground (arith, go m)

pub get_head_block :
    (hb : Block) (lh : LogHeader) (i : ℕ) → i < hb 0 → (get_head hb lh).block i ≡ hb (i + 1)
unfolding get_head
get_head_block hb lh i h = go (hb 0) h
  where
    go : (m : ℕ) → i < m → for_up m (λ i c. update c i (hb (i + 1))) lh.block i ≡ hb (i + 1)
    go zero h = elim h [ ]
    go (suc m) h = ground (arith, go m)

-- `write_log` copies the cached blocks into the log, as far as the power lasts, and touches
-- nothing else.
pub record Copied (lg : Log) (s t : Buffers) (m : ℕ) : Type 0 where
  pub power : t.power ≡ s.power - m
  pub view_home : (x : ℕ) → Home lg.start lg.size x → t.view x ≡ s.view x
  pub view_log : (i : ℕ) → i < m → t.view (lg.start + i + 1) ≡ s.view (lg.lh.block i)
  pub disk_home : (x : ℕ) → Home lg.start lg.size x → t.disk x ≡ s.disk x
  pub disk_head : t.disk lg.start ≡ s.disk lg.start
  pub disk_log : (i : ℕ) → i < m → m ≤ s.power → t.disk (lg.start + i + 1) ≡ s.view (lg.lh.block i)

module _ (lg : Log) (small : lg.lh.n < lg.size)
    (homes : (i : ℕ) → i < lg.lh.n → Home lg.start lg.size (lg.lh.block i)) where
  write_log_one-Copied :
      (s t : Buffers) (m : ℕ)
      → m < lg.lh.n
      → Copied lg s t m
      → Copied lg s (write_log_one lg m t) (suc m)
  unfolding write_log_one
  write_log_one-Copied s t m h ih = record {
    power = ground (arith, ih.power);
    view_home = λ x q. ground (arith, ih.view_home x q);
    view_log = λ i q. ground (arith, ih.view_log i, ih.view_home (lg.lh.block m), homes m);
    disk_home = λ x q. ground (arith, ih.disk_home x q);
    disk_head = ground (arith, ih.disk_head);
    disk_log =
        λ i q r. ground (arith, ih.power, ih.disk_log i, ih.view_home (lg.lh.block m), homes m);
  }

  pub write_log-Copied :
      (s : Buffers) (m : ℕ) → m ≤ lg.lh.n → Copied lg s (for_up m (write_log_one lg) s) m
  write_log-Copied s zero h = record {
    power = omega arith;
    view_home = λ x _. refl;
    view_log = λ i q. elim q [ ];
    disk_home = λ x _. refl;
    disk_head = refl;
    disk_log = λ i q. elim q [ ];
  }
  write_log-Copied s (suc m) h = write_log_one-Copied s _ m h (write_log-Copied s m (omega arith))

-- Installing writes only to home blocks, each with the content that the log holds for it.
-- `new` is that content, `before` the disk from which the installing started.
pub record Installed (lg : Log) (new : ℕ → Block) (s t : Buffers) (m : ℕ) : Type 0 where
  pub power : t.power ≡ s.power - m
  pub view_log : (i : ℕ) → i < lg.lh.n → t.view (lg.start + i + 1) ≡ s.view (lg.start + i + 1)
  pub view_head : t.view lg.start ≡ s.view lg.start
  pub disk_log : (i : ℕ) → i < lg.lh.n → t.disk (lg.start + i + 1) ≡ s.disk (lg.start + i + 1)
  pub disk_head : t.disk lg.start ≡ s.disk lg.start
  pub other : (x : ℕ) → ((i : ℕ) → i < m → lg.lh.block i ≢ x) → t.disk x ≡ s.disk x
  pub dead : s.power ≡ 0 → (x : ℕ) → t.disk x ≡ s.disk x
  pub either : (x : ℕ) → (t.disk x ≡ s.disk x) ⊎ (t.disk x ≡ new x)
  pub installed : (i : ℕ) → i < m → m ≤ s.power → t.disk (lg.lh.block i) ≡ new (lg.lh.block i)

module _ (lg : Log) (small : lg.lh.n < lg.size)
    (homes : (i : ℕ) → i < lg.lh.n → Home lg.start lg.size (lg.lh.block i)) (new : ℕ → Block)
    (s : Buffers)
    (logged : (i : ℕ) → i < lg.lh.n → s.view (lg.start + i + 1) ≡ new (lg.lh.block i)) where
  install_one-Installed :
      (r : Bool) (t : Buffers) (m : ℕ)
      → m < lg.lh.n
      → Installed lg new s t m
      → Installed lg new s (install_one r lg m t) (suc m)
  unfolding install_one
  install_one-Installed r t m h ih = record {
    power = ground (arith, ih.power);
    view_log = λ i q. ground (arith, ih.view_log i q, homes m h);
    view_head = ground (arith, ih.view_head, homes m h);
    disk_log = λ i q. ground (arith, ih.disk_log i q, homes m h);
    disk_head = ground (arith, ih.disk_head, homes m h);
    other = λ x q. ground (arith, ih.other x (λ i k. q i (omega arith)), q m);
    dead = λ z x. ground (arith, ih.power, ih.dead z x);
    either = λ x. ground (arith, ih.either x, ih.view_log m h, logged m h);
    installed = λ i q k. ground (arith, ih.power, ih.installed i, ih.view_log m h, logged m h);
  }

  pub install-Installed :
      (r : Bool) (m : ℕ) → m ≤ lg.lh.n → Installed lg new s (for_up m (install_one r lg) s) m
  install-Installed r zero h = record {
    power = omega arith;
    view_log = λ i _. refl;
    view_head = refl;
    disk_log = λ i _. refl;
    disk_head = refl;
    other = λ x _. refl;
    dead = λ _ x. refl;
    either = λ x. inl refl;
    installed = λ i q. elim q [ ];
  }
  install-Installed r (suc m) h =
      install_one-Installed r _ m h (install-Installed r m (omega arith))
