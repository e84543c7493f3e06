-- ===== src/Log/Crash/Settle.antt =====
-- The log as a crash leaves it on the disk, and what installing from it comes to.
use project_opertating_syste.Base.{
  ℕ, ◌+◌, ◌≤◌, ◌<◌, ◌≡◌, inl, inr, ◌≢◌, Bool, arith, ap, ◌∙◌, subst, dec_lt, if◌then◌else◌,
  Bool-cases,
}
use project_opertating_syste.Buffers.{Block, Buffers}
use project_opertating_syste.Log.{Log, with_n, install_trans, write_head}
use project_opertating_syste.Log.Listed.{listed, listed-false, listed-true, listed-eq}
use project_opertating_syste.Log.Crash.Phases.{Home, put_head_n, Installed, install-Installed}

-- The entries of the header block at `start`.
abbrev pub entry : (ℕ → Block) → ℕ → ℕ → ℕ
entry d start i = d start (i + 1)

-- What the header on the disk claims is there, and is the content meant for its home.
pub record Image (start size : ℕ) (new d : ℕ → Block) : Type 0 where
  pub small : d start 0 < size
  pub homes : (i : ℕ) → i < d start 0 → Home start size (entry d start i)
  pub logged : (i : ℕ) → i < d start 0 → d (start + i + 1) ≡ new (entry d start i)

-- The content that block `x` has once the log on the disk is installed.
unfoldable pub settled : ℕ → (new d : ℕ → Block) → ℕ → Block
settled start new d x = if listed (d start 0) (entry d start) x then new x else d x

-- A state in which a transaction is in the log, on the disk and in the cache.
pub record InLog (lg : Log) (new : ℕ → Block) (s : Buffers) : Type 0 where
  pub small : lg.lh.n < lg.size
  pub homes : (i : ℕ) → i < lg.lh.n → Home lg.start lg.size (lg.lh.block i)
  pub cached : (i : ℕ) → i < lg.lh.n → s.view (lg.start + i + 1) ≡ new (lg.lh.block i)
  pub logged : (i : ℕ) → i < lg.lh.n → s.disk (lg.start + i + 1) ≡ new (lg.lh.block i)
  pub head_n : s.disk lg.start 0 ≡ lg.lh.n
  pub head_block : (i : ℕ) → i < lg.lh.n → s.disk lg.start (i + 1) ≡ lg.lh.block i

-- The end of `commit` and of `recover_from_log`: install, and clear the header.
unfoldable pub install_and_clear : Bool → Log → Buffers → Buffers
install_and_clear r lg s = write_head (with_n 0 lg) (install_trans r lg s)

module _ (lg : Log) (new : ℕ → Block) (s : Buffers) (l : InLog lg new s) (r : Bool) where
  abbrev t : Buffers
  t = install_trans r lg s

  abbrev u : Buffers
  u = install_and_clear r lg s

  installs : Installed lg new s t lg.lh.n
  unfolding install_trans
  installs = install-Installed lg l.small l.homes new s l.cached r lg.lh.n (omega arith)

  disk_other : (x : ℕ) → x ≢ lg.start → u.disk x ≡ t.disk x
  unfolding install_and_clear write_head
  disk_other x h = ground arith

  -- With power to the end the header is cleared.
  pub cleared : lg.lh.n < s.power → u.disk lg.start 0 ≡ 0
  unfolding install_and_clear write_head
  cleared h =
      ground (
        arith,
        installs.power,
        put_head_n (record { n = 0; block = lg.lh.block }) (t.view lg.start),
      )

  kept : s.power ≤ lg.lh.n → u.disk lg.start ≡ s.disk lg.start
  unfolding install_and_clear write_head
  kept h = ground (arith, installs.power, installs.disk_head)

  listed-entry :
      (d : ℕ → Block) (x : ℕ)
      → d lg.start ≡ s.disk lg.start
      → listed (d lg.start 0) (entry d lg.start) x ≡ listed lg.lh.n lg.lh.block x
  listed-entry d x e = rw (ap (λ b. b 0) e ∙ l.head_n) (
      listed-eq lg.lh.n (entry d lg.start) lg.lh.block x
        λ i q. ap (λ b. b (i + 1)) e ∙ l.head_block i q)

  Image-cleared : lg.lh.n < s.power → Image lg.start lg.size new u.disk
  Image-cleared h =
      let z = cleared h in
      record {
        small = omega (arith, l.small);
        homes = λ i q. absurd (omega arith);
        logged = λ i q. absurd (omega arith);
      }

  Image-kept : s.power ≤ lg.lh.n → Image lg.start lg.size new u.disk
  Image-kept h =
      let k = kept h in
      let n : u.disk lg.start 0 ≡ lg.lh.n = ap (λ b. b 0) k ∙ l.head_n in
      record {
        small = omega (arith, l.small);
        homes = λ i q.
            let q' : i < lg.lh.n = omega arith in
            rw (ap (λ b. b (i + 1)) k ∙ l.head_block i q') (l.homes i q');
        logged = λ i q.
            let q' : i < lg.lh.n = omega arith in
            rw (ap (λ b. b (i + 1)) k ∙ l.head_block i q') (
              disk_other (lg.start + i + 1) (omega arith) ∙ installs.disk_log i q' ∙ l.logged i q');
      }

  -- Wherever the power fails, the log on the disk stays usable.
  pub install_and_clear-Image : Image lg.start lg.size new u.disk
  install_and_clear-Image = elim (dec_lt lg.lh.n s.power) [
    | yes h ↦ Image-cleared h
    | no h ↦ Image-kept (omega arith)
  ]

  -- With power to the end, each listed block is in place, and the others are as they were.
  pub disk-install_and_clear :
      lg.lh.n < s.power
      → (x : ℕ) → Home lg.start lg.size x
      → u.disk x ≡ (if listed lg.lh.n lg.lh.block x then new x else s.disk x)
  disk-install_and_clear h x q =
      disk_other x (omega (arith, l.small)) ∙ elim (Bool-cases (listed lg.lh.n lg.lh.block x)) [
        | inl e ↦ rw e (
            let (i, k, same) = listed-true lg.lh.n lg.lh.block x e in
            subst (λ y. t.disk y ≡ new y) same (installs.installed i k (omega arith)))
        | inr e ↦ rw e (installs.other x λ i k. listed-false lg.lh.n lg.lh.block x i e k)
      ]

  settled-kept :
      s.power ≤ lg.lh.n
      → (x : ℕ) → Home lg.start lg.size x
      → settled lg.start new u.disk x ≡ (if listed lg.lh.n lg.lh.block x then new x else s.disk x)
  unfolding settled
  settled-kept h x q =
      rw (listed-entry u.disk x (kept h)) (elim (Bool-cases (listed lg.lh.n lg.lh.block x)) [
        | inl e ↦ rw e
        | inr e ↦ rw e (
            disk_other x (omega (arith, l.small))
            ∙ installs.other x λ i k. listed-false lg.lh.n lg.lh.block x i e k)
      ])

  -- Wherever the power fails, the blocks settle to the same contents.
  pub settled-install_and_clear :
      (x : ℕ)
      → Home lg.start lg.size x
      → settled lg.start new u.disk x ≡ (if listed lg.lh.n lg.lh.block x then new x else s.disk x)
  unfolding settled listed
  settled-install_and_clear x q = elim (dec_lt lg.lh.n s.power) [
    | yes h ↦ rw (cleared h) (disk-install_and_clear h x q)
    | no h ↦ settled-kept (omega arith) x q
  ]
