-- ===== src/Log/Crash/Atomic.antt =====
-- `commit` of kernel/log.c, cut short anywhere, and then any boots, cut short anywhere.
use project_opertating_syste.Base.{
  ℕ, ◌+◌, ◌-◌, ◌≤◌, ◌<◌, ◌≡◌, ap, ◌∙◌, true, false, ◌&&◌, List, arith, dec_lt, ltb, ltb-false,
  lt→ltb, Bool-cases, inl, inr, if◌then◌else◌,
}
use project_opertating_syste.Buffers.{Block, Buffers}
use project_opertating_syste.Log.{Log, SuperBlock, write_log, write_head, install_trans, commit}
use project_opertating_syste.Log.Listed.{listed, listed-zero}
use project_opertating_syste.Log.Crash.Phases.{
  Home, put_head_n, put_head_block, Copied, write_log-Copied, Installed, install-Installed,
}
use project_opertating_syste.Log.Crash.Settle.{
  Image, settled, InLog, install_and_clear, install_and_clear-Image, settled-install_and_clear,
  cleared, disk-install_and_clear,
}
use project_opertating_syste.Log.Crash.Recovery.{
  boot, boots, boot_complete, boots-Image, settled-boots,
}

-- What the log needs to know of the disk.
abbrev pub super_block : Log → SuperBlock
super_block lg = record { nlog = lg.size; logstart = lg.start }

-- What holds when `commit` is called: the log has room, it lists blocks outside itself, and the
-- header on the disk lists nothing.
pub record IsReady (lg : Log) (s : Buffers) : Type 0 where
  pub small : lg.lh.n < lg.size
  pub homes : (i : ℕ) → i < lg.lh.n → Home lg.start lg.size (lg.lh.block i)
  pub clean : s.disk lg.start 0 ≡ 0

module _ (lg : Log) (s : Buffers) (ready : IsReady lg s) where
  open ready use {small, homes, clean}

  -- The buffers after `write_log`, and after the header is written.
  abbrev s1 : Buffers
  s1 = write_log lg s

  abbrev s2 : Buffers
  s2 = write_head lg s1

  copied : Copied lg s s1 lg.lh.n
  unfolding write_log
  copied = write_log-Copied lg small homes s lg.lh.n (omega arith)

  s2_view : (x : ℕ) → Home lg.start lg.size x → s2.view x ≡ s.view x
  unfolding write_head
  s2_view x h = ground (arith, copied.view_home x h)

  s2_disk : (x : ℕ) → Home lg.start lg.size x → s2.disk x ≡ s.disk x
  unfolding write_head
  s2_disk x h = ground (arith, copied.disk_home x h)

  -- With power for the header the whole transaction is in the log.
  committed-InLog : lg.lh.n < s.power → InLog lg s.view s2
  unfolding write_head
  committed-InLog p = record {
    small = small;
    homes = homes;
    cached = λ i q. ground (arith, copied.view_log i q);
    logged = λ i q. ground (arith, copied.disk_log i q, copied.power);
    head_n = ground (arith, copied.power, put_head_n lg.lh (s1.view lg.start));
    head_block = λ i q. ground (arith, copied.power, put_head_block lg.lh (s1.view lg.start) i q);
  }

  s3-Installed : Installed lg s.view s2 (install_trans false lg s2) lg.lh.n
  unfolding install_trans write_head
  s3-Installed =
      install-Installed lg small homes s.view s2 (λ i q. ground (arith, copied.view_log i q)) false
        lg.lh.n (omega arith)

  -- Without it the header on the disk stays clear.
  s2_power : s2.power ≡ s.power - lg.lh.n - 1
  unfolding write_head
  s2_power = rw (copied.power)

  lost_disk : s.power ≤ lg.lh.n → (x : ℕ) → (install_and_clear false lg s2).disk x ≡ s1.disk x
  unfolding install_and_clear write_head
  lost_disk p x =
      let s3_power : (install_trans false lg s2).power ≡ s2.power - lg.lh.n = s3-Installed.power in
      let z : s2.power ≡ 0 = omega (arith, s2_power) in
      ground (arith, copied.power, s3_power, s3-Installed.dead z x)

  crash_disk : ℕ → Block
  crash_disk = (commit lg s).1.disk

  crash_disk_empty : ltb 0 lg.lh.n ≡ false → crash_disk ≡ s.disk
  unfolding crash_disk commit
  crash_disk_empty e = rw (e, crash_disk)

  crash_disk_full : ltb 0 lg.lh.n ≡ true → crash_disk ≡ (install_and_clear false lg s2).disk
  unfolding crash_disk commit install_and_clear
  crash_disk_full e = rw (e, crash_disk)

  -- The three ways in which `commit` can end.
  data Ending : Type 0 where
    empty : lg.lh.n ≡ 0 → crash_disk ≡ s.disk → Ending
    lost : s.power ≤ lg.lh.n → ((x : ℕ) → crash_disk x ≡ s1.disk x) → Ending
    logged : lg.lh.n < s.power → crash_disk ≡ (install_and_clear false lg s2).disk → Ending

  ending : Ending
  ending = elim (Bool-cases (ltb 0 lg.lh.n)) [
    | inr none ↦ empty (ground arith) (crash_disk_empty none)
    | inl some ↦ elim (dec_lt lg.lh.n s.power) [
      | yes p ↦ logged p (crash_disk_full some)
      | no p ↦
          let q : s.power ≤ lg.lh.n = omega arith in
          lost q (λ x. rw (crash_disk_full some) (lost_disk q x))
    ]
  ]

  clear-Image : (d : ℕ → Block) → d lg.start 0 ≡ 0 → Image lg.start lg.size s.view d
  clear-Image d z = record {
    small = omega (arith, small);
    homes = λ i q. absurd (omega arith);
    logged = λ i q. absurd (omega arith);
  }

  -- A log with a clear header has nothing to settle.
  settled_of_clear : (d : ℕ → Block) (x : ℕ) → d lg.start 0 ≡ 0 → settled lg.start s.view d x ≡ d x
  unfolding settled listed
  settled_of_clear d x z = rw z

  lost-clear : ((x : ℕ) → crash_disk x ≡ s1.disk x) → crash_disk lg.start 0 ≡ 0
  lost-clear e = ap (λ b. b 0) (e lg.start ∙ copied.disk_head) ∙ clean

  crash-Image : Image lg.start lg.size s.view crash_disk
  crash-Image = elim ending [
    | empty _ e ↦ clear-Image crash_disk (rw e clean)
    | lost _ e ↦ clear-Image crash_disk (lost-clear e)
    | logged p e ↦ rw e (install_and_clear-Image lg s.view s2 (committed-InLog p) false)
  ]

  settled-crash :
      (x : ℕ)
      → Home lg.start lg.size x
      → settled lg.start s.view crash_disk x
        ≡ (if ltb lg.lh.n s.power && listed lg.lh.n lg.lh.block x then s.view x else s.disk x)
  settled-crash x h = elim ending [
    | empty z e ↦
        settled_of_clear crash_disk x (rw e clean)
        ∙ ground (arith, listed-zero lg.lh.block x, ap (λ (d : ℕ → Block). d x) e)
    | lost p e ↦
        settled_of_clear crash_disk x (lost-clear e)
        ∙ e x
        ∙ rw (ltb-false lg.lh.n s.power p) (copied.disk_home x h)
    | logged p e ↦
        rw (e, lt→ltb lg.lh.n s.power p, ← s2_disk x h)
          (settled-install_and_clear lg s.view s2 (committed-InLog p) false x h)
  ]

  -- Cut `commit` short after any number of disk writes, and then any number of boots; the first
  -- boot with power for the whole log leaves each block outside the log as if the transaction had
  -- happened wholly, if `commit` wrote more blocks than the log lists, and else not at all.
  pub commit_crash_safe :
      (ks : List ℕ) (k : ℕ)
      → lg.size ≤ k
      → (x : ℕ) → Home lg.start lg.size x
      → boot (super_block lg) k (boots (super_block lg) ks (commit lg s).1.disk) x
        ≡ (if ltb lg.lh.n s.power && listed lg.lh.n lg.lh.block x then s.view x else s.disk x)
  unfolding crash_disk
  commit_crash_safe ks k p x h =
      let im = boots-Image (super_block lg) s.view ks crash_disk crash-Image in
      (boot_complete (super_block lg) s.view (boots (super_block lg) ks crash_disk) k im
          (omega (arith, im.small))).1
        x h
      ∙ settled-boots (super_block lg) s.view ks crash_disk crash-Image x h
      ∙ settled-crash x h

  -- With power to the end, `commit` empties the log, in memory and on the disk, each listed block
  -- has its cached content on the disk, and every other block outside the log is as it was.
  pub commit_complete :
      lg.lh.n + lg.lh.n + 1 < s.power
      → ((commit lg s).0.lh.n ≡ 0)
        × ((commit lg s).1.disk lg.start 0 ≡ 0)
        × ((x : ℕ)
            → Home lg.start lg.size x
            → (commit lg s).1.disk x
              ≡ (if listed lg.lh.n lg.lh.block x then s.view x else s.disk x))
  unfolding crash_disk
  commit_complete p = (
    n_after,
    elim (Bool-cases (ltb 0 lg.lh.n)) [
      | inr none ↦ rw (ap (λ d. d lg.start 0) (crash_disk_empty none)) clean
      | inl some ↦
          ap (λ d. d lg.start 0) (crash_disk_full some)
          ∙ cleared lg s.view s2 (committed-InLog (omega arith)) false left
    ],
    λ x h. elim (Bool-cases (ltb 0 lg.lh.n)) [
      | inr none ↦
          let z : lg.lh.n ≡ 0 = ground arith in
          ap (λ d. d x) (crash_disk_empty none) ∙ ground (arith, listed-zero lg.lh.block x)
      | inl some ↦
          ap (λ d. d x) (crash_disk_full some)
          ∙ rw (← s2_disk x h)
              (disk-install_and_clear lg s.view s2 (committed-InLog (omega arith)) false left x h)
    ],
  )
    where
      left : lg.lh.n < s2.power
      left = omega (arith, s2_power)

      n_after : (commit lg s).0.lh.n ≡ 0
      n_after = unfold commit in ground arith
