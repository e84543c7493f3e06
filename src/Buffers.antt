-- ===== src/Buffers.antt =====
-- What the buffer cache of kernel/bio.c promises to the layers above it, with one disk below.
-- `view b` is the content that a holder of block `b` sees, `disk b` what the disk holds, `ref b`
-- how many references to its buffer there are, and `power` how many more disk writes happen
-- before the machine stops: what is written after that is lost. `Bcache` has the real cache.
use project_opertating_syste.Base.{ℕ, ◌+◌, ◌-◌, ◌==◌, if◌then◌else◌, update}

-- A block by its 32-bit words.
abbrev pub Block : Type 0
Block = ℕ → ℕ

pub record Buffers : Type 0 where
  pub view : ℕ → Block
  pub disk : ℕ → Block
  pub ref : ℕ → ℕ
  pub power : ℕ

abbrev pub bread : ℕ → Buffers → Buffers
bread b s = record s { ref = update s.ref b (s.ref b + 1) }

abbrev pub brelse : ℕ → Buffers → Buffers
brelse b s = record s { ref = update s.ref b (s.ref b - 1) }

abbrev pub bpin : ℕ → Buffers → Buffers
bpin b s = record s { ref = update s.ref b (s.ref b + 1) }

abbrev pub bunpin : ℕ → Buffers → Buffers
bunpin b s = record s { ref = update s.ref b (s.ref b - 1) }

-- A store into the data of the buffer of `b`.
abbrev pub modify : ℕ → Block → Buffers → Buffers
modify b c s = record s { view = update s.view b c }

abbrev pub bwrite : ℕ → Buffers → Buffers
bwrite b s = record s {
  disk = if s.power == 0 then s.disk else update s.disk b (s.view b);
  power = s.power - 1;
}

-- The machine starts again with what is on the disk, and stops after `power` more writes.
abbrev pub reboot : ℕ → (ℕ → Block) → Buffers
reboot power disk = record { view = disk; disk = disk; ref = λ _. 0; power = power }
