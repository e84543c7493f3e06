-- ===== src/Pipe/Fifo.antt =====
-- The bytes in a pipe, oldest first, and what `pi->nwrite++` and `pi->nread++` do to them.
use project_opertating_syste.Base.{
  ℕ, zero, suc, ◌+◌, ◌-◌, ◌%◌, ◌^◌, ◌≤◌, ◌<◌, ◌≡◌, refl, ap, ap₂, false, List, [], ◌∷◌, ◌++◌, arith,
  ◌==◌, update, length,
}
use project_opertating_syste.Pipe.{Pipe, pipe_size, u32, put, drop_first, is_full, is_empty}

-- How many bytes are in the pipe: the counters are `uint`, and wrap.
abbrev pub count : Pipe → ℕ
count pi = (pi.nwrite + 2 ^ 32 - pi.nread) % 2 ^ 32

pub record IsValid (pi : Pipe) : Type 0 where
  pub read_fits : pi.nread < 2 ^ 32
  pub write_fits : pi.nwrite < 2 ^ 32
  pub bounded : count pi ≤ pipe_size

-- The `k` bytes from counter `r` on.
abbrev pub window : (ℕ → ℕ) → ℕ → ℕ → List ℕ
window buf r zero = []
window buf r (suc k) = buf (r % pipe_size) ∷ window buf (u32 (r + 1)) k

abbrev pub contents : Pipe → List ℕ
contents pi = window pi.buf pi.nread (count pi)

pub length-window : (buf : ℕ → ℕ) (r k : ℕ) → length (window buf r k) ≡ k
length-window buf r zero = refl
length-window buf r (suc k) = ap suc (length-window buf (u32 (r + 1)) k)

-- A write past the window, with room left, leaves the window and adds a byte at its end.
window-update :
    (buf : ℕ → ℕ) (r k ch w : ℕ)
    → r < 2 ^ 32
    → k < pipe_size
    → w % pipe_size ≡ (r + k) % pipe_size
    → window (update buf (w % pipe_size) ch) r (suc k) ≡ window buf r k ++ (ch ∷ [])
window-update buf r zero ch w h q e = ground arith
window-update buf r (suc k) ch w h q e =
    ap₂ ◌∷◌ (ground arith)
      (window-update buf (u32 (r + 1)) k ch w (omega arith) (omega arith) (omega arith))

module _ (pi : Pipe) (v : IsValid pi) where
  open v use {read_fits, write_fits, bounded}

  -- The test of `pipewrite` for a full pipe is exact.
  pub is_full-count : is_full pi ≡ (count pi == pipe_size)
  is_full-count = ground arith

  pub is_empty-count : is_empty pi ≡ (count pi == 0)
  is_empty-count = ground arith

  pub count-put : (ch : ℕ) → is_full pi ≡ false → count (put ch pi) ≡ count pi + 1
  unfolding put
  count-put ch h = ground arith

  pub put-IsValid : (ch : ℕ) → is_full pi ≡ false → IsValid (put ch pi)
  unfolding put
  put-IsValid ch h = ground arith

  -- Writing a byte adds it at the end.
  pub contents-put : (ch : ℕ) → is_full pi ≡ false → contents (put ch pi) ≡ contents pi ++ (ch ∷ [])
  contents-put ch h =
      let one_more : count (put ch pi) ≡ suc (count pi) = omega (arith, count-put ch h) in
      let room : count pi < pipe_size = ground (arith, is_full-count) in
      rw one_more (
        unfold put in
        window-update pi.buf pi.nread (count pi) ch pi.nwrite read_fits room (omega arith))

  pub drop_first-IsValid : is_empty pi ≡ false → IsValid (drop_first pi)
  unfolding drop_first
  drop_first-IsValid h = ground arith

  -- Reading a byte takes it from the front.
  pub contents-drop_first :
      is_empty pi ≡ false → contents pi ≡ pi.buf (pi.nread % pipe_size) ∷ contents (drop_first pi)
  unfolding drop_first
  contents-drop_first h =
      let one_more : count pi ≡ suc (count (drop_first pi)) = ground arith in rw one_more
