-- ===== src/Pipe.antt =====
-- kernel/pipe.c: pipes. A call runs under `pi->lock` from where it starts, or where it wakes up,
-- to where it sleeps or returns: one function here, a segment. What `killed(pr)` says at byte `i`
-- and what `copyin` and `copyout` do with byte `i` are arguments, since other processes may set
-- `killed`, and the bytes are the user's.
pub mod Fifo
pub mod Write
pub mod Read
mod Tests
use project_opertating_syste.Base.{
  ℕ, zero, suc, ◌+◌, ◌%◌, ◌^◌, ◌==◌, Bool, true, false, not, ◌&&◌, ◌||◌, Option, none, some, List,
  [], ◌∷◌, ◌++◌, if◌then◌else◌, update,
}

abbrev pub pipe_size : ℕ
pipe_size = 512

-- `uint` arithmetic
abbrev pub u32 : ℕ → ℕ
u32 n = n % 2 ^ 32

pub record Pipe : Type 0 where
  pub buf : ℕ → ℕ  -- `data`
  pub nread : ℕ
  pub nwrite : ℕ
  pub readopen : Bool
  pub writeopen : Bool

-- The pipe that `pipealloc` sets up in the page `buf`.
unfoldable pub pipealloc : (ℕ → ℕ) → Pipe
pipealloc buf = record { buf = buf; nread = 0; nwrite = 0; readopen = true; writeopen = true }

-- The channels: the addresses of the two counters.
pub data Chan : Type 0 where
  at_nread at_nwrite : Chan

-- `pipeclose`: the pipe, the channel that it wakes, and whether it frees the page.
unfoldable pub pipeclose : Bool → Pipe → Pipe × Chan × Bool
pipeclose writable pi = (after, chan, not after.readopen && not after.writeopen)
  where
    after : Pipe
    after = if writable then record pi { writeopen = false } else record pi { readopen = false }

    chan : Chan
    chan = if writable then at_nread else at_nwrite

-- `pi->data[pi->nwrite++ % PIPESIZE] = ch`
unfoldable pub put : ℕ → Pipe → Pipe
put ch pi = record pi {
  buf = update pi.buf (pi.nwrite % pipe_size) ch;
  nwrite = u32 (pi.nwrite + 1);
}

-- `pi->nread++`
unfoldable pub drop_first : Pipe → Pipe
drop_first pi = record pi { nread = u32 (pi.nread + 1) }

abbrev pub is_full : Pipe → Bool
is_full pi = pi.nwrite == u32 (pi.nread + pipe_size)

abbrev pub is_empty : Pipe → Bool
is_empty pi = pi.nread == pi.nwrite

-- How a segment ends; `none` is the return value -1.
pub data Stop : Type 0 where
  slept : ℕ → Stop
  returned : Option ℕ → Stop

-- The pipe after a segment, the channels woken in it, the bytes copied out, and its end.
pub record Segment : Type 0 where
  pub pipe : Pipe
  pub woken : List Chan
  pub out : List ℕ
  pub stop : Stop

module _ (killed : ℕ → Bool) (fetch : ℕ → Option ℕ) where
  -- After the loop of `pipewrite`.
  abbrev pub write_end : ℕ → Pipe → Segment
  write_end i pi = record { pipe = pi; woken = at_nread ∷ []; out = []; stop = returned (some i) }

  -- `pipewrite` from byte `i` on, with `m` bytes left. `fetch i` is what `copyin` gets at
  -- `addr + i`, if it does not fail.
  unfoldable pub pipewrite : ℕ → ℕ → Pipe → Segment
  pipewrite zero i pi = write_end i pi
  pipewrite (suc m) i pi =
      let next : Segment = elim (fetch i) [
        | none ↦ write_end i pi
        | some ch ↦ pipewrite m (i + 1) (put ch pi)
      ] in
      if not pi.readopen || killed i
      then record { pipe = pi; woken = []; out = []; stop = returned none }
      else if is_full pi
      then record { pipe = pi; woken = at_nread ∷ []; out = []; stop = slept i }
      else next

module _ (store : ℕ → Bool) where
  -- The `for` loop of `piperead`, with `m` rounds left; `out` are the bytes copied so far, and
  -- `store i` says whether `copyout` to `addr + i` succeeds.
  unfoldable pub read_loop : ℕ → ℕ → List ℕ → Pipe → ℕ × List ℕ × Pipe
  read_loop zero i out pi = (i, out, pi)
  read_loop (suc m) i out pi =
      let ch = pi.buf (pi.nread % pipe_size) in
      let next : ℕ × List ℕ × Pipe = elim (store i) [
        | true ↦ read_loop m (i + 1) (out ++ (ch ∷ [])) (drop_first pi)
        | false ↦ (i, out, drop_first pi)
      ] in
      if is_empty pi then (i, out, pi) else next

  -- `piperead` of `n` bytes, from its start or from where it wakes up.
  unfoldable pub piperead : Bool → ℕ → Pipe → Segment
  piperead was_killed n pi =
      if is_empty pi && pi.writeopen
      then record {
        pipe = pi;
        woken = [];
        out = [];
        stop = if was_killed then returned none else slept 0;
      }
      else let (i, out, pi') = read_loop n 0 [] pi in
        record { pipe = pi'; woken = at_nwrite ∷ []; out = out; stop = returned (some i) }
