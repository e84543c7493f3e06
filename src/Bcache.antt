-- ===== src/Bcache.antt =====
-- kernel/bio.c: the buffer cache. A buffer is named by its index in `bcache.buf[]`; the ring of
-- `prev` and `next` pointers is the list of these indices from `head.next` to `head.prev`.
-- `virtio_disk_rw` reads and writes whole blocks of the one disk. Whether the caller holds the
-- sleep lock of a buffer is an argument, and where `acquiresleep` waits, the call returns later.
pub mod Search
pub mod Contents
pub mod Read
pub mod Write
mod Tests
use project_opertating_syste.Base.{
  ℕ, zero, suc, ◌+◌, ◌-◌, ◌%◌, ◌^◌, ◌==◌, Bool, true, false, not, ◌&&◌, ◌||◌, Option, none, some,
  List, [], ◌∷◌, ◌++◌, if◌then◌else◌, update, Outcome, done, panic, ◌>>=◌, ◌>>◌, panic_if,
}
use project_opertating_syste.Buffers.{Block}

pub record Buf : Type 0 where
  pub valid : Bool
  pub dev : ℕ
  pub blockno : ℕ
  pub refcnt : ℕ
  pub content : Block

pub record Bcache : Type 0 where
  pub bufs : ℕ → Buf
  pub order : List ℕ
  pub disk : ℕ → Block

-- `b->dev == dev && b->blockno == blockno`
abbrev pub hit : ℕ → ℕ → Buf → Bool
hit dev blockno b = b.dev == dev && b.blockno == blockno

-- The search of `bget` from `head.next`.
unfoldable pub find_cached : ℕ → ℕ → (ℕ → Buf) → List ℕ → Option ℕ
find_cached dev blockno bufs [] = none
find_cached dev blockno bufs (i ∷ order) =
    let rest = find_cached dev blockno bufs order in
    if hit dev blockno (bufs i) then some i else rest

abbrev pub or_else : Option ℕ → Option ℕ → Option ℕ
or_else (some i) o = some i
or_else none o = o

-- The search of `bget` from `head.prev`: the last unused buffer of the list.
unfoldable pub find_unused : (ℕ → Buf) → List ℕ → Option ℕ
find_unused bufs [] = none
find_unused bufs (i ∷ order) =
    or_else (find_unused bufs order) (if (bufs i).refcnt == 0 then some i else none)

-- An assignment to the fields of `buf[i]`.
abbrev pub put_buf : ℕ → Buf → Bcache → Bcache
put_buf i b c = record c { bufs = update c.bufs i b }

abbrev pub up : ℕ → ℕ
up n = (n + 1) % 2 ^ 32

abbrev pub down : ℕ → ℕ
down n = (n + 2 ^ 32 - 1) % 2 ^ 32

-- What `bget` does with a buffer that has the block, else with an unused one.
unfoldable pub bget_with : ℕ → ℕ → Bcache → Option ℕ → Option ℕ → Outcome (ℕ × Bcache)
bget_with dev blockno c (some i) o =
    done (i, put_buf i (record (c.bufs i) { refcnt = up (c.bufs i).refcnt }) c)
bget_with dev blockno c none (some i) =
    done (
      i,
      put_buf i (record (c.bufs i) { dev = dev; blockno = blockno; valid = false; refcnt = 1 }) c,
    )
bget_with dev blockno c none none = panic

unfoldable pub bget : ℕ → ℕ → Bcache → Outcome (ℕ × Bcache)
bget dev blockno c =
    bget_with dev blockno c (find_cached dev blockno c.bufs c.order) (find_unused c.bufs c.order)

-- `if(!b->valid) { virtio_disk_rw(b, 0); b->valid = 1; }`
unfoldable pub fill : ℕ → Bcache → Bcache
fill i c =
    let b = c.bufs i in
    if not b.valid then put_buf i (record b { content = c.disk b.blockno; valid = true }) c else c

unfoldable pub bread : ℕ → ℕ → Bcache → Outcome (ℕ × Bcache)
bread dev blockno c = do got ← bget dev blockno c; done (got.0, fill got.0 got.1)

unfoldable pub bwrite : Bool → ℕ → Bcache → Outcome Bcache
bwrite holding i c = do
  panic_if (not holding)
  done (record c { disk = update c.disk (c.bufs i).blockno (c.bufs i).content })

-- The list without buffer `i`.
unfoldable pub unlink : ℕ → List ℕ → List ℕ
unlink i [] = []
unlink i (j ∷ order) = let rest = unlink i order in if j == i then rest else j ∷ rest

unfoldable pub brelse : Bool → ℕ → Bcache → Outcome Bcache
brelse holding i c = do
  panic_if (not holding)
  let left = down (c.bufs i).refcnt
  let c1 = put_buf i (record (c.bufs i) { refcnt = left }) c
  done (if left == 0 then record c1 { order = i ∷ unlink i c1.order } else c1)

unfoldable pub bpin : ℕ → Bcache → Bcache
bpin i c = put_buf i (record (c.bufs i) { refcnt = up (c.bufs i).refcnt }) c

unfoldable pub bunpin : ℕ → Bcache → Bcache
bunpin i c = put_buf i (record (c.bufs i) { refcnt = down (c.bufs i).refcnt }) c

-- `binit`: each buffer goes to the front. The array is zero before.
unfoldable pub binit : ℕ → List ℕ
binit zero = []
binit (suc n) = n ∷ binit n

abbrev pub nbuf : ℕ
nbuf = 30
