-- ===== src/Bcache/Tests.antt =====
-- A cache of two buffers on concrete blocks.
use project_opertating_syste.Base.{◌≡◌, refl, true, false, arith, update, done}
use project_opertating_syste.Bcache.{Bcache, bread, brelse, bwrite, binit}
use project_opertating_syste.Bcache.Contents.{Inv}
use project_opertating_syste.Bcache.Read.{Read, GotOrFull, bread-Read, Countable}
use project_opertating_syste.Bcache.Write.{Released, Written, brelse-Released, bwrite-Written}

-- As `binit` leaves the buffers; block `b` of the disk has `b` in each word.
abbrev empty : Bcache
empty = record {
  bufs = λ i. record { valid = false; dev = 0; blockno = 0; refcnt = 0; content = λ _. 0 };
  order = binit 2;
  disk = λ b _. b;
}

empty-Inv : Inv 1 empty
empty-Inv = record {
  device = λ i m l. absurd (ground arith);
  unique = λ dev b i j z m m' p q. absurd (ground arith);
  clean = λ i m z l. absurd (ground arith);
}

empty-Countable : Countable empty
empty-Countable i m = omega arith

-- Buffer 0 holds block 7, and is in use.
abbrev one_used : Bcache
one_used = record empty {
  bufs =
      update empty.bufs 0
        (record { valid = true; dev = 1; blockno = 7; refcnt = 1; content = λ _. 5 });
}

one_used-Inv : Inv 1 one_used
one_used-Inv = record {
  device = λ i m l. ground arith;
  unique = λ dev b i j z m m' p q. ground arith;
  clean = λ i m z l. absurd (ground arith);
}

bread-Read_example : GotOrFull (Read 1 7 one_used) 1 7 one_used (bread 1 7 one_used)
bread-Read_example = bread-Read 1 7 one_used refl one_used-Inv (λ i m. ground arith)

bwrite-Written_example : (u : Bcache) × (bwrite true 0 one_used ≡ done u) × Written 1 0 one_used u
unfolding binit
bwrite-Written_example = bwrite-Written 1 0 one_used one_used-Inv refl refl refl

-- Its content is on the disk.
abbrev saved : Bcache
saved = record one_used { disk = update one_used.disk 7 (λ _. 5) }

saved-Inv : Inv 1 saved
saved-Inv = record {
  device = one_used-Inv.device;
  unique = one_used-Inv.unique;
  clean = λ i m z l. absurd (ground arith);
}

brelse-Released_example : (u : Bcache) × (brelse true 0 saved ≡ done u) × Released 1 0 saved u
unfolding binit
brelse-Released_example = brelse-Released 1 0 saved saved-Inv refl (λ z l. refl)
