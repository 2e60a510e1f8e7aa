-- ===== src/Fs/Bio/Examples.antt =====
-- Caches that the theorems are applied to.
use tnix.Common.{refl, [], ◌∷◌, none, false, true, ◌+◌, ◌≡◌, some}
use tnix.Fs.Bio.{
  bget, hit, miss, bread_try, fill, change, buffer, Cache, Device, bread, init_bcache, holder,
  panics, gets,
}
use tnix.Fs.Bio.Relock.{bread_again}
use tnix.Fs.Bio.Start.{init_bcache-IsCache, init_bcache-Few}

abbrev numbers : Device
numbers dev blockno p = dev + blockno + p

-- The cache that `init_bcache` leaves, with three buffers.
abbrev three_buffers : Cache
three_buffers = record { bufs = init_bcache 0 3; device = numbers }

-- Task 4 has block 7 of device 1 in the last buffer.
abbrev one_held : Cache
one_held = record {
  bufs =
      record { id = 0; dev = 0; blockno = 0; refc = 0; valid = false; task = none; bytes = λ p. 0 }
      ∷ record {
        id = 1;
        dev = 0;
        blockno = 0;
        refc = 0;
        valid = false;
        task = none;
        bytes = λ p. 0;
      }
      ∷ record {
        id = 2;
        dev = 1;
        blockno = 7;
        refc = 1;
        valid = true;
        task = some 4;
        bytes = numbers 1 7;
      }
      ∷ [];
  device = numbers;
}

one_held_lem : bread 4 1 7 three_buffers ≡ gets 2 one_held
unfolding bread bget hit miss bread_try holder fill change buffer init_bcache
one_held_lem = refl

bread_again_example : bread 4 1 7 one_held ≡ panics
bread_again_example =
    bread_again 4 1 7 2 three_buffers one_held (init_bcache-IsCache numbers 3) (init_bcache-Few 0 3)
      one_held_lem
