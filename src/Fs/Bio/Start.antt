-- ===== src/Fs/Bio/Start.antt =====
-- `init_bcache`, and what holds of the cache from then on.
use tnix.Common.{ℕ, zero, suc, ◌<◌, refl, arith}
use tnix.Fs.Bio.{Device, init_bcache}
use tnix.Fs.Bio.View.{Idle, Ordered, Synced, Few, LacksBuf, Distinct, Rested}
use tnix.Fs.Bio.Read.{IsCache}

init_bcache-LacksBuf : (i n j : ℕ) → j < i → LacksBuf j (init_bcache i n)
unfolding init_bcache
init_bcache-LacksBuf i zero j h = tt
init_bcache-LacksBuf i (suc n) j h = (omega arith, init_bcache-LacksBuf (suc i) n j (omega arith))

init_bcache-Distinct : (i n : ℕ) → Distinct (init_bcache i n)
unfolding init_bcache
init_bcache-Distinct i zero = tt
init_bcache-Distinct i (suc n) =
    (init_bcache-LacksBuf (suc i) n i (omega arith), init_bcache-Distinct (suc i) n)

init_bcache-Idle : (i n d k : ℕ) → Idle d k (init_bcache i n)
unfolding init_bcache
init_bcache-Idle i zero d k = tt
init_bcache-Idle i (suc n) d k = (λ c. (refl, refl), init_bcache-Idle (suc i) n d k)

init_bcache-Ordered : (i n : ℕ) → Ordered (init_bcache i n)
unfolding init_bcache
init_bcache-Ordered i zero = tt
init_bcache-Ordered i (suc n) = (init_bcache-Idle (suc i) n 0 0, init_bcache-Ordered (suc i) n)

init_bcache-Synced : (device : Device) (i n : ℕ) → Synced device (init_bcache i n)
unfolding init_bcache
init_bcache-Synced device i zero = tt
init_bcache-Synced device i (suc n) = (λ z v. absurd (cc (v)), init_bcache-Synced device (suc i) n)

init_bcache-Rested : (i n : ℕ) → Rested (init_bcache i n)
unfolding init_bcache
init_bcache-Rested i zero = tt
init_bcache-Rested i (suc n) = (λ z. refl, init_bcache-Rested (suc i) n)

pub init_bcache-IsCache :
    (device : Device) (n : ℕ) → IsCache (record { bufs = init_bcache 0 n; device = device })
init_bcache-IsCache device n = record {
  distinct = init_bcache-Distinct 0 n;
  ordered = init_bcache-Ordered 0 n;
  synced = init_bcache-Synced device 0 n;
  rested = init_bcache-Rested 0 n;
}

pub init_bcache-Few : (i n : ℕ) → Few (init_bcache i n)
unfolding init_bcache
init_bcache-Few i zero = tt
init_bcache-Few i (suc n) = (omega arith, init_bcache-Few (suc i) n)
