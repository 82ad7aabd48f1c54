-- ===== src/Paged/Hash/Range.antt =====
-- What `xxh64` can return.
use xxfs.Base.{ℕ, ◌≤◌, ◌<◌, ◌^◌, arith, List, bit_xor_bound}
use xxfs.Paged.Hash.{avalanche, above_two, xxh64}

avalanche_bound : (h : ℕ) → avalanche h < 2 ^ 64
unfolding avalanche
avalanche_bound h = bit_xor_bound 64 _ _ (omega arith) (omega arith)

above_two_bounds : (h : ℕ) → h < 2 ^ 64 → (2 ≤ above_two h) × (above_two h < 2 ^ 64)
above_two_bounds h p = (ground arith, ground arith)

-- The hash of any key is a 64-bit number and neither 0 nor 1.
pub xxh64_bounds : (key : List ℕ) → (2 ≤ xxh64 key) × (xxh64 key < 2 ^ 64)
unfolding xxh64
xxh64_bounds key = above_two_bounds _ (avalanche_bound _)
