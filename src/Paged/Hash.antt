-- ===== src/Paged/Hash.antt =====
-- lib/xxfs.c: `xxh64` with `rotl64`, `get_u64` and `get_u32`, and `dir_index`. The data are a list
-- of bytes; the pieces that C puts together with `|` do not overlap, so the words are `of_le`.
pub mod Range
use xxfs.Base.{
  ℕ, zero, suc, ◌+◌, ◌*◌, ◌-◌, ◌^◌, ◌%◌, ◌<<<◌, ◌>>>◌, Bool, true, false, List, [], ◌∷◌, ◌==◌, leb,
  ltb, if◌then◌else◌, length, take, drop, bit_or, bit_xor, u32, u64,
}
use xxfs.Paged.Page.{of_le}

abbrev pub prime_1 : ℕ
prime_1 = 0x9e3779b97f4a7c15

abbrev pub prime_2 : ℕ
prime_2 = 0x85ebca6bcae6d1d5

abbrev pub prime_3 : ℕ
prime_3 = 0xc2b2ae3cc27b9a21

abbrev pub prime_4 : ℕ
prime_4 = 0x27d4eb2f165b7d03

abbrev pub prime_5 : ℕ
prime_5 = 0x659e8513b3a1b327

unfoldable pub rotl64 : ℕ → ℕ → ℕ
rotl64 v n = bit_or (u64 (v <<< n)) (v >>> (64 - n))

unfoldable pub get_u64 : List ℕ → ℕ
get_u64 p = of_le (take 8 p)

unfoldable pub get_u32 : List ℕ → ℕ
get_u32 p = of_le (take 4 p)

-- `v1` to `v4`
record Lanes : Type 0 where
  v1 : ℕ
  v2 : ℕ
  v3 : ℕ
  v4 : ℕ

-- `rotl64(v + w * m, n) * k`
unfoldable mix : ℕ → ℕ → ℕ → ℕ → ℕ → ℕ
unfolding rotl64
mix v w m n k = u64 (rotl64 (u64 (v + w * m)) n * k)

unfoldable stripe : Lanes → List ℕ → Lanes
unfolding mix get_u64
stripe v p = record {
  v1 = mix v.v1 (get_u64 p) prime_2 31 prime_1;
  v2 = mix v.v2 (get_u64 (drop 8 p)) prime_2 31 prime_1;
  v3 = mix v.v3 (get_u64 (drop 16 p)) prime_2 31 prime_1;
  v4 = mix v.v4 (get_u64 (drop 24 p)) prime_2 31 prime_1;
}

-- The loop over stripes of 32 bytes; the number of bytes is fuel enough.
unfoldable stripes : ℕ → Lanes → List ℕ → Lanes × List ℕ
unfolding stripe
stripes zero v p = (v, p)
stripes (suc fuel) v p = elim (leb 32 (length p)) [
  | true ↦ stripes fuel (stripe v p) (drop 32 p)
  | false ↦ (v, p)
]

-- `h = rotl64(v * P1, 17) * P4 + h`
unfoldable join_lane : ℕ → ℕ → ℕ
unfolding rotl64
join_lane v h = u64 (u64 (rotl64 (u64 (v * prime_1)) 17 * prime_4) + h)

unfoldable join_lanes : Lanes → ℕ → ℕ
unfolding rotl64 join_lane
join_lanes v len =
    let sum = u64 (rotl64 v.v1 1 + rotl64 v.v2 7 + rotl64 v.v3 12 + rotl64 v.v4 18 + len) in
    join_lane v.v1 (join_lane v.v2 (join_lane v.v4 (join_lane v.v3 sum)))

-- What the part of 32 bytes at a time gives, and the bytes left.
unfoldable head_hash : List ℕ → ℕ × List ℕ
unfolding stripes join_lanes
head_hash p = elim (leb 32 (length p)) [
  | true ↦
      let (v, rest) =
        stripes (length p)
          (record {
            v1 = u64 (prime_1 + prime_2);
            v2 = prime_2;
            v3 = 0;
            v4 = u64 (2 ^ 64 - prime_1);
          })
          p in
      (join_lanes v (length p), rest)
  | false ↦ (u64 (prime_5 + length p), p)
]

-- The steps of 16, 8 and 4 bytes, each taken if there are so many left.
unfoldable step_16 : ℕ × List ℕ → ℕ × List ℕ
unfolding mix get_u64
step_16 (h, p) =
    if leb 16 (length p)
    then (
      u64 (mix h (get_u64 p) prime_3 23 prime_2 + mix h (get_u64 (drop 8 p)) prime_3 23 prime_2),
      drop 16 p,
    )
    else (h, p)

unfoldable step_8 : ℕ × List ℕ → ℕ × List ℕ
unfolding mix get_u64
step_8 (h, p) =
    if leb 8 (length p) then (mix h (get_u64 p) prime_3 23 prime_2, drop 8 p) else (h, p)

unfoldable step_4 : ℕ × List ℕ → ℕ × List ℕ
unfolding mix get_u32
step_4 (h, p) =
    if leb 4 (length p) then (mix h (get_u32 p) prime_4 17 prime_1, drop 4 p) else (h, p)

-- The bytes left over, one by one.
unfoldable bytewise : ℕ → List ℕ → ℕ
unfolding mix
bytewise h [] = h
bytewise h (b ∷ p) = bytewise (mix h b prime_5 11 prime_1) p

-- The last shuffle.
unfoldable pub avalanche : ℕ → ℕ
avalanche h =
    let h1 = u64 (bit_xor h (h >>> 33) * prime_2) in
    let h2 = u64 (bit_xor h1 (h1 >>> 29) * prime_3) in bit_xor h2 (h2 >>> 32)

-- 0 and 1 are moved out of the way.
abbrev pub above_two : ℕ → ℕ
above_two h = if ltb h 2 then u64 (h + 2) else h

unfoldable pub xxh64 : List ℕ → ℕ
unfolding head_hash step_16 step_8 step_4 bytewise avalanche
xxh64 key =
    let (h, rest) = step_4 (step_8 (step_16 (head_hash key))) in
    above_two (avalanche (bytewise h rest))

-- The low `depth` bits.
unfoldable pub dir_index : ℕ → ℕ → ℕ
dir_index hash depth = if depth == 0 then 0 else u32 (hash % 2 ^ depth)
