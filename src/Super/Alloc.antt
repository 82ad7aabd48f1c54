-- ===== src/Super/Alloc.antt =====
-- What the allocator hands out.
use xxfs.Base.{◌==◌, [], ℕ, ◌+◌, ◌-◌, ◌*◌, ◌^◌, ◌≤◌, ◌<◌, ◌≡◌, true, refl, ap, ◌∙◌, arith, u64}
use xxfs.Os.{file_extend}
use xxfs.Os.Extend.{file_extend_calm}
use xxfs.Super.{block_size, Super, Volume, next_off, page_alloc, page_alloc_n}

-- The counters make sense, and the blocks handed out end before 2 ^ 63.
pub record IsSound (sb : Super) : Type 0 where
  pub some_data : 0 < sb.data_off
  pub free : sb.free_blocks ≤ sb.block_count
  pub fits : sb.data_off + sb.block_count * block_size < 2 ^ 63

-- The first byte behind the blocks handed out.
abbrev pub frontier : Super → ℕ
frontier sb = sb.data_off + (sb.block_count - sb.free_blocks) * block_size

pub next_off-frontier : {sb : Super} → IsSound sb → 0 < sb.free_blocks → next_off sb ≡ frontier sb
unfolding next_off
next_off-frontier s h = ground arith

-- What handing out the `n` blocks at the frontier means.
pub record Hands (v : Volume) (n : ℕ) (off : ℕ) (v' : Volume) : Type 0 where
  pub at_frontier : off ≡ frontier v.sb
  pub moves : frontier v'.sb ≡ frontier v.sb + n * block_size
  pub sound : IsSound v'.sb

-- With a free block, `page_alloc` hands out the block at the frontier, moves the frontier behind
-- it, and does not touch the image.
pub page_alloc-Hands :
    (v : Volume)
    → IsSound v.sb
    → 0 < v.sb.free_blocks
    → Hands v 1 (page_alloc v).0 (page_alloc v).1 × ((page_alloc v).1.os ≡ v.os)
unfolding page_alloc
page_alloc-Hands v s h =
    let e = next_off-frontier s h in
    (
      record { at_frontier = ground arith; moves = ground arith; sound = ground arith },
      ground arith,
    )

-- With enough free blocks, `page_alloc_n` hands out the `n` blocks at the frontier, moves the
-- frontier behind them, and does not touch the image.
pub page_alloc_n-Hands :
    (v : Volume) (n : ℕ)
    → IsSound v.sb
    → 0 < n
    → n ≤ v.sb.free_blocks
    → Hands v n (page_alloc_n v n).0 (page_alloc_n v n).1 × ((page_alloc_n v n).1.os ≡ v.os)
unfolding page_alloc_n
page_alloc_n-Hands v n s pos h =
    let free : 0 < v.sb.free_blocks = omega arith in
    let e = next_off-frontier s free in
    let (one, same) = page_alloc-Hands v s free in
    (
      record {
        at_frontier = ground arith;
        moves = ground arith;
        sound = record { some_data = ground arith; free = ground arith; fits = ground arith };
      },
      ground arith,
    )

-- The end of the image that `page_alloc_n` asks for: as many blocks behind the frontier as are not free.
abbrev pub missing : Volume → ℕ → ℕ
missing v n = frontier v.sb + (n - v.sb.free_blocks) * block_size

-- The volume with all its blocks handed out, and the missing ones behind them.
lengthened : Volume → ℕ → Volume
lengthened v n = record {
  sb = record (v.sb) {
    block_count = u64 (v.sb.block_count + (n - v.sb.free_blocks));
    free_blocks = 0;
  };
  os = (file_extend v.os (missing v n)).1;
}

first_off :
    (sb : Super)
    → sb.free_blocks ≡ 0
    → sb.data_off + block_size < 2 ^ 63
    → next_off sb ≡ sb.data_off
unfolding next_off
first_off sb h low = ground arith

-- The volume that a single allocation lengthens by a block.
longer : Volume → Volume
longer v = record {
  sb = record (v.sb) { block_count = u64 (v.sb.block_count + 1) };
  os = (file_extend v.os (v.sb.data_off + block_size)).1;
}

one_longer :
    (v : Volume)
    → v.sb.free_blocks ≡ 0
    → v.sb.data_off + block_size < 2 ^ 63
    → v.os.outcomes ≡ []
    → page_alloc v ≡ (v.sb.data_off, longer v)
unfolding page_alloc longer
one_longer v h low calm =
    let none_free : (v.sb.free_blocks == 0) ≡ true = rw h refl in
    let off : next_off v.sb ≡ v.sb.data_off = first_off v.sb h low in
    let grown = (file_extend_calm v.os (v.sb.data_off + block_size) low calm).0 in
    rw (none_free, off, grown, page_alloc) refl

-- Once no block is free, where no call fails and the data area starts below 2 ^ 63, two allocations in
-- a row hand out the same block, the first data block, though each of them counts a new block.
pub page_alloc_exhausted :
    (v : Volume)
    → v.sb.free_blocks ≡ 0
    → v.sb.data_off + block_size < 2 ^ 63
    → v.os.outcomes ≡ []
    → ((page_alloc v).0 ≡ v.sb.data_off)
      × ((page_alloc (page_alloc v).1).0 ≡ v.sb.data_off)
      × ((page_alloc (page_alloc v).1).1.sb.block_count ≡ u64 (v.sb.block_count + 2))
unfolding longer
page_alloc_exhausted v h low calm =
    let first = one_longer v h low calm in
    let calm' = (file_extend_calm v.os (v.sb.data_off + block_size) low calm).1 in
    let second = one_longer (longer v) h low calm' in
    let twice : page_alloc (page_alloc v).1 ≡ (v.sb.data_off, longer (longer v)) =
      ap (λ r. page_alloc r.1) first ∙ second in
    (ap (λ r. r.0) first, ap (λ r. r.0) twice, ap (λ r. r.1.sb.block_count) twice ∙ omega arith)
