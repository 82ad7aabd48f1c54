-- ===== src/Examples/Alloc.antt =====
-- lib/xxfs.c: the block allocator on concrete volumes.
use xxfs.Base.{ℕ, ◌+◌, ◌*◌, ◌≤◌, ◌≡◌, refl, arith, []}
use xxfs.Super.{Volume, page_alloc, page_alloc_n}
use xxfs.Super.Alloc.{IsSound, Hands, page_alloc-Hands, page_alloc_n-Hands, page_alloc_exhausted}

-- Ten blocks from 8192 on, of which some are free.
abbrev ten_blocks : ℕ → Volume
ten_blocks free = record {
  sb = record {
    block_count = 10;
    free_blocks = free;
    inodes_count = 64;
    free_inodes = 60;
    cow_generation = 1;
    data_off = 8192;
    pdir_off = 4096;
    pdir_size = 8;
    pdir_depth = 0;
  };
  os = record { image = []; outcomes = [] };
}

ten_blocks-IsSound : (free : ℕ) → free ≤ 10 → IsSound ((ten_blocks free).sb)
ten_blocks-IsSound free h = record { some_data = omega arith; free = h; fits = omega arith }

-- The eighth block is the next one.
third_last : (page_alloc (ten_blocks 3)).0 ≡ 8192 + 7 * 4096
unfolding page_alloc
third_last = refl

page_alloc-Hands_example :
    Hands (ten_blocks 3) 1 (page_alloc (ten_blocks 3)).0 (page_alloc (ten_blocks 3)).1
    × ((page_alloc (ten_blocks 3)).1.os ≡ (ten_blocks 3).os)
page_alloc-Hands_example =
    page_alloc-Hands (ten_blocks 3) (ten_blocks-IsSound 3 (omega arith)) (omega arith)

page_alloc_n-Hands_example :
    Hands (ten_blocks 3) 2 (page_alloc_n (ten_blocks 3) 2).0 (page_alloc_n (ten_blocks 3) 2).1
    × ((page_alloc_n (ten_blocks 3) 2).1.os ≡ (ten_blocks 3).os)
page_alloc_n-Hands_example =
    page_alloc_n-Hands (ten_blocks 3) 2 (ten_blocks-IsSound 3 (omega arith)) (omega arith)
      (omega arith)

page_alloc_exhausted_example :
    ((page_alloc (ten_blocks 0)).0 ≡ 8192)
    × ((page_alloc (page_alloc (ten_blocks 0)).1).0 ≡ 8192)
    × ((page_alloc (page_alloc (ten_blocks 0)).1).1.sb.block_count ≡ 12)
page_alloc_exhausted_example = page_alloc_exhausted (ten_blocks 0) refl (omega arith) refl
