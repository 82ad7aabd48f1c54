-- ===== src/Examples/Split.antt =====
-- lib/xxfs.c: a page that two directory entries lead to, split by the lowest bit of the hash.
use xxfs.Base.{◌^◌, ◌≡◌, refl, arith, ◌==◌, ◌&&◌, get_or, [], ◌∷◌, if◌then◌else◌}
use xxfs.Paged.Dir.{Dir, entry, no_offset}
use xxfs.Paged.Hash.{dir_index}
use xxfs.Paged.Index.Put.{relabel}
use xxfs.Paged.Index.Put.Split.{relabel-goes_up}
use xxfs.Paged.Page.{Slot, zero_slot}
use xxfs.Paged.Slots.{goes_up}

abbrev shared : Dir
shared = record { page_off = 4096 ∷ 4096 ∷ []; dir_size = 2; global_depth = 1 }

abbrev odd : Slot
odd = record zero_slot { hash = 5 }

odd_moves : get_or (relabel 0 1 4096 8192 (4096 ∷ 4096 ∷ [])) (dir_index 5 1) no_offset ≡ 8192
unfolding relabel dir_index
odd_moves = refl

relabel-goes_up_example :
    get_or (relabel 0 (2 ^ 0) 4096 8192 (4096 ∷ 4096 ∷ [])) (dir_index 5 1) no_offset ≡ (
      if entry shared (dir_index 5 1) == 4096 && goes_up 1 odd
      then 8192
      else entry shared (dir_index 5 1))
relabel-goes_up_example =
    relabel-goes_up shared 1 4096 8192 odd
      (record { size = refl; entries = refl; depth = omega arith }) (omega arith) (omega arith)
