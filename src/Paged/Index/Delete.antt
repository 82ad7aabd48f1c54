-- ===== src/Paged/Index/Delete.antt =====
-- lib/xxfs.c: `paged_del`, with fuel for the pages of a chain as in `paged_get`.
use xxfs.Base.{ℕ, zero, suc, ◌||◌, true, false, Option, none, some, List, ◌==◌, leb, if◌then◌else◌}
use xxfs.Paged.Dir.{entry, no_offset}
use xxfs.Paged.Hash.{xxh64, dir_index}
use xxfs.Paged.Index.{Rc, ok, enoent, eio, Index, load, write_back}
use xxfs.Paged.Slots.{find_match, live, delete_slot}

-- The loop over the pages of a chain.
unfoldable pub delete_chain : ℕ → Index → ℕ → ℕ → List ℕ → Option Rc × Index
unfolding load write_back
delete_chain zero ix cur h key = (none, ix)
delete_chain (suc fuel) ix cur h key = elim (cur == 0) [
  | true ↦ (some enoent, ix)
  | false ↦
      let (page, ix1) = load ix cur in
      elim page [
        | none ↦ (some eio, ix1)
        | some pg ↦ elim (find_match 0 (live pg) h key) [
          | some i ↦ (some ok, write_back ix1 (delete_slot pg i) cur)
          | none ↦ delete_chain fuel ix1 pg.overflow_next h key
        ]
      ]
]

unfoldable pub paged_del : ℕ → Index → List ℕ → Option Rc × Index
unfolding delete_chain
paged_del fuel ix key =
    let h = xxh64 key in
    let i = dir_index h ix.pdir.global_depth in
    if leb ix.pdir.dir_size i || entry ix.pdir i == no_offset
    then (some enoent, ix)
    else delete_chain fuel ix (entry ix.pdir i) h key
