-- ===== src/Paged/Dir.antt =====
-- lib/xxfs.c: `struct paged_dir`, the table of page offsets, and `paged_dir_double`.
pub mod Double
use xxfs.Base.{
  ℕ, zero, suc, ◌+◌, ◌*◌, ◌^◌, ◌-◌, Bool, true, false, Option, none, some, List, [], ◌∷◌, ◌++◌,
  get_or, take, u8, u32, if◌then◌else◌,
}
use xxfs.Os.{Os, os_alloc}

-- `(u64)-1`: no page yet.
abbrev pub no_offset : ℕ
no_offset = 2 ^ 64 - 1

pub record Dir : Type 0 where
  pub page_off : List ℕ
  pub dir_size : ℕ
  pub global_depth : ℕ

-- `d->page_off[i]`; past the end, where C has no defined behaviour, no page.
abbrev pub entry : Dir → ℕ → ℕ
entry d i = get_or d.page_off i no_offset

-- The offset of every entry stands twice in the new table, `dir_size` apart. From 2 ^ 31 entries on the
-- new size wraps to 0: C then writes behind an empty allocation, and nothing arrives here.
unfoldable pub paged_dir_double : Dir → Os → Option Dir × Os
paged_dir_double d os =
    let (room, os') = os_alloc os in
    let old = take d.dir_size d.page_off in
    if room
    then (
      some (record {
        page_off = take (u32 (d.dir_size * 2)) (old ++ old);
        dir_size = u32 (d.dir_size * 2);
        global_depth = u8 (d.global_depth + 1);
      }),
      os',
    )
    else (none, os')
