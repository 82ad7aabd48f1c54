-- ===== src/Examples/Tables.antt =====
-- lib/xxfs.c: a Swiss table of 32 places with one entry.
use xxfs.Base.{ℕ, ◌≡◌, refl, arith, some, List, [], ◌∷◌}
use xxfs.Os.{failed, quiet, os_alloc}
use xxfs.Paged.Index.{enomem}
use xxfs.Swiss.{DpTable, table_init, table_alloc, dp_slot_at, table_find, table_insert, table_del}
use xxfs.Swiss.Counts.{IsCounted, tally, table_insert-table_del-IsCounted}
use xxfs.Swiss.Grow.{table_grow}
use xxfs.Swiss.Lost.{table_grow_lost}
use xxfs.Swiss.RoundTrip.{IsTable, slot_of_args, table_find-table_insert}

unfoldable fresh_table : DpTable
unfolding table_alloc
fresh_table = (table_alloc table_init 32 (quiet [])).1

fresh_table-IsTable : IsTable fresh_table 1
unfolding fresh_table table_alloc os_alloc
fresh_table-IsTable = record {
  size = refl;
  small = omega arith;
  mask_is = refl;
  ctrl_length = refl;
  slots_length = refl;
}

fresh_table-IsCounted : IsCounted fresh_table 1
unfolding fresh_table table_alloc os_alloc tally
fresh_table-IsCounted = record { sized = fresh_table-IsTable; deleted = refl; all = refl }

abbrev key : List ℕ
key = b'k' ∷ []

abbrev val : List ℕ
val = b'v' ∷ []

stored : (table_insert fresh_table (slot_of_args 300 key (some val) 1 1 8192)).0 ≡ 0
unfolding fresh_table table_alloc os_alloc table_insert
stored = refl

table_find-table_insert_example :
    (i : ℕ) × (table_find
        (table_insert fresh_table (slot_of_args 300 key (some val) 1 1 8192)).1
        300
        key
        1
      ≡ some i)
    × ((dp_slot_at
          (table_insert fresh_table (slot_of_args 300 key (some val) 1 1 8192)).1.slots
          i).val
        ≡ some val)
    × ((dp_slot_at
          (table_insert fresh_table (slot_of_args 300 key (some val) 1 1 8192)).1.slots
          i).vlen
        ≡ 1)
    × ((dp_slot_at
          (table_insert fresh_table (slot_of_args 300 key (some val) 1 1 8192)).1.slots
          i).file_off
        ≡ 8192)
table_find-table_insert_example =
    table_find-table_insert fresh_table 1 fresh_table-IsTable 300 key (some val) 1 1 8192
      (rw stored (omega arith))

table_insert-table_del-IsCounted_example :
    IsCounted (table_insert fresh_table (slot_of_args 300 key (some val) 1 1 8192)).1 1
    × IsCounted (table_del fresh_table 300 key 1).1 1
table_insert-table_del-IsCounted_example =
    table_insert-table_del-IsCounted fresh_table 1 fresh_table-IsCounted 300 key (some val) 1 1 8192

no_old : fresh_table.old_ctrl ≡ []
unfolding fresh_table table_alloc os_alloc
no_old = refl

table_grow_lost_example :
    ((table_grow fresh_table (record { image = []; outcomes = failed ∷ [] })).0 ≡ enomem)
    × ((table_grow fresh_table (record { image = []; outcomes = failed ∷ [] })).1.ctrl ≡ [])
    × ((table_grow fresh_table (record { image = []; outcomes = failed ∷ [] })).1.slots ≡ [])
    × ((table_grow fresh_table (record { image = []; outcomes = failed ∷ [] })).1.cap
        ≡ fresh_table.cap)
    × ((table_grow fresh_table (record { image = []; outcomes = failed ∷ [] })).1.count
        ≡ fresh_table.count)
table_grow_lost_example = table_grow_lost fresh_table [] [] no_old
