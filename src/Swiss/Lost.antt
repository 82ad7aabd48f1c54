-- ===== src/Swiss/Lost.antt =====
-- `table_grow` where there is no memory.
use xxfs.Base.{ℕ, ◌≡◌, refl, List, [], ◌∷◌}
use xxfs.Os.{Outcome, failed, os_alloc}
use xxfs.Paged.Index.{enomem}
use xxfs.Swiss.{DpTable, table_alloc}
use xxfs.Swiss.Grow.{table_migrate_batch, table_grow}

-- A table that is not being migrated loses all its entries where the first of the two allocations
-- of `table_grow` fails: the array of control bytes and the slots are gone, while the capacity and
-- the count stand for what was in them.
pub table_grow_lost :
    (t : DpTable) (image : List ℕ) (outcomes : List Outcome)
    → t.old_ctrl ≡ []
    → ((table_grow t (record { image = image; outcomes = failed ∷ outcomes })).0 ≡ enomem)
      × ((table_grow t (record { image = image; outcomes = failed ∷ outcomes })).1.ctrl ≡ [])
      × ((table_grow t (record { image = image; outcomes = failed ∷ outcomes })).1.slots ≡ [])
      × ((table_grow t (record { image = image; outcomes = failed ∷ outcomes })).1.cap ≡ t.cap)
      × ((table_grow t (record { image = image; outcomes = failed ∷ outcomes })).1.count ≡ t.count)
unfolding table_grow table_migrate_batch table_alloc os_alloc
table_grow_lost t image outcomes h = rw h (refl, refl, refl, refl, refl)
