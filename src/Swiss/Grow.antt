-- ===== src/Swiss/Grow.antt =====
-- lib/xxfs.c: `table_migrate_batch`, `table_grow` and `table_put`.
use xxfs.Base.{
  ℕ, zero, suc, ◌+◌, ◌*◌, ◌^◌, Bool, true, false, not, ◌&&◌, ◌||◌, List, [], ◌∷◌, ◌==◌, ltb, leb,
  if◌then◌else◌, u32, u64,
}
use xxfs.Os.{Os}
use xxfs.Paged.Index.{Rc, ok}
use xxfs.Swiss.{
  DpTable, DpSlot, ctrl_empty, ctrl_deleted, ctrl_at, dp_slot_at, table_alloc, table_insert,
}

abbrev is_null : {A : Type 0} → List A → Bool
is_null [] = true
is_null (x ∷ xs) = false

-- An entry of the old table goes to the new one.
abbrev pub migrated : DpTable → ℕ → DpTable
migrated t idx =
    if ctrl_at t.old_ctrl idx == ctrl_empty || ctrl_at t.old_ctrl idx == ctrl_deleted
    then t
    else (table_insert t (dp_slot_at t.old_slots idx)).1

unfoldable pub migrate_from : ℕ → DpTable → DpTable
unfolding table_insert
migrate_from zero t = t
migrate_from (suc batch) t =
    let idx = t.old_migrated in
    let t' = migrated (record t { old_migrated = u64 (idx + 1) }) idx in
    let rest = migrate_from batch t' in if ltb idx t.old_cap then rest else t

abbrev pub without_old : DpTable → DpTable
without_old t = record t { old_ctrl = []; old_slots = []; old_cap = 0 }

unfoldable pub table_migrate_batch : DpTable → ℕ → DpTable
unfolding migrate_from
table_migrate_batch t batch =
    let t' = migrate_from batch t in
    if is_null t.old_ctrl then t else if leb t'.old_cap t'.old_migrated then without_old t' else t'

-- `table_grow` behind the first migration.
abbrev pub set_aside : DpTable → DpTable
set_aside t = record t {
  old_ctrl = t.ctrl;
  old_slots = t.slots;
  old_cap = t.cap;
  old_mask = t.mask;
  old_migrated = 0;
  old_grow_at = t.grow_at;
}

abbrev pub new_cap : ℕ → ℕ
new_cap size = let twice = u64 (size * 2) in if ltb twice 32 then 32 else twice

-- What is done where there was no memory: the arrays that `table_destroy` released are put back.
abbrev pub put_back : DpTable → DpTable
put_back t = record t {
  ctrl = t.old_ctrl;
  slots = t.old_slots;
  cap = t.old_cap;
  mask = t.old_mask;
  old_ctrl = [];
  old_slots = [];
}

abbrev grow_done : Rc × DpTable × Os → Rc × DpTable × Os
grow_done (ok, t, os) =
    (ok, table_migrate_batch (record t { count = 0; tombstones = 0 }) (u32 t.old_cap), os)
grow_done (rc, t, os) = (rc, put_back t, os)

unfoldable pub table_grow : DpTable → Os → Rc × DpTable × Os
unfolding table_migrate_batch table_alloc
table_grow t os =
    let t' = table_migrate_batch t (u32 t.old_cap) in
    let grown = grow_done (table_alloc (set_aside t') (new_cap t'.cap) os) in
    if not (is_null t.old_ctrl) && not (is_null t'.old_ctrl) then (ok, t', os) else grown

-- The two grow calls of `table_put` drop the result.
abbrev grow_if : Bool → DpTable → Os → DpTable × Os
grow_if false t os = (t, os)
grow_if true t os = let (rc, t', os') = table_grow t os in (t', os')

abbrev insert_again : DpSlot → ℕ × DpTable → Os → ℕ × DpTable × Os
insert_again s (rc, t) os =
    let (t', os') = grow_if (leb (2 ^ 31) rc) t os in
    if leb (2 ^ 31) rc then (let (rc', t2) = table_insert t' s in (rc', t2, os')) else (rc, t, os)

unfoldable pub table_put : DpTable → DpSlot → Os → ℕ × DpTable × Os
unfolding table_grow
table_put t s os =
    let (t1, os1) = grow_if (leb t.grow_at (u64 (t.count + t.tombstones))) t os in
    insert_again s (table_insert (table_migrate_batch t1 64) s) os1
