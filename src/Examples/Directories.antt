-- ===== src/Examples/Directories.antt =====
-- lib/xxfs.c: a directory in the directory cache.
use mathlib.Core.List.{Perm}
use xxfs.Base.{ℕ, ◌≡◌, ◌⊎◌, refl, arith, true, false, none, some, List, [], ◌∷◌}
use xxfs.Examples.Files.{small_index}
use xxfs.Fs.{Fs, DirEntry}
use xxfs.Fs.DirCache.{dir_add_child, dir_remove_child, is_child, find_child, new_child}
use xxfs.Fs.DirCache.Children.{Found}
use xxfs.Fs.DirCache.Listing.{dir_at, dir_remove_child-Perm, dir_remove_child-dir_add_child}
use xxfs.Icache.{fresh_icache}
use xxfs.Paged.Index.{ok, enoent}

abbrev pub root : List ℕ
root = b'/' ∷ []

abbrev name : List ℕ
name = b'a' ∷ []

abbrev pub loaded : List (List ℕ) → DirEntry
loaded children = record {
  path = root;
  children = children;
  child_cap = 16;
  dirty = false;
  valid = true;
}

abbrev with_dir : List (List ℕ) → Fs
with_dir children = record {
  inodes = record { ix = small_index []; ic = fresh_icache 16; times = [] };
  dcache = λ _. loaded children;
  flags = 0;
  cow_gen = 1;
  sb_bytes = [];
}

abbrev two : List (List ℕ)
two = new_child name 1 ∷ new_child (b'b' ∷ []) 1 ∷ []

dir_remove_child-Perm_example :
    (dir_remove_child 2 root name (with_dir two) ≡ some (enoent, with_dir two))
      × Found two name none
    ⊎ ((fs' : Fs) × (c : List ℕ) × (dir_remove_child 2 root name (with_dir two) ≡ some (ok, fs'))
        × (is_child name c ≡ true)
        × Perm two (c ∷ (dir_at fs' root).children)
        × ((dir_at fs' root).dirty ≡ true))
dir_remove_child-Perm_example = dir_remove_child-Perm 2 (with_dir two) root name refl

dir_remove_child-dir_add_child_example :
    (fs1 fs2 : Fs) × (dir_add_child 2 root name 1 (with_dir []) ≡ some (ok, fs1))
    × (dir_remove_child 2 root name fs1 ≡ some (ok, fs2))
    × ((dir_at fs2 root).children ≡ [])
dir_remove_child-dir_add_child_example =
    dir_remove_child-dir_add_child 2 (with_dir []) root name 1
      (record { its_own = refl; room = omega arith }) (omega arith) (unfold find_child in refl)
