-- ===== src/Fsck.antt =====
-- fsck/fsck.c: the checks of `xxfs-fsck`. What they print is not modelled: a check gives the number
-- of errors that it adds to `g_errors`.
pub mod Sound
use xxfs.Base.{
  ℕ, zero, suc, ◌+◌, ◌-◌, Bool, true, false, ◌&&◌, Option, none, some, List, [], ◌∷◌, ◌++◌, ◌==◌,
  ltb, if◌then◌else◌, length, take, drop,
}
use xxfs.Check.{crc32c}
use xxfs.Check.Inode.{crc_off}
use xxfs.Fs.{Call, ◌>>=◌, ◌>>◌, or_else, pure}
use xxfs.Fs.Attr.{xxfs_stat}
use xxfs.Fs.DirCache.{xxfs_readdir}
use xxfs.Fs.Field.{get}
use xxfs.Fs.Inode.{i_file_type, ft_dir}
use xxfs.Os.Image.{slice}
use xxfs.Paged.Page.{of_le}
use xxfs.Paged.Slots.{bytes_eq}
use xxfs.PathName.{slash, max_path}

-- The bytes in front of the terminator.
abbrev pub up_to_nul : List ℕ → List ℕ
up_to_nul [] = []
up_to_nul (c ∷ cs) = if c == 0 then [] else c ∷ up_to_nul cs

-- `dc_name` of a child.
abbrev pub dc_name : List ℕ → List ℕ
dc_name child = up_to_nul (drop 8 child)

abbrev pub root_path : List ℕ
root_path = slash ∷ []

abbrev pub is_root : List ℕ → Bool
is_root path = length path == 1 && bytes_eq path root_path

-- What `snprintf` leaves in `child`.
abbrev pub child_path : List ℕ → List ℕ → List ℕ
child_path path child =
    take (max_path - 1)
      (if is_root path then slash ∷ dc_name child else path ++ slash ∷ dc_name child)

abbrev pub one_error : Bool → ℕ
one_error true = 0
one_error false = 1

unfoldable pub check_root : ℕ → Call ℕ
check_root fuel = do
  found ← xxfs_stat fuel root_path
  or_else found (λ _. pure 1)
      (λ ino. do
        listed ← xxfs_readdir fuel root_path
        pure (one_error (get i_file_type ino == ft_dir)))

-- The sum over the children.
unfoldable pub check_children : (List ℕ → Call ℕ) → List ℕ → List (List ℕ) → Call ℕ
check_children check path [] = pure 0
check_children check path (c ∷ cs) = do
  errors ← check (child_path path c)
  more ← check_children check path cs
  pure (errors + more)

abbrev pub sum_fits : List ℕ → Bool
sum_fits ino = crc32c (slice ino 0 crc_off) == of_le (slice ino crc_off 4)

-- What lies below a directory, each child with `check`.
abbrev below_dir : ℕ → List ℕ → (List ℕ → Call ℕ) → Bool → Call ℕ
below_dir fuel path check false = pure 0
below_dir fuel path check true = do
  listed ← xxfs_readdir fuel path
  or_else listed (λ _. pure 0) (check_children check path)

-- The levels of directories are bounded by the first fuel.
unfoldable pub check_path : ℕ → ℕ → List ℕ → Call ℕ
unfolding check_children
check_path zero fuel path = λ fs. none
check_path (suc levels) fuel path = do
  found ← xxfs_stat fuel path
  or_else found (λ _. pure 1)
      (λ ino. do
        below ← below_dir fuel path (check_path levels fuel) (get i_file_type ino == ft_dir)
        pure (one_error (sum_fits ino) + below))

-- `main` behind the mount: its exit code. `check_super` finds nothing, since `xxfs_info` never fails.
unfoldable pub fsck : ℕ → ℕ → Call ℕ
unfolding check_root check_path
fsck levels fuel = do
  of_root ← check_root fuel
  of_tree ← check_path levels fuel root_path
  pure (if ltb 0 (of_root + of_tree) then 1 else 0)
