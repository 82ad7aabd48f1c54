-- ===== src/Fsck/Sound.antt =====
-- What `check_path` says of one file.
use xxfs.Base.{ℕ, suc, ◌≡◌, ◌≢◌, refl, some, List, ne→==}
use xxfs.Check.Inode.{inode_set_checksum_ecc, set-agrees}
use xxfs.Fs.{Fs}
use xxfs.Fs.Attr.{xxfs_stat}
use xxfs.Fs.Field.{get}
use xxfs.Fs.Inode.{i_file_type, ft_dir}
use xxfs.Fsck.{check_path}
use xxfs.Paged.Index.{done}

pub check_path_file :
    (levels fuel : ℕ) (path ino : List ℕ) (fs fs' : Fs)
    → xxfs_stat fuel path fs ≡ some (done (inode_set_checksum_ecc ino), fs')
    → get i_file_type (inode_set_checksum_ecc ino) ≢ ft_dir
    → check_path (suc levels) fuel path fs ≡ some (0, fs')
unfolding check_path
check_path_file levels fuel path ino fs fs' found other =
    rw (found, ne→== _ _ other, set-agrees ino) refl
