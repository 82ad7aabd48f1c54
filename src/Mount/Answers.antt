-- ===== src/Mount/Answers.antt =====
-- `xxfs_mount` comes to an end where no call of the kernel fails.
use xxfs.Base.{ℕ, ◌<◌, ◌≡◌, ◌≢◌, ◌⊎◌, [], length}
use xxfs.Mount.{Mounted, mounts, null, hangs}
use xxfs.Mount.Ends.{IsSized}
use xxfs.Os.{Os}
use xxfs.Paged.Dir.{Dir}
use xxfs.Super.{Super}

-- Where the directory is from: the super block notes it, or it was built from 2 ^ 0 entries on.
abbrev pub Found : Super → Dir → Type 0
Found sb d = ((sb.pdir_off ≢ 0) × (0 < sb.pdir_size)) ⊎ IsSized d

-- An answer of the mount.
abbrev pub Answers : Mounted → Type 0
Answers hangs = ⊥
Answers (null os) = Unit {0}
Answers (mounts fs) = Found fs.inodes.ix.sb fs.inodes.ix.pdir

-- A kernel that fails no call, with an image of this size.
abbrev IsCalm : ℕ → Os → Type 0
IsCalm n os = (os.outcomes ≡ []) × (length os.image ≡ n)
