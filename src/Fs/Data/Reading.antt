-- ===== src/Fs/Data/Reading.antt =====
-- Parts of `xxfs_read` and `xxfs_write`: an inode in the cache, the two kinds of reads, the size.
use xxfs.Base.{
  ℕ, ◌+◌, ◌-◌, ◌^◌, ◌≤◌, ◌<◌, ◌≡◌, ◌≢◌, refl, ap, arith, true, false, some, List, [], length, ◌==◌,
  ltb, leb, ne→==, lt→ltb, u64, inl, inr, Bool-cases, drop,
}
use xxfs.Fs.{Fs, with_os}
use xxfs.Fs.Data.{xxfs_read, xxfs_write, reaching, read_inode, write_inode}
use xxfs.Fs.Field.{Field, get, put, Apart, get-put_self, get-put-Apart, slice-put_apart}
use xxfs.Fs.Inode.{i_file_type, ft_dir, i_size, i_blocks, i_extent_off, inline_off, inline_max}
use xxfs.Fs.Keep.{shown_inode}
use xxfs.Os.{file_pread}
use xxfs.Os.Image.{slice, padded-take}
use xxfs.Paged.Index.{done}
use xxfs.PathName.{path_normalize}

pub write_found :
    (fs : Fs) (fuel : ℕ) (path ino buf : List ℕ) (off : ℕ)
    → shown_inode fs (path_normalize path) ≡ some ino
    → get i_file_type ino ≢ ft_dir
    → 0 < length buf
    → xxfs_write fuel path buf off fs ≡ write_inode fuel (path_normalize path) ino buf off fs
unfolding xxfs_write
write_found fs fuel path ino buf off shown is_file h =
    let n : (length buf == 0) ≡ false = ground arith in
    let t : (get i_file_type ino == ft_dir) ≡ false = ne→== _ _ is_file in rw (n, shown, t) refl

pub read_found :
    (fs : Fs) (fuel : ℕ) (path ino : List ℕ) (off len : ℕ)
    → shown_inode fs (path_normalize path) ≡ some ino
    → 0 < len
    → xxfs_read fuel path off len fs ≡ read_inode ino off len fs
unfolding xxfs_read
read_found fs fuel path ino off len shown h =
    let n : (len == 0) ≡ false = ground arith in rw (n, shown) refl

-- Inside the inline data.
pub read_inline :
    (fs : Fs) (ino : List ℕ) (off len : ℕ)
    → get i_size ino ≤ inline_max
    → get i_blocks ino ≡ 0
    → 0 < len
    → off + len ≤ get i_size ino
    → read_inode ino off len fs ≡ some (done (slice ino (inline_off + off) len), fs)
unfolding read_inode
read_inline fs ino off len small none_yet h inside =
    let a : ltb (get i_size ino - off) len ≡ false = ground arith in
    let b : leb (get i_size ino) off ≡ false = ground arith in
    let c : leb (get i_size ino) inline_max ≡ true = ground arith in
    let d : (get i_blocks ino == 0) ≡ true = ground arith in rw (a, b, c, d) refl

-- In the extent, with no failure of the kernel.
pub read_extent :
    (fs : Fs) (ino : List ℕ) (off len : ℕ)
    → inline_max < get i_size ino
    → get i_extent_off ino ≢ 0
    → 0 < get i_blocks ino
    → 0 < len
    → off + len ≤ get i_size ino
    → get i_extent_off ino + off < 2 ^ 63
    → fs.inodes.ix.os.outcomes ≡ []
    → read_inode ino off len fs
      ≡ some (done (slice fs.inodes.ix.os.image (get i_extent_off ino + off) len), fs)
unfolding read_inode file_pread
read_extent fs ino off len big there blocks h inside low calm =
    let a : ltb (get i_size ino - off) len ≡ false = ground arith in
    let b : leb (get i_size ino) off ≡ false = ground arith in
    let c : leb (get i_size ino) inline_max ≡ false = ground arith in
    let d : (get i_extent_off ino == 0) ≡ false = ne→== _ _ there in
    let e : ltb 0 (get i_blocks ino) ≡ true = lt→ltb _ _ blocks in
    let f : u64 (get i_extent_off ino + off) ≡ get i_extent_off ino + off = omega arith in
    let g : leb (2 ^ 63) (get i_extent_off ino + off) ≡ false = ground arith in
    rw (a, b, c, d, e, f, g, calm, f)
      (ap (λ bs. some (done bs, with_os fs (record (fs.inodes.ix.os) { outcomes = [] })))
        (padded-take len (drop (get i_extent_off ino + off) fs.inodes.ix.os.image)))

-- What `reaching` makes of the size, and of the rest.
pub reaching_size :
    (ino : List ℕ) (end : ℕ)
    → end < 2 ^ 64
    → (end ≤ get i_size (reaching end ino))
      × (get i_size ino ≤ get i_size (reaching end ino))
      × ((m : ℕ) → end ≤ m → get i_size ino ≤ m → get i_size (reaching end ino) ≤ m)
reaching_size ino end bound = elim (Bool-cases (ltb (get i_size ino) end)) [
  | inl e ↦
      let s : get i_size (put i_size end ino) ≡ end =
        get-put_self i_size end ino (omega (arith, bound)) in
      rw (e, s) (omega arith, ground arith, λ m a b. a)
  | inr e ↦ rw e (ground arith, omega arith, λ m a b. b)
]

pub reaching_other :
    (f : Field) (ino : List ℕ) (end : ℕ) → Apart f i_size → get f (reaching end ino) ≡ get f ino
reaching_other f ino end apart = elim (Bool-cases (ltb (get i_size ino) end)) [
  | inl e ↦ rw e (get-put-Apart f i_size end ino apart)
  | inr e ↦ rw e refl
]

pub slice-reaching :
    (ino : List ℕ) (end off n : ℕ) → 24 ≤ off → slice (reaching end ino) off n ≡ slice ino off n
slice-reaching ino end off n h = elim (Bool-cases (ltb (get i_size ino) end)) [
  | inl e ↦ rw e (slice-put_apart i_size end ino off n (inr (omega arith)))
  | inr e ↦ rw e refl
]
