-- ===== src/Fs/Inode.antt =====
-- lib/xxfs.h: the fields of `struct xxfs_inode` in its bytes. The extent shares its place with the
-- inline data.
use xxfs.Base.{
  ℕ, zero, suc, length, ◌+◌, ◌≤◌, ◌≡◌, inl, sym, ap, ◌∙◌, arith, List, [], ◌∷◌, ◌++◌, take,
  replicate,
}
use xxfs.Check.{crc32c}
use xxfs.Check.Codes.{length-ecc_compute}
use xxfs.Check.Inode.{crc_off, ecc_off, inode_set_checksum_ecc, inode_verify_ecc-set}
use xxfs.Fs.Field.{Field, get}
use xxfs.Os.Image.{put_bytes, slice, slice-slice, slice-put_bytes_apart, length-put_bytes}
use xxfs.Paged.Page.{le, of_le}
use xxfs.Paged.Page.Codec.{length-le}

abbrev pub i_mode : Field
i_mode = record { off = 0; width = 2 }

abbrev pub i_uid : Field
i_uid = record { off = 2; width = 2 }

abbrev pub i_gid : Field
i_gid = record { off = 4; width = 2 }

abbrev pub i_file_type : Field
i_file_type = record { off = 6; width = 2 }

abbrev pub i_nlinks : Field
i_nlinks = record { off = 8; width = 4 }

abbrev pub i_size : Field
i_size = record { off = 16; width = 8 }

abbrev pub i_blocks : Field
i_blocks = record { off = 24; width = 8 }

abbrev pub i_atime : Field
i_atime = record { off = 32; width = 8 }

abbrev pub i_mtime : Field
i_mtime = record { off = 40; width = 8 }

abbrev pub i_ctime : Field
i_ctime = record { off = 48; width = 8 }

abbrev pub i_btime : Field
i_btime = record { off = 56; width = 8 }

abbrev pub i_generation : Field
i_generation = record { off = 72; width = 8 }

abbrev pub i_extent_off : Field
i_extent_off = record { off = 360; width = 8 }

abbrev pub i_extent_len : Field
i_extent_len = record { off = 368; width = 4 }

-- Where `i_name` and `i_inline` begin.
abbrev pub name_off : ℕ
name_off = 104

abbrev pub inline_off : ℕ
inline_off = 360

-- `XXFS_INLINE_MAX`
abbrev pub inline_max : ℕ
inline_max = 128

-- `XXFS_MAX_NAME`
abbrev pub max_name : ℕ
max_name = 255

-- `XXFS_FT_REG`, `XXFS_FT_DIR` and `XXFS_FT_LNK`
abbrev pub ft_reg : ℕ
ft_reg = 1

abbrev pub ft_dir : ℕ
ft_dir = 2

abbrev pub ft_lnk : ℕ
ft_lnk = 3

-- `sizeof(struct xxfs_inode)`
abbrev pub inode_size : ℕ
inode_size = 560

abbrev pub zero_inode : List ℕ
zero_inode = replicate inode_size 0

-- The name in the inode: its first 255 bytes, without and with a 0 behind them.
abbrev pub with_name : List ℕ → List ℕ → List ℕ
with_name name ino = put_bytes ino name_off (take max_name name)

abbrev pub with_name_ended : List ℕ → List ℕ → List ℕ
with_name_ended name ino = put_bytes ino name_off (take max_name name ++ 0 ∷ [])

-- The checksum and the codes lie behind the other fields.
pub slice-inode_set_checksum_ecc :
    (ino : List ℕ) (off n : ℕ)
    → off + n ≤ crc_off
    → slice (inode_set_checksum_ecc ino) off n ≡ slice ino off n
slice-inode_set_checksum_ecc ino off n h =
    sym (front (inode_set_checksum_ecc ino))
    ∙ ap (λ d. slice d off n) (inode_verify_ecc-set ino).1
    ∙ front ino
  where
    front : (d : List ℕ) → slice (slice d 0 crc_off) off n ≡ slice d off n
    front d =
        slice-slice d 0 crc_off off n h
        ∙ (let e : 0 + off ≡ off = omega arith in ap (λ (k : ℕ). slice d k n) e)

pub get-inode_set_checksum_ecc :
    (f : Field) (ino : List ℕ)
    → f.off + f.width ≤ crc_off
    → get f (inode_set_checksum_ecc ino) ≡ get f ino
get-inode_set_checksum_ecc f ino h = ap of_le (slice-inode_set_checksum_ecc ino f.off f.width h)

-- The fields in front of the name.
pub get-with_name :
    (f : Field) (name ino : List ℕ)
    → f.off + f.width ≤ name_off
    → get f (with_name name ino) ≡ get f ino
get-with_name f name ino h =
    ap of_le (slice-put_bytes_apart ino name_off (take max_name name) f.off f.width (inl h))

take_bound : (n : ℕ) (xs : List ℕ) → length (take n xs) ≤ n
take_bound zero xs = omega arith
take_bound (suc n) [] = omega arith
take_bound (suc n) (x ∷ xs) = omega (arith, take_bound n xs)

pub length-with_name :
    (name ino : List ℕ) → length ino ≡ inode_size → length (with_name name ino) ≡ inode_size
length-with_name name ino size =
    length-put_bytes ino name_off (take max_name name)
      (omega (arith, size, take_bound max_name name))
    ∙ size

pub length-inode_set_checksum_ecc :
    (ino : List ℕ) → length ino ≡ inode_size → length (inode_set_checksum_ecc ino) ≡ inode_size
unfolding inode_set_checksum_ecc
length-inode_set_checksum_ecc ino size =
    let summed = put_bytes ino crc_off (le 4 (crc32c (slice ino 0 crc_off))) in
    let n : length summed ≡ inode_size =
      length-put_bytes ino crc_off (le 4 (crc32c (slice ino 0 crc_off)))
        (omega (arith, size, length-le 4 (crc32c (slice ino 0 crc_off))))
      ∙ size in
    length-ecc_compute summed ecc_off ecc_off (omega (arith, n)) ∙ n
