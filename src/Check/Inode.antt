-- ===== src/Check/Inode.antt =====
-- lib/xxfs.c: `inode_set_checksum_ecc` and `inode_verify_ecc`, on the bytes of a `struct xxfs_inode`.
use xxfs.Base.{
  ℕ, zero, suc, ◌+◌, ◌^◌, ◌≤◌, ◌<◌, ◌≡◌, inl, sym, ap, ◌∙◌, arith, Bool, true, List, [], ◌∷◌, ◌==◌,
  ==_refl, if◌then◌else◌, bit_and, bit_xor, bit_xor_bound, bit_and_bound, ◌>>>◌,
}
use xxfs.Check.{
  EccRc, intact, corrected, uncorrectable, crc_rounds, crc_loop, crc32c, ecc_compute, ecc_correct,
}
use xxfs.Check.Codes.{ecc_compute-Computed}
use xxfs.Os.Image.{put_bytes, slice, slice_ext, slice-put_bytes_self, slice-put_bytes_apart}
use xxfs.Paged.Page.{le, of_le}
use xxfs.Paged.Page.Codec.{length-le, of_le-le}

-- `INO_CRC_OFF`
abbrev pub crc_off : ℕ
crc_off = 488

-- `INO_ECC_OFF`
abbrev pub ecc_off : ℕ
ecc_off = 492

unfoldable pub inode_set_checksum_ecc : List ℕ → List ℕ
inode_set_checksum_ecc ino =
    ecc_compute (put_bytes ino crc_off (le 4 (crc32c (slice ino 0 crc_off)))) ecc_off ecc_off

-- Whether the checksum in the inode is that of its bytes.
abbrev pub crc_agrees : List ℕ → Bool
crc_agrees ino = crc32c (slice ino 0 crc_off) == of_le (slice ino crc_off 4)

unfoldable pub inode_verify_ecc : List ℕ → EccRc × List ℕ
inode_verify_ecc ino =
    let (rc, ino') = ecc_correct ino ecc_off ecc_off in
    if crc_agrees ino then (intact, ino) else elim rc [
      | corrected ↦ if crc_agrees ino' then (corrected, ino') else (uncorrectable, ino')
      | _ ↦ (uncorrectable, ino')
    ]

crc_rounds_bound : (n c : ℕ) → c < 2 ^ 32 → crc_rounds n c < 2 ^ 32
unfolding crc_rounds
crc_rounds_bound zero c h = h
crc_rounds_bound (suc n) c h =
    crc_rounds_bound n (if bit_and c 1 == 0 then c >>> 1 else bit_xor 0x82F63B78 (c >>> 1))
      (let odd = bit_xor_bound 32 0x82F63B78 (c >>> 1) (omega arith) (omega arith) in ground arith)

crc_loop_bound : (crc : ℕ) (p : List ℕ) → crc < 2 ^ 32 → crc_loop crc p < 2 ^ 32
unfolding crc_loop
crc_loop_bound crc [] h = h
crc_loop_bound crc (b ∷ p) h =
    crc_loop_bound (bit_xor (crc_rounds 8 (bit_and (bit_xor crc b) 0xFF)) (crc >>> 8)) p (
      bit_xor_bound 32 _ _
        (crc_rounds_bound 8 _ (bit_and_bound 32 (bit_xor crc b) 0xFF (omega arith))) (omega arith))

pub crc32c_bound : (p : List ℕ) → crc32c p < 2 ^ 32
unfolding crc32c
crc32c_bound p =
    bit_xor_bound 32 (crc_loop 0xFFFFFFFF p) 0xFFFFFFFF (crc_loop_bound 0xFFFFFFFF p (omega arith))
      (omega arith)

module _ (ino : List ℕ) where
  abbrev crc : ℕ
  crc = crc32c (slice ino 0 crc_off)

  abbrev summed : List ℕ
  summed = put_bytes ino crc_off (le 4 crc)

  abbrev made : List ℕ
  made = inode_set_checksum_ecc ino

  -- Neither the data nor the checksum are touched by the codes.
  made_before : (off n : ℕ) → off + n ≤ ecc_off → slice made off n ≡ slice summed off n
  unfolding inode_set_checksum_ecc
  made_before off n h =
      let c = ecc_compute-Computed summed ecc_off ecc_off (omega arith) in
      slice_ext made summed off n (λ k _ p. c.before k (omega arith))

  data_same : slice made 0 crc_off ≡ slice ino 0 crc_off
  data_same =
      made_before 0 crc_off (omega arith)
      ∙ slice-put_bytes_apart ino crc_off (le 4 crc) 0 crc_off (inl (omega arith))

  stored_crc : of_le (slice made crc_off 4) ≡ crc
  stored_crc =
      ap of_le (
        made_before crc_off 4 (omega arith)
        ∙ ap (slice summed crc_off) (sym (length-le 4 crc))
        ∙ slice-put_bytes_self ino crc_off (le 4 crc))
      ∙ of_le-le 4 crc (omega (arith, crc32c_bound (slice ino 0 crc_off)))

  pub set-agrees : crc_agrees (inode_set_checksum_ecc ino) ≡ true
  set-agrees = rw (data_same, stored_crc) (==_refl crc)

  -- An inode whose checksum and codes were just set is found intact and left as it is, and setting
  -- them does not touch the bytes in front of the checksum.
  pub inode_verify_ecc-set :
      (inode_verify_ecc (inode_set_checksum_ecc ino) ≡ (intact, inode_set_checksum_ecc ino))
      × (slice (inode_set_checksum_ecc ino) 0 crc_off ≡ slice ino 0 crc_off)
  unfolding inode_verify_ecc
  inode_verify_ecc-set = (rw (set-agrees, inode_verify_ecc), data_same)
