-- ===== src/Examples/Codes.antt =====
-- lib/xxfs_os.c and lib/xxfs.c: checksums and codes of a few bytes.
use xxfs.Base.{ℕ, ◌≡◌, ◌↔◌, refl, arith, List, [], ◌∷◌}
use xxfs.Check.{intact, crc32c, ecc_compute, ecc_correct, codes_from, word_count}
use xxfs.Check.Codes.{Stored, ecc_correct_intact, ecc_correct-ecc_compute}
use xxfs.Check.Inode.{crc_off, inode_set_checksum_ecc, inode_verify_ecc, inode_verify_ecc-set}
use xxfs.Os.Image.{slice}

-- The check value that is published for this checksum.
check_value :
    crc32c (b'1' ∷ b'2' ∷ b'3' ∷ b'4' ∷ b'5' ∷ b'6' ∷ b'7' ∷ b'8' ∷ b'9' ∷ []) ≡ 0xE3069283
unfolding crc32c
check_value = refl

abbrev one_word : List ℕ
one_word = 1 ∷ 2 ∷ 3 ∷ 4 ∷ 5 ∷ 6 ∷ 7 ∷ 8 ∷ 0 ∷ []

ecc_correct_intact_example :
    ((ecc_correct one_word 8 8).0 ≡ intact
      ↔ Stored (codes_from (word_count 8) 0 one_word) 0 8 one_word)
    × (Stored (codes_from (word_count 8) 0 one_word) 0 8 one_word
        → (ecc_correct one_word 8 8).1 ≡ one_word)
ecc_correct_intact_example = ecc_correct_intact one_word 8 8

ecc_correct-ecc_compute_example :
    ecc_correct (ecc_compute one_word 8 8) 8 8 ≡ (intact, ecc_compute one_word 8 8)
ecc_correct-ecc_compute_example = ecc_correct-ecc_compute one_word 8 8 (omega arith)

inode_verify_ecc-set_example :
    (inode_verify_ecc (inode_set_checksum_ecc one_word) ≡ (intact, inode_set_checksum_ecc one_word))
    × (slice (inode_set_checksum_ecc one_word) 0 crc_off ≡ slice one_word 0 crc_off)
inode_verify_ecc-set_example = inode_verify_ecc-set one_word
