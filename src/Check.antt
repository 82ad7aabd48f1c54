-- ===== src/Check.antt =====
-- lib/xxfs_os.c: `xxfs_os_crc32c`, in the form without SSE 4.2, and `xxfs_os_ecc_compute` and
-- `xxfs_os_ecc_correct`. The data and the code bytes lie in one piece of memory, the data from 0 on
-- and the codes from an offset on, since the callers keep both in one struct, where they overlap.
pub mod Codes
pub mod Inode
pub mod Lengths
use xxfs.Base.{
  ℕ, zero, suc, ◌+◌, ◌-◌, ◌*◌, ◌/◌, ◌%◌, ◌^◌, ◌>>>◌, Bool, true, false, List, [], ◌∷◌, ◌++◌, ◌==◌,
  ltb, if◌then◌else◌, get_or, take, drop, bit_and, bit_or, bit_xor, u32,
}
use xxfs.Os.Image.{put_bytes, slice}
use xxfs.Paged.Page.{le, of_le}

-- `crc32c_init`: the rounds of an entry of `crc32c_table`.
unfoldable pub crc_rounds : ℕ → ℕ → ℕ
crc_rounds zero c = c
crc_rounds (suc j) c =
    crc_rounds j (if bit_and c 1 == 0 then c >>> 1 else bit_xor 0x82F63B78 (c >>> 1))

unfoldable pub crc_loop : ℕ → List ℕ → ℕ
unfolding crc_rounds
crc_loop crc [] = crc
crc_loop crc (b ∷ p) =
    crc_loop (bit_xor (crc_rounds 8 (bit_and (bit_xor crc b) 0xFF)) (crc >>> 8)) p

unfoldable pub crc32c : List ℕ → ℕ
unfolding crc_loop
crc32c p = bit_xor (crc_loop 0xFFFFFFFF p) 0xFFFFFFFF

-- `_hamming_parity`; the array has 256 entries, of which the initialiser leaves the last 8 zero.
abbrev pub hamming_parity : List ℕ
hamming_parity =
    0x00 ∷ 0x69 ∷ 0x6a ∷ 0x03 ∷ 0x6c ∷ 0x05 ∷ 0x06 ∷ 0x6f ∷ 0x70 ∷ 0x19 ∷ 0x1a ∷ 0x73 ∷ 0x1c ∷ 0x75
    ∷ 0x76 ∷ 0x1f ∷ 0x78 ∷ 0x11 ∷ 0x12 ∷ 0x7b ∷ 0x14 ∷ 0x7d ∷ 0x7e ∷ 0x17 ∷ 0x08 ∷ 0x61 ∷ 0x62
    ∷ 0x0b ∷ 0x64 ∷ 0x0d ∷ 0x0e ∷ 0x67 ∷ 0x60 ∷ 0x09 ∷ 0x0a ∷ 0x63 ∷ 0x0c ∷ 0x65 ∷ 0x66 ∷ 0x0f
    ∷ 0x10 ∷ 0x79 ∷ 0x7a ∷ 0x13 ∷ 0x7c ∷ 0x15 ∷ 0x16 ∷ 0x7f ∷ 0x18 ∷ 0x71 ∷ 0x72 ∷ 0x1b ∷ 0x74
    ∷ 0x1d ∷ 0x1e ∷ 0x77 ∷ 0x68 ∷ 0x01 ∷ 0x02 ∷ 0x6b ∷ 0x04 ∷ 0x6d ∷ 0x6e ∷ 0x07 ∷ 0x48 ∷ 0x21
    ∷ 0x22 ∷ 0x4b ∷ 0x24 ∷ 0x4d ∷ 0x4e ∷ 0x27 ∷ 0x38 ∷ 0x51 ∷ 0x52 ∷ 0x3b ∷ 0x54 ∷ 0x3d ∷ 0x3e
    ∷ 0x57 ∷ 0x30 ∷ 0x59 ∷ 0x5a ∷ 0x33 ∷ 0x5c ∷ 0x35 ∷ 0x36 ∷ 0x5f ∷ 0x40 ∷ 0x29 ∷ 0x2a ∷ 0x43
    ∷ 0x2c ∷ 0x45 ∷ 0x46 ∷ 0x2f ∷ 0x28 ∷ 0x41 ∷ 0x42 ∷ 0x2b ∷ 0x44 ∷ 0x2d ∷ 0x2e ∷ 0x47 ∷ 0x58
    ∷ 0x31 ∷ 0x32 ∷ 0x5b ∷ 0x34 ∷ 0x5d ∷ 0x5e ∷ 0x37 ∷ 0x50 ∷ 0x39 ∷ 0x3a ∷ 0x53 ∷ 0x3c ∷ 0x55
    ∷ 0x56 ∷ 0x3f ∷ 0x20 ∷ 0x49 ∷ 0x4a ∷ 0x23 ∷ 0x4c ∷ 0x25 ∷ 0x26 ∷ 0x4f ∷ 0x90 ∷ 0xf9 ∷ 0xfa
    ∷ 0x93 ∷ 0xfc ∷ 0x95 ∷ 0x96 ∷ 0xff ∷ 0xe0 ∷ 0x89 ∷ 0x8a ∷ 0xe3 ∷ 0x8c ∷ 0xe5 ∷ 0xe6 ∷ 0x8f
    ∷ 0xe8 ∷ 0x81 ∷ 0x82 ∷ 0xeb ∷ 0x84 ∷ 0xed ∷ 0xee ∷ 0x87 ∷ 0x98 ∷ 0xf1 ∷ 0xf2 ∷ 0x9b ∷ 0xf4
    ∷ 0x9d ∷ 0x9e ∷ 0xf7 ∷ 0xf0 ∷ 0x99 ∷ 0x9a ∷ 0xf3 ∷ 0x9c ∷ 0xf5 ∷ 0xf6 ∷ 0x9f ∷ 0x80 ∷ 0xe9
    ∷ 0xea ∷ 0x83 ∷ 0xec ∷ 0x85 ∷ 0x86 ∷ 0xef ∷ 0x88 ∷ 0xe1 ∷ 0xe2 ∷ 0x8b ∷ 0xe4 ∷ 0x8d ∷ 0x8e
    ∷ 0xe7 ∷ 0xd8 ∷ 0xb1 ∷ 0xb2 ∷ 0xdb ∷ 0xb4 ∷ 0xdd ∷ 0xde ∷ 0xb7 ∷ 0xc8 ∷ 0xa1 ∷ 0xa2 ∷ 0xcb
    ∷ 0xa4 ∷ 0xcd ∷ 0xce ∷ 0xa7 ∷ 0xb0 ∷ 0xd9 ∷ 0xda ∷ 0xb3 ∷ 0xdc ∷ 0xb5 ∷ 0xb6 ∷ 0xdf ∷ 0xa0
    ∷ 0xc9 ∷ 0xca ∷ 0xa3 ∷ 0xcc ∷ 0xa5 ∷ 0xa6 ∷ 0xcf ∷ 0xb8 ∷ 0xd1 ∷ 0xd2 ∷ 0xbb ∷ 0xd4 ∷ 0xbd
    ∷ 0xbe ∷ 0xd7 ∷ 0xc0 ∷ 0xa9 ∷ 0xaa ∷ 0xc3 ∷ 0xac ∷ 0xc5 ∷ 0xc6 ∷ 0xaf ∷ 0xd0 ∷ 0xb9 ∷ 0xba
    ∷ 0xd3 ∷ 0xbc ∷ 0xc5 ∷ 0xc6 ∷ 0xaf ∷ 0xa8 ∷ 0xc1 ∷ 0xc2 ∷ 0xab ∷ 0xc4 ∷ 0xad ∷ 0xae ∷ 0xc7 ∷ []

abbrev pub parity_of : ℕ → ℕ
parity_of b = get_or hamming_parity (b % 2 ^ 8) 0

-- `__builtin_parityll`: whether the number of bits that are set is odd.
unfoldable pub parity_bit : ℕ → ℕ → ℕ
parity_bit zero w = 0
parity_bit (suc n) w = (w % 2 + parity_bit n (w / 2)) % 2

-- The code of a word.
unfoldable pub ecc_word : ℕ → ℕ
unfolding parity_bit
ecc_word w =
    let ecc =
      bit_xor
        (bit_xor
          (bit_xor
            (bit_xor
              (bit_xor
                (bit_xor (bit_xor (parity_of w) (parity_of (w >>> 8))) (parity_of (w >>> 16)))
                (parity_of (w >>> 24)))
              (parity_of (w >>> 32)))
            (parity_of (w >>> 40)))
          (parity_of (w >>> 48)))
        (parity_of (w >>> 56)) in
    bit_or ecc (parity_bit 64 w * 2 ^ 7)

-- `p[i]` of the `u64` array.
unfoldable pub word : List ℕ → ℕ → ℕ
word mem i = of_le (slice mem (8 * i) 8)

abbrev pub word_count : ℕ → ℕ
word_count len = u32 ((len + 7) / 8)

-- The words from `i` on, each code written as it is computed.
unfoldable pub compute_from : ℕ → ℕ → ℕ → List ℕ → List ℕ
unfolding word ecc_word
compute_from zero i at mem = mem
compute_from (suc left) i at mem =
    compute_from left (i + 1) at (put_bytes mem (at + i) (ecc_word (word mem i) ∷ []))

-- `xxfs_os_ecc_compute`, its codes in the same memory.
unfoldable pub ecc_compute : List ℕ → ℕ → ℕ → List ℕ
unfolding compute_from
ecc_compute mem len at = compute_from (word_count len) 0 at mem

-- The codes of the words from `i` on, in an array of their own.
unfoldable pub codes_from : ℕ → ℕ → List ℕ → List ℕ
unfolding word ecc_word
codes_from zero i mem = []
codes_from (suc left) i mem = ecc_word (word mem i) ∷ codes_from left (i + 1) mem

pub data EccRc : Type 0 where
  intact corrected uncorrectable : EccRc

-- The loop of `xxfs_os_ecc_correct` over the computed codes, for which C has an array of 256; its callers
-- have 62 and 26 words. `rc` says whether a word was changed.
unfoldable pub correct_from : List ℕ → ℕ → ℕ → EccRc → List ℕ → EccRc × List ℕ
unfolding word
correct_from [] i at rc mem = (rc, mem)
correct_from (c ∷ codes) i at rc mem =
    let syndrome = bit_xor (get_or mem (at + i) 0) c in
    let bit_pos = bit_and syndrome 0x7F in
    elim (syndrome == 0) [
      | true ↦ correct_from codes (i + 1) at rc mem
      | false ↦ elim (bit_and syndrome 0x80 == 0) [
        | true ↦ (uncorrectable, mem)
        | false ↦ elim (bit_pos == 0) [
          | true ↦ (uncorrectable, mem)
          | false ↦ elim (ltb 64 bit_pos) [
            | true ↦ (uncorrectable, mem)
            | false ↦
                correct_from codes (i + 1) at corrected
                  (put_bytes mem (8 * i) (le 8 (bit_xor (word mem i) (2 ^ (bit_pos - 1)))))
          ]
        ]
      ]
    ]

unfoldable pub ecc_correct : List ℕ → ℕ → ℕ → EccRc × List ℕ
unfolding codes_from correct_from
ecc_correct mem len at = correct_from (codes_from (word_count len) 0 mem) 0 at intact mem
