-- ===== src/Fs/Disk/Codec.antt =====
-- The bytes of the super block, read back.
use xxfs.Base.{
  ℕ, ◌+◌, ◌^◌, ◌≤◌, ◌<◌, ◌≡◌, ◌⊎◌, inl, inr, refl, ap, ◌∙◌, arith, true, List, some, ==_refl,
  length,
}
use xxfs.Check.{crc32c}
use xxfs.Check.Codes.{ecc_compute-Computed, length-ecc_compute}
use xxfs.Check.Inode.{crc32c_bound}
use xxfs.Fs.Disk.{
  super_size, word_at, long_at, sum_off, codes_off, super_fields, super_bytes, super_of, with_sum,
  sealed, sum_agrees,
}
use xxfs.Fs.Field.{
  Field, get, get-put_self, get-put-Apart, slice-put_apart, get-put_all, length-put_all, value_in,
}
use xxfs.Os.Image.{slice, slice_ext, length-put_bytes}
use xxfs.Paged.Page.{le, of_le}
use xxfs.Paged.Page.Codec.{length-le}
use xxfs.Super.{Super}

-- The fields fit the structure.
pub record Fits (sb : Super) : Type 0 where
  pub block_count : sb.block_count < 2 ^ 64
  pub free_blocks : sb.free_blocks < 2 ^ 64
  pub inodes_count : sb.inodes_count < 2 ^ 64
  pub free_inodes : sb.free_inodes < 2 ^ 64
  pub cow_generation : sb.cow_generation < 2 ^ 64
  pub data_off : sb.data_off < 2 ^ 64
  pub pdir_off : sb.pdir_off < 2 ^ 64
  pub pdir_size : sb.pdir_size < 2 ^ 32
  pub pdir_depth : sb.pdir_depth < 2 ^ 8

-- Memory that agrees with another one in front of the codes, but for the checksum.
abbrev Agrees : List ℕ → List ℕ → Type 0
Agrees mem base =
    (f : Field)
    → (f.off + f.width ≤ sum_off) ⊎ ((sum_off + 4 ≤ f.off) × (f.off + f.width ≤ codes_off))
    → get f mem ≡ get f base

module _ (base : List ℕ) (sb : Super) (fits : Fits sb) where
  field_of :
      (mem : List ℕ) (f : Field) (v : ℕ)
      → Agrees mem (super_bytes base sb)
      → (f.off + f.width ≤ sum_off) ⊎ ((sum_off + 4 ≤ f.off) × (f.off + f.width ≤ codes_off))
      → value_in (super_fields sb) f ≡ some v
      → v < 256 ^ f.width
      → get f mem ≡ v
  unfolding super_bytes
  field_of mem f v agrees h has bound =
      agrees f h ∙ get-put_all (super_fields sb) base f v has bound

  pub super_of-Agrees : (mem : List ℕ) → Agrees mem (super_bytes base sb) → super_of mem ≡ sb
  unfolding super_of
  super_of-Agrees mem agrees =
      rw
        (
          field_of mem (long_at 16) sb.block_count agrees (inl (omega arith)) refl
              (omega (arith, fits.block_count)),
          field_of mem (long_at 24) sb.free_blocks agrees (inl (omega arith)) refl
              (omega (arith, fits.free_blocks)),
          field_of mem (long_at 32) sb.inodes_count agrees (inl (omega arith)) refl
              (omega (arith, fits.inodes_count)),
          field_of mem (long_at 40) sb.free_inodes agrees (inl (omega arith)) refl
              (omega (arith, fits.free_inodes)),
          field_of mem (long_at 56) sb.cow_generation agrees (inl (omega arith)) refl
              (omega (arith, fits.cow_generation)),
          field_of mem (long_at 168) sb.data_off agrees (inl (omega arith)) refl
              (omega (arith, fits.data_off)),
          field_of mem (long_at 212) sb.pdir_off agrees (inr (omega arith, omega arith)) refl
              (omega (arith, fits.pdir_off)),
          field_of mem (word_at 220) sb.pdir_size agrees (inr (omega arith, omega arith)) refl
              (omega (arith, fits.pdir_size)),
          field_of mem (record { off = 224; width = 1 }) sb.pdir_depth agrees
              (inr (omega arith, omega arith)) refl (omega (arith, fits.pdir_depth)),
        )
        refl

module _ (mem : List ℕ) where
  abbrev crc : ℕ
  crc = crc32c (slice mem 0 sum_off)

  pub with_sum-Agrees : Agrees (with_sum mem) mem
  with_sum-Agrees f (inl h) = get-put-Apart f (word_at sum_off) crc mem (inl h)
  with_sum-Agrees f (inr (h, h')) = get-put-Apart f (word_at sum_off) crc mem (inr h)

  -- The codes touch nothing in front of them.
  sealed_before :
      (off n : ℕ) → off + n ≤ codes_off → slice (sealed mem) off n ≡ slice (with_sum mem) off n
  sealed_before off n h =
      let c = ecc_compute-Computed (with_sum mem) sum_off codes_off (omega arith) in
      slice_ext (sealed mem) (with_sum mem) off n (λ k _ p. c.before k (omega arith))

  pub sealed-Agrees : Agrees (sealed mem) mem
  sealed-Agrees f (inl h) =
      ap of_le (sealed_before f.off f.width (omega (arith, h))) ∙ with_sum-Agrees f (inl h)
  sealed-Agrees f (inr (h, h')) =
      ap of_le (sealed_before f.off f.width h') ∙ with_sum-Agrees f (inr (h, h'))

  with_sum_data : slice (with_sum mem) 0 sum_off ≡ slice mem 0 sum_off
  with_sum_data = slice-put_apart (word_at sum_off) crc mem 0 sum_off (inl (omega arith))

  with_sum_stored : get (word_at sum_off) (with_sum mem) ≡ crc
  with_sum_stored =
      get-put_self (word_at sum_off) crc mem (omega (arith, crc32c_bound (slice mem 0 sum_off)))

  -- The checksum agrees.
  pub sum_agrees-with_sum : sum_agrees (with_sum mem) ≡ true
  sum_agrees-with_sum = rw (with_sum_data, with_sum_stored) (==_refl crc)

  pub sum_agrees-sealed : sum_agrees (sealed mem) ≡ true
  sum_agrees-sealed =
      let front = sealed_before 0 sum_off (omega arith) ∙ with_sum_data in
      let stored = ap of_le (sealed_before sum_off 4 (omega arith)) ∙ with_sum_stored in
      rw (front, stored) (==_refl crc)

  module _ (size : length mem ≡ super_size) where
    pub length-with_sum : length (with_sum mem) ≡ super_size
    length-with_sum =
        length-put_bytes mem sum_off (le 4 crc) (omega (arith, length-le 4 crc, size)) ∙ size

    pub length-sealed : length (sealed mem) ≡ super_size
    length-sealed =
        length-ecc_compute (with_sum mem) sum_off codes_off (omega (arith, length-with_sum))
        ∙ length-with_sum

pub length-super_bytes :
    (base : List ℕ) (sb : Super)
    → length base ≡ super_size
    → length (super_bytes base sb) ≡ super_size
unfolding super_bytes
length-super_bytes base sb size = length-put_all (super_fields sb) base (rw size refl) ∙ size
