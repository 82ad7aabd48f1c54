-- ===== src/Paged/Page.antt =====
-- `struct paged_slot` and `struct paged_page`, and their bytes, little-endian, by the C layout.
pub mod Codec
use xxfs.Base.{ℕ, zero, suc, ◌+◌, ◌*◌, ◌-◌, ◌/◌, ◌%◌, List, [], ◌∷◌, ◌++◌, take, drop, replicate}

-- `KEY_PREFIX_LEN`
abbrev pub key_prefix_len : ℕ
key_prefix_len = 16

-- `PAGED_SLOTS_PER_PAGE`
abbrev pub slots_per_page : ℕ
slots_per_page = 56

-- `PAGED_INLINE_SPACE`: what 16 bytes of header and 56 slots of 48 bytes leave of a block.
abbrev pub inline_space : ℕ
inline_space = 4096 - (16 + slots_per_page * 48)

-- `SLOT_F_INLINE`
abbrev pub slot_inline : ℕ
slot_inline = 1

-- `pad` holds the seven bytes of `pad[7]`.
pub record Slot : Type 0 where
  pub hash : ℕ
  pub file_off : ℕ
  pub klen : ℕ
  pub vlen : ℕ
  pub key_prefix : List ℕ
  pub flags : ℕ
  pub pad : ℕ

pub record Page : Type 0 where
  pub count : ℕ
  pub local_depth : ℕ
  pub inline_used : ℕ
  pub overflow_next : ℕ
  pub slots : List Slot
  pub inline_area : List ℕ

abbrev pub zero_slot : Slot
zero_slot = record {
  hash = 0;
  file_off = 0;
  klen = 0;
  vlen = 0;
  key_prefix = replicate key_prefix_len 0;
  flags = 0;
  pad = 0;
}

-- A page of zeros, of a local depth.
unfoldable pub empty_page : ℕ → Page
empty_page depth = record {
  count = 0;
  local_depth = depth;
  inline_used = 0;
  overflow_next = 0;
  slots = replicate slots_per_page zero_slot;
  inline_area = replicate inline_space 0;
}

-- The `k` bytes of a number.
pub le : ℕ → ℕ → List ℕ
le zero n = []
le (suc k) n = (n % 256) ∷ le k (n / 256)

pub of_le : List ℕ → ℕ
of_le [] = 0
of_le (b ∷ bs) = b + 256 * of_le bs

-- The bytes of a slot, in front of `rest`.
pub slot_bytes : Slot → List ℕ → List ℕ
slot_bytes s rest =
    le 8 s.hash
    ++ (le 8 s.file_off
        ++ (le 4 s.klen
            ++ (le 4 s.vlen ++ (s.key_prefix ++ (le 1 s.flags ++ (le 7 s.pad ++ rest))))))

pub slot_of : List ℕ → Slot
slot_of b0 =
    let b1 = drop 8 b0 in
    let b2 = drop 8 b1 in
    let b3 = drop 4 b2 in
    let b4 = drop 4 b3 in
    let b5 = drop key_prefix_len b4 in
    let b6 = drop 1 b5 in
    record {
      hash = of_le (take 8 b0);
      file_off = of_le (take 8 b1);
      klen = of_le (take 4 b2);
      vlen = of_le (take 4 b3);
      key_prefix = take key_prefix_len b4;
      flags = of_le (take 1 b5);
      pad = of_le (take 7 b6);
    }

pub slots_bytes : List Slot → List ℕ → List ℕ
slots_bytes [] rest = rest
slots_bytes (s ∷ ss) rest = slot_bytes s (slots_bytes ss rest)

pub slots_of : ℕ → List ℕ → List Slot
slots_of zero bs = []
slots_of (suc n) bs = slot_of bs ∷ slots_of n (drop 48 bs)

-- The bytes of `struct paged_page` in memory, whose fields follow each other without padding. The
-- code hands this memory to `file_pwrite`, and has `file_pread` fill it.
pub page_bytes : Page → List ℕ
page_bytes p =
    le 2 p.count
    ++ (le 2 p.local_depth
        ++ (le 4 p.inline_used ++ (le 8 p.overflow_next ++ slots_bytes p.slots p.inline_area)))

-- The fields of a `struct paged_page` whose memory holds these bytes.
unfoldable pub page_of : List ℕ → Page
page_of b0 =
    let b1 = drop 2 b0 in
    let b2 = drop 2 b1 in
    let b3 = drop 4 b2 in
    let b4 = drop 8 b3 in
    record {
      count = of_le (take 2 b0);
      local_depth = of_le (take 2 b1);
      inline_used = of_le (take 4 b2);
      overflow_next = of_le (take 8 b3);
      slots = slots_of slots_per_page b4;
      inline_area = take inline_space (drop (slots_per_page * 48) b4);
    }
