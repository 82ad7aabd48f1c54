-- ===== src/Os.antt =====
-- lib/xxfs_os.c: the calls on the image file and the allocator.
--
-- The image is the list of its bytes. What the kernel will answer to the coming calls is a
-- schedule; past its end every call succeeds in full. The casts to `s64` are read off the unsigned
-- number: from 2 ^ 63 on it stands for a negative offset or size.
pub mod Extend
pub mod Image
pub mod Parts
use Image.{put_bytes}
use xxfs.Base.{
  ◌≡◌, ◌<◌, refl, take_all, ==_refl, arith, ℕ, suc, ◌+◌, ◌-◌, ◌^◌, min, Bool, true, false, ◌&&◌,
  Option, none, some, List, [], ◌∷◌, ◌++◌, ◌==◌, leb, if◌then◌else◌, length, take, drop, replicate,
}

-- What a call does: all of it, the first bytes of it, or nothing.
pub data Outcome : Type 0 where
  full failed : Outcome
  short : ℕ → Outcome

pub record Os : Type 0 where
  pub image : List ℕ
  pub outcomes : List Outcome

abbrev pub next_outcome : List Outcome → Outcome
next_outcome [] = full
next_outcome (o ∷ os) = o

abbrev pub later : List Outcome → List Outcome
later [] = []
later (o ∷ os) = os

-- A negative file offset is refused.
abbrev pub outcome_at : ℕ → List Outcome → Outcome
outcome_at off os = if leb (2 ^ 63) off then failed else next_outcome os

-- The state behind one call.
abbrev pub called : Os → Os
called os = record os { outcomes = later os.outcomes }

abbrev succeeds : Outcome → Bool
succeeds failed = false
succeeds o = true

-- How many of `n` bytes a call moves.
abbrev pub moved : Outcome → ℕ → ℕ
moved full n = n
moved failed n = 0
moved (short k) n = min k n

-- `xxfs_os_file_pwrite`: whether all was written.
unfoldable pub file_pwrite : Os → List ℕ → ℕ → Bool × Os
file_pwrite os buf off =
    let outcome = outcome_at off os.outcomes in
    let n = moved outcome (length buf) in
    (
      succeeds outcome && n == length buf,
      record os { image = put_bytes os.image off (take n buf); outcomes = later os.outcomes },
    )

-- `xxfs_os_file_pread`: the bytes read, fewer at the end of the image, or `none` for -1.
unfoldable pub file_pread : Os → ℕ → ℕ → Option (List ℕ) × Os
file_pread os len off = (
  elim (outcome_at off os.outcomes) [
    | full ↦ some (take len (drop off os.image))
    | short k ↦ some (take (min k len) (drop off os.image))
    | failed ↦ none
  ],
  called os,
)

-- `xxfs_os_file_size`; `none` for -1.
unfoldable pub file_size : Os → Option ℕ × Os
file_size os =
    (elim (next_outcome os.outcomes) [ failed ↦ none | _ ↦ some (length os.image) ], called os)

-- `ftruncate(2)` to a size that is not smaller.
abbrev pub grow_to : List ℕ → ℕ → List ℕ
grow_to image size = image ++ replicate (size - length image) 0

-- `xxfs_os_file_extend`: whether the image now has at least `size` bytes.
unfoldable pub file_extend : Os → ℕ → Bool × Os
unfolding file_size
file_extend os size =
    let (cur, os') = file_size os in
    elim cur [
      | none ↦ (false, os')
      | some n ↦
          if leb (2 ^ 63) size
          then (true, os')
          else if leb size n
          then (true, os')
          else elim (next_outcome os'.outcomes) [
            | failed ↦ (false, called os')
            | _ ↦
                (true, record os' { image = grow_to os'.image size; outcomes = later os'.outcomes })
          ]
    ]

-- `xxfs_os_zalloc` and `xxfs_os_alloc`: whether there was memory.
unfoldable pub os_alloc : Os → Bool × Os
os_alloc os = (elim (next_outcome os.outcomes) [ failed ↦ false | _ ↦ true ], called os)

-- `xxfs_os_file_open` with flags 0: whether the image was opened.
unfoldable pub file_open : Os → Bool × Os
file_open os = (succeeds (next_outcome os.outcomes), called os)

-- `xxfs_os_file_open` with flags 3, which leaves an empty image.
unfoldable pub file_create : Os → Bool × Os
file_create os =
    let opened = succeeds (next_outcome os.outcomes) in
    (opened, record os { image = if opened then [] else os.image; outcomes = later os.outcomes })

-- `xxfs_os_file_truncate`: whether the image now has `size` bytes.
unfoldable pub file_truncate : Os → ℕ → Bool × Os
file_truncate os size =
    let cut = succeeds (outcome_at size os.outcomes) in
    (
      cut,
      record os {
        image = if cut then take size (grow_to os.image size) else os.image;
        outcomes = later os.outcomes;
      },
    )

-- Where no failure is to come, there is memory.
pub os_alloc_calm : (os : Os) → os.outcomes ≡ [] → os_alloc os ≡ (true, os)
unfolding os_alloc
os_alloc_calm os h = rw h refl

-- An image in the hands of a kernel that fails no call.
abbrev pub quiet : List ℕ → Os
quiet image = record { image = image; outcomes = [] }

pub file_pwrite-quiet :
    (image buf : List ℕ) (off : ℕ)
    → off < 2 ^ 63
    → file_pwrite (quiet image) buf off ≡ (true, quiet (put_bytes image off buf))
unfolding file_pwrite
file_pwrite-quiet image buf off low =
    let g : leb (2 ^ 63) off ≡ false = ground arith in
    rw (g, take_all (length buf) buf refl, ==_refl (length buf)) refl
