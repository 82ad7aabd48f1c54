-- ===== src/Mount/Reads.antt =====
-- What `xxfs_mount` finds in an image that holds a super block and a directory of pages.
use xxfs.Base.{
  ℕ, ◌+◌, ◌*◌, ◌^◌, ◌≤◌, ◌<◌, ◌≡◌, ◌≢◌, refl, sym, ap, ◌∙◌, arith, true, false, some, List, [], ◌∷◌,
  ◌==◌, ltb, leb, length, take-append, drop-append, length-append, ne→==, lt→ltb,
}
use xxfs.Fs.Disk.{super_size, super_of, super_read, sum_agrees, magic, word_at, offsets_bytes}
use xxfs.Fs.Field.{get}
use xxfs.Icache.{fresh_icache, cap_init, icache_init}
use xxfs.Mount.{mounts, mounted, offsets_of, dir_from, read_dir, mount_dir, xxfs_mount}
use xxfs.Os.{Os, file_open, file_pread, os_alloc_calm}
use xxfs.Os.Image.{padded, slice}
use xxfs.Os.Parts.{take-drop, padded_all}
use xxfs.Paged.Dir.{Dir}
use xxfs.Paged.Index.{done}
use xxfs.Paged.Page.{le}
use xxfs.Paged.Page.Codec.{length-le, of_le-le}
use xxfs.Super.{Super}
use xxfs.Swiss.{DpTable, table_init, table_alloc}

-- Offsets fit 64 bits.
abbrev pub AllOffsets : List ℕ → Type 0
AllOffsets [] = Unit {0}
AllOffsets (o ∷ os) = (o < 2 ^ 64) × AllOffsets os

pub length-offsets_bytes : (os : List ℕ) → length (offsets_bytes os) ≡ length os * 8
length-offsets_bytes [] = omega arith
length-offsets_bytes (o ∷ os) =
    omega (arith, length-append (le 8 o) (offsets_bytes os), length-le 8 o, length-offsets_bytes os)

pub offsets_of-offsets_bytes :
    (os : List ℕ) → AllOffsets os → offsets_of (length os) (offsets_bytes os) ≡ os
unfolding offsets_of
offsets_of-offsets_bytes [] all = refl
offsets_of-offsets_bytes (o ∷ os) (h, all) =
    rw
      (
        take-append 8 (le 8 o) (offsets_bytes os) (length-le 8 o),
        drop-append 8 (le 8 o) (offsets_bytes os) (length-le 8 o),
        of_le-le 8 o (omega (arith, h)),
        offsets_of-offsets_bytes os all,
      )
      refl

-- A full read of a calm kernel.
pread_calm :
    (os : Os) (n off : ℕ)
    → os.outcomes ≡ []
    → off < 2 ^ 63
    → off + n ≤ length os.image
    → file_pread os n off ≡ (some (slice os.image off n), os)
unfolding file_pread
pread_calm os n off calm low inside =
    let g : leb (2 ^ 63) off ≡ false = ground arith in
    rw (g, calm, take-drop n off os.image inside) refl

pub table_alloc_calm :
    (t : DpTable) (n : ℕ) (os : Os) → os.outcomes ≡ [] → (table_alloc t n os).2 ≡ os
unfolding table_alloc
table_alloc_calm t n os calm =
    let room = os_alloc_calm os calm in
    rw (ap (λ r. r.0) room, ap (λ r. r.1) room, ap (λ r. r.0) room, ap (λ r. r.1) room) refl

dir_from-some :
    (sb : Super) (bs : List ℕ)
    → 0 < length bs
    → dir_from sb (some bs) ≡ record {
      page_off = offsets_of sb.pdir_size (padded bs (sb.pdir_size * 8));
      dir_size = sb.pdir_size;
      global_depth = sb.pdir_depth;
    }
dir_from-some sb [] h = absurd (omega arith)
dir_from-some sb (b ∷ bs) h = refl

-- An image with a super block in front, and a directory of pages where that says.
pub record IsMountable (image mem : List ℕ) (d : Dir) : Type 0 where
  pub size : length mem ≡ super_size
  pub stored : slice image 0 super_size ≡ mem
  pub sum : sum_agrees mem ≡ true
  pub has_magic : get (word_at 0) mem ≡ magic
  pub there : (super_of mem).pdir_off ≢ 0
  pub low : (super_of mem).pdir_off < 2 ^ 63
  pub front : super_size ≤ length image
  pub inside : (super_of mem).pdir_off + (super_of mem).pdir_size * 8 ≤ length image
  pub same_size : (super_of mem).pdir_size ≡ d.dir_size
  pub same_depth : (super_of mem).pdir_depth ≡ d.global_depth
  pub some_page : 0 < d.dir_size
  pub length_is : length d.page_off ≡ d.dir_size
  pub all : AllOffsets d.page_off
  pub table :
      slice image (super_of mem).pdir_off ((super_of mem).pdir_size * 8) ≡ offsets_bytes d.page_off

module _ (os : Os) (mem : List ℕ) (d : Dir) (calm : os.outcomes ≡ [])
    (is : IsMountable os.image mem d) where
  super_read_stored : super_read os ≡ (done mem, os)
  unfolding super_read
  super_read_stored =
      let read = pread_calm os super_size 0 calm (omega arith) (omega (arith, is.front)) in
      let whole : ltb (length mem) super_size ≡ false = let e = is.size in ground arith in
      let m : (get (word_at 0) mem == magic) ≡ true = rw is.has_magic refl in
      rw (ap (λ t. t.0) read, ap (λ t. t.1) read, is.stored, whole, is.sum, m) refl

  abbrev sb : Super
  sb = super_of mem

  read_dir_stored : read_dir sb os ≡ (d, os)
  unfolding read_dir
  read_dir_stored =
      let room = os_alloc_calm os calm in
      let n : length (offsets_bytes d.page_off) ≡ sb.pdir_size * 8 =
        omega (arith, length-offsets_bytes d.page_off, is.length_is, is.same_size) in
      let read = pread_calm os (sb.pdir_size * 8) sb.pdir_off calm is.low is.inside in
      let m : length d.page_off ≡ sb.pdir_size = is.length_is ∙ sym is.same_size in
      let whole : offsets_of sb.pdir_size (padded (offsets_bytes d.page_off) (sb.pdir_size * 8))
          ≡ d.page_off =
        ap (offsets_of sb.pdir_size) (padded_all (sb.pdir_size * 8) (offsets_bytes d.page_off) n)
        ∙ ap (λ k. offsets_of k (offsets_bytes d.page_off)) (sym m)
        ∙ offsets_of-offsets_bytes d.page_off is.all in
      rw
        (
          ap (λ t. t.0) room,
          ap (λ t. t.1) room,
          ap (λ t. t.0) read,
          ap (λ t. t.1) read,
          is.table,
          dir_from-some sb (offsets_bytes d.page_off)
              (omega (arith, n, is.same_size, is.some_page)),
          whole,
          is.same_size,
          is.same_depth,
        )
        refl

  mount_dir_stored : (pages fuel : ℕ) → mount_dir pages fuel sb os ≡ (some d, os)
  unfolding mount_dir
  mount_dir_stored pages fuel =
      let t : (sb.pdir_off == 0) ≡ false = ne→== _ _ is.there in
      let s : ltb 0 sb.pdir_size ≡ true = lt→ltb _ _ (omega (arith, is.same_size, is.some_page)) in
      rw (t, s, ap (λ r. r.0) read_dir_stored, ap (λ r. r.1) read_dir_stored) refl

  -- The mount finds them.
  pub xxfs_mount-stored :
      (pages fuel flags : ℕ) (times : List ℕ)
      → xxfs_mount pages fuel flags times os
        ≡ mounts (mounted mem (fresh_icache cap_init) d flags times os)
  unfolding xxfs_mount file_open icache_init
  xxfs_mount-stored pages fuel flags times =
      let room = os_alloc_calm os calm in
      let opened : file_open os ≡ (true, os) = rw calm refl in
      rw
        (
          ap (λ t. t.0) room,
          ap (λ t. t.1) room,
          ap (λ t. t.0) opened,
          ap (λ t. t.1) opened,
          super_read_stored,
          ap (λ t. t.0) room,
          ap (λ t. t.1) room,
          table_alloc_calm table_init 1024 os calm,
          ap (λ t. t.1) room,
          mount_dir_stored pages fuel,
        )
        refl
