-- ===== src/Lib.antt =====
-- xxfs, a file system in a file: its core in lib/xxfs.c over the calls of lib/xxfs_os.c.
--
-- Base holds the names that all modules share. The rest follows the program:
-- - Os (lib/xxfs_os.c): the image as the list of its bytes, with `file_pwrite`, `file_pread`,
--   `file_size`, `file_extend` and `os_alloc`. What the kernel answers to each call is a
--   schedule in the state, so that every error path runs; Os.Image has the bytes themselves.
-- - Check (lib/xxfs_os.c, lib/xxfs.c): `xxfs_os_crc32c`, `xxfs_os_ecc_compute`, `xxfs_os_ecc_correct`, on
--   a piece of memory that holds data and codes, and `inode_set_checksum_ecc`, `inode_verify_ecc`.
-- - Super (lib/xxfs.h, lib/xxfs.c): the counters of `struct xxfs_super` and `page_alloc`,
--   `page_alloc_n`, `page_alloc_raw`; Super.Alloc says what they hand out.
-- - Paged.Page (lib/xxfs.c): `struct paged_page` and its bytes; Paged.Page.Codec reads them back.
-- - Paged.Cache (lib/xxfs.c): the page cache, `page_load`, `page_writeback`, `pcache_flush_all`,
--   `page_cache_invalidate`. Paged.Cache.Coherent has the abstract view, a page for each block,
--   and the invariant; Load, Writeback and Flush prove the operations against that view.
-- - Paged.Hash: `xxh64` and `dir_index`; Paged.Dir: `struct paged_dir` and `paged_dir_double`;
--   Paged.Slots: what the index does to the slots of one page.
-- - Paged.Index (lib/xxfs.c): the state of the index, `write_record`; Paged.Index.Get has `paged_get`,
--   Put has `paged_put`, `paged_insert` and `page_split_and_retry`, Delete has `paged_del`.
--   Paged.Entries has the abstract view, a list of keys and values along a chain of pages.
-- - Icache (lib/xxfs.c): the inode cache, `icache_lookup`, `icache_put`, `icache_grow`,
--   `icache_evict_one`, `icache_del`, `icache_flush_all`. Its clock is a list of coming readings.
-- - Fs (lib/xxfs.c): the state of `struct xxfs` and what the calls share; a call gives its result and
--   the state behind it, or nothing where a loop of the index used up its fuel. Fs.Field and Fs.Inode
--   have the numbers in the bytes of a structure; Fs.Names has `xxfs_create`, `xxfs_mkdir`,
--   `xxfs_unlink`, `xxfs_rmdir`, `xxfs_rename` and `xxfs_symlink`, Fs.Attr `xxfs_stat` and what sets
--   attributes, Fs.Data `xxfs_write` and `xxfs_read`, Fs.Handle the open files, Fs.DirCache the
--   directory cache and `xxfs_readdir`, Fs.Disk `pdir_write`, `super_write`, `super_read`,
--   `xxfs_sync` and `xxfs_umount`.
-- - Mount (lib/xxfs.c): `xxfs_mount`; Mount.Format has `xxfs_mkfs`. Mount.Ends and Mount.Answers are
--   about its two loops, which have fuel of their own: one more than the pages of the image for the
--   scan and 32 for the doubling are enough, where no page is deeper than 31.
-- - Swiss (lib/xxfs.c): `struct dp_table`, `table_init` to `table_del`, a hash table that the library
--   allocates and never fills; Swiss.Grow has `table_grow` and `table_put`.
-- - PathName (lib/xxfs.c): `path_normalize`, `get_parent_path`, `get_basename`, against a
--   description of a path as the list of its names.
-- - Shell (shell/shell.c): `path_resolve`, which has a loop like that of `path_normalize`, with `..`.
-- - Fsck (fsck/fsck.c): `check_root`, `check_path` and `main`, by the errors that they count. The depth of
--   the tree of directories is bounded by a fuel of its own, and `none` stands for a deeper one.
-- - Examples: concrete inputs.
--
-- Numbers are unbounded with the C wrap-around written out (`u32`, `u64`, `sub64`). A C pointer to
-- a cached page is the page, handed over as a value. The loop over the cache slots has the
-- number of slots as its fuel; the loops over paths follow the path. The loops over a chain of pages
-- take their fuel as an argument, and a call that used it up returns `none`; for `paged_get`, and for
-- `paged_insert` where a page has room, one more than the pages of the chain is enough. Accesses
-- behind the end of an array, undefined in C, have zeros or no effect here.
--
-- Not modelled: locks, the mapping of the image and the profiling counters, which change no result;
-- null pointers; the functions that only return `XXFS_OK`, `xxfs_defrag_file` to `xxfs_lrc_repair`; the
-- command of mkfs/, what fsck/ prints, and the commands of shell/ but for `path_resolve`. bench/ and test/ only call the library.
pub mod Base
pub mod Check
pub mod Fs
pub mod Fsck
pub mod Icache
pub mod Mount
pub mod Examples
pub mod Os
pub mod Paged
pub mod PathName
pub mod Super
pub mod Shell
pub mod Swiss
