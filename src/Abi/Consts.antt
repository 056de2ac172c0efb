-- ===== src/Abi/Consts.antt =====
-- src/fuse.rs: the constants.
use rust_fuse.Prelude.{ℕ, ◌^◌}

abbrev pub fuse_kernel_version : ℕ
fuse_kernel_version = 7

abbrev pub fuse_kernel_minor_version : ℕ
fuse_kernel_minor_version = 8

abbrev pub fuse_root_id : ℕ
fuse_root_id = 1

abbrev pub fattr_mode : ℕ
fattr_mode = 2 ^ 0

abbrev pub fattr_uid : ℕ
fattr_uid = 2 ^ 1

abbrev pub fattr_gid : ℕ
fattr_gid = 2 ^ 2

abbrev pub fattr_size : ℕ
fattr_size = 2 ^ 3

abbrev pub fattr_atime : ℕ
fattr_atime = 2 ^ 4

abbrev pub fattr_mtime : ℕ
fattr_mtime = 2 ^ 5

abbrev pub fattr_fh : ℕ
fattr_fh = 2 ^ 6

abbrev pub fuse_async_read : ℕ
fuse_async_read = 2 ^ 0

abbrev pub fuse_export_support : ℕ
fuse_export_support = 2 ^ 4

abbrev pub fuse_big_writes : ℕ
fuse_big_writes = 2 ^ 5

abbrev pub fuse_release_flush : ℕ
fuse_release_flush = 2 ^ 0

abbrev pub fattr_crtime : ℕ
fattr_crtime = 2 ^ 28

abbrev pub fattr_chgtime : ℕ
fattr_chgtime = 2 ^ 29

abbrev pub fattr_bkuptime : ℕ
fattr_bkuptime = 2 ^ 30

abbrev pub fattr_flags : ℕ
fattr_flags = 2 ^ 31

abbrev pub fopen_direct_io : ℕ
fopen_direct_io = 2 ^ 0

abbrev pub fopen_keep_cache : ℕ
fopen_keep_cache = 2 ^ 1

abbrev pub fopen_purge_attr : ℕ
fopen_purge_attr = 2 ^ 30

abbrev pub fopen_purge_ubc : ℕ
fopen_purge_ubc = 2 ^ 31

abbrev pub fuse_posix_locks : ℕ
fuse_posix_locks = 2 ^ 1

abbrev pub fuse_file_ops : ℕ
fuse_file_ops = 2 ^ 2

abbrev pub fuse_atomic_o_trunc : ℕ
fuse_atomic_o_trunc = 2 ^ 3

abbrev pub fuse_dont_mask : ℕ
fuse_dont_mask = 2 ^ 6

abbrev pub fuse_case_insensitive : ℕ
fuse_case_insensitive = 2 ^ 29

abbrev pub fuse_vol_rename : ℕ
fuse_vol_rename = 2 ^ 30

abbrev pub fuse_xtimes : ℕ
fuse_xtimes = 2 ^ 31
