-- ===== src/Abi/Replies/Results.antt =====
-- Structures of src/fuse.rs: the results of operations on files, and the entry of a directory.
use rust_fuse.Prelude.{ℕ, List, [], ◌∷◌, map}
use rust_fuse.Wire.{Pod, fields, u32_at, u64_at}
use rust_fuse.Abi.Control.{FuseFileLock, file_lock_layout, file_lock_of_bytes}

pub record FuseOpenOut : Type 0 where
  pub fh : ℕ  -- u64
  pub open_flags : ℕ  -- u32
  pub padding : ℕ  -- u32

abbrev pub open_out_layout : FuseOpenOut → List (ℕ × ℕ)
open_out_layout a = (8, a.fh) ∷ (4, a.open_flags) ∷ (4, a.padding) ∷ []

abbrev pub open_out_of_bytes : List ℕ → FuseOpenOut
open_out_of_bytes bytes = record {
  fh = u64_at 0 bytes;
  open_flags = u32_at 8 bytes;
  padding = u32_at 12 bytes;
}

instance abbrev pub open_out_pod : Pod FuseOpenOut
unfolding fields
open_out_pod = record {
  size_of = 16;
  to_bytes = λ a. fields (open_out_layout a);
  of_bytes = open_out_of_bytes;
}

pub record FuseWriteOut : Type 0 where
  pub size : ℕ  -- u32
  pub padding : ℕ  -- u32

abbrev pub write_out_layout : FuseWriteOut → List (ℕ × ℕ)
write_out_layout a = (4, a.size) ∷ (4, a.padding) ∷ []

abbrev pub write_out_of_bytes : List ℕ → FuseWriteOut
write_out_of_bytes bytes = record { size = u32_at 0 bytes; padding = u32_at 4 bytes }

instance abbrev pub write_out_pod : Pod FuseWriteOut
unfolding fields
write_out_pod = record {
  size_of = 8;
  to_bytes = λ a. fields (write_out_layout a);
  of_bytes = write_out_of_bytes;
}

pub record FuseGetxattrOut : Type 0 where
  pub size : ℕ  -- u32
  pub padding : ℕ  -- u32

abbrev pub getxattr_out_layout : FuseGetxattrOut → List (ℕ × ℕ)
getxattr_out_layout a = (4, a.size) ∷ (4, a.padding) ∷ []

abbrev pub getxattr_out_of_bytes : List ℕ → FuseGetxattrOut
getxattr_out_of_bytes bytes = record { size = u32_at 0 bytes; padding = u32_at 4 bytes }

instance abbrev pub getxattr_out_pod : Pod FuseGetxattrOut
unfolding fields
getxattr_out_pod = record {
  size_of = 8;
  to_bytes = λ a. fields (getxattr_out_layout a);
  of_bytes = getxattr_out_of_bytes;
}

pub record FuseKstatfs : Type 0 where
  pub blocks : ℕ  -- u64
  pub bfree : ℕ  -- u64
  pub bavail : ℕ  -- u64
  pub files : ℕ  -- u64
  pub ffree : ℕ  -- u64
  pub bsize : ℕ  -- u32
  pub namelen : ℕ  -- u32
  pub frsize : ℕ  -- u32
  pub padding : ℕ  -- u32
  pub spare : List ℕ  -- [u32; 6]

abbrev pub kstatfs_layout : FuseKstatfs → List (ℕ × ℕ)
kstatfs_layout a =
    (8, a.blocks)
    ∷ (8, a.bfree)
    ∷ (8, a.bavail)
    ∷ (8, a.files)
    ∷ (8, a.ffree)
    ∷ (4, a.bsize)
    ∷ (4, a.namelen)
    ∷ (4, a.frsize)
    ∷ (4, a.padding)
    ∷ map (λ v. (4, v)) a.spare

abbrev pub kstatfs_of_bytes : List ℕ → FuseKstatfs
kstatfs_of_bytes bytes = record {
  blocks = u64_at 0 bytes;
  bfree = u64_at 8 bytes;
  bavail = u64_at 16 bytes;
  files = u64_at 24 bytes;
  ffree = u64_at 32 bytes;
  bsize = u32_at 40 bytes;
  namelen = u32_at 44 bytes;
  frsize = u32_at 48 bytes;
  padding = u32_at 52 bytes;
  spare =
      u32_at 56 bytes
      ∷ u32_at 60 bytes
      ∷ u32_at 64 bytes
      ∷ u32_at 68 bytes
      ∷ u32_at 72 bytes
      ∷ u32_at 76 bytes
      ∷ [];
}

instance abbrev pub kstatfs_pod : Pod FuseKstatfs
unfolding fields
kstatfs_pod = record {
  size_of = 80;
  to_bytes = λ a. fields (kstatfs_layout a);
  of_bytes = kstatfs_of_bytes;
}

pub record FuseStatfsOut : Type 0 where
  pub st : FuseKstatfs

abbrev pub statfs_out_layout : FuseStatfsOut → List (ℕ × ℕ)
statfs_out_layout a = kstatfs_layout a.st

abbrev pub statfs_out_of_bytes : List ℕ → FuseStatfsOut
statfs_out_of_bytes bytes = record { st = kstatfs_of_bytes bytes }

instance abbrev pub statfs_out_pod : Pod FuseStatfsOut
unfolding fields
statfs_out_pod = record {
  size_of = 80;
  to_bytes = λ a. fields (statfs_out_layout a);
  of_bytes = statfs_out_of_bytes;
}

pub record FuseLkOut : Type 0 where
  pub lk : FuseFileLock

abbrev pub lk_out_layout : FuseLkOut → List (ℕ × ℕ)
lk_out_layout a = file_lock_layout a.lk

abbrev pub lk_out_of_bytes : List ℕ → FuseLkOut
lk_out_of_bytes bytes = record { lk = file_lock_of_bytes bytes }

instance abbrev pub lk_out_pod : Pod FuseLkOut
unfolding fields
lk_out_pod = record {
  size_of = 24;
  to_bytes = λ a. fields (lk_out_layout a);
  of_bytes = lk_out_of_bytes;
}

pub record FuseBmapOut : Type 0 where
  pub block : ℕ  -- u64

abbrev pub bmap_out_layout : FuseBmapOut → List (ℕ × ℕ)
bmap_out_layout a = (8, a.block) ∷ []

abbrev pub bmap_out_of_bytes : List ℕ → FuseBmapOut
bmap_out_of_bytes bytes = record { block = u64_at 0 bytes }

instance abbrev pub bmap_out_pod : Pod FuseBmapOut
unfolding fields
bmap_out_pod = record {
  size_of = 8;
  to_bytes = λ a. fields (bmap_out_layout a);
  of_bytes = bmap_out_of_bytes;
}

pub record FuseDirent : Type 0 where
  pub ino : ℕ  -- u64
  pub off : ℕ  -- u64
  pub namelen : ℕ  -- u32
  pub typ : ℕ  -- u32

abbrev pub dirent_layout : FuseDirent → List (ℕ × ℕ)
dirent_layout a = (8, a.ino) ∷ (8, a.off) ∷ (4, a.namelen) ∷ (4, a.typ) ∷ []

abbrev pub dirent_of_bytes : List ℕ → FuseDirent
dirent_of_bytes bytes = record {
  ino = u64_at 0 bytes;
  off = u64_at 8 bytes;
  namelen = u32_at 16 bytes;
  typ = u32_at 20 bytes;
}

instance abbrev pub dirent_pod : Pod FuseDirent
unfolding fields
dirent_pod = record {
  size_of = 24;
  to_bytes = λ a. fields (dirent_layout a);
  of_bytes = dirent_of_bytes;
}
