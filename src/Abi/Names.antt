-- ===== src/Abi/Names.antt =====
-- Structures of src/fuse.rs: the arguments of the requests on names and attributes. A comment gives the type of the
-- source; an i32 or i64 is the number of its bit pattern. Fields for OS X only stand in
-- OsxNames.antt and OsxReplies.antt.
use rust_fuse.Prelude.{ℕ, List, [], ◌∷◌}
use rust_fuse.Wire.{Pod, fields, u32_at, u64_at}

pub record FuseSetattrIn : Type 0 where
  pub valid : ℕ  -- u32
  pub padding : ℕ  -- u32
  pub fh : ℕ  -- u64
  pub size : ℕ  -- u64
  pub unused1 : ℕ  -- u64
  pub atime : ℕ  -- i64
  pub mtime : ℕ  -- i64
  pub unused2 : ℕ  -- u64
  pub atimensec : ℕ  -- i32
  pub mtimensec : ℕ  -- i32
  pub unused3 : ℕ  -- u32
  pub mode : ℕ  -- u32
  pub unused4 : ℕ  -- u32
  pub uid : ℕ  -- u32
  pub gid : ℕ  -- u32
  pub unused5 : ℕ  -- u32

abbrev pub setattr_in_layout : FuseSetattrIn → List (ℕ × ℕ)
setattr_in_layout a =
    (4, a.valid)
    ∷ (4, a.padding)
    ∷ (8, a.fh)
    ∷ (8, a.size)
    ∷ (8, a.unused1)
    ∷ (8, a.atime)
    ∷ (8, a.mtime)
    ∷ (8, a.unused2)
    ∷ (4, a.atimensec)
    ∷ (4, a.mtimensec)
    ∷ (4, a.unused3)
    ∷ (4, a.mode)
    ∷ (4, a.unused4)
    ∷ (4, a.uid)
    ∷ (4, a.gid)
    ∷ (4, a.unused5)
    ∷ []

abbrev pub setattr_in_of_bytes : List ℕ → FuseSetattrIn
setattr_in_of_bytes bytes = record {
  valid = u32_at 0 bytes;
  padding = u32_at 4 bytes;
  fh = u64_at 8 bytes;
  size = u64_at 16 bytes;
  unused1 = u64_at 24 bytes;
  atime = u64_at 32 bytes;
  mtime = u64_at 40 bytes;
  unused2 = u64_at 48 bytes;
  atimensec = u32_at 56 bytes;
  mtimensec = u32_at 60 bytes;
  unused3 = u32_at 64 bytes;
  mode = u32_at 68 bytes;
  unused4 = u32_at 72 bytes;
  uid = u32_at 76 bytes;
  gid = u32_at 80 bytes;
  unused5 = u32_at 84 bytes;
}

instance abbrev pub setattr_in_pod : Pod FuseSetattrIn
unfolding fields
setattr_in_pod = record {
  size_of = 88;
  to_bytes = λ a. fields (setattr_in_layout a);
  of_bytes = setattr_in_of_bytes;
}

pub record FuseMknodIn : Type 0 where
  pub mode : ℕ  -- u32
  pub rdev : ℕ  -- u32

abbrev pub mknod_in_layout : FuseMknodIn → List (ℕ × ℕ)
mknod_in_layout a = (4, a.mode) ∷ (4, a.rdev) ∷ []

abbrev pub mknod_in_of_bytes : List ℕ → FuseMknodIn
mknod_in_of_bytes bytes = record { mode = u32_at 0 bytes; rdev = u32_at 4 bytes }

instance abbrev pub mknod_in_pod : Pod FuseMknodIn
unfolding fields
mknod_in_pod = record {
  size_of = 8;
  to_bytes = λ a. fields (mknod_in_layout a);
  of_bytes = mknod_in_of_bytes;
}

pub record FuseMkdirIn : Type 0 where
  pub mode : ℕ  -- u32
  pub padding : ℕ  -- u32

abbrev pub mkdir_in_layout : FuseMkdirIn → List (ℕ × ℕ)
mkdir_in_layout a = (4, a.mode) ∷ (4, a.padding) ∷ []

abbrev pub mkdir_in_of_bytes : List ℕ → FuseMkdirIn
mkdir_in_of_bytes bytes = record { mode = u32_at 0 bytes; padding = u32_at 4 bytes }

instance abbrev pub mkdir_in_pod : Pod FuseMkdirIn
unfolding fields
mkdir_in_pod = record {
  size_of = 8;
  to_bytes = λ a. fields (mkdir_in_layout a);
  of_bytes = mkdir_in_of_bytes;
}

pub record FuseRenameIn : Type 0 where
  pub newdir : ℕ  -- u64

abbrev pub rename_in_layout : FuseRenameIn → List (ℕ × ℕ)
rename_in_layout a = (8, a.newdir) ∷ []

abbrev pub rename_in_of_bytes : List ℕ → FuseRenameIn
rename_in_of_bytes bytes = record { newdir = u64_at 0 bytes }

instance abbrev pub rename_in_pod : Pod FuseRenameIn
unfolding fields
rename_in_pod = record {
  size_of = 8;
  to_bytes = λ a. fields (rename_in_layout a);
  of_bytes = rename_in_of_bytes;
}

pub record FuseLinkIn : Type 0 where
  pub oldnodeid : ℕ  -- u64

abbrev pub link_in_layout : FuseLinkIn → List (ℕ × ℕ)
link_in_layout a = (8, a.oldnodeid) ∷ []

abbrev pub link_in_of_bytes : List ℕ → FuseLinkIn
link_in_of_bytes bytes = record { oldnodeid = u64_at 0 bytes }

instance abbrev pub link_in_pod : Pod FuseLinkIn
unfolding fields
link_in_pod = record {
  size_of = 8;
  to_bytes = λ a. fields (link_in_layout a);
  of_bytes = link_in_of_bytes;
}

pub record FuseSetxattrIn : Type 0 where
  pub size : ℕ  -- u32
  pub flags : ℕ  -- u32

abbrev pub setxattr_in_layout : FuseSetxattrIn → List (ℕ × ℕ)
setxattr_in_layout a = (4, a.size) ∷ (4, a.flags) ∷ []

abbrev pub setxattr_in_of_bytes : List ℕ → FuseSetxattrIn
setxattr_in_of_bytes bytes = record { size = u32_at 0 bytes; flags = u32_at 4 bytes }

instance abbrev pub setxattr_in_pod : Pod FuseSetxattrIn
unfolding fields
setxattr_in_pod = record {
  size_of = 8;
  to_bytes = λ a. fields (setxattr_in_layout a);
  of_bytes = setxattr_in_of_bytes;
}

pub record FuseGetxattrIn : Type 0 where
  pub size : ℕ  -- u32
  pub padding : ℕ  -- u32

abbrev pub getxattr_in_layout : FuseGetxattrIn → List (ℕ × ℕ)
getxattr_in_layout a = (4, a.size) ∷ (4, a.padding) ∷ []

abbrev pub getxattr_in_of_bytes : List ℕ → FuseGetxattrIn
getxattr_in_of_bytes bytes = record { size = u32_at 0 bytes; padding = u32_at 4 bytes }

instance abbrev pub getxattr_in_pod : Pod FuseGetxattrIn
unfolding fields
getxattr_in_pod = record {
  size_of = 8;
  to_bytes = λ a. fields (getxattr_in_layout a);
  of_bytes = getxattr_in_of_bytes;
}

pub record FuseAccessIn : Type 0 where
  pub mask : ℕ  -- u32
  pub padding : ℕ  -- u32

abbrev pub access_in_layout : FuseAccessIn → List (ℕ × ℕ)
access_in_layout a = (4, a.mask) ∷ (4, a.padding) ∷ []

abbrev pub access_in_of_bytes : List ℕ → FuseAccessIn
access_in_of_bytes bytes = record { mask = u32_at 0 bytes; padding = u32_at 4 bytes }

instance abbrev pub access_in_pod : Pod FuseAccessIn
unfolding fields
access_in_pod = record {
  size_of = 8;
  to_bytes = λ a. fields (access_in_layout a);
  of_bytes = access_in_of_bytes;
}
