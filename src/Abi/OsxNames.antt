-- ===== src/Abi/OsxNames.antt =====
-- Structures of src/fuse.rs: what a request carries on OS X, where it is not the same. A comment gives the
-- type of the source; an i32 or i64 is the number of its bit pattern.
use rust_fuse.Prelude.{ℕ, List, [], ◌∷◌}
use rust_fuse.Wire.{Pod, fields, u32_at, u64_at}

pub record FuseSetattrInOsx : Type 0 where
  pub valid : ℕ  -- u32
  pub padding : ℕ  -- u32
  pub fh : ℕ  -- u64
  pub size : ℕ  -- u64
  pub unused1 : ℕ  -- u64
  pub atime : ℕ  -- i64
  pub mtime : ℕ  -- i64
  pub unused2 : ℕ  -- u64
  pub atimensec : ℕ  -- i32
  pub mtimensec : ℕ  -- i32
  pub unused3 : ℕ  -- u32
  pub mode : ℕ  -- u32
  pub unused4 : ℕ  -- u32
  pub uid : ℕ  -- u32
  pub gid : ℕ  -- u32
  pub unused5 : ℕ  -- u32
  pub bkuptime : ℕ  -- i64
  pub chgtime : ℕ  -- i64
  pub crtime : ℕ  -- i64
  pub bkuptimensec : ℕ  -- i32
  pub chgtimensec : ℕ  -- i32
  pub crtimensec : ℕ  -- i32
  pub flags : ℕ  -- u32

abbrev pub setattr_in_osx_layout : FuseSetattrInOsx → List (ℕ × ℕ)
setattr_in_osx_layout a =
    (4, a.valid)
    ∷ (4, a.padding)
    ∷ (8, a.fh)
    ∷ (8, a.size)
    ∷ (8, a.unused1)
    ∷ (8, a.atime)
    ∷ (8, a.mtime)
    ∷ (8, a.unused2)
    ∷ (4, a.atimensec)
    ∷ (4, a.mtimensec)
    ∷ (4, a.unused3)
    ∷ (4, a.mode)
    ∷ (4, a.unused4)
    ∷ (4, a.uid)
    ∷ (4, a.gid)
    ∷ (4, a.unused5)
    ∷ (8, a.bkuptime)
    ∷ (8, a.chgtime)
    ∷ (8, a.crtime)
    ∷ (4, a.bkuptimensec)
    ∷ (4, a.chgtimensec)
    ∷ (4, a.crtimensec)
    ∷ (4, a.flags)
    ∷ []

abbrev pub setattr_in_osx_of_bytes : List ℕ → FuseSetattrInOsx
setattr_in_osx_of_bytes bytes = record {
  valid = u32_at 0 bytes;
  padding = u32_at 4 bytes;
  fh = u64_at 8 bytes;
  size = u64_at 16 bytes;
  unused1 = u64_at 24 bytes;
  atime = u64_at 32 bytes;
  mtime = u64_at 40 bytes;
  unused2 = u64_at 48 bytes;
  atimensec = u32_at 56 bytes;
  mtimensec = u32_at 60 bytes;
  unused3 = u32_at 64 bytes;
  mode = u32_at 68 bytes;
  unused4 = u32_at 72 bytes;
  uid = u32_at 76 bytes;
  gid = u32_at 80 bytes;
  unused5 = u32_at 84 bytes;
  bkuptime = u64_at 88 bytes;
  chgtime = u64_at 96 bytes;
  crtime = u64_at 104 bytes;
  bkuptimensec = u32_at 112 bytes;
  chgtimensec = u32_at 116 bytes;
  crtimensec = u32_at 120 bytes;
  flags = u32_at 124 bytes;
}

instance abbrev pub setattr_in_osx_pod : Pod FuseSetattrInOsx
unfolding fields
setattr_in_osx_pod = record {
  size_of = 128;
  to_bytes = λ a. fields (setattr_in_osx_layout a);
  of_bytes = setattr_in_osx_of_bytes;
}

pub record FuseSetxattrInOsx : Type 0 where
  pub size : ℕ  -- u32
  pub flags : ℕ  -- u32
  pub position : ℕ  -- u32
  pub padding : ℕ  -- u32

abbrev pub setxattr_in_osx_layout : FuseSetxattrInOsx → List (ℕ × ℕ)
setxattr_in_osx_layout a = (4, a.size) ∷ (4, a.flags) ∷ (4, a.position) ∷ (4, a.padding) ∷ []

abbrev pub setxattr_in_osx_of_bytes : List ℕ → FuseSetxattrInOsx
setxattr_in_osx_of_bytes bytes = record {
  size = u32_at 0 bytes;
  flags = u32_at 4 bytes;
  position = u32_at 8 bytes;
  padding = u32_at 12 bytes;
}

instance abbrev pub setxattr_in_osx_pod : Pod FuseSetxattrInOsx
unfolding fields
setxattr_in_osx_pod = record {
  size_of = 16;
  to_bytes = λ a. fields (setxattr_in_osx_layout a);
  of_bytes = setxattr_in_osx_of_bytes;
}

pub record FuseGetxattrInOsx : Type 0 where
  pub size : ℕ  -- u32
  pub padding : ℕ  -- u32
  pub position : ℕ  -- u32
  pub padding2 : ℕ  -- u32

abbrev pub getxattr_in_osx_layout : FuseGetxattrInOsx → List (ℕ × ℕ)
getxattr_in_osx_layout a = (4, a.size) ∷ (4, a.padding) ∷ (4, a.position) ∷ (4, a.padding2) ∷ []

abbrev pub getxattr_in_osx_of_bytes : List ℕ → FuseGetxattrInOsx
getxattr_in_osx_of_bytes bytes = record {
  size = u32_at 0 bytes;
  padding = u32_at 4 bytes;
  position = u32_at 8 bytes;
  padding2 = u32_at 12 bytes;
}

instance abbrev pub getxattr_in_osx_pod : Pod FuseGetxattrInOsx
unfolding fields
getxattr_in_osx_pod = record {
  size_of = 16;
  to_bytes = λ a. fields (getxattr_in_osx_layout a);
  of_bytes = getxattr_in_osx_of_bytes;
}

pub record FuseExchangeIn : Type 0 where
  pub olddir : ℕ  -- u64
  pub newdir : ℕ  -- u64
  pub options : ℕ  -- u64

abbrev pub exchange_in_layout : FuseExchangeIn → List (ℕ × ℕ)
exchange_in_layout a = (8, a.olddir) ∷ (8, a.newdir) ∷ (8, a.options) ∷ []

abbrev pub exchange_in_of_bytes : List ℕ → FuseExchangeIn
exchange_in_of_bytes bytes = record {
  olddir = u64_at 0 bytes;
  newdir = u64_at 8 bytes;
  options = u64_at 16 bytes;
}

instance abbrev pub exchange_in_pod : Pod FuseExchangeIn
unfolding fields
exchange_in_pod = record {
  size_of = 24;
  to_bytes = λ a. fields (exchange_in_layout a);
  of_bytes = exchange_in_of_bytes;
}
