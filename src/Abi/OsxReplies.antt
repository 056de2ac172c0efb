-- ===== src/Abi/OsxReplies.antt =====
-- Structures of src/fuse.rs: what a reply carries on OS X, where it is not the same. A comment gives the
-- type of the source; an i32 or i64 is the number of its bit pattern.
use rust_fuse.Prelude.{ℕ, List, [], ◌∷◌, drop}
use rust_fuse.Wire.{Pod, fields, u32_at, u64_at}

pub record FuseAttrOsx : Type 0 where
  pub ino : ℕ  -- u64
  pub size : ℕ  -- u64
  pub blocks : ℕ  -- u64
  pub atime : ℕ  -- i64
  pub mtime : ℕ  -- i64
  pub ctime : ℕ  -- i64
  pub crtime : ℕ  -- i64
  pub atimensec : ℕ  -- i32
  pub mtimensec : ℕ  -- i32
  pub ctimensec : ℕ  -- i32
  pub crtimensec : ℕ  -- i32
  pub mode : ℕ  -- u32
  pub nlink : ℕ  -- u32
  pub uid : ℕ  -- u32
  pub gid : ℕ  -- u32
  pub rdev : ℕ  -- u32
  pub flags : ℕ  -- u32

abbrev pub attr_osx_layout : FuseAttrOsx → List (ℕ × ℕ)
attr_osx_layout a =
    (8, a.ino)
    ∷ (8, a.size)
    ∷ (8, a.blocks)
    ∷ (8, a.atime)
    ∷ (8, a.mtime)
    ∷ (8, a.ctime)
    ∷ (8, a.crtime)
    ∷ (4, a.atimensec)
    ∷ (4, a.mtimensec)
    ∷ (4, a.ctimensec)
    ∷ (4, a.crtimensec)
    ∷ (4, a.mode)
    ∷ (4, a.nlink)
    ∷ (4, a.uid)
    ∷ (4, a.gid)
    ∷ (4, a.rdev)
    ∷ (4, a.flags)
    ∷ []

abbrev pub attr_osx_of_bytes : List ℕ → FuseAttrOsx
attr_osx_of_bytes bytes = record {
  ino = u64_at 0 bytes;
  size = u64_at 8 bytes;
  blocks = u64_at 16 bytes;
  atime = u64_at 24 bytes;
  mtime = u64_at 32 bytes;
  ctime = u64_at 40 bytes;
  crtime = u64_at 48 bytes;
  atimensec = u32_at 56 bytes;
  mtimensec = u32_at 60 bytes;
  ctimensec = u32_at 64 bytes;
  crtimensec = u32_at 68 bytes;
  mode = u32_at 72 bytes;
  nlink = u32_at 76 bytes;
  uid = u32_at 80 bytes;
  gid = u32_at 84 bytes;
  rdev = u32_at 88 bytes;
  flags = u32_at 92 bytes;
}

instance abbrev pub attr_osx_pod : Pod FuseAttrOsx
unfolding fields
attr_osx_pod = record {
  size_of = 96;
  to_bytes = λ a. fields (attr_osx_layout a);
  of_bytes = attr_osx_of_bytes;
}

pub record FuseEntryOutOsx : Type 0 where
  pub nodeid : ℕ  -- u64
  pub generation : ℕ  -- u64
  pub entry_valid : ℕ  -- i64
  pub attr_valid : ℕ  -- i64
  pub entry_valid_nsec : ℕ  -- i32
  pub attr_valid_nsec : ℕ  -- i32
  pub attr : FuseAttrOsx

abbrev pub entry_out_osx_layout : FuseEntryOutOsx → List (ℕ × ℕ)
entry_out_osx_layout a =
    (8, a.nodeid)
    ∷ (8, a.generation)
    ∷ (8, a.entry_valid)
    ∷ (8, a.attr_valid)
    ∷ (4, a.entry_valid_nsec)
    ∷ (4, a.attr_valid_nsec)
    ∷ attr_osx_layout a.attr

abbrev pub entry_out_osx_of_bytes : List ℕ → FuseEntryOutOsx
entry_out_osx_of_bytes bytes = record {
  nodeid = u64_at 0 bytes;
  generation = u64_at 8 bytes;
  entry_valid = u64_at 16 bytes;
  attr_valid = u64_at 24 bytes;
  entry_valid_nsec = u32_at 32 bytes;
  attr_valid_nsec = u32_at 36 bytes;
  attr = attr_osx_of_bytes (drop 40 bytes);
}

instance abbrev pub entry_out_osx_pod : Pod FuseEntryOutOsx
unfolding fields
entry_out_osx_pod = record {
  size_of = 136;
  to_bytes = λ a. fields (entry_out_osx_layout a);
  of_bytes = entry_out_osx_of_bytes;
}

pub record FuseAttrOutOsx : Type 0 where
  pub attr_valid : ℕ  -- i64
  pub attr_valid_nsec : ℕ  -- i32
  pub dummy : ℕ  -- u32
  pub attr : FuseAttrOsx

abbrev pub attr_out_osx_layout : FuseAttrOutOsx → List (ℕ × ℕ)
attr_out_osx_layout a =
    (8, a.attr_valid) ∷ (4, a.attr_valid_nsec) ∷ (4, a.dummy) ∷ attr_osx_layout a.attr

abbrev pub attr_out_osx_of_bytes : List ℕ → FuseAttrOutOsx
attr_out_osx_of_bytes bytes = record {
  attr_valid = u64_at 0 bytes;
  attr_valid_nsec = u32_at 8 bytes;
  dummy = u32_at 12 bytes;
  attr = attr_osx_of_bytes (drop 16 bytes);
}

instance abbrev pub attr_out_osx_pod : Pod FuseAttrOutOsx
unfolding fields
attr_out_osx_pod = record {
  size_of = 112;
  to_bytes = λ a. fields (attr_out_osx_layout a);
  of_bytes = attr_out_osx_of_bytes;
}

pub record FuseGetxtimesOut : Type 0 where
  pub bkuptime : ℕ  -- i64
  pub crtime : ℕ  -- i64
  pub bkuptimensec : ℕ  -- i32
  pub crtimensec : ℕ  -- i32

abbrev pub getxtimes_out_layout : FuseGetxtimesOut → List (ℕ × ℕ)
getxtimes_out_layout a =
    (8, a.bkuptime) ∷ (8, a.crtime) ∷ (4, a.bkuptimensec) ∷ (4, a.crtimensec) ∷ []

abbrev pub getxtimes_out_of_bytes : List ℕ → FuseGetxtimesOut
getxtimes_out_of_bytes bytes = record {
  bkuptime = u64_at 0 bytes;
  crtime = u64_at 8 bytes;
  bkuptimensec = u32_at 16 bytes;
  crtimensec = u32_at 20 bytes;
}

instance abbrev pub getxtimes_out_pod : Pod FuseGetxtimesOut
unfolding fields
getxtimes_out_pod = record {
  size_of = 24;
  to_bytes = λ a. fields (getxtimes_out_layout a);
  of_bytes = getxtimes_out_of_bytes;
}
