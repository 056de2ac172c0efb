-- ===== src/Abi/Replies/Attributes.antt =====
-- Structures of src/fuse.rs: the header of a reply, and the replies to INIT and about attributes.
use rust_fuse.Prelude.{ℕ, List, [], ◌∷◌, drop}
use rust_fuse.Wire.{Pod, fields, u32_at, u64_at}

pub record FuseOutHeader : Type 0 where
  pub len : ℕ  -- u32
  pub error : ℕ  -- i32
  pub unique : ℕ  -- u64

abbrev pub out_header_layout : FuseOutHeader → List (ℕ × ℕ)
out_header_layout a = (4, a.len) ∷ (4, a.error) ∷ (8, a.unique) ∷ []

abbrev pub out_header_of_bytes : List ℕ → FuseOutHeader
out_header_of_bytes bytes = record {
  len = u32_at 0 bytes;
  error = u32_at 4 bytes;
  unique = u64_at 8 bytes;
}

instance abbrev pub out_header_pod : Pod FuseOutHeader
unfolding fields
out_header_pod = record {
  size_of = 16;
  to_bytes = λ a. fields (out_header_layout a);
  of_bytes = out_header_of_bytes;
}

pub record FuseInitOut : Type 0 where
  pub major : ℕ  -- u32
  pub minor : ℕ  -- u32
  pub max_readahead : ℕ  -- u32
  pub flags : ℕ  -- u32
  pub unused : ℕ  -- u32
  pub max_write : ℕ  -- u32

abbrev pub init_out_layout : FuseInitOut → List (ℕ × ℕ)
init_out_layout a =
    (4, a.major)
    ∷ (4, a.minor)
    ∷ (4, a.max_readahead)
    ∷ (4, a.flags)
    ∷ (4, a.unused)
    ∷ (4, a.max_write)
    ∷ []

abbrev pub init_out_of_bytes : List ℕ → FuseInitOut
init_out_of_bytes bytes = record {
  major = u32_at 0 bytes;
  minor = u32_at 4 bytes;
  max_readahead = u32_at 8 bytes;
  flags = u32_at 12 bytes;
  unused = u32_at 16 bytes;
  max_write = u32_at 20 bytes;
}

instance abbrev pub init_out_pod : Pod FuseInitOut
unfolding fields
init_out_pod = record {
  size_of = 24;
  to_bytes = λ a. fields (init_out_layout a);
  of_bytes = init_out_of_bytes;
}

pub record FuseAttr : Type 0 where
  pub ino : ℕ  -- u64
  pub size : ℕ  -- u64
  pub blocks : ℕ  -- u64
  pub atime : ℕ  -- i64
  pub mtime : ℕ  -- i64
  pub ctime : ℕ  -- i64
  pub atimensec : ℕ  -- i32
  pub mtimensec : ℕ  -- i32
  pub ctimensec : ℕ  -- i32
  pub mode : ℕ  -- u32
  pub nlink : ℕ  -- u32
  pub uid : ℕ  -- u32
  pub gid : ℕ  -- u32
  pub rdev : ℕ  -- u32

abbrev pub attr_layout : FuseAttr → List (ℕ × ℕ)
attr_layout a =
    (8, a.ino)
    ∷ (8, a.size)
    ∷ (8, a.blocks)
    ∷ (8, a.atime)
    ∷ (8, a.mtime)
    ∷ (8, a.ctime)
    ∷ (4, a.atimensec)
    ∷ (4, a.mtimensec)
    ∷ (4, a.ctimensec)
    ∷ (4, a.mode)
    ∷ (4, a.nlink)
    ∷ (4, a.uid)
    ∷ (4, a.gid)
    ∷ (4, a.rdev)
    ∷ []

abbrev pub attr_of_bytes : List ℕ → FuseAttr
attr_of_bytes bytes = record {
  ino = u64_at 0 bytes;
  size = u64_at 8 bytes;
  blocks = u64_at 16 bytes;
  atime = u64_at 24 bytes;
  mtime = u64_at 32 bytes;
  ctime = u64_at 40 bytes;
  atimensec = u32_at 48 bytes;
  mtimensec = u32_at 52 bytes;
  ctimensec = u32_at 56 bytes;
  mode = u32_at 60 bytes;
  nlink = u32_at 64 bytes;
  uid = u32_at 68 bytes;
  gid = u32_at 72 bytes;
  rdev = u32_at 76 bytes;
}

instance abbrev pub attr_pod : Pod FuseAttr
unfolding fields
attr_pod = record { size_of = 80; to_bytes = λ a. fields (attr_layout a); of_bytes = attr_of_bytes }

pub record FuseEntryOut : Type 0 where
  pub nodeid : ℕ  -- u64
  pub generation : ℕ  -- u64
  pub entry_valid : ℕ  -- i64
  pub attr_valid : ℕ  -- i64
  pub entry_valid_nsec : ℕ  -- i32
  pub attr_valid_nsec : ℕ  -- i32
  pub attr : FuseAttr

abbrev pub entry_out_layout : FuseEntryOut → List (ℕ × ℕ)
entry_out_layout a =
    (8, a.nodeid)
    ∷ (8, a.generation)
    ∷ (8, a.entry_valid)
    ∷ (8, a.attr_valid)
    ∷ (4, a.entry_valid_nsec)
    ∷ (4, a.attr_valid_nsec)
    ∷ attr_layout a.attr

abbrev pub entry_out_of_bytes : List ℕ → FuseEntryOut
entry_out_of_bytes bytes = record {
  nodeid = u64_at 0 bytes;
  generation = u64_at 8 bytes;
  entry_valid = u64_at 16 bytes;
  attr_valid = u64_at 24 bytes;
  entry_valid_nsec = u32_at 32 bytes;
  attr_valid_nsec = u32_at 36 bytes;
  attr = attr_of_bytes (drop 40 bytes);
}

instance abbrev pub entry_out_pod : Pod FuseEntryOut
unfolding fields
entry_out_pod = record {
  size_of = 120;
  to_bytes = λ a. fields (entry_out_layout a);
  of_bytes = entry_out_of_bytes;
}

pub record FuseAttrOut : Type 0 where
  pub attr_valid : ℕ  -- i64
  pub attr_valid_nsec : ℕ  -- i32
  pub dummy : ℕ  -- u32
  pub attr : FuseAttr

abbrev pub attr_out_layout : FuseAttrOut → List (ℕ × ℕ)
attr_out_layout a = (8, a.attr_valid) ∷ (4, a.attr_valid_nsec) ∷ (4, a.dummy) ∷ attr_layout a.attr

abbrev pub attr_out_of_bytes : List ℕ → FuseAttrOut
attr_out_of_bytes bytes = record {
  attr_valid = u64_at 0 bytes;
  attr_valid_nsec = u32_at 8 bytes;
  dummy = u32_at 12 bytes;
  attr = attr_of_bytes (drop 16 bytes);
}

instance abbrev pub attr_out_pod : Pod FuseAttrOut
unfolding fields
attr_out_pod = record {
  size_of = 96;
  to_bytes = λ a. fields (attr_out_layout a);
  of_bytes = attr_out_of_bytes;
}
