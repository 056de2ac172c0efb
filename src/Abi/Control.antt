-- ===== src/Abi/Control.antt =====
-- Structures of src/fuse.rs: the header of a request, and the arguments of the requests that manage the session. A comment gives the type of the
-- source; an i32 or i64 is the number of its bit pattern.
use rust_fuse.Prelude.{ℕ, List, [], ◌∷◌, drop}
use rust_fuse.Wire.{Pod, fields, u32_at, u64_at}

pub record FuseInHeader : Type 0 where
  pub len : ℕ  -- u32
  pub opcode : ℕ  -- u32
  pub unique : ℕ  -- u64
  pub nodeid : ℕ  -- u64
  pub uid : ℕ  -- u32
  pub gid : ℕ  -- u32
  pub pid : ℕ  -- u32
  pub padding : ℕ  -- u32

abbrev pub in_header_layout : FuseInHeader → List (ℕ × ℕ)
in_header_layout a =
    (4, a.len)
    ∷ (4, a.opcode)
    ∷ (8, a.unique)
    ∷ (8, a.nodeid)
    ∷ (4, a.uid)
    ∷ (4, a.gid)
    ∷ (4, a.pid)
    ∷ (4, a.padding)
    ∷ []

abbrev pub in_header_of_bytes : List ℕ → FuseInHeader
in_header_of_bytes bytes = record {
  len = u32_at 0 bytes;
  opcode = u32_at 4 bytes;
  unique = u64_at 8 bytes;
  nodeid = u64_at 16 bytes;
  uid = u32_at 24 bytes;
  gid = u32_at 28 bytes;
  pid = u32_at 32 bytes;
  padding = u32_at 36 bytes;
}

instance abbrev pub in_header_pod : Pod FuseInHeader
unfolding fields
in_header_pod = record {
  size_of = 40;
  to_bytes = λ a. fields (in_header_layout a);
  of_bytes = in_header_of_bytes;
}

pub record FuseInitIn : Type 0 where
  pub major : ℕ  -- u32
  pub minor : ℕ  -- u32
  pub max_readahead : ℕ  -- u32
  pub flags : ℕ  -- u32

abbrev pub init_in_layout : FuseInitIn → List (ℕ × ℕ)
init_in_layout a = (4, a.major) ∷ (4, a.minor) ∷ (4, a.max_readahead) ∷ (4, a.flags) ∷ []

abbrev pub init_in_of_bytes : List ℕ → FuseInitIn
init_in_of_bytes bytes = record {
  major = u32_at 0 bytes;
  minor = u32_at 4 bytes;
  max_readahead = u32_at 8 bytes;
  flags = u32_at 12 bytes;
}

instance abbrev pub init_in_pod : Pod FuseInitIn
unfolding fields
init_in_pod = record {
  size_of = 16;
  to_bytes = λ a. fields (init_in_layout a);
  of_bytes = init_in_of_bytes;
}

pub record FuseInterruptIn : Type 0 where
  pub unique : ℕ  -- u64

abbrev pub interrupt_in_layout : FuseInterruptIn → List (ℕ × ℕ)
interrupt_in_layout a = (8, a.unique) ∷ []

abbrev pub interrupt_in_of_bytes : List ℕ → FuseInterruptIn
interrupt_in_of_bytes bytes = record { unique = u64_at 0 bytes }

instance abbrev pub interrupt_in_pod : Pod FuseInterruptIn
unfolding fields
interrupt_in_pod = record {
  size_of = 8;
  to_bytes = λ a. fields (interrupt_in_layout a);
  of_bytes = interrupt_in_of_bytes;
}

pub record FuseForgetIn : Type 0 where
  pub nlookup : ℕ  -- u64

abbrev pub forget_in_layout : FuseForgetIn → List (ℕ × ℕ)
forget_in_layout a = (8, a.nlookup) ∷ []

abbrev pub forget_in_of_bytes : List ℕ → FuseForgetIn
forget_in_of_bytes bytes = record { nlookup = u64_at 0 bytes }

instance abbrev pub forget_in_pod : Pod FuseForgetIn
unfolding fields
forget_in_pod = record {
  size_of = 8;
  to_bytes = λ a. fields (forget_in_layout a);
  of_bytes = forget_in_of_bytes;
}

pub record FuseBmapIn : Type 0 where
  pub block : ℕ  -- u64
  pub blocksize : ℕ  -- u32
  pub padding : ℕ  -- u32

abbrev pub bmap_in_layout : FuseBmapIn → List (ℕ × ℕ)
bmap_in_layout a = (8, a.block) ∷ (4, a.blocksize) ∷ (4, a.padding) ∷ []

abbrev pub bmap_in_of_bytes : List ℕ → FuseBmapIn
bmap_in_of_bytes bytes = record {
  block = u64_at 0 bytes;
  blocksize = u32_at 8 bytes;
  padding = u32_at 12 bytes;
}

instance abbrev pub bmap_in_pod : Pod FuseBmapIn
unfolding fields
bmap_in_pod = record {
  size_of = 16;
  to_bytes = λ a. fields (bmap_in_layout a);
  of_bytes = bmap_in_of_bytes;
}

pub record FuseFileLock : Type 0 where
  pub start : ℕ  -- u64
  pub end : ℕ  -- u64
  pub typ : ℕ  -- u32
  pub pid : ℕ  -- u32

abbrev pub file_lock_layout : FuseFileLock → List (ℕ × ℕ)
file_lock_layout a = (8, a.start) ∷ (8, a.end) ∷ (4, a.typ) ∷ (4, a.pid) ∷ []

abbrev pub file_lock_of_bytes : List ℕ → FuseFileLock
file_lock_of_bytes bytes = record {
  start = u64_at 0 bytes;
  end = u64_at 8 bytes;
  typ = u32_at 16 bytes;
  pid = u32_at 20 bytes;
}

instance abbrev pub file_lock_pod : Pod FuseFileLock
unfolding fields
file_lock_pod = record {
  size_of = 24;
  to_bytes = λ a. fields (file_lock_layout a);
  of_bytes = file_lock_of_bytes;
}

pub record FuseLkIn : Type 0 where
  pub fh : ℕ  -- u64
  pub owner : ℕ  -- u64
  pub lk : FuseFileLock

abbrev pub lk_in_layout : FuseLkIn → List (ℕ × ℕ)
lk_in_layout a = (8, a.fh) ∷ (8, a.owner) ∷ file_lock_layout a.lk

abbrev pub lk_in_of_bytes : List ℕ → FuseLkIn
lk_in_of_bytes bytes = record {
  fh = u64_at 0 bytes;
  owner = u64_at 8 bytes;
  lk = file_lock_of_bytes (drop 16 bytes);
}

instance abbrev pub lk_in_pod : Pod FuseLkIn
unfolding fields
lk_in_pod = record {
  size_of = 40;
  to_bytes = λ a. fields (lk_in_layout a);
  of_bytes = lk_in_of_bytes;
}
