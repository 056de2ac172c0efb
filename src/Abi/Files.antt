-- ===== src/Abi/Files.antt =====
-- Structures of src/fuse.rs: the arguments of the requests on open files and directories. A comment gives the type of the
-- source; an i32 or i64 is the number of its bit pattern.
use rust_fuse.Prelude.{ℕ, List, [], ◌∷◌}
use rust_fuse.Wire.{Pod, fields, u32_at, u64_at}

pub record FuseOpenIn : Type 0 where
  pub flags : ℕ  -- u32
  pub mode : ℕ  -- u32

abbrev pub open_in_layout : FuseOpenIn → List (ℕ × ℕ)
open_in_layout a = (4, a.flags) ∷ (4, a.mode) ∷ []

abbrev pub open_in_of_bytes : List ℕ → FuseOpenIn
open_in_of_bytes bytes = record { flags = u32_at 0 bytes; mode = u32_at 4 bytes }

instance abbrev pub open_in_pod : Pod FuseOpenIn
unfolding fields
open_in_pod = record {
  size_of = 8;
  to_bytes = λ a. fields (open_in_layout a);
  of_bytes = open_in_of_bytes;
}

pub record FuseReadIn : Type 0 where
  pub fh : ℕ  -- u64
  pub offset : ℕ  -- u64
  pub size : ℕ  -- u32
  pub padding : ℕ  -- u32

abbrev pub read_in_layout : FuseReadIn → List (ℕ × ℕ)
read_in_layout a = (8, a.fh) ∷ (8, a.offset) ∷ (4, a.size) ∷ (4, a.padding) ∷ []

abbrev pub read_in_of_bytes : List ℕ → FuseReadIn
read_in_of_bytes bytes = record {
  fh = u64_at 0 bytes;
  offset = u64_at 8 bytes;
  size = u32_at 16 bytes;
  padding = u32_at 20 bytes;
}

instance abbrev pub read_in_pod : Pod FuseReadIn
unfolding fields
read_in_pod = record {
  size_of = 24;
  to_bytes = λ a. fields (read_in_layout a);
  of_bytes = read_in_of_bytes;
}

pub record FuseWriteIn : Type 0 where
  pub fh : ℕ  -- u64
  pub offset : ℕ  -- u64
  pub size : ℕ  -- u32
  pub write_flags : ℕ  -- u32

abbrev pub write_in_layout : FuseWriteIn → List (ℕ × ℕ)
write_in_layout a = (8, a.fh) ∷ (8, a.offset) ∷ (4, a.size) ∷ (4, a.write_flags) ∷ []

abbrev pub write_in_of_bytes : List ℕ → FuseWriteIn
write_in_of_bytes bytes = record {
  fh = u64_at 0 bytes;
  offset = u64_at 8 bytes;
  size = u32_at 16 bytes;
  write_flags = u32_at 20 bytes;
}

instance abbrev pub write_in_pod : Pod FuseWriteIn
unfolding fields
write_in_pod = record {
  size_of = 24;
  to_bytes = λ a. fields (write_in_layout a);
  of_bytes = write_in_of_bytes;
}

pub record FuseFlushIn : Type 0 where
  pub fh : ℕ  -- u64
  pub unused : ℕ  -- u32
  pub padding : ℕ  -- u32
  pub lock_owner : ℕ  -- u64

abbrev pub flush_in_layout : FuseFlushIn → List (ℕ × ℕ)
flush_in_layout a = (8, a.fh) ∷ (4, a.unused) ∷ (4, a.padding) ∷ (8, a.lock_owner) ∷ []

abbrev pub flush_in_of_bytes : List ℕ → FuseFlushIn
flush_in_of_bytes bytes = record {
  fh = u64_at 0 bytes;
  unused = u32_at 8 bytes;
  padding = u32_at 12 bytes;
  lock_owner = u64_at 16 bytes;
}

instance abbrev pub flush_in_pod : Pod FuseFlushIn
unfolding fields
flush_in_pod = record {
  size_of = 24;
  to_bytes = λ a. fields (flush_in_layout a);
  of_bytes = flush_in_of_bytes;
}

pub record FuseReleaseIn : Type 0 where
  pub fh : ℕ  -- u64
  pub flags : ℕ  -- u32
  pub release_flags : ℕ  -- u32
  pub lock_owner : ℕ  -- u64

abbrev pub release_in_layout : FuseReleaseIn → List (ℕ × ℕ)
release_in_layout a = (8, a.fh) ∷ (4, a.flags) ∷ (4, a.release_flags) ∷ (8, a.lock_owner) ∷ []

abbrev pub release_in_of_bytes : List ℕ → FuseReleaseIn
release_in_of_bytes bytes = record {
  fh = u64_at 0 bytes;
  flags = u32_at 8 bytes;
  release_flags = u32_at 12 bytes;
  lock_owner = u64_at 16 bytes;
}

instance abbrev pub release_in_pod : Pod FuseReleaseIn
unfolding fields
release_in_pod = record {
  size_of = 24;
  to_bytes = λ a. fields (release_in_layout a);
  of_bytes = release_in_of_bytes;
}

pub record FuseFsyncIn : Type 0 where
  pub fh : ℕ  -- u64
  pub fsync_flags : ℕ  -- u32
  pub padding : ℕ  -- u32

abbrev pub fsync_in_layout : FuseFsyncIn → List (ℕ × ℕ)
fsync_in_layout a = (8, a.fh) ∷ (4, a.fsync_flags) ∷ (4, a.padding) ∷ []

abbrev pub fsync_in_of_bytes : List ℕ → FuseFsyncIn
fsync_in_of_bytes bytes = record {
  fh = u64_at 0 bytes;
  fsync_flags = u32_at 8 bytes;
  padding = u32_at 12 bytes;
}

instance abbrev pub fsync_in_pod : Pod FuseFsyncIn
unfolding fields
fsync_in_pod = record {
  size_of = 16;
  to_bytes = λ a. fields (fsync_in_layout a);
  of_bytes = fsync_in_of_bytes;
}
