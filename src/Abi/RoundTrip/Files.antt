-- ===== src/Abi/RoundTrip/Files.antt =====
-- The structures of Files.antt survive the way to bytes and back, and have the length that the
-- program reads and writes.
use rust_fuse.Prelude.{refl}
use rust_fuse.Wire.{PodLaws, fields, IsU32, IsU64}
use rust_fuse.Wire.Numbers.{le, from_le, from_le-le}
use rust_fuse.Abi.Files.{
  FuseOpenIn, open_in_pod, FuseReadIn, read_in_pod, FuseWriteIn, write_in_pod, FuseFlushIn,
  flush_in_pod, FuseReleaseIn, release_in_pod, FuseFsyncIn, fsync_in_pod,
}

abbrev pub IsFuseOpenIn : FuseOpenIn → Type 0
IsFuseOpenIn a = IsU32 a.flags × IsU32 a.mode

pub open_in_pod_laws : PodLaws open_in_pod IsFuseOpenIn
unfolding fields le from_le
open_in_pod_laws = record {
  length_lem = λ a. refl;
  of-to = λ a h i. record { flags = from_le-le 4 a.flags h.0 i; mode = from_le-le 4 a.mode h.1 i };
}

abbrev pub IsFuseReadIn : FuseReadIn → Type 0
IsFuseReadIn a = IsU64 a.fh × IsU64 a.offset × IsU32 a.size × IsU32 a.padding

pub read_in_pod_laws : PodLaws read_in_pod IsFuseReadIn
unfolding fields le from_le
read_in_pod_laws = record {
  length_lem = λ a. refl;
  of-to = λ a h i. record {
    fh = from_le-le 8 a.fh h.0 i;
    offset = from_le-le 8 a.offset h.1 i;
    size = from_le-le 4 a.size h.2 i;
    padding = from_le-le 4 a.padding h.3 i;
  };
}

abbrev pub IsFuseWriteIn : FuseWriteIn → Type 0
IsFuseWriteIn a = IsU64 a.fh × IsU64 a.offset × IsU32 a.size × IsU32 a.write_flags

pub write_in_pod_laws : PodLaws write_in_pod IsFuseWriteIn
unfolding fields le from_le
write_in_pod_laws = record {
  length_lem = λ a. refl;
  of-to = λ a h i. record {
    fh = from_le-le 8 a.fh h.0 i;
    offset = from_le-le 8 a.offset h.1 i;
    size = from_le-le 4 a.size h.2 i;
    write_flags = from_le-le 4 a.write_flags h.3 i;
  };
}

abbrev pub IsFuseFlushIn : FuseFlushIn → Type 0
IsFuseFlushIn a = IsU64 a.fh × IsU32 a.unused × IsU32 a.padding × IsU64 a.lock_owner

pub flush_in_pod_laws : PodLaws flush_in_pod IsFuseFlushIn
unfolding fields le from_le
flush_in_pod_laws = record {
  length_lem = λ a. refl;
  of-to = λ a h i. record {
    fh = from_le-le 8 a.fh h.0 i;
    unused = from_le-le 4 a.unused h.1 i;
    padding = from_le-le 4 a.padding h.2 i;
    lock_owner = from_le-le 8 a.lock_owner h.3 i;
  };
}

abbrev pub IsFuseReleaseIn : FuseReleaseIn → Type 0
IsFuseReleaseIn a = IsU64 a.fh × IsU32 a.flags × IsU32 a.release_flags × IsU64 a.lock_owner

pub release_in_pod_laws : PodLaws release_in_pod IsFuseReleaseIn
unfolding fields le from_le
release_in_pod_laws = record {
  length_lem = λ a. refl;
  of-to = λ a h i. record {
    fh = from_le-le 8 a.fh h.0 i;
    flags = from_le-le 4 a.flags h.1 i;
    release_flags = from_le-le 4 a.release_flags h.2 i;
    lock_owner = from_le-le 8 a.lock_owner h.3 i;
  };
}

abbrev pub IsFuseFsyncIn : FuseFsyncIn → Type 0
IsFuseFsyncIn a = IsU64 a.fh × IsU32 a.fsync_flags × IsU32 a.padding

pub fsync_in_pod_laws : PodLaws fsync_in_pod IsFuseFsyncIn
unfolding fields le from_le
fsync_in_pod_laws = record {
  length_lem = λ a. refl;
  of-to = λ a h i. record {
    fh = from_le-le 8 a.fh h.0 i;
    fsync_flags = from_le-le 4 a.fsync_flags h.1 i;
    padding = from_le-le 4 a.padding h.2 i;
  };
}
