-- ===== src/Abi/RoundTrip/Names.antt =====
-- The structures of Names.antt survive the way to bytes and back, and have the length that the
-- program reads and writes.
use rust_fuse.Prelude.{refl}
use rust_fuse.Wire.{PodLaws, fields, IsU32, IsU64}
use rust_fuse.Wire.Numbers.{le, from_le, from_le-le}
use rust_fuse.Abi.Names.{
  FuseSetattrIn, setattr_in_pod, FuseMknodIn, mknod_in_pod, FuseMkdirIn, mkdir_in_pod, FuseRenameIn,
  rename_in_pod, FuseLinkIn, link_in_pod, FuseSetxattrIn, setxattr_in_pod, FuseGetxattrIn,
  getxattr_in_pod, FuseAccessIn, access_in_pod,
}

abbrev pub IsFuseSetattrIn : FuseSetattrIn → Type 0
IsFuseSetattrIn a =
    IsU32 a.valid
    × IsU32 a.padding
    × IsU64 a.fh
    × IsU64 a.size
    × IsU64 a.unused1
    × IsU64 a.atime
    × IsU64 a.mtime
    × IsU64 a.unused2
    × IsU32 a.atimensec
    × IsU32 a.mtimensec
    × IsU32 a.unused3
    × IsU32 a.mode
    × IsU32 a.unused4
    × IsU32 a.uid
    × IsU32 a.gid
    × IsU32 a.unused5

pub setattr_in_pod_laws : PodLaws setattr_in_pod IsFuseSetattrIn
unfolding fields le from_le
setattr_in_pod_laws = record {
  length_lem = λ a. refl;
  of-to = λ a h i. record {
    valid = from_le-le 4 a.valid h.0 i;
    padding = from_le-le 4 a.padding h.1 i;
    fh = from_le-le 8 a.fh h.2 i;
    size = from_le-le 8 a.size h.3 i;
    unused1 = from_le-le 8 a.unused1 h.4 i;
    atime = from_le-le 8 a.atime h.5 i;
    mtime = from_le-le 8 a.mtime h.6 i;
    unused2 = from_le-le 8 a.unused2 h.7 i;
    atimensec = from_le-le 4 a.atimensec h.8 i;
    mtimensec = from_le-le 4 a.mtimensec h.9 i;
    unused3 = from_le-le 4 a.unused3 h.10 i;
    mode = from_le-le 4 a.mode h.11 i;
    unused4 = from_le-le 4 a.unused4 h.12 i;
    uid = from_le-le 4 a.uid h.13 i;
    gid = from_le-le 4 a.gid h.14 i;
    unused5 = from_le-le 4 a.unused5 h.15 i;
  };
}

abbrev pub IsFuseMknodIn : FuseMknodIn → Type 0
IsFuseMknodIn a = IsU32 a.mode × IsU32 a.rdev

pub mknod_in_pod_laws : PodLaws mknod_in_pod IsFuseMknodIn
unfolding fields le from_le
mknod_in_pod_laws = record {
  length_lem = λ a. refl;
  of-to = λ a h i. record { mode = from_le-le 4 a.mode h.0 i; rdev = from_le-le 4 a.rdev h.1 i };
}

abbrev pub IsFuseMkdirIn : FuseMkdirIn → Type 0
IsFuseMkdirIn a = IsU32 a.mode × IsU32 a.padding

pub mkdir_in_pod_laws : PodLaws mkdir_in_pod IsFuseMkdirIn
unfolding fields le from_le
mkdir_in_pod_laws = record {
  length_lem = λ a. refl;
  of-to =
      λ a h i. record { mode = from_le-le 4 a.mode h.0 i; padding = from_le-le 4 a.padding h.1 i };
}

abbrev pub IsFuseRenameIn : FuseRenameIn → Type 0
IsFuseRenameIn a = IsU64 a.newdir

pub rename_in_pod_laws : PodLaws rename_in_pod IsFuseRenameIn
unfolding fields le from_le
rename_in_pod_laws = record {
  length_lem = λ a. refl;
  of-to = λ a h i. record { newdir = from_le-le 8 a.newdir h i };
}

abbrev pub IsFuseLinkIn : FuseLinkIn → Type 0
IsFuseLinkIn a = IsU64 a.oldnodeid

pub link_in_pod_laws : PodLaws link_in_pod IsFuseLinkIn
unfolding fields le from_le
link_in_pod_laws = record {
  length_lem = λ a. refl;
  of-to = λ a h i. record { oldnodeid = from_le-le 8 a.oldnodeid h i };
}

abbrev pub IsFuseSetxattrIn : FuseSetxattrIn → Type 0
IsFuseSetxattrIn a = IsU32 a.size × IsU32 a.flags

pub setxattr_in_pod_laws : PodLaws setxattr_in_pod IsFuseSetxattrIn
unfolding fields le from_le
setxattr_in_pod_laws = record {
  length_lem = λ a. refl;
  of-to = λ a h i. record { size = from_le-le 4 a.size h.0 i; flags = from_le-le 4 a.flags h.1 i };
}

abbrev pub IsFuseGetxattrIn : FuseGetxattrIn → Type 0
IsFuseGetxattrIn a = IsU32 a.size × IsU32 a.padding

pub getxattr_in_pod_laws : PodLaws getxattr_in_pod IsFuseGetxattrIn
unfolding fields le from_le
getxattr_in_pod_laws = record {
  length_lem = λ a. refl;
  of-to =
      λ a h i. record { size = from_le-le 4 a.size h.0 i; padding = from_le-le 4 a.padding h.1 i };
}

abbrev pub IsFuseAccessIn : FuseAccessIn → Type 0
IsFuseAccessIn a = IsU32 a.mask × IsU32 a.padding

pub access_in_pod_laws : PodLaws access_in_pod IsFuseAccessIn
unfolding fields le from_le
access_in_pod_laws = record {
  length_lem = λ a. refl;
  of-to =
      λ a h i. record { mask = from_le-le 4 a.mask h.0 i; padding = from_le-le 4 a.padding h.1 i };
}
