-- ===== src/Abi/RoundTrip/OsxReplies.antt =====
-- The structures of OsxReplies.antt survive the way to bytes and back, and have the length that the
-- program reads and writes.
use rust_fuse.Prelude.{refl}
use rust_fuse.Wire.{PodLaws, fields, IsU32, IsU64}
use rust_fuse.Wire.Numbers.{le, from_le, from_le-le}
use rust_fuse.Abi.OsxReplies.{
  FuseAttrOsx, attr_osx_pod, FuseEntryOutOsx, entry_out_osx_pod, FuseAttrOutOsx, attr_out_osx_pod,
  FuseGetxtimesOut, getxtimes_out_pod,
}

abbrev pub IsFuseAttrOsx : FuseAttrOsx → Type 0
IsFuseAttrOsx a =
    IsU64 a.ino
    × IsU64 a.size
    × IsU64 a.blocks
    × IsU64 a.atime
    × IsU64 a.mtime
    × IsU64 a.ctime
    × IsU64 a.crtime
    × IsU32 a.atimensec
    × IsU32 a.mtimensec
    × IsU32 a.ctimensec
    × IsU32 a.crtimensec
    × IsU32 a.mode
    × IsU32 a.nlink
    × IsU32 a.uid
    × IsU32 a.gid
    × IsU32 a.rdev
    × IsU32 a.flags

pub attr_osx_pod_laws : PodLaws attr_osx_pod IsFuseAttrOsx
unfolding fields le from_le
attr_osx_pod_laws = record {
  length_lem = λ a. refl;
  of-to = λ a h i. record {
    ino = from_le-le 8 a.ino h.0 i;
    size = from_le-le 8 a.size h.1 i;
    blocks = from_le-le 8 a.blocks h.2 i;
    atime = from_le-le 8 a.atime h.3 i;
    mtime = from_le-le 8 a.mtime h.4 i;
    ctime = from_le-le 8 a.ctime h.5 i;
    crtime = from_le-le 8 a.crtime h.6 i;
    atimensec = from_le-le 4 a.atimensec h.7 i;
    mtimensec = from_le-le 4 a.mtimensec h.8 i;
    ctimensec = from_le-le 4 a.ctimensec h.9 i;
    crtimensec = from_le-le 4 a.crtimensec h.10 i;
    mode = from_le-le 4 a.mode h.11 i;
    nlink = from_le-le 4 a.nlink h.12 i;
    uid = from_le-le 4 a.uid h.13 i;
    gid = from_le-le 4 a.gid h.14 i;
    rdev = from_le-le 4 a.rdev h.15 i;
    flags = from_le-le 4 a.flags h.16 i;
  };
}

abbrev pub IsFuseEntryOutOsx : FuseEntryOutOsx → Type 0
IsFuseEntryOutOsx a =
    IsU64 a.nodeid
    × IsU64 a.generation
    × IsU64 a.entry_valid
    × IsU64 a.attr_valid
    × IsU32 a.entry_valid_nsec
    × IsU32 a.attr_valid_nsec
    × IsFuseAttrOsx a.attr

pub entry_out_osx_pod_laws : PodLaws entry_out_osx_pod IsFuseEntryOutOsx
unfolding fields le from_le
entry_out_osx_pod_laws = record {
  length_lem = λ a. refl;
  of-to = λ a h i. record {
    nodeid = from_le-le 8 a.nodeid h.0 i;
    generation = from_le-le 8 a.generation h.1 i;
    entry_valid = from_le-le 8 a.entry_valid h.2 i;
    attr_valid = from_le-le 8 a.attr_valid h.3 i;
    entry_valid_nsec = from_le-le 4 a.entry_valid_nsec h.4 i;
    attr_valid_nsec = from_le-le 4 a.attr_valid_nsec h.5 i;
    attr = attr_osx_pod_laws.of-to a.attr h.6 i;
  };
}

abbrev pub IsFuseAttrOutOsx : FuseAttrOutOsx → Type 0
IsFuseAttrOutOsx a =
    IsU64 a.attr_valid × IsU32 a.attr_valid_nsec × IsU32 a.dummy × IsFuseAttrOsx a.attr

pub attr_out_osx_pod_laws : PodLaws attr_out_osx_pod IsFuseAttrOutOsx
unfolding fields le from_le
attr_out_osx_pod_laws = record {
  length_lem = λ a. refl;
  of-to = λ a h i. record {
    attr_valid = from_le-le 8 a.attr_valid h.0 i;
    attr_valid_nsec = from_le-le 4 a.attr_valid_nsec h.1 i;
    dummy = from_le-le 4 a.dummy h.2 i;
    attr = attr_osx_pod_laws.of-to a.attr h.3 i;
  };
}

abbrev pub IsFuseGetxtimesOut : FuseGetxtimesOut → Type 0
IsFuseGetxtimesOut a = IsU64 a.bkuptime × IsU64 a.crtime × IsU32 a.bkuptimensec × IsU32 a.crtimensec

pub getxtimes_out_pod_laws : PodLaws getxtimes_out_pod IsFuseGetxtimesOut
unfolding fields le from_le
getxtimes_out_pod_laws = record {
  length_lem = λ a. refl;
  of-to = λ a h i. record {
    bkuptime = from_le-le 8 a.bkuptime h.0 i;
    crtime = from_le-le 8 a.crtime h.1 i;
    bkuptimensec = from_le-le 4 a.bkuptimensec h.2 i;
    crtimensec = from_le-le 4 a.crtimensec h.3 i;
  };
}
