-- ===== src/Abi/RoundTrip/OsxNames.antt =====
-- The structures of OsxNames.antt survive the way to bytes and back, and have the length that the
-- program reads and writes.
use rust_fuse.Prelude.{refl}
use rust_fuse.Wire.{PodLaws, fields, IsU32, IsU64}
use rust_fuse.Wire.Numbers.{le, from_le, from_le-le}
use rust_fuse.Abi.OsxNames.{
  FuseSetattrInOsx, setattr_in_osx_pod, FuseSetxattrInOsx, setxattr_in_osx_pod, FuseGetxattrInOsx,
  getxattr_in_osx_pod, FuseExchangeIn, exchange_in_pod,
}

abbrev pub IsFuseSetattrInOsx : FuseSetattrInOsx → Type 0
IsFuseSetattrInOsx a =
    IsU32 a.valid
    × IsU32 a.padding
    × IsU64 a.fh
    × IsU64 a.size
    × IsU64 a.unused1
    × IsU64 a.atime
    × IsU64 a.mtime
    × IsU64 a.unused2
    × IsU32 a.atimensec
    × IsU32 a.mtimensec
    × IsU32 a.unused3
    × IsU32 a.mode
    × IsU32 a.unused4
    × IsU32 a.uid
    × IsU32 a.gid
    × IsU32 a.unused5
    × IsU64 a.bkuptime
    × IsU64 a.chgtime
    × IsU64 a.crtime
    × IsU32 a.bkuptimensec
    × IsU32 a.chgtimensec
    × IsU32 a.crtimensec
    × IsU32 a.flags

pub setattr_in_osx_pod_laws : PodLaws setattr_in_osx_pod IsFuseSetattrInOsx
unfolding fields le from_le
setattr_in_osx_pod_laws = record {
  length_lem = λ a. refl;
  of-to = λ a h i. record {
    valid = from_le-le 4 a.valid h.0 i;
    padding = from_le-le 4 a.padding h.1 i;
    fh = from_le-le 8 a.fh h.2 i;
    size = from_le-le 8 a.size h.3 i;
    unused1 = from_le-le 8 a.unused1 h.4 i;
    atime = from_le-le 8 a.atime h.5 i;
    mtime = from_le-le 8 a.mtime h.6 i;
    unused2 = from_le-le 8 a.unused2 h.7 i;
    atimensec = from_le-le 4 a.atimensec h.8 i;
    mtimensec = from_le-le 4 a.mtimensec h.9 i;
    unused3 = from_le-le 4 a.unused3 h.10 i;
    mode = from_le-le 4 a.mode h.11 i;
    unused4 = from_le-le 4 a.unused4 h.12 i;
    uid = from_le-le 4 a.uid h.13 i;
    gid = from_le-le 4 a.gid h.14 i;
    unused5 = from_le-le 4 a.unused5 h.15 i;
    bkuptime = from_le-le 8 a.bkuptime h.16 i;
    chgtime = from_le-le 8 a.chgtime h.17 i;
    crtime = from_le-le 8 a.crtime h.18 i;
    bkuptimensec = from_le-le 4 a.bkuptimensec h.19 i;
    chgtimensec = from_le-le 4 a.chgtimensec h.20 i;
    crtimensec = from_le-le 4 a.crtimensec h.21 i;
    flags = from_le-le 4 a.flags h.22 i;
  };
}

abbrev pub IsFuseSetxattrInOsx : FuseSetxattrInOsx → Type 0
IsFuseSetxattrInOsx a = IsU32 a.size × IsU32 a.flags × IsU32 a.position × IsU32 a.padding

pub setxattr_in_osx_pod_laws : PodLaws setxattr_in_osx_pod IsFuseSetxattrInOsx
unfolding fields le from_le
setxattr_in_osx_pod_laws = record {
  length_lem = λ a. refl;
  of-to = λ a h i. record {
    size = from_le-le 4 a.size h.0 i;
    flags = from_le-le 4 a.flags h.1 i;
    position = from_le-le 4 a.position h.2 i;
    padding = from_le-le 4 a.padding h.3 i;
  };
}

abbrev pub IsFuseGetxattrInOsx : FuseGetxattrInOsx → Type 0
IsFuseGetxattrInOsx a = IsU32 a.size × IsU32 a.padding × IsU32 a.position × IsU32 a.padding2

pub getxattr_in_osx_pod_laws : PodLaws getxattr_in_osx_pod IsFuseGetxattrInOsx
unfolding fields le from_le
getxattr_in_osx_pod_laws = record {
  length_lem = λ a. refl;
  of-to = λ a h i. record {
    size = from_le-le 4 a.size h.0 i;
    padding = from_le-le 4 a.padding h.1 i;
    position = from_le-le 4 a.position h.2 i;
    padding2 = from_le-le 4 a.padding2 h.3 i;
  };
}

abbrev pub IsFuseExchangeIn : FuseExchangeIn → Type 0
IsFuseExchangeIn a = IsU64 a.olddir × IsU64 a.newdir × IsU64 a.options

pub exchange_in_pod_laws : PodLaws exchange_in_pod IsFuseExchangeIn
unfolding fields le from_le
exchange_in_pod_laws = record {
  length_lem = λ a. refl;
  of-to = λ a h i. record {
    olddir = from_le-le 8 a.olddir h.0 i;
    newdir = from_le-le 8 a.newdir h.1 i;
    options = from_le-le 8 a.options h.2 i;
  };
}
