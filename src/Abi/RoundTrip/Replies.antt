-- ===== src/Abi/RoundTrip/Replies.antt =====
-- The structures of Replies.antt survive the way to bytes and back, and have the length that the
-- program reads and writes.
use rust_fuse.Prelude.{refl}
use rust_fuse.Wire.{PodLaws, fields, IsU32, IsU64}
use rust_fuse.Wire.Numbers.{le, from_le, from_le-le}
use rust_fuse.Abi.Replies.{
  FuseOutHeader, out_header_pod, FuseInitOut, init_out_pod, FuseAttr, attr_pod, FuseEntryOut,
  entry_out_pod, FuseAttrOut, attr_out_pod, FuseOpenOut, open_out_pod, FuseWriteOut, write_out_pod,
  FuseGetxattrOut, getxattr_out_pod, FuseLkOut, lk_out_pod, FuseBmapOut, bmap_out_pod, FuseDirent,
  dirent_pod,
}
use rust_fuse.Abi.RoundTrip.Control.{IsFuseFileLock, file_lock_pod_laws}

abbrev pub IsFuseOutHeader : FuseOutHeader → Type 0
IsFuseOutHeader a = IsU32 a.len × IsU32 a.error × IsU64 a.unique

pub out_header_pod_laws : PodLaws out_header_pod IsFuseOutHeader
unfolding fields le from_le
out_header_pod_laws = record {
  length_lem = λ a. refl;
  of-to = λ a h i. record {
    len = from_le-le 4 a.len h.0 i;
    error = from_le-le 4 a.error h.1 i;
    unique = from_le-le 8 a.unique h.2 i;
  };
}

abbrev pub IsFuseInitOut : FuseInitOut → Type 0
IsFuseInitOut a =
    IsU32 a.major
    × IsU32 a.minor
    × IsU32 a.max_readahead
    × IsU32 a.flags
    × IsU32 a.unused
    × IsU32 a.max_write

pub init_out_pod_laws : PodLaws init_out_pod IsFuseInitOut
unfolding fields le from_le
init_out_pod_laws = record {
  length_lem = λ a. refl;
  of-to = λ a h i. record {
    major = from_le-le 4 a.major h.0 i;
    minor = from_le-le 4 a.minor h.1 i;
    max_readahead = from_le-le 4 a.max_readahead h.2 i;
    flags = from_le-le 4 a.flags h.3 i;
    unused = from_le-le 4 a.unused h.4 i;
    max_write = from_le-le 4 a.max_write h.5 i;
  };
}

abbrev pub IsFuseAttr : FuseAttr → Type 0
IsFuseAttr a =
    IsU64 a.ino
    × IsU64 a.size
    × IsU64 a.blocks
    × IsU64 a.atime
    × IsU64 a.mtime
    × IsU64 a.ctime
    × IsU32 a.atimensec
    × IsU32 a.mtimensec
    × IsU32 a.ctimensec
    × IsU32 a.mode
    × IsU32 a.nlink
    × IsU32 a.uid
    × IsU32 a.gid
    × IsU32 a.rdev

pub attr_pod_laws : PodLaws attr_pod IsFuseAttr
unfolding fields le from_le
attr_pod_laws = record {
  length_lem = λ a. refl;
  of-to = λ a h i. record {
    ino = from_le-le 8 a.ino h.0 i;
    size = from_le-le 8 a.size h.1 i;
    blocks = from_le-le 8 a.blocks h.2 i;
    atime = from_le-le 8 a.atime h.3 i;
    mtime = from_le-le 8 a.mtime h.4 i;
    ctime = from_le-le 8 a.ctime h.5 i;
    atimensec = from_le-le 4 a.atimensec h.6 i;
    mtimensec = from_le-le 4 a.mtimensec h.7 i;
    ctimensec = from_le-le 4 a.ctimensec h.8 i;
    mode = from_le-le 4 a.mode h.9 i;
    nlink = from_le-le 4 a.nlink h.10 i;
    uid = from_le-le 4 a.uid h.11 i;
    gid = from_le-le 4 a.gid h.12 i;
    rdev = from_le-le 4 a.rdev h.13 i;
  };
}

abbrev pub IsFuseEntryOut : FuseEntryOut → Type 0
IsFuseEntryOut a =
    IsU64 a.nodeid
    × IsU64 a.generation
    × IsU64 a.entry_valid
    × IsU64 a.attr_valid
    × IsU32 a.entry_valid_nsec
    × IsU32 a.attr_valid_nsec
    × IsFuseAttr a.attr

pub entry_out_pod_laws : PodLaws entry_out_pod IsFuseEntryOut
unfolding fields le from_le
entry_out_pod_laws = record {
  length_lem = λ a. refl;
  of-to = λ a h i. record {
    nodeid = from_le-le 8 a.nodeid h.0 i;
    generation = from_le-le 8 a.generation h.1 i;
    entry_valid = from_le-le 8 a.entry_valid h.2 i;
    attr_valid = from_le-le 8 a.attr_valid h.3 i;
    entry_valid_nsec = from_le-le 4 a.entry_valid_nsec h.4 i;
    attr_valid_nsec = from_le-le 4 a.attr_valid_nsec h.5 i;
    attr = attr_pod_laws.of-to a.attr h.6 i;
  };
}

abbrev pub IsFuseAttrOut : FuseAttrOut → Type 0
IsFuseAttrOut a = IsU64 a.attr_valid × IsU32 a.attr_valid_nsec × IsU32 a.dummy × IsFuseAttr a.attr

pub attr_out_pod_laws : PodLaws attr_out_pod IsFuseAttrOut
unfolding fields le from_le
attr_out_pod_laws = record {
  length_lem = λ a. refl;
  of-to = λ a h i. record {
    attr_valid = from_le-le 8 a.attr_valid h.0 i;
    attr_valid_nsec = from_le-le 4 a.attr_valid_nsec h.1 i;
    dummy = from_le-le 4 a.dummy h.2 i;
    attr = attr_pod_laws.of-to a.attr h.3 i;
  };
}

abbrev pub IsFuseOpenOut : FuseOpenOut → Type 0
IsFuseOpenOut a = IsU64 a.fh × IsU32 a.open_flags × IsU32 a.padding

pub open_out_pod_laws : PodLaws open_out_pod IsFuseOpenOut
unfolding fields le from_le
open_out_pod_laws = record {
  length_lem = λ a. refl;
  of-to = λ a h i. record {
    fh = from_le-le 8 a.fh h.0 i;
    open_flags = from_le-le 4 a.open_flags h.1 i;
    padding = from_le-le 4 a.padding h.2 i;
  };
}

abbrev pub IsFuseWriteOut : FuseWriteOut → Type 0
IsFuseWriteOut a = IsU32 a.size × IsU32 a.padding

pub write_out_pod_laws : PodLaws write_out_pod IsFuseWriteOut
unfolding fields le from_le
write_out_pod_laws = record {
  length_lem = λ a. refl;
  of-to =
      λ a h i. record { size = from_le-le 4 a.size h.0 i; padding = from_le-le 4 a.padding h.1 i };
}

abbrev pub IsFuseGetxattrOut : FuseGetxattrOut → Type 0
IsFuseGetxattrOut a = IsU32 a.size × IsU32 a.padding

pub getxattr_out_pod_laws : PodLaws getxattr_out_pod IsFuseGetxattrOut
unfolding fields le from_le
getxattr_out_pod_laws = record {
  length_lem = λ a. refl;
  of-to =
      λ a h i. record { size = from_le-le 4 a.size h.0 i; padding = from_le-le 4 a.padding h.1 i };
}

abbrev pub IsFuseLkOut : FuseLkOut → Type 0
IsFuseLkOut a = IsFuseFileLock a.lk

pub lk_out_pod_laws : PodLaws lk_out_pod IsFuseLkOut
unfolding fields le from_le
lk_out_pod_laws = record {
  length_lem = λ a. refl;
  of-to = λ a h i. record { lk = file_lock_pod_laws.of-to a.lk h i };
}

abbrev pub IsFuseBmapOut : FuseBmapOut → Type 0
IsFuseBmapOut a = IsU64 a.block

pub bmap_out_pod_laws : PodLaws bmap_out_pod IsFuseBmapOut
unfolding fields le from_le
bmap_out_pod_laws = record {
  length_lem = λ a. refl;
  of-to = λ a h i. record { block = from_le-le 8 a.block h i };
}

abbrev pub IsFuseDirent : FuseDirent → Type 0
IsFuseDirent a = IsU64 a.ino × IsU64 a.off × IsU32 a.namelen × IsU32 a.typ

pub dirent_pod_laws : PodLaws dirent_pod IsFuseDirent
unfolding fields le from_le
dirent_pod_laws = record {
  length_lem = λ a. refl;
  of-to = λ a h i. record {
    ino = from_le-le 8 a.ino h.0 i;
    off = from_le-le 8 a.off h.1 i;
    namelen = from_le-le 4 a.namelen h.2 i;
    typ = from_le-le 4 a.typ h.3 i;
  };
}
