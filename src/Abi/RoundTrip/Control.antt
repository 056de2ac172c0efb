-- ===== src/Abi/RoundTrip/Control.antt =====
-- The structures of Control.antt survive the way to bytes and back, and have the length that the
-- program reads and writes.
use rust_fuse.Prelude.{refl}
use rust_fuse.Wire.{PodLaws, fields, IsU32, IsU64}
use rust_fuse.Wire.Numbers.{le, from_le, from_le-le}
use rust_fuse.Abi.Control.{
  FuseInHeader, in_header_pod, FuseInitIn, init_in_pod, FuseInterruptIn, interrupt_in_pod,
  FuseForgetIn, forget_in_pod, FuseBmapIn, bmap_in_pod, FuseFileLock, file_lock_pod, FuseLkIn,
  lk_in_pod,
}

abbrev pub IsFuseInHeader : FuseInHeader → Type 0
IsFuseInHeader a =
    IsU32 a.len
    × IsU32 a.opcode
    × IsU64 a.unique
    × IsU64 a.nodeid
    × IsU32 a.uid
    × IsU32 a.gid
    × IsU32 a.pid
    × IsU32 a.padding

pub in_header_pod_laws : PodLaws in_header_pod IsFuseInHeader
unfolding fields le from_le
in_header_pod_laws = record {
  length_lem = λ a. refl;
  of-to = λ a h i. record {
    len = from_le-le 4 a.len h.0 i;
    opcode = from_le-le 4 a.opcode h.1 i;
    unique = from_le-le 8 a.unique h.2 i;
    nodeid = from_le-le 8 a.nodeid h.3 i;
    uid = from_le-le 4 a.uid h.4 i;
    gid = from_le-le 4 a.gid h.5 i;
    pid = from_le-le 4 a.pid h.6 i;
    padding = from_le-le 4 a.padding h.7 i;
  };
}

abbrev pub IsFuseInitIn : FuseInitIn → Type 0
IsFuseInitIn a = IsU32 a.major × IsU32 a.minor × IsU32 a.max_readahead × IsU32 a.flags

pub init_in_pod_laws : PodLaws init_in_pod IsFuseInitIn
unfolding fields le from_le
init_in_pod_laws = record {
  length_lem = λ a. refl;
  of-to = λ a h i. record {
    major = from_le-le 4 a.major h.0 i;
    minor = from_le-le 4 a.minor h.1 i;
    max_readahead = from_le-le 4 a.max_readahead h.2 i;
    flags = from_le-le 4 a.flags h.3 i;
  };
}

abbrev pub IsFuseInterruptIn : FuseInterruptIn → Type 0
IsFuseInterruptIn a = IsU64 a.unique

pub interrupt_in_pod_laws : PodLaws interrupt_in_pod IsFuseInterruptIn
unfolding fields le from_le
interrupt_in_pod_laws = record {
  length_lem = λ a. refl;
  of-to = λ a h i. record { unique = from_le-le 8 a.unique h i };
}

abbrev pub IsFuseForgetIn : FuseForgetIn → Type 0
IsFuseForgetIn a = IsU64 a.nlookup

pub forget_in_pod_laws : PodLaws forget_in_pod IsFuseForgetIn
unfolding fields le from_le
forget_in_pod_laws = record {
  length_lem = λ a. refl;
  of-to = λ a h i. record { nlookup = from_le-le 8 a.nlookup h i };
}

abbrev pub IsFuseBmapIn : FuseBmapIn → Type 0
IsFuseBmapIn a = IsU64 a.block × IsU32 a.blocksize × IsU32 a.padding

pub bmap_in_pod_laws : PodLaws bmap_in_pod IsFuseBmapIn
unfolding fields le from_le
bmap_in_pod_laws = record {
  length_lem = λ a. refl;
  of-to = λ a h i. record {
    block = from_le-le 8 a.block h.0 i;
    blocksize = from_le-le 4 a.blocksize h.1 i;
    padding = from_le-le 4 a.padding h.2 i;
  };
}

abbrev pub IsFuseFileLock : FuseFileLock → Type 0
IsFuseFileLock a = IsU64 a.start × IsU64 a.end × IsU32 a.typ × IsU32 a.pid

pub file_lock_pod_laws : PodLaws file_lock_pod IsFuseFileLock
unfolding fields le from_le
file_lock_pod_laws = record {
  length_lem = λ a. refl;
  of-to = λ a h i. record {
    start = from_le-le 8 a.start h.0 i;
    end = from_le-le 8 a.end h.1 i;
    typ = from_le-le 4 a.typ h.2 i;
    pid = from_le-le 4 a.pid h.3 i;
  };
}

abbrev pub IsFuseLkIn : FuseLkIn → Type 0
IsFuseLkIn a = IsU64 a.fh × IsU64 a.owner × IsFuseFileLock a.lk

pub lk_in_pod_laws : PodLaws lk_in_pod IsFuseLkIn
unfolding fields le from_le
lk_in_pod_laws = record {
  length_lem = λ a. refl;
  of-to = λ a h i. record {
    fh = from_le-le 8 a.fh h.0 i;
    owner = from_le-le 8 a.owner h.1 i;
    lk = file_lock_pod_laws.of-to a.lk h.2 i;
  };
}
