-- ===== src/Reply/Kinds.antt =====
-- The typed replies of src/reply.rs that wrap a raw reply, one kind for each type: what each type's
-- method for success takes, and the buffers that it sends. `ReplyXTimes` is for OS X
-- only, where the structures with attributes are longer.
use rust_fuse.Prelude.{Bool, true, false, ℕ, List, [], ◌∷◌, ◌++◌, drop, replicate}
use rust_fuse.Wire.{Pod, fields}
use rust_fuse.Abi.Replies.{
  FuseEntryOut, FuseAttrOut, FuseOpenOut, FuseWriteOut, FuseStatfsOut, FuseLkOut, FuseBmapOut,
  entry_out_pod, attr_out_pod, open_out_pod, write_out_pod, statfs_out_pod, lk_out_pod,
  bmap_out_pod, entry_out_layout, open_out_layout, entry_out_of_bytes, open_out_of_bytes,
}
use rust_fuse.Abi.OsxReplies.{
  FuseEntryOutOsx, FuseAttrOutOsx, FuseGetxtimesOut, entry_out_osx_pod, attr_out_osx_pod,
  getxtimes_out_pod, entry_out_osx_layout, entry_out_osx_of_bytes,
}
use rust_fuse.Platform.{Platform}
use rust_fuse.Filesystem.Attributes.{FileAttr, fuse_attr_from_attr, fuse_attr_from_attr_osx}
use rust_fuse.Platform.{Timespec}
use rust_fuse.Reply.Raw.{as_bytes}

pub data RawKind : Type 0 where
  empty blob entry attr open_file write statfs create lock bmap xtimes : RawKind

pub record Entry : Type 0 where
  pub ttl : Timespec
  pub attr : FileAttr
  pub generation : ℕ

pub record Attr : Type 0 where
  pub ttl : Timespec
  pub attr : FileAttr

pub record Opened : Type 0 where
  pub fh : ℕ
  pub flags : ℕ

pub record Statfs : Type 0 where
  pub blocks : ℕ
  pub bfree : ℕ
  pub bavail : ℕ
  pub files : ℕ
  pub ffree : ℕ
  pub bsize : ℕ
  pub namelen : ℕ
  pub frsize : ℕ

pub record Locked : Type 0 where
  pub start : ℕ
  pub end : ℕ
  pub typ : ℕ
  pub pid : ℕ

pub record Xtimes : Type 0 where
  pub bkuptime : Timespec
  pub crtime : Timespec

-- The arguments of `ok`, `data`, `entry`, `attr`, `opened`, `written`, `statfs`, `created`,
-- `locked`, `bmap` and `xtimes`.
abbrev pub Content : RawKind → Type 0
Content empty = Unit {0}
Content blob = List ℕ
Content entry = Entry
Content attr = Attr
Content open_file = Opened
Content write = ℕ
Content statfs = Statfs
Content create = Entry × Opened
Content lock = Locked
Content bmap = ℕ
Content xtimes = Xtimes

-- The tuple that `ReplyCreate` sends: its fields are taken to stand in their order, which Rust does
-- not promise of a tuple, but the tests of src/reply.rs rely on.
instance abbrev pub create_pod : Pod (FuseEntryOut × FuseOpenOut)
unfolding fields
create_pod = record {
  size_of = 136;
  to_bytes = λ p. fields (entry_out_layout p.0) ++ fields (open_out_layout p.1);
  of_bytes = λ bytes. (entry_out_of_bytes bytes, open_out_of_bytes (drop 120 bytes));
}

instance abbrev pub create_osx_pod : Pod (FuseEntryOutOsx × FuseOpenOut)
unfolding fields
create_osx_pod = record {
  size_of = 152;
  to_bytes = λ p. fields (entry_out_osx_layout p.0) ++ fields (open_out_layout p.1);
  of_bytes = λ bytes. (entry_out_osx_of_bytes bytes, open_out_of_bytes (drop 136 bytes));
}

abbrev pub xtimes_out : Xtimes → FuseGetxtimesOut
xtimes_out x = record {
  bkuptime = x.bkuptime.sec;
  crtime = x.crtime.sec;
  bkuptimensec = x.bkuptime.nsec;
  crtimensec = x.crtime.nsec;
}

abbrev pub open_out : Opened → FuseOpenOut
open_out o = record { fh = o.fh; open_flags = o.flags; padding = 0 }

abbrev pub statfs_out : Statfs → FuseStatfsOut
statfs_out s = record {
  st = record {
    blocks = s.blocks;
    bfree = s.bfree;
    bavail = s.bavail;
    files = s.files;
    ffree = s.ffree;
    bsize = s.bsize;
    namelen = s.namelen;
    frsize = s.frsize;
    padding = 0;
    spare = replicate 6 0;
  };
}

abbrev pub lk_out : Locked → FuseLkOut
lk_out l = record { lk = record { start = l.start; end = l.end; typ = l.typ; pid = l.pid } }

module _ (platform : Platform) where
  abbrev pub entry_out : Entry → FuseEntryOut
  entry_out e = record {
    nodeid = e.attr.ino;
    generation = e.generation;
    entry_valid = e.ttl.sec;
    attr_valid = e.ttl.sec;
    entry_valid_nsec = e.ttl.nsec;
    attr_valid_nsec = e.ttl.nsec;
    attr = fuse_attr_from_attr platform e.attr;
  }

  abbrev pub attr_out : Attr → FuseAttrOut
  attr_out a = record {
    attr_valid = a.ttl.sec;
    attr_valid_nsec = a.ttl.nsec;
    dummy = 0;
    attr = fuse_attr_from_attr platform a.attr;
  }

  -- The same on OS X.
  abbrev pub entry_out_osx : Entry → FuseEntryOutOsx
  entry_out_osx e = record {
    nodeid = e.attr.ino;
    generation = e.generation;
    entry_valid = e.ttl.sec;
    attr_valid = e.ttl.sec;
    entry_valid_nsec = e.ttl.nsec;
    attr_valid_nsec = e.ttl.nsec;
    attr = fuse_attr_from_attr_osx platform e.attr;
  }

  abbrev pub attr_out_osx : Attr → FuseAttrOutOsx
  attr_out_osx a = record {
    attr_valid = a.ttl.sec;
    attr_valid_nsec = a.ttl.nsec;
    dummy = 0;
    attr = fuse_attr_from_attr_osx platform a.attr;
  }

  -- The structures with attributes, on OS X or not.
  unfoldable pub entry_body : Bool → Entry → List (List ℕ)
  unfolding as_bytes
  entry_body true e = as_bytes (entry_out_osx e)
  entry_body false e = as_bytes (entry_out e)

  unfoldable pub attr_body : Bool → Attr → List (List ℕ)
  unfolding as_bytes
  attr_body true a = as_bytes (attr_out_osx a)
  attr_body false a = as_bytes (attr_out a)

  unfoldable pub create_body : Bool → Entry × Opened → List (List ℕ)
  unfolding as_bytes
  create_body true (e, o) =
      as_bytes {A = FuseEntryOutOsx × FuseOpenOut} (entry_out_osx e, open_out o)
  create_body false (e, o) = as_bytes {A = FuseEntryOut × FuseOpenOut} (entry_out e, open_out o)

  -- The buffers of a successful reply.
  unfoldable pub reply_body : (kind : RawKind) → Content kind → List (List ℕ)
  unfolding as_bytes entry_body attr_body create_body
  reply_body empty _ = []
  reply_body blob bytes = bytes ∷ []
  reply_body entry e = entry_body platform.os_x e
  reply_body attr a = attr_body platform.os_x a
  reply_body open_file o = as_bytes (open_out o)
  reply_body write size = as_bytes {A = FuseWriteOut} (record { size = size; padding = 0 })
  reply_body statfs s = as_bytes (statfs_out s)
  reply_body create c = create_body platform.os_x c
  reply_body lock l = as_bytes (lk_out l)
  reply_body xtimes x = as_bytes (xtimes_out x)
  reply_body bmap block = as_bytes {A = FuseBmapOut} (record { block = block })
