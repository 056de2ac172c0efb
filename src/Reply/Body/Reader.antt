-- ===== src/Reply/Body/Reader.antt =====
-- The kernel's reader of the body of every typed reply, and what an answer says.
use rust_fuse.Prelude.{
  Bool, true, false, ℕ, ◌-◌, ◌^◌, ◌<◌, List, [], take, drop, length, ◌∷◌, bit_or,
}
use rust_fuse.Wire.{IsU64, IsU32}
use rust_fuse.Filesystem.Attributes.{FileType, FileAttr}
use rust_fuse.Abi.Replies.{
  FuseEntryOut, FuseAttrOut, FuseOpenOut, FuseWriteOut, FuseStatfsOut, FuseLkOut, FuseBmapOut,
  entry_out_pod, attr_out_pod, open_out_pod, write_out_pod, statfs_out_pod, lk_out_pod,
  bmap_out_pod, FuseAttr,
}
use rust_fuse.Abi.RoundTrip.Replies.{IsFuseEntryOut, IsFuseAttrOut, IsFuseOpenOut, IsFuseLkOut}
use rust_fuse.Abi.OsxReplies.{
  FuseEntryOutOsx, FuseAttrOutOsx, FuseGetxtimesOut, entry_out_osx_pod, attr_out_osx_pod,
  getxtimes_out_pod, FuseAttrOsx,
}
use rust_fuse.Abi.RoundTrip.OsxReplies.{IsFuseEntryOutOsx, IsFuseAttrOutOsx, IsFuseGetxtimesOut}
use rust_fuse.Platform.{Platform}
use rust_fuse.Reply.Kinds.{
  entry_out_osx, attr_out_osx, xtimes_out, RawKind, Content, entry_out, attr_out, open_out, lk_out,
  create_pod, Opened, Entry,
}

-- What a body holds, by the protocol.
abbrev pub Body : Bool → RawKind → Type 0
Body os_x RawKind.empty = List ℕ
Body os_x RawKind.blob = List ℕ
Body false RawKind.entry = FuseEntryOut
Body true RawKind.entry = FuseEntryOutOsx
Body false RawKind.attr = FuseAttrOut
Body true RawKind.attr = FuseAttrOutOsx
Body os_x RawKind.open_file = FuseOpenOut
Body os_x RawKind.write = FuseWriteOut
Body os_x RawKind.statfs = FuseStatfsOut
Body false RawKind.create = FuseEntryOut × FuseOpenOut
Body true RawKind.create = FuseEntryOutOsx × FuseOpenOut
Body os_x RawKind.lock = FuseLkOut
Body os_x RawKind.bmap = FuseBmapOut
Body os_x RawKind.xtimes = FuseGetxtimesOut

-- The kernel's reader of a body.
abbrev pub read_body : (os_x : Bool) (kind : RawKind) → List ℕ → Body os_x kind
read_body os_x RawKind.empty bytes = bytes
read_body os_x RawKind.blob bytes = bytes
read_body false RawKind.entry bytes = entry_out_pod.of_bytes bytes
read_body true RawKind.entry bytes = entry_out_osx_pod.of_bytes bytes
read_body false RawKind.attr bytes = attr_out_pod.of_bytes bytes
read_body true RawKind.attr bytes = attr_out_osx_pod.of_bytes bytes
read_body os_x RawKind.open_file bytes = open_out_pod.of_bytes bytes
read_body os_x RawKind.write bytes = write_out_pod.of_bytes bytes
read_body os_x RawKind.statfs bytes = statfs_out_pod.of_bytes bytes
read_body false RawKind.create bytes =
    (entry_out_pod.of_bytes (take 120 bytes), open_out_pod.of_bytes (drop 120 bytes))
read_body true RawKind.create bytes =
    (entry_out_osx_pod.of_bytes (take 136 bytes), open_out_pod.of_bytes (drop 136 bytes))
read_body os_x RawKind.lock bytes = lk_out_pod.of_bytes bytes
read_body os_x RawKind.bmap bytes = bmap_out_pod.of_bytes bytes
read_body os_x RawKind.xtimes bytes = getxtimes_out_pod.of_bytes bytes

-- The types of files in a mode, as POSIX systems number them.
abbrev pub mode_type : FileType → ℕ
mode_type FileType.named_pipe = 0x1000
mode_type FileType.char_device = 0x2000
mode_type FileType.directory = 0x4000
mode_type FileType.block_device = 0x6000
mode_type FileType.regular_file = 0x8000
mode_type FileType.symlink = 0xa000

abbrev pub mode_of : FileAttr → ℕ
mode_of a = bit_or (mode_type a.kind) a.perm

-- The attributes that the kernel should see: not on OS X, and on OS X.
abbrev pub seen_attr : FileAttr → FuseAttr
seen_attr a = record {
  ino = a.ino;
  size = a.size;
  blocks = a.blocks;
  atime = a.atime.sec;
  mtime = a.mtime.sec;
  ctime = a.ctime.sec;
  atimensec = a.atime.nsec;
  mtimensec = a.mtime.nsec;
  ctimensec = a.ctime.nsec;
  mode = mode_of a;
  nlink = a.nlink;
  uid = a.uid;
  gid = a.gid;
  rdev = a.rdev;
}

abbrev pub seen_attr_osx : FileAttr → FuseAttrOsx
seen_attr_osx a = record {
  ino = a.ino;
  size = a.size;
  blocks = a.blocks;
  atime = a.atime.sec;
  mtime = a.mtime.sec;
  ctime = a.ctime.sec;
  crtime = a.crtime.sec;
  atimensec = a.atime.nsec;
  mtimensec = a.mtime.nsec;
  ctimensec = a.ctime.nsec;
  crtimensec = a.crtime.nsec;
  mode = mode_of a;
  nlink = a.nlink;
  uid = a.uid;
  gid = a.gid;
  rdev = a.rdev;
  flags = a.flags;
}

abbrev pub seen_entry : Entry → FuseEntryOut
seen_entry e = record {
  nodeid = e.attr.ino;
  generation = e.generation;
  entry_valid = e.ttl.sec;
  attr_valid = e.ttl.sec;
  entry_valid_nsec = e.ttl.nsec;
  attr_valid_nsec = e.ttl.nsec;
  attr = seen_attr e.attr;
}

abbrev pub seen_entry_osx : Entry → FuseEntryOutOsx
seen_entry_osx e = record {
  nodeid = e.attr.ino;
  generation = e.generation;
  entry_valid = e.ttl.sec;
  attr_valid = e.ttl.sec;
  entry_valid_nsec = e.ttl.nsec;
  attr_valid_nsec = e.ttl.nsec;
  attr = seen_attr_osx e.attr;
}

abbrev pub seen_opened : Opened → FuseOpenOut
seen_opened o = record { fh = o.fh; open_flags = o.flags; padding = 0 }

-- What an answer says.
abbrev pub body_of : (os_x : Bool) (kind : RawKind) → Content kind → Body os_x kind
body_of os_x RawKind.empty _ = []
body_of os_x RawKind.blob bytes = bytes
body_of false RawKind.entry e = seen_entry e
body_of true RawKind.entry e = seen_entry_osx e
body_of false RawKind.attr a = record {
  attr_valid = a.ttl.sec;
  attr_valid_nsec = a.ttl.nsec;
  dummy = 0;
  attr = seen_attr a.attr;
}
body_of true RawKind.attr a = record {
  attr_valid = a.ttl.sec;
  attr_valid_nsec = a.ttl.nsec;
  dummy = 0;
  attr = seen_attr_osx a.attr;
}
body_of os_x RawKind.open_file o = seen_opened o
body_of os_x RawKind.write size = record { size = size; padding = 0 }
body_of os_x RawKind.statfs s = record {
  st = record {
    blocks = s.blocks;
    bfree = s.bfree;
    bavail = s.bavail;
    files = s.files;
    ffree = s.ffree;
    bsize = s.bsize;
    namelen = s.namelen;
    frsize = s.frsize;
    padding = 0;
    spare = 0 ∷ 0 ∷ 0 ∷ 0 ∷ 0 ∷ 0 ∷ [];
  };
}
body_of false RawKind.create (e, o) = (seen_entry e, seen_opened o)
body_of true RawKind.create (e, o) = (seen_entry_osx e, seen_opened o)
body_of os_x RawKind.lock l = record {
  lk = record { start = l.start; end = l.end; typ = l.typ; pid = l.pid };
}
body_of os_x RawKind.bmap block = record { block = block }
body_of os_x RawKind.xtimes x = record {
  bkuptime = x.bkuptime.sec;
  crtime = x.crtime.sec;
  bkuptimensec = x.bkuptime.nsec;
  crtimensec = x.crtime.nsec;
}

module _ (platform : Platform) where
  -- The values of an answer fit the fields that carry them.
  abbrev pub IsContent : (os_x : Bool) (kind : RawKind) → Content kind → Type 0
  IsContent os_x RawKind.empty _ = Unit {0}
  IsContent os_x RawKind.blob bytes = length bytes < 2 ^ 32 - 16
  IsContent false RawKind.entry e = IsFuseEntryOut (entry_out platform e)
  IsContent true RawKind.entry e = IsFuseEntryOutOsx (entry_out_osx platform e)
  IsContent false RawKind.attr a = IsFuseAttrOut (attr_out platform a)
  IsContent true RawKind.attr a = IsFuseAttrOutOsx (attr_out_osx platform a)
  IsContent os_x RawKind.open_file o = IsFuseOpenOut (open_out o)
  IsContent os_x RawKind.write size = IsU32 size
  IsContent os_x RawKind.statfs s =
      IsU64 s.blocks
      × IsU64 s.bfree
      × IsU64 s.bavail
      × IsU64 s.files
      × IsU64 s.ffree
      × IsU32 s.bsize
      × IsU32 s.namelen
      × IsU32 s.frsize
  IsContent false RawKind.create (e, o) =
      IsFuseEntryOut (entry_out platform e) × IsFuseOpenOut (open_out o)
  IsContent true RawKind.create (e, o) =
      IsFuseEntryOutOsx (entry_out_osx platform e) × IsFuseOpenOut (open_out o)
  IsContent os_x RawKind.lock l = IsFuseLkOut (lk_out l)
  IsContent os_x RawKind.bmap block = IsU64 block
  IsContent os_x RawKind.xtimes x = IsFuseGetxtimesOut (xtimes_out x)
