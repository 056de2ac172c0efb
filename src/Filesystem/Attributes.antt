-- ===== src/Filesystem/Attributes.antt =====
-- `FileType` and `FileAttr` of src/lib.rs, and the functions of src/reply.rs that turn them into
-- the kernel's form.
use rust_fuse.Prelude.{ℕ, bit_or}
use rust_fuse.Abi.OsxReplies.{FuseAttrOsx}
use rust_fuse.Abi.Replies.{FuseAttr}
use rust_fuse.Platform.{Platform, Timespec}

pub data FileType : Type 0 where
  named_pipe char_device block_device directory regular_file symlink : FileType

pub record FileAttr : Type 0 where
  pub ino : ℕ
  pub size : ℕ
  pub blocks : ℕ
  pub atime : Timespec
  pub mtime : Timespec
  pub ctime : Timespec
  pub crtime : Timespec
  pub kind : FileType
  pub perm : ℕ
  pub nlink : ℕ
  pub uid : ℕ
  pub gid : ℕ
  pub rdev : ℕ
  pub flags : ℕ

module _ (platform : Platform) where
  abbrev pub file_type_bits : FileType → ℕ
  file_type_bits named_pipe = platform.s_ififo
  file_type_bits char_device = platform.s_ifchr
  file_type_bits block_device = platform.s_ifblk
  file_type_bits directory = platform.s_ifdir
  file_type_bits regular_file = platform.s_ifreg
  file_type_bits symlink = platform.s_iflnk

  abbrev pub mode_from_kind_and_perm : FileType → ℕ → ℕ
  mode_from_kind_and_perm kind perm = bit_or (file_type_bits kind) perm

  -- On OS X.
  abbrev pub fuse_attr_from_attr_osx : FileAttr → FuseAttrOsx
  fuse_attr_from_attr_osx attr = record {
    ino = attr.ino;
    size = attr.size;
    blocks = attr.blocks;
    atime = attr.atime.sec;
    mtime = attr.mtime.sec;
    ctime = attr.ctime.sec;
    crtime = attr.crtime.sec;
    atimensec = attr.atime.nsec;
    mtimensec = attr.mtime.nsec;
    ctimensec = attr.ctime.nsec;
    crtimensec = attr.crtime.nsec;
    mode = mode_from_kind_and_perm attr.kind attr.perm;
    nlink = attr.nlink;
    uid = attr.uid;
    gid = attr.gid;
    rdev = attr.rdev;
    flags = attr.flags;
  }

  -- Not on OS X.
  abbrev pub fuse_attr_from_attr : FileAttr → FuseAttr
  fuse_attr_from_attr attr = record {
    ino = attr.ino;
    size = attr.size;
    blocks = attr.blocks;
    atime = attr.atime.sec;
    mtime = attr.mtime.sec;
    ctime = attr.ctime.sec;
    atimensec = attr.atime.nsec;
    mtimensec = attr.mtime.nsec;
    ctimensec = attr.ctime.nsec;
    mode = mode_from_kind_and_perm attr.kind attr.perm;
    nlink = attr.nlink;
    uid = attr.uid;
    gid = attr.gid;
    rdev = attr.rdev;
  }
