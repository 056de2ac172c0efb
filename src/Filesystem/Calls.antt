-- ===== src/Filesystem/Calls.antt =====
-- The methods of the trait `Filesystem` of src/lib.rs that get a reply object, with their arguments
-- but for the request and the reply: one constructor for each method. The last three are for OS
-- X only. Left out are `init`, `destroy` and `forget`, which get no reply object.
use rust_fuse.Prelude.{ℕ, List, Bool, Option}
use rust_fuse.Platform.{Timespec}
use rust_fuse.Reply.Kinds.{RawKind}
use rust_fuse.Reply.Answer.{ReplyKind, raw, directory}

-- The optional arguments of `setattr`.
pub record SetAttr : Type 0 where
  pub mode : Option ℕ
  pub uid : Option ℕ
  pub gid : Option ℕ
  pub size : Option ℕ
  pub atime : Option Timespec
  pub mtime : Option Timespec
  pub fh : Option ℕ
  pub crtime : Option Timespec
  pub chgtime : Option Timespec
  pub bkuptime : Option Timespec
  pub flags : Option ℕ

-- The arguments of `getlk` and `setlk`.
pub record LockArgs : Type 0 where
  pub fh : ℕ
  pub lock_owner : ℕ
  pub start : ℕ
  pub end : ℕ
  pub typ : ℕ
  pub pid : ℕ

pub data Call : Type 0 where
  lookup : (parent : ℕ) (name : List ℕ) → Call
  getattr : (ino : ℕ) → Call
  setattr : (ino : ℕ) (changes : SetAttr) → Call
  readlink : (ino : ℕ) → Call
  mknod : (parent : ℕ) (name : List ℕ) (mode rdev : ℕ) → Call
  mkdir : (parent : ℕ) (name : List ℕ) (mode : ℕ) → Call
  unlink : (parent : ℕ) (name : List ℕ) → Call
  rmdir : (parent : ℕ) (name : List ℕ) → Call
  symlink : (parent : ℕ) (name target : List ℕ) → Call
  rename : (parent : ℕ) (name : List ℕ) (newparent : ℕ) (newname : List ℕ) → Call
  link : (ino newparent : ℕ) (newname : List ℕ) → Call
  open_file : (ino flags : ℕ) → Call
  read : (ino fh offset size : ℕ) → Call
  write : (ino fh offset : ℕ) (bytes : List ℕ) (flags : ℕ) → Call
  flush : (ino fh lock_owner : ℕ) → Call
  release : (ino fh flags lock_owner : ℕ) (flush : Bool) → Call
  fsync : (ino fh : ℕ) (datasync : Bool) → Call
  opendir : (ino flags : ℕ) → Call
  readdir : (ino fh offset : ℕ) → Call
  releasedir : (ino fh flags : ℕ) → Call
  fsyncdir : (ino fh : ℕ) (datasync : Bool) → Call
  statfs : (ino : ℕ) → Call
  setxattr : (ino : ℕ) (name value : List ℕ) (flags position : ℕ) → Call
  getxattr : (ino : ℕ) (name : List ℕ) → Call
  listxattr : (ino : ℕ) → Call
  removexattr : (ino : ℕ) (name : List ℕ) → Call
  access : (ino mask : ℕ) → Call
  create : (parent : ℕ) (name : List ℕ) (mode flags : ℕ) → Call
  getlk : (ino : ℕ) (args : LockArgs) → Call
  setlk : (ino : ℕ) (args : LockArgs) (sleep : Bool) → Call
  bmap : (ino blocksize idx : ℕ) → Call
  setvolname : (name : List ℕ) → Call
  exchange : (parent : ℕ) (name : List ℕ) (newparent : ℕ) (newname : List ℕ) (options : ℕ) → Call
  getxtimes : (ino : ℕ) → Call

-- The type of the reply object that each method gets.
abbrev pub kind_of : Call → ReplyKind
kind_of (Call.lookup _ _) = raw RawKind.entry
kind_of (Call.getattr _) = raw RawKind.attr
kind_of (Call.setattr _ _) = raw RawKind.attr
kind_of (Call.readlink _) = raw RawKind.blob
kind_of (Call.mknod _ _ _ _) = raw RawKind.entry
kind_of (Call.mkdir _ _ _) = raw RawKind.entry
kind_of (Call.unlink _ _) = raw RawKind.empty
kind_of (Call.rmdir _ _) = raw RawKind.empty
kind_of (Call.symlink _ _ _) = raw RawKind.entry
kind_of (Call.rename _ _ _ _) = raw RawKind.empty
kind_of (Call.link _ _ _) = raw RawKind.entry
kind_of (Call.open_file _ _) = raw RawKind.open_file
kind_of (Call.read _ _ _ _) = raw RawKind.blob
kind_of (Call.write _ _ _ _ _) = raw RawKind.write
kind_of (Call.flush _ _ _) = raw RawKind.empty
kind_of (Call.release _ _ _ _ _) = raw RawKind.empty
kind_of (Call.fsync _ _ _) = raw RawKind.empty
kind_of (Call.opendir _ _) = raw RawKind.open_file
kind_of (Call.readdir _ _ _) = directory
kind_of (Call.releasedir _ _ _) = raw RawKind.empty
kind_of (Call.fsyncdir _ _ _) = raw RawKind.empty
kind_of (Call.statfs _) = raw RawKind.statfs
kind_of (Call.setxattr _ _ _ _ _) = raw RawKind.empty
kind_of (Call.getxattr _ _) = raw RawKind.blob
kind_of (Call.listxattr _) = raw RawKind.empty
kind_of (Call.removexattr _ _) = raw RawKind.empty
kind_of (Call.access _ _) = raw RawKind.empty
kind_of (Call.create _ _ _ _) = raw RawKind.create
kind_of (Call.getlk _ _) = raw RawKind.lock
kind_of (Call.setlk _ _ _) = raw RawKind.empty
kind_of (Call.bmap _ _ _) = raw RawKind.bmap
kind_of (Call.setvolname _) = raw RawKind.empty
kind_of (Call.exchange _ _ _ _ _) = raw RawKind.empty
kind_of (Call.getxtimes _) = raw RawKind.xtimes
