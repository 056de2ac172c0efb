-- ===== src/Filesystem/Trait.antt =====
-- The trait `Filesystem` of src/lib.rs: what a user of the library implements, and the default
-- methods.
use rust_fuse.Prelude.{ℕ, List, Option}
use rust_fuse.Abi.Control.{FuseInHeader}
use rust_fuse.Argument.{Outcome, Fault}
use rust_fuse.Platform.{Platform}
use rust_fuse.Filesystem.Calls.{Call, kind_of}
use rust_fuse.Reply.Raw.{ChannelSender}
use rust_fuse.Reply.Answer.{Answer, replies, fails, finish}

-- `Request` of src/request.rs; `payload` is its field `data`.
pub record Request : Type 0 where
  pub ch : ChannelSender
  pub header : FuseInHeader
  pub payload : List ℕ

-- A method takes the filesystem (`&mut self`) and returns it with what it did to the reply object.
-- `init` returns the error code of `Err`, or none for `Ok(())`. `init`, `destroy` and `forget` get no
-- reply object, and they may end in a fault.
pub record Filesystem : Type 1 where
  pub State : Type 0
  pub init : Request → State → State × Outcome (Option ℕ)
  pub destroy : Request → State → State × Option Fault
  pub forget : Request → (ino nlookup : ℕ) → State → State × Option Fault
  pub method : Request → (call : Call) → State → State × Answer (kind_of call)

-- The default methods.
unfoldable pub default_method : Platform → (call : Call) → Answer (kind_of call)
default_method p (Call.lookup _ _) = fails p.enosys
default_method p (Call.getattr _) = fails p.enosys
default_method p (Call.setattr _ _) = fails p.enosys
default_method p (Call.readlink _) = fails p.enosys
default_method p (Call.mknod _ _ _ _) = fails p.enosys
default_method p (Call.mkdir _ _ _) = fails p.enosys
default_method p (Call.unlink _ _) = fails p.enosys
default_method p (Call.rmdir _ _) = fails p.enosys
default_method p (Call.symlink _ _ _) = fails p.enosys
default_method p (Call.rename _ _ _ _) = fails p.enosys
default_method p (Call.link _ _ _) = fails p.enosys
default_method p (Call.open_file _ _) = replies (record { fh = 0; flags = 0 })
default_method p (Call.read _ _ _ _) = fails p.enosys
default_method p (Call.write _ _ _ _ _) = fails p.enosys
default_method p (Call.flush _ _ _) = fails p.enosys
default_method p (Call.release _ _ _ _ _) = replies tt
default_method p (Call.fsync _ _ _) = fails p.enosys
default_method p (Call.opendir _ _) = replies (record { fh = 0; flags = 0 })
default_method p (Call.readdir _ _ _) = finish (fails p.enosys)
default_method p (Call.releasedir _ _ _) = replies tt
default_method p (Call.fsyncdir _ _ _) = fails p.enosys
default_method p (Call.statfs _) = replies (record {
  blocks = 0;
  bfree = 0;
  bavail = 0;
  files = 0;
  ffree = 0;
  bsize = 512;
  namelen = 255;
  frsize = 0;
})
default_method p (Call.setxattr _ _ _ _ _) = fails p.enosys
default_method p (Call.getxattr _ _) = fails p.enosys
default_method p (Call.listxattr _) = fails p.enosys
default_method p (Call.removexattr _ _) = fails p.enosys
default_method p (Call.access _ _) = fails p.enosys
default_method p (Call.create _ _ _ _) = fails p.enosys
default_method p (Call.getlk _ _) = fails p.enosys
default_method p (Call.setlk _ _ _) = fails p.enosys
default_method p (Call.bmap _ _ _) = fails p.enosys
default_method p (Call.setvolname _) = fails p.enosys
default_method p (Call.exchange _ _ _ _ _) = fails p.enosys
default_method p (Call.getxtimes _) = fails p.enosys
