-- ===== src/Request/Decode/Arms.antt =====
-- What the arms of the match in `Request::dispatch` of src/request.rs do.
use rust_fuse.Prelude.{ℕ}
use rust_fuse.Abi.Control.{FuseInHeader, interrupt_in_pod, forget_in_pod, bmap_in_pod, lk_in_pod}
use rust_fuse.Abi.Names.{
  setattr_in_pod, mknod_in_pod, mkdir_in_pod, rename_in_pod, link_in_pod, setxattr_in_pod,
  getxattr_in_pod, access_in_pod,
}
use rust_fuse.Abi.OsxNames.{
  setattr_in_osx_pod, setxattr_in_osx_pod, getxattr_in_osx_pod, exchange_in_pod,
}
use rust_fuse.Abi.Files.{
  open_in_pod, read_in_pod, write_in_pod, flush_in_pod, release_in_pod, fsync_in_pod,
}
use rust_fuse.Argument.{Fetch}
use rust_fuse.Filesystem.Calls.{Call}

-- What an arm does once it has its arguments: it calls a method with a new reply object; it calls
-- `readdir`, with a directory reply of the size asked for; it calls `forget`, with no reply; or it
-- answers ENOSYS.
pub data Operation : Type 0 where
  calls : Call → Operation
  reads_directory : (ino fh offset size : ℕ) → Operation
  forgets : (ino nlookup : ℕ) → Operation
  unsupported : Operation

-- INIT and DESTROY are arms of their own.
pub data Arm : Type 0 where
  initializes : Arm
  destroys : Arm
  operates : (FuseInHeader → Fetch Operation) → Arm
