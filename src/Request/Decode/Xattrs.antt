-- ===== src/Request/Decode/Xattrs.antt =====
-- The arms of SETXATTR, GETXATTR and LISTXATTR in `Request::dispatch` of src/request.rs, whose structures
-- are longer on OS X: a Boolean says whether that is the target.
use rust_fuse.Prelude.{ℕ, List, Bool, true, false, length, ◌==◌, if◌then◌else◌}
use rust_fuse.Wire.{fields}
use rust_fuse.Abi.Control.{FuseInHeader, interrupt_in_pod, forget_in_pod, bmap_in_pod, lk_in_pod}
use rust_fuse.Abi.Names.{
  FuseSetxattrIn, FuseGetxattrIn, setattr_in_pod, mknod_in_pod, mkdir_in_pod, rename_in_pod,
  link_in_pod, setxattr_in_pod, getxattr_in_pod, access_in_pod,
}
use rust_fuse.Abi.OsxNames.{
  FuseSetxattrInOsx, FuseGetxattrInOsx, setattr_in_osx_pod, setxattr_in_osx_pod,
  getxattr_in_osx_pod, exchange_in_pod,
}
use rust_fuse.Abi.Files.{
  open_in_pod, read_in_pod, write_in_pod, flush_in_pod, release_in_pod, fsync_in_pod,
}
use rust_fuse.Argument.{done, fault, panic, Fetch, ◌>>=◌, pure, fetch, fetch_str, fetch_data}
use rust_fuse.Filesystem.Calls.{Call}
use rust_fuse.Request.Decode.Arms.{Operation, calls}

-- `assert!(data.len() == size as usize)`
abbrev pub expect_length : List ℕ → ℕ → Operation → Fetch Operation
expect_length bytes size op it = if length bytes == size then done (op, it) else fault panic

unfoldable pub setxattr_arm : Bool → FuseInHeader → Fetch Operation
unfolding fields
setxattr_arm true h = do
  arg ← fetch {A = FuseSetxattrInOsx}
  name ← fetch_str
  value ← fetch_data
  expect_length value arg.size (calls (Call.setxattr h.nodeid name value arg.flags arg.position))
setxattr_arm false h = do
  arg ← fetch {A = FuseSetxattrIn}
  name ← fetch_str
  value ← fetch_data
  expect_length value arg.size (calls (Call.setxattr h.nodeid name value arg.flags 0))

-- The arguments of GETXATTR and LISTXATTR, of which no method gets any.
unfoldable pub fetch_getxattr_in : Bool → Fetch (Unit {0})
unfolding fields
fetch_getxattr_in true = do arg ← fetch {A = FuseGetxattrInOsx}; pure tt
fetch_getxattr_in false = do arg ← fetch {A = FuseGetxattrIn}; pure tt
