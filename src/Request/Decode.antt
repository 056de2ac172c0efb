-- ===== src/Request/Decode.antt =====
-- The arms of the match in `Request::dispatch` of src/request.rs: which arguments each operation
-- takes off the request, and which method it calls with them.
mod Arms
mod Changes
mod Xattrs
mod Locks
pub use Arms.{
  Operation, calls, reads_directory, forgets, unsupported, Arm, initializes, destroys, operates,
}
unfoldable pub use Changes.{given, time_given, changes_of, changes_of_osx, setattr_arm}
unfoldable pub use Xattrs.{expect_length, setxattr_arm, fetch_getxattr_in}
pub use Locks.{
  access_arm, create_arm, lock_args, getlk_arm, setlk_arm, bmap_arm, setvolname_arm, exchange_arm,
  getxtimes_arm,
}
use rust_fuse.Prelude.{
  ℕ, List, Bool, true, false, Option, none, some, length, bit_and, ◌==◌, not, if◌then◌else◌,
}
use rust_fuse.Wire.{fields}
use rust_fuse.Abi.Consts.{
  fattr_mode, fattr_uid, fattr_gid, fattr_size, fattr_atime, fattr_mtime, fattr_fh, fattr_crtime,
  fattr_chgtime, fattr_bkuptime, fattr_flags, fuse_release_flush,
}
use rust_fuse.Abi.Opcode
use rust_fuse.Abi.Opcode.{FuseOpcode}
use rust_fuse.Abi.Control.{
  FuseInHeader, FuseInterruptIn, FuseForgetIn, FuseBmapIn, FuseLkIn, interrupt_in_pod,
  forget_in_pod, bmap_in_pod, lk_in_pod,
}
use rust_fuse.Abi.Names.{
  FuseSetattrIn, FuseMknodIn, FuseMkdirIn, FuseRenameIn, FuseLinkIn, FuseSetxattrIn, FuseGetxattrIn,
  FuseAccessIn, setattr_in_pod, mknod_in_pod, mkdir_in_pod, rename_in_pod, link_in_pod,
  setxattr_in_pod, getxattr_in_pod, access_in_pod,
}
use rust_fuse.Abi.OsxNames.{
  FuseSetattrInOsx, FuseSetxattrInOsx, FuseGetxattrInOsx, FuseExchangeIn, setattr_in_osx_pod,
  setxattr_in_osx_pod, getxattr_in_osx_pod, exchange_in_pod,
}
use rust_fuse.Abi.Files.{
  FuseOpenIn, FuseReadIn, FuseWriteIn, FuseFlushIn, FuseReleaseIn, FuseFsyncIn, open_in_pod,
  read_in_pod, write_in_pod, flush_in_pod, release_in_pod, fsync_in_pod,
}
use rust_fuse.Argument.{
  done, fault, panic, Fetch, ◌>>=◌, pure, fetch, fetch_str, fetch_path, fetch_data,
}
use rust_fuse.Platform.{Platform, Timespec}
use rust_fuse.Filesystem.Calls.{Call, SetAttr, LockArgs}

-- `match flags & mask { 0 => false, _ => true }`
unfoldable pub is_set : ℕ → ℕ → Bool
is_set flags mask = not (bit_and flags mask == 0)

unfoldable pub arm : Platform → FuseOpcode → Arm
unfolding fields setattr_arm setxattr_arm fetch_getxattr_in
arm platform Opcode.fuse_init = initializes
arm platform Opcode.fuse_destroy = destroys
arm platform Opcode.fuse_interrupt =
    operates λ h. do arg ← fetch {A = FuseInterruptIn}; pure unsupported
arm platform Opcode.fuse_lookup =
    operates λ h. do name ← fetch_path; pure (calls (Call.lookup h.nodeid name))
arm platform Opcode.fuse_forget =
    operates λ h. do arg ← fetch {A = FuseForgetIn}; pure (forgets h.nodeid arg.nlookup)
arm platform Opcode.fuse_getattr = operates λ h. pure (calls (Call.getattr h.nodeid))
arm platform Opcode.fuse_setattr = operates λ h. setattr_arm platform platform.os_x h
arm platform Opcode.fuse_readlink = operates λ h. pure (calls (Call.readlink h.nodeid))
arm platform Opcode.fuse_mknod = operates λ h. do
  arg ← fetch {A = FuseMknodIn}
  name ← fetch_path
  pure (calls (Call.mknod h.nodeid name arg.mode arg.rdev))
arm platform Opcode.fuse_mkdir = operates λ h. do
  arg ← fetch {A = FuseMkdirIn}
  name ← fetch_path
  pure (calls (Call.mkdir h.nodeid name arg.mode))
arm platform Opcode.fuse_unlink =
    operates λ h. do name ← fetch_path; pure (calls (Call.unlink h.nodeid name))
arm platform Opcode.fuse_rmdir =
    operates λ h. do name ← fetch_path; pure (calls (Call.rmdir h.nodeid name))
arm platform Opcode.fuse_symlink =
    operates λ h. do
      name ← fetch_path
      target ← fetch_path
      pure (calls (Call.symlink h.nodeid name target))
arm platform Opcode.fuse_rename = operates λ h. do
  arg ← fetch {A = FuseRenameIn}
  name ← fetch_path
  newname ← fetch_path
  pure (calls (Call.rename h.nodeid name arg.newdir newname))
arm platform Opcode.fuse_link = operates λ h. do
  arg ← fetch {A = FuseLinkIn}
  newname ← fetch_path
  pure (calls (Call.link arg.oldnodeid h.nodeid newname))
arm platform Opcode.fuse_open =
    operates λ h. do arg ← fetch {A = FuseOpenIn}; pure (calls (Call.open_file h.nodeid arg.flags))
arm platform Opcode.fuse_read = operates λ h. do
  arg ← fetch {A = FuseReadIn}
  pure (calls (Call.read h.nodeid arg.fh arg.offset arg.size))
arm platform Opcode.fuse_write = operates λ h. do
  arg ← fetch {A = FuseWriteIn}
  bytes ← fetch_data
  expect_length bytes arg.size (calls (Call.write h.nodeid arg.fh arg.offset bytes arg.write_flags))
arm platform Opcode.fuse_flush =
    operates λ h. do
      arg ← fetch {A = FuseFlushIn}
      pure (calls (Call.flush h.nodeid arg.fh arg.lock_owner))
arm platform Opcode.fuse_release = operates λ h. do
  arg ← fetch {A = FuseReleaseIn}
  let flush = is_set arg.release_flags fuse_release_flush
  pure (calls (Call.release h.nodeid arg.fh arg.flags arg.lock_owner flush))
arm platform Opcode.fuse_fsync = operates λ h. do
  arg ← fetch {A = FuseFsyncIn}
  pure (calls (Call.fsync h.nodeid arg.fh (is_set arg.fsync_flags 1)))
arm platform Opcode.fuse_opendir =
    operates λ h. do arg ← fetch {A = FuseOpenIn}; pure (calls (Call.opendir h.nodeid arg.flags))
arm platform Opcode.fuse_readdir =
    operates λ h. do
      arg ← fetch {A = FuseReadIn}
      pure (reads_directory h.nodeid arg.fh arg.offset arg.size)
arm platform Opcode.fuse_releasedir = operates λ h. do
  arg ← fetch {A = FuseReleaseIn}
  pure (calls (Call.releasedir h.nodeid arg.fh arg.flags))
arm platform Opcode.fuse_fsyncdir = operates λ h. do
  arg ← fetch {A = FuseFsyncIn}
  pure (calls (Call.fsyncdir h.nodeid arg.fh (is_set arg.fsync_flags 1)))
arm platform Opcode.fuse_statfs = operates λ h. pure (calls (Call.statfs h.nodeid))
arm platform Opcode.fuse_setxattr = operates λ h. setxattr_arm platform.os_x h
arm platform Opcode.fuse_getxattr = operates λ h. do
  arg ← fetch_getxattr_in platform.os_x
  name ← fetch_str
  pure (calls (Call.getxattr h.nodeid name))
arm platform Opcode.fuse_listxattr =
    operates λ h. do arg ← fetch_getxattr_in platform.os_x; pure (calls (Call.listxattr h.nodeid))
arm platform Opcode.fuse_removexattr =
    operates λ h. do name ← fetch_str; pure (calls (Call.removexattr h.nodeid name))
arm platform Opcode.fuse_access = operates λ h. access_arm h
arm platform Opcode.fuse_create = operates λ h. create_arm h
arm platform Opcode.fuse_getlk = operates λ h. getlk_arm h
arm platform Opcode.fuse_setlk = operates λ h. setlk_arm false h
arm platform Opcode.fuse_setlkw = operates λ h. setlk_arm true h
arm platform Opcode.fuse_bmap = operates λ h. bmap_arm h
arm platform Opcode.fuse_setvolname = operates λ h. setvolname_arm h
arm platform Opcode.fuse_exchange = operates λ h. exchange_arm h
arm platform Opcode.fuse_getxtimes = operates λ h. getxtimes_arm h
