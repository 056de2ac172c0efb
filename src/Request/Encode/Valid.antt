-- ===== src/Request/Encode/Valid.antt =====
-- The operations that the kernel's encoder can carry.
use rust_fuse.Prelude.{Bool, true, false, ◌≡◌, none, length, ◌<◌, Bool}
use rust_fuse.Abi.Control.{lk_in_pod, bmap_in_pod, forget_in_pod, interrupt_in_pod}
use rust_fuse.Abi.Names.{
  setattr_in_pod, mknod_in_pod, mkdir_in_pod, rename_in_pod, link_in_pod, setxattr_in_pod,
  getxattr_in_pod, access_in_pod,
}
use rust_fuse.Abi.Files.{
  open_in_pod, read_in_pod, write_in_pod, flush_in_pod, release_in_pod, fsync_in_pod,
}
use rust_fuse.Abi.RoundTrip.Control.{IsFuseLkIn, IsFuseBmapIn, IsFuseForgetIn}
use rust_fuse.Abi.RoundTrip.Names.{
  IsFuseSetattrIn, IsFuseMknodIn, IsFuseMkdirIn, IsFuseRenameIn, IsFuseLinkIn, IsFuseSetxattrIn,
  IsFuseAccessIn,
}
use rust_fuse.Abi.RoundTrip.Files.{
  IsFuseOpenIn, IsFuseReadIn, IsFuseWriteIn, IsFuseFlushIn, IsFuseReleaseIn, IsFuseFsyncIn,
}
use rust_fuse.Abi.RoundTrip.OsxNames.{IsFuseSetattrInOsx, IsFuseSetxattrInOsx, IsFuseExchangeIn}
use rust_fuse.Argument.Laws.{IsName}
use rust_fuse.Platform.{nsec_per_sec}
use rust_fuse.Filesystem.Calls.{Call}
use rust_fuse.Request.Decode.{Operation, calls, reads_directory, forgets, unsupported}
use rust_fuse.Request.Arguments.{bit_of, lk_arg, nsec_of, setattr_arg, setattr_arg_osx}

-- The values fit the fields that carry them, and names hold no zero byte.
abbrev pub IsOperation : Bool → Operation → Type 0
IsOperation os_x (calls (Call.lookup parent name)) = IsName name
IsOperation os_x (calls (Call.getattr ino)) = Unit {0}
IsOperation os_x (calls (Call.readlink ino)) = Unit {0}
IsOperation os_x (calls (Call.mknod parent name mode rdev)) =
    IsFuseMknodIn (record { mode = mode; rdev = rdev }) × IsName name
IsOperation os_x (calls (Call.mkdir parent name mode)) =
    IsFuseMkdirIn (record { mode = mode; padding = 0 }) × IsName name
IsOperation os_x (calls (Call.unlink parent name)) = IsName name
IsOperation os_x (calls (Call.rmdir parent name)) = IsName name
IsOperation os_x (calls (Call.symlink parent name target)) = IsName name × IsName target
IsOperation os_x (calls (Call.rename parent name newparent newname)) =
    IsFuseRenameIn (record { newdir = newparent }) × IsName name × IsName newname
IsOperation os_x (calls (Call.link ino newparent newname)) =
    IsFuseLinkIn (record { oldnodeid = ino }) × IsName newname
IsOperation os_x (calls (Call.open_file ino flags)) =
    IsFuseOpenIn (record { flags = flags; mode = 0 })
IsOperation os_x (calls (Call.read ino fh offset size)) =
    IsFuseReadIn (record { fh = fh; offset = offset; size = size; padding = 0 })
IsOperation os_x (calls (Call.write ino fh offset bytes flags)) =
    IsFuseWriteIn (record { fh = fh; offset = offset; size = length bytes; write_flags = flags })
IsOperation os_x (calls (Call.flush ino fh lock_owner)) =
    IsFuseFlushIn (record { fh = fh; unused = 0; padding = 0; lock_owner = lock_owner })
IsOperation os_x (calls (Call.release ino fh flags lock_owner flush)) =
    IsFuseReleaseIn
      (record { fh = fh; flags = flags; release_flags = bit_of flush; lock_owner = lock_owner })
IsOperation os_x (calls (Call.fsync ino fh datasync)) =
    IsFuseFsyncIn (record { fh = fh; fsync_flags = bit_of datasync; padding = 0 })
IsOperation os_x (calls (Call.opendir ino flags)) =
    IsFuseOpenIn (record { flags = flags; mode = 0 })
IsOperation os_x (calls (Call.releasedir ino fh flags)) =
    IsFuseReleaseIn (record { fh = fh; flags = flags; release_flags = 0; lock_owner = 0 })
IsOperation os_x (calls (Call.fsyncdir ino fh datasync)) =
    IsFuseFsyncIn (record { fh = fh; fsync_flags = bit_of datasync; padding = 0 })
IsOperation os_x (calls (Call.statfs ino)) = Unit {0}
IsOperation true (calls (Call.setxattr ino name value flags position)) =
    IsFuseSetxattrInOsx
      (record { size = length value; flags = flags; position = position; padding = 0 })
    × IsName name
IsOperation false (calls (Call.setxattr ino name value flags position)) =
    IsFuseSetxattrIn (record { size = length value; flags = flags }) × IsName name × (position ≡ 0)
IsOperation os_x (calls (Call.getxattr ino name)) = IsName name
IsOperation os_x (calls (Call.listxattr ino)) = Unit {0}
IsOperation os_x (calls (Call.removexattr ino name)) = IsName name
IsOperation os_x (calls (Call.access ino mask)) =
    IsFuseAccessIn (record { mask = mask; padding = 0 })
IsOperation os_x (calls (Call.create parent name mode flags)) =
    IsFuseOpenIn (record { flags = flags; mode = mode }) × IsName name
IsOperation os_x (calls (Call.getlk ino args)) = IsFuseLkIn (lk_arg args)
IsOperation os_x (calls (Call.setlk ino args sleep)) = IsFuseLkIn (lk_arg args)
IsOperation os_x (calls (Call.bmap ino blocksize idx)) =
    IsFuseBmapIn (record { block = idx; blocksize = blocksize; padding = 0 })
IsOperation true (calls (Call.setattr ino s)) =
    IsFuseSetattrInOsx (setattr_arg_osx s)
    × (nsec_of s.atime < nsec_per_sec)
    × (nsec_of s.mtime < nsec_per_sec)
    × (nsec_of s.crtime < nsec_per_sec)
    × (nsec_of s.chgtime < nsec_per_sec)
    × (nsec_of s.bkuptime < nsec_per_sec)
IsOperation false (calls (Call.setattr ino s)) =
    IsFuseSetattrIn (setattr_arg s)
    × (nsec_of s.atime < nsec_per_sec)
    × (nsec_of s.mtime < nsec_per_sec)
    × (s.crtime ≡ none)
    × (s.chgtime ≡ none)
    × (s.bkuptime ≡ none)
    × (s.flags ≡ none)
IsOperation os_x (calls (Call.readdir ino fh offset)) = ⊥
IsOperation os_x (reads_directory ino fh offset size) =
    IsFuseReadIn (record { fh = fh; offset = offset; size = size; padding = 0 })
IsOperation os_x (forgets ino nlookup) = IsFuseForgetIn (record { nlookup = nlookup })
IsOperation os_x unsupported = Unit {0}
IsOperation false (calls (Call.setvolname name)) = ⊥
IsOperation true (calls (Call.setvolname name)) = IsName name
IsOperation false (calls (Call.exchange parent name newparent newname options)) = ⊥
IsOperation true (calls (Call.exchange parent name newparent newname options)) =
    IsFuseExchangeIn (record { olddir = parent; newdir = newparent; options = options })
    × IsName name
    × IsName newname
IsOperation false (calls (Call.getxtimes ino)) = ⊥
IsOperation true (calls (Call.getxtimes ino)) = Unit {0}
