-- ===== src/Request/Encode.antt =====
-- The kernel's side: the operation code, the node and the bytes behind the header by which it asks for
-- an operation.
pub mod Valid
use rust_fuse.Prelude.{
  ℕ, ◌+◌, ◌*◌, ◌≡◌, List, [], ◌∷◌, ◌++◌, Bool, true, false, Option, none, some, length, ◌<◌, ◌^◌,
}
use rust_fuse.Wire.{fields}
use rust_fuse.Abi.Opcode
use rust_fuse.Abi.Opcode.{FuseOpcode}
use rust_fuse.Abi.Control.{FuseLkIn, lk_in_pod, bmap_in_pod, forget_in_pod, interrupt_in_pod}
use rust_fuse.Abi.Names.{
  FuseSetattrIn, setattr_in_pod, mknod_in_pod, mkdir_in_pod, rename_in_pod, link_in_pod,
  setxattr_in_pod, getxattr_in_pod, access_in_pod,
}
use rust_fuse.Abi.OsxNames.{
  FuseSetattrInOsx, setattr_in_osx_pod, setxattr_in_osx_pod, getxattr_in_osx_pod, exchange_in_pod,
}
use rust_fuse.Abi.Files.{
  open_in_pod, read_in_pod, write_in_pod, flush_in_pod, release_in_pod, fsync_in_pod,
}
use rust_fuse.Abi.RoundTrip.Control.{IsFuseLkIn, IsFuseBmapIn, IsFuseForgetIn}
use rust_fuse.Abi.RoundTrip.Names.{
  IsFuseSetattrIn, IsFuseMknodIn, IsFuseMkdirIn, IsFuseRenameIn, IsFuseLinkIn, IsFuseSetxattrIn,
  IsFuseGetxattrIn, IsFuseAccessIn,
}
use rust_fuse.Abi.RoundTrip.Files.{
  IsFuseOpenIn, IsFuseReadIn, IsFuseWriteIn, IsFuseFlushIn, IsFuseReleaseIn, IsFuseFsyncIn,
}
use rust_fuse.Argument.Laws.{IsName}
use rust_fuse.Platform.{Timespec, nsec_per_sec}
use rust_fuse.Filesystem.Calls.{Call, SetAttr, LockArgs}
use rust_fuse.Request.Decode.{Operation, calls, reads_directory, forgets, unsupported}
use rust_fuse.Request.Arguments.{
  bit_of, lk_arg, is_given, value_of, sec_of, nsec_of, bits, setattr_arg, setattr_arg_osx,
  setattr_bytes, setxattr_bytes, getxattr_bytes,
}

abbrev pub opcode_of : Operation → FuseOpcode
opcode_of (calls (Call.lookup _ _)) = Opcode.fuse_lookup
opcode_of (calls (Call.getattr _)) = Opcode.fuse_getattr
opcode_of (calls (Call.readlink _)) = Opcode.fuse_readlink
opcode_of (calls (Call.mknod _ _ _ _)) = Opcode.fuse_mknod
opcode_of (calls (Call.mkdir _ _ _)) = Opcode.fuse_mkdir
opcode_of (calls (Call.unlink _ _)) = Opcode.fuse_unlink
opcode_of (calls (Call.rmdir _ _)) = Opcode.fuse_rmdir
opcode_of (calls (Call.symlink _ _ _)) = Opcode.fuse_symlink
opcode_of (calls (Call.rename _ _ _ _)) = Opcode.fuse_rename
opcode_of (calls (Call.link _ _ _)) = Opcode.fuse_link
opcode_of (calls (Call.open_file _ _)) = Opcode.fuse_open
opcode_of (calls (Call.read _ _ _ _)) = Opcode.fuse_read
opcode_of (calls (Call.write _ _ _ _ _)) = Opcode.fuse_write
opcode_of (calls (Call.flush _ _ _)) = Opcode.fuse_flush
opcode_of (calls (Call.release _ _ _ _ _)) = Opcode.fuse_release
opcode_of (calls (Call.fsync _ _ _)) = Opcode.fuse_fsync
opcode_of (calls (Call.opendir _ _)) = Opcode.fuse_opendir
opcode_of (calls (Call.releasedir _ _ _)) = Opcode.fuse_releasedir
opcode_of (calls (Call.fsyncdir _ _ _)) = Opcode.fuse_fsyncdir
opcode_of (calls (Call.statfs _)) = Opcode.fuse_statfs
opcode_of (calls (Call.setxattr _ _ _ _ _)) = Opcode.fuse_setxattr
opcode_of (calls (Call.getxattr _ _)) = Opcode.fuse_getxattr
opcode_of (calls (Call.listxattr _)) = Opcode.fuse_listxattr
opcode_of (calls (Call.removexattr _ _)) = Opcode.fuse_removexattr
opcode_of (calls (Call.access _ _)) = Opcode.fuse_access
opcode_of (calls (Call.create _ _ _ _)) = Opcode.fuse_create
opcode_of (calls (Call.getlk _ _)) = Opcode.fuse_getlk
opcode_of (calls (Call.setlk _ _ false)) = Opcode.fuse_setlk
opcode_of (calls (Call.setlk _ _ true)) = Opcode.fuse_setlkw
opcode_of (calls (Call.bmap _ _ _)) = Opcode.fuse_bmap
opcode_of (calls (Call.setvolname _)) = Opcode.fuse_setvolname
opcode_of (calls (Call.exchange _ _ _ _ _)) = Opcode.fuse_exchange
opcode_of (calls (Call.getxtimes _)) = Opcode.fuse_getxtimes
opcode_of (calls (Call.setattr _ _)) = Opcode.fuse_setattr
opcode_of (calls (Call.readdir _ _ _)) = Opcode.fuse_readdir
opcode_of (reads_directory _ _ _ _) = Opcode.fuse_readdir
opcode_of (forgets _ _) = Opcode.fuse_forget
opcode_of unsupported = Opcode.fuse_interrupt

abbrev pub node_of : Operation → ℕ
node_of (calls (Call.lookup parent _)) = parent
node_of (calls (Call.getattr ino)) = ino
node_of (calls (Call.readlink ino)) = ino
node_of (calls (Call.mknod parent _ _ _)) = parent
node_of (calls (Call.mkdir parent _ _)) = parent
node_of (calls (Call.unlink parent _)) = parent
node_of (calls (Call.rmdir parent _)) = parent
node_of (calls (Call.symlink parent _ _)) = parent
node_of (calls (Call.rename parent _ _ _)) = parent
node_of (calls (Call.link _ newparent _)) = newparent
node_of (calls (Call.open_file ino _)) = ino
node_of (calls (Call.read ino _ _ _)) = ino
node_of (calls (Call.write ino _ _ _ _)) = ino
node_of (calls (Call.flush ino _ _)) = ino
node_of (calls (Call.release ino _ _ _ _)) = ino
node_of (calls (Call.fsync ino _ _)) = ino
node_of (calls (Call.opendir ino _)) = ino
node_of (calls (Call.releasedir ino _ _)) = ino
node_of (calls (Call.fsyncdir ino _ _)) = ino
node_of (calls (Call.statfs ino)) = ino
node_of (calls (Call.setxattr ino _ _ _ _)) = ino
node_of (calls (Call.getxattr ino _)) = ino
node_of (calls (Call.listxattr ino)) = ino
node_of (calls (Call.removexattr ino _)) = ino
node_of (calls (Call.access ino _)) = ino
node_of (calls (Call.create parent _ _ _)) = parent
node_of (calls (Call.getlk ino _)) = ino
node_of (calls (Call.setlk ino _ _)) = ino
node_of (calls (Call.bmap ino _ _)) = ino
node_of (calls (Call.setvolname _)) = 1
node_of (calls (Call.exchange _ _ _ _ _)) = 1
node_of (calls (Call.getxtimes ino)) = ino
node_of (calls (Call.setattr ino _)) = ino
node_of (calls (Call.readdir ino _ _)) = ino
node_of (reads_directory ino _ _ _) = ino
node_of (forgets ino _) = ino
node_of unsupported = 0

-- The structures and names behind the header, each name with its zero byte.
unfoldable pub encode : Bool → Operation → List ℕ
unfolding fields setattr_bytes setxattr_bytes getxattr_bytes
encode os_x (calls (Call.lookup parent name)) = name ++ (0 ∷ [])
encode os_x (calls (Call.getattr ino)) = []
encode os_x (calls (Call.readlink ino)) = []
encode os_x (calls (Call.mknod parent name mode rdev)) =
    mknod_in_pod.to_bytes (record { mode = mode; rdev = rdev }) ++ (name ++ (0 ∷ []))
encode os_x (calls (Call.mkdir parent name mode)) =
    mkdir_in_pod.to_bytes (record { mode = mode; padding = 0 }) ++ (name ++ (0 ∷ []))
encode os_x (calls (Call.unlink parent name)) = name ++ (0 ∷ [])
encode os_x (calls (Call.rmdir parent name)) = name ++ (0 ∷ [])
encode os_x (calls (Call.symlink parent name target)) = name ++ (0 ∷ (target ++ (0 ∷ [])))
encode os_x (calls (Call.rename parent name newparent newname)) =
    rename_in_pod.to_bytes (record { newdir = newparent }) ++ (name ++ (0 ∷ (newname ++ (0 ∷ []))))
encode os_x (calls (Call.link ino newparent newname)) =
    link_in_pod.to_bytes (record { oldnodeid = ino }) ++ (newname ++ (0 ∷ []))
encode os_x (calls (Call.open_file ino flags)) =
    open_in_pod.to_bytes (record { flags = flags; mode = 0 })
encode os_x (calls (Call.read ino fh offset size)) =
    read_in_pod.to_bytes (record { fh = fh; offset = offset; size = size; padding = 0 })
encode os_x (calls (Call.write ino fh offset bytes flags)) =
    write_in_pod.to_bytes
      (record { fh = fh; offset = offset; size = length bytes; write_flags = flags })
    ++ (bytes)
encode os_x (calls (Call.flush ino fh lock_owner)) =
    flush_in_pod.to_bytes (record { fh = fh; unused = 0; padding = 0; lock_owner = lock_owner })
encode os_x (calls (Call.release ino fh flags lock_owner flush)) =
    release_in_pod.to_bytes
      (record { fh = fh; flags = flags; release_flags = bit_of flush; lock_owner = lock_owner })
encode os_x (calls (Call.fsync ino fh datasync)) =
    fsync_in_pod.to_bytes (record { fh = fh; fsync_flags = bit_of datasync; padding = 0 })
encode os_x (calls (Call.opendir ino flags)) =
    open_in_pod.to_bytes (record { flags = flags; mode = 0 })
encode os_x (calls (Call.releasedir ino fh flags)) =
    release_in_pod.to_bytes (record { fh = fh; flags = flags; release_flags = 0; lock_owner = 0 })
encode os_x (calls (Call.fsyncdir ino fh datasync)) =
    fsync_in_pod.to_bytes (record { fh = fh; fsync_flags = bit_of datasync; padding = 0 })
encode os_x (calls (Call.statfs ino)) = []
encode os_x (calls (Call.setxattr ino name value flags position)) =
    setxattr_bytes os_x (length value) flags position ++ (name ++ (0 ∷ (value)))
encode os_x (calls (Call.getxattr ino name)) = getxattr_bytes os_x ++ (name ++ (0 ∷ []))
encode os_x (calls (Call.listxattr ino)) = getxattr_bytes os_x
encode os_x (calls (Call.removexattr ino name)) = name ++ (0 ∷ [])
encode os_x (calls (Call.access ino mask)) =
    access_in_pod.to_bytes (record { mask = mask; padding = 0 })
encode os_x (calls (Call.create parent name mode flags)) =
    open_in_pod.to_bytes (record { flags = flags; mode = mode }) ++ (name ++ (0 ∷ []))
encode os_x (calls (Call.getlk ino args)) = lk_in_pod.to_bytes (lk_arg args)
encode os_x (calls (Call.setlk ino args sleep)) = lk_in_pod.to_bytes (lk_arg args)
encode os_x (calls (Call.bmap ino blocksize idx)) =
    bmap_in_pod.to_bytes (record { block = idx; blocksize = blocksize; padding = 0 })
encode os_x (calls (Call.setattr ino changes)) = setattr_bytes os_x changes
encode os_x (calls (Call.readdir ino fh offset)) = []
encode os_x (reads_directory ino fh offset size) =
    read_in_pod.to_bytes (record { fh = fh; offset = offset; size = size; padding = 0 })
encode os_x (forgets ino nlookup) = forget_in_pod.to_bytes (record { nlookup = nlookup })
encode os_x unsupported = interrupt_in_pod.to_bytes (record { unique = 0 })
encode os_x (calls (Call.setvolname name)) = name ++ (0 ∷ [])
encode os_x (calls (Call.exchange parent name newparent newname options)) =
    exchange_in_pod.to_bytes (record { olddir = parent; newdir = newparent; options = options })
    ++ (name ++ (0 ∷ (newname ++ (0 ∷ []))))
encode os_x (calls (Call.getxtimes ino)) = []
