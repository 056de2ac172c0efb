-- ===== src/Request/RoundTrip/Every.antt =====
-- Every operation.
use rust_fuse.Prelude.{ℕ, arith, sym, [], append-nil}
use Prim.Native.Nat.{zero-le}
use rust_fuse.Abi.Control.{FuseInHeader, forget_in_pod, interrupt_in_pod}
use rust_fuse.Abi.Files.{read_in_pod}
use rust_fuse.Abi.RoundTrip.Control.{forget_in_pod_laws, interrupt_in_pod_laws}
use rust_fuse.Abi.RoundTrip.Files.{read_in_pod_laws}
use rust_fuse.Argument
use rust_fuse.Argument.{ArgumentIterator, advance, ◌>>=◌}
use rust_fuse.Filesystem.Calls.{Call}
use rust_fuse.Platform.{Platform, IsPosix}
use rust_fuse.Request.Decode.{Operation, calls, reads_directory, forgets, unsupported, arm}
use rust_fuse.Request.Encode.Valid.{IsOperation}
use rust_fuse.Request.Encode.{encode}
use rust_fuse.Request.Forget.{run_arm}
use rust_fuse.Request.RoundTrip.Steps.{arg_step}
use rust_fuse.Request.RoundTrip.Reads.{Reads}
use rust_fuse.Request.RoundTrip.Names
use rust_fuse.Request.RoundTrip.Files
use rust_fuse.Request.RoundTrip.Xattrs
use rust_fuse.Request.RoundTrip.OsxCalls
use rust_fuse.Request.RoundTrip.Changes

module _ (platform : Platform) (posix : IsPosix platform) (h : FuseInHeader) where
  directory_read :
      (ino fh offset size : ℕ)
      → IsOperation platform.os_x (reads_directory ino fh offset size)
      → Reads platform h (reads_directory ino fh offset size)
  unfolding arm encode
  directory_read ino fh offset size v =
      let it0 : ArgumentIterator =
        Argument.new (encode platform.os_x (reads_directory ino fh offset size)) in
      let s1 =
        arg_step read_in_pod read_in_pod_laws it0
          (record { fh = fh; offset = offset; size = size; padding = 0 }) [] zero-le v
          (sym (append-nil _)) in
      (advance it0 24, rw (s1.0, run_arm, ◌>>=◌))

  forget_read :
      (ino nlookup : ℕ)
      → IsOperation platform.os_x (forgets ino nlookup)
      → Reads platform h (forgets ino nlookup)
  unfolding arm encode
  forget_read ino nlookup v =
      let it0 : ArgumentIterator = Argument.new (encode platform.os_x (forgets ino nlookup)) in
      let s1 =
        arg_step forget_in_pod forget_in_pod_laws it0 (record { nlookup = nlookup }) [] zero-le v
          (sym (append-nil _)) in
      (advance it0 8, rw (s1.0, run_arm, ◌>>=◌))

  interrupt_read : IsOperation platform.os_x (unsupported) → Reads platform h (unsupported)
  unfolding arm encode
  interrupt_read v =
      let it0 : ArgumentIterator = Argument.new (encode platform.os_x (unsupported)) in
      let s1 =
        arg_step interrupt_in_pod interrupt_in_pod_laws it0 (record { unique = 0 }) [] zero-le
          (omega arith) (sym (append-nil _)) in
      (advance it0 8, rw (s1.0, run_arm, ◌>>=◌))

  -- The kernel's bytes for an operation whose values fit are decoded to exactly that operation: the
  -- same method with the same arguments, in the same order.
  pub arm-encode : (op : Operation) → IsOperation platform.os_x op → Reads platform h op
  arm-encode (calls (Call.lookup parent name)) v = Names.lookup_read platform h parent name v
  arm-encode (calls (Call.getattr ino)) v = Names.getattr_read platform h ino v
  arm-encode (calls (Call.readlink ino)) v = Names.readlink_read platform h ino v
  arm-encode (calls (Call.mknod parent name mode rdev)) v =
      Names.mknod_read platform h parent name mode rdev v
  arm-encode (calls (Call.mkdir parent name mode)) v =
      Names.mkdir_read platform h parent name mode v
  arm-encode (calls (Call.unlink parent name)) v = Names.unlink_read platform h parent name v
  arm-encode (calls (Call.rmdir parent name)) v = Names.rmdir_read platform h parent name v
  arm-encode (calls (Call.symlink parent name target)) v =
      Names.symlink_read platform h parent name target v
  arm-encode (calls (Call.rename parent name newparent newname)) v =
      Names.rename_read platform h parent name newparent newname v
  arm-encode (calls (Call.link ino newparent newname)) v =
      Names.link_read platform h ino newparent newname v
  arm-encode (calls (Call.open_file ino flags)) v = Files.open_file_read platform h ino flags v
  arm-encode (calls (Call.read ino fh offset size)) v =
      Files.read_read platform h ino fh offset size v
  arm-encode (calls (Call.write ino fh offset bytes flags)) v =
      Files.write_read platform h ino fh offset bytes flags v
  arm-encode (calls (Call.flush ino fh lock_owner)) v =
      Files.flush_read platform h ino fh lock_owner v
  arm-encode (calls (Call.release ino fh flags lock_owner flush)) v =
      Files.release_read platform h ino fh flags lock_owner flush v
  arm-encode (calls (Call.fsync ino fh datasync)) v = Files.fsync_read platform h ino fh datasync v
  arm-encode (calls (Call.opendir ino flags)) v = Files.opendir_read platform h ino flags v
  arm-encode (calls (Call.releasedir ino fh flags)) v =
      Files.releasedir_read platform h ino fh flags v
  arm-encode (calls (Call.fsyncdir ino fh datasync)) v =
      Files.fsyncdir_read platform h ino fh datasync v
  arm-encode (calls (Call.statfs ino)) v = Files.statfs_read platform h ino v
  arm-encode (calls (Call.setxattr ino name value flags position)) v =
      Xattrs.setxattr_read platform h ino name value flags position v
  arm-encode (calls (Call.getxattr ino name)) v = Xattrs.getxattr_read platform h ino name v
  arm-encode (calls (Call.listxattr ino)) v = Xattrs.listxattr_read platform h ino v
  arm-encode (calls (Call.removexattr ino name)) v = Names.removexattr_read platform h ino name v
  arm-encode (calls (Call.access ino mask)) v = Names.access_read platform h ino mask v
  arm-encode (calls (Call.create parent name mode flags)) v =
      Files.create_read platform h parent name mode flags v
  arm-encode (calls (Call.getlk ino args)) v = Files.getlk_read platform h ino args v
  arm-encode (calls (Call.setlk ino args sleep)) v = Files.setlk_read platform h ino args sleep v
  arm-encode (calls (Call.bmap ino blocksize idx)) v =
      Files.bmap_read platform h ino blocksize idx v
  arm-encode (calls (Call.setattr ino s)) v = Changes.setattr_read platform posix h ino s v
  arm-encode (calls (Call.readdir ino fh offset)) v = absurd v
  arm-encode (reads_directory ino fh offset size) v = directory_read ino fh offset size v
  arm-encode (forgets ino nlookup) v = forget_read ino nlookup v
  arm-encode unsupported v = interrupt_read v
  arm-encode (calls (Call.setvolname name)) v = OsxCalls.setvolname_read platform h name v
  arm-encode (calls (Call.exchange parent name newparent newname options)) v =
      OsxCalls.exchange_read platform h parent name newparent newname options v
  arm-encode (calls (Call.getxtimes ino)) v = OsxCalls.getxtimes_read platform h ino v
