-- ===== src/Request/RoundTrip/Files.antt =====
-- The operations on files.
use rust_fuse.Prelude.{
  ℕ, ◌+◌, ◌≡◌, refl, sym, List, [], ◌∷◌, ◌++◌, Bool, true, false, length, append-nil, ==_iff,
}
use Prim.Native.Nat.{zero-le}
use rust_fuse.Abi.Control.{FuseInHeader, lk_in_pod, bmap_in_pod}
use rust_fuse.Abi.Names.{
  mknod_in_pod, mkdir_in_pod, rename_in_pod, link_in_pod, setxattr_in_pod, getxattr_in_pod,
  access_in_pod,
}
use rust_fuse.Abi.Files.{
  open_in_pod, read_in_pod, write_in_pod, flush_in_pod, release_in_pod, fsync_in_pod,
}
use rust_fuse.Abi.RoundTrip.Control.{lk_in_pod_laws, bmap_in_pod_laws}
use rust_fuse.Abi.RoundTrip.Files.{
  open_in_pod_laws, read_in_pod_laws, write_in_pod_laws, flush_in_pod_laws, release_in_pod_laws,
  fsync_in_pod_laws,
}
use rust_fuse.Argument
use rust_fuse.Argument.{ArgumentIterator, done, advance, fetch, fetch_str, fetch_data, ◌>>=◌}
use rust_fuse.Request.Forget.{run_arm}
use rust_fuse.Filesystem.Calls.{Call, LockArgs}
use rust_fuse.Platform.{Platform}
use rust_fuse.Request.Decode.{calls, arm, is_set}
use rust_fuse.Request.Encode.Valid.{IsOperation}
use rust_fuse.Request.Encode.{encode}
use rust_fuse.Request.Arguments.{bit_of, lk_arg}
use rust_fuse.Request.RoundTrip.Steps.{arg_step, name_step, data_step}
use rust_fuse.Request.RoundTrip.Reads.{Reads}

is_set-bit_of : (b : Bool) → is_set (bit_of b) 1 ≡ b
unfolding is_set
is_set-bit_of true = refl
is_set-bit_of false = refl

module _ (platform : Platform) (h : FuseInHeader) where
  pub open_file_read :
      (ino : ℕ) (flags : ℕ)
      → IsOperation platform.os_x (calls (Call.open_file ino flags))
      → Reads platform h (calls (Call.open_file ino flags))
  unfolding arm encode
  open_file_read ino flags v =
      let it0 : ArgumentIterator =
        Argument.new (encode platform.os_x (calls (Call.open_file ino flags))) in
      let s1 =
        arg_step open_in_pod open_in_pod_laws it0 (record { flags = flags; mode = 0 }) [] zero-le v
          (sym (append-nil _)) in
      let it1 : ArgumentIterator = advance it0 8 in (it1, rw (s1.0, run_arm, ◌>>=◌))

  pub read_read :
      (ino : ℕ) (fh : ℕ) (offset : ℕ) (size : ℕ)
      → IsOperation platform.os_x (calls (Call.read ino fh offset size))
      → Reads platform h (calls (Call.read ino fh offset size))
  unfolding arm encode
  read_read ino fh offset size v =
      let it0 : ArgumentIterator =
        Argument.new (encode platform.os_x (calls (Call.read ino fh offset size))) in
      let s1 =
        arg_step read_in_pod read_in_pod_laws it0
          (record { fh = fh; offset = offset; size = size; padding = 0 }) [] zero-le v
          (sym (append-nil _)) in
      let it1 : ArgumentIterator = advance it0 24 in (it1, rw (s1.0, run_arm, ◌>>=◌))

  pub write_read :
      (ino : ℕ) (fh : ℕ) (offset : ℕ) (bytes : List ℕ) (flags : ℕ)
      → IsOperation platform.os_x (calls (Call.write ino fh offset bytes flags))
      → Reads platform h (calls (Call.write ino fh offset bytes flags))
  unfolding arm encode
  write_read ino fh offset bytes flags v =
      let it0 : ArgumentIterator =
        Argument.new (encode platform.os_x (calls (Call.write ino fh offset bytes flags))) in
      let s1 =
        arg_step write_in_pod write_in_pod_laws it0
          (record { fh = fh; offset = offset; size = length bytes; write_flags = flags }) bytes
          zero-le v refl in
      let it1 : ArgumentIterator = advance it0 24 in
      let s2 = data_step it1 bytes s1.2 s1.1 in
      (
        record it1 { pos = length it1.bytes },
        rw (s1.0, s2, (==_iff (length bytes) (length bytes)).1 refl, run_arm, ◌>>=◌),
      )

  pub flush_read :
      (ino : ℕ) (fh : ℕ) (lock_owner : ℕ)
      → IsOperation platform.os_x (calls (Call.flush ino fh lock_owner))
      → Reads platform h (calls (Call.flush ino fh lock_owner))
  unfolding arm encode
  flush_read ino fh lock_owner v =
      let it0 : ArgumentIterator =
        Argument.new (encode platform.os_x (calls (Call.flush ino fh lock_owner))) in
      let s1 =
        arg_step flush_in_pod flush_in_pod_laws it0
          (record { fh = fh; unused = 0; padding = 0; lock_owner = lock_owner }) [] zero-le v
          (sym (append-nil _)) in
      let it1 : ArgumentIterator = advance it0 24 in (it1, rw (s1.0, run_arm, ◌>>=◌))

  pub release_read :
      (ino : ℕ) (fh : ℕ) (flags : ℕ) (lock_owner : ℕ) (flush : Bool)
      → IsOperation platform.os_x (calls (Call.release ino fh flags lock_owner flush))
      → Reads platform h (calls (Call.release ino fh flags lock_owner flush))
  unfolding arm encode
  release_read ino fh flags lock_owner flush v =
      let it0 : ArgumentIterator =
        Argument.new (encode platform.os_x (calls (Call.release ino fh flags lock_owner flush))) in
      let s1 =
        arg_step release_in_pod release_in_pod_laws it0
          (record { fh = fh; flags = flags; release_flags = bit_of flush; lock_owner = lock_owner })
          [] zero-le v (sym (append-nil _)) in
      let it1 : ArgumentIterator = advance it0 24 in
      (it1, rw (s1.0, is_set-bit_of flush, run_arm, ◌>>=◌))

  pub fsync_read :
      (ino : ℕ) (fh : ℕ) (datasync : Bool)
      → IsOperation platform.os_x (calls (Call.fsync ino fh datasync))
      → Reads platform h (calls (Call.fsync ino fh datasync))
  unfolding arm encode
  fsync_read ino fh datasync v =
      let it0 : ArgumentIterator =
        Argument.new (encode platform.os_x (calls (Call.fsync ino fh datasync))) in
      let s1 =
        arg_step fsync_in_pod fsync_in_pod_laws it0
          (record { fh = fh; fsync_flags = bit_of datasync; padding = 0 }) [] zero-le v
          (sym (append-nil _)) in
      let it1 : ArgumentIterator = advance it0 16 in
      (it1, rw (s1.0, is_set-bit_of datasync, run_arm, ◌>>=◌))

  pub opendir_read :
      (ino : ℕ) (flags : ℕ)
      → IsOperation platform.os_x (calls (Call.opendir ino flags))
      → Reads platform h (calls (Call.opendir ino flags))
  unfolding arm encode
  opendir_read ino flags v =
      let it0 : ArgumentIterator =
        Argument.new (encode platform.os_x (calls (Call.opendir ino flags))) in
      let s1 =
        arg_step open_in_pod open_in_pod_laws it0 (record { flags = flags; mode = 0 }) [] zero-le v
          (sym (append-nil _)) in
      let it1 : ArgumentIterator = advance it0 8 in (it1, rw (s1.0, run_arm, ◌>>=◌))

  pub releasedir_read :
      (ino : ℕ) (fh : ℕ) (flags : ℕ)
      → IsOperation platform.os_x (calls (Call.releasedir ino fh flags))
      → Reads platform h (calls (Call.releasedir ino fh flags))
  unfolding arm encode
  releasedir_read ino fh flags v =
      let it0 : ArgumentIterator =
        Argument.new (encode platform.os_x (calls (Call.releasedir ino fh flags))) in
      let s1 =
        arg_step release_in_pod release_in_pod_laws it0
          (record { fh = fh; flags = flags; release_flags = 0; lock_owner = 0 }) [] zero-le v
          (sym (append-nil _)) in
      let it1 : ArgumentIterator = advance it0 24 in (it1, rw (s1.0, run_arm, ◌>>=◌))

  pub fsyncdir_read :
      (ino : ℕ) (fh : ℕ) (datasync : Bool)
      → IsOperation platform.os_x (calls (Call.fsyncdir ino fh datasync))
      → Reads platform h (calls (Call.fsyncdir ino fh datasync))
  unfolding arm encode
  fsyncdir_read ino fh datasync v =
      let it0 : ArgumentIterator =
        Argument.new (encode platform.os_x (calls (Call.fsyncdir ino fh datasync))) in
      let s1 =
        arg_step fsync_in_pod fsync_in_pod_laws it0
          (record { fh = fh; fsync_flags = bit_of datasync; padding = 0 }) [] zero-le v
          (sym (append-nil _)) in
      let it1 : ArgumentIterator = advance it0 16 in
      (it1, rw (s1.0, is_set-bit_of datasync, run_arm, ◌>>=◌))

  pub statfs_read :
      (ino : ℕ)
      → IsOperation platform.os_x (calls (Call.statfs ino))
      → Reads platform h (calls (Call.statfs ino))
  unfolding arm encode
  statfs_read ino v = (_, refl)

  pub create_read :
      (parent : ℕ) (name : List ℕ) (mode : ℕ) (flags : ℕ)
      → IsOperation platform.os_x (calls (Call.create parent name mode flags))
      → Reads platform h (calls (Call.create parent name mode flags))
  unfolding arm encode
  create_read parent name mode flags v =
      let it0 : ArgumentIterator =
        Argument.new (encode platform.os_x (calls (Call.create parent name mode flags))) in
      let s1 =
        arg_step open_in_pod open_in_pod_laws it0 (record { flags = flags; mode = mode })
          (name ++ (0 ∷ [])) zero-le v.0 refl in
      let it1 : ArgumentIterator = advance it0 8 in
      let s2 = name_step it1 name [] s1.2 v.1 s1.1 in
      let it2 : ArgumentIterator = advance it1 (length name + 1) in
      (it2, rw (s1.0, s2.0, run_arm, ◌>>=◌))

  pub getlk_read :
      (ino : ℕ) (args : LockArgs)
      → IsOperation platform.os_x (calls (Call.getlk ino args))
      → Reads platform h (calls (Call.getlk ino args))
  unfolding arm encode
  getlk_read ino args v =
      let it0 : ArgumentIterator =
        Argument.new (encode platform.os_x (calls (Call.getlk ino args))) in
      let s1 =
        arg_step lk_in_pod lk_in_pod_laws it0 (lk_arg args) [] zero-le v (sym (append-nil _)) in
      let it1 : ArgumentIterator = advance it0 40 in (it1, rw (s1.0, run_arm, ◌>>=◌))

  pub setlk_read :
      (ino : ℕ) (args : LockArgs) (sleep : Bool)
      → IsOperation platform.os_x (calls (Call.setlk ino args sleep))
      → Reads platform h (calls (Call.setlk ino args sleep))
  unfolding arm encode
  setlk_read ino args true v =
      let it0 : ArgumentIterator =
        Argument.new (encode platform.os_x (calls (Call.setlk ino args true))) in
      let s1 =
        arg_step lk_in_pod lk_in_pod_laws it0 (lk_arg args) [] zero-le v (sym (append-nil _)) in
      let it1 : ArgumentIterator = advance it0 40 in (it1, rw (s1.0, run_arm, ◌>>=◌))
  setlk_read ino args false v =
      let it0 : ArgumentIterator =
        Argument.new (encode platform.os_x (calls (Call.setlk ino args false))) in
      let s1 =
        arg_step lk_in_pod lk_in_pod_laws it0 (lk_arg args) [] zero-le v (sym (append-nil _)) in
      let it1 : ArgumentIterator = advance it0 40 in (it1, rw (s1.0, run_arm, ◌>>=◌))

  pub bmap_read :
      (ino : ℕ) (blocksize : ℕ) (idx : ℕ)
      → IsOperation platform.os_x (calls (Call.bmap ino blocksize idx))
      → Reads platform h (calls (Call.bmap ino blocksize idx))
  unfolding arm encode
  bmap_read ino blocksize idx v =
      let it0 : ArgumentIterator =
        Argument.new (encode platform.os_x (calls (Call.bmap ino blocksize idx))) in
      let s1 =
        arg_step bmap_in_pod bmap_in_pod_laws it0
          (record { block = idx; blocksize = blocksize; padding = 0 }) [] zero-le v
          (sym (append-nil _)) in
      let it1 : ArgumentIterator = advance it0 16 in (it1, rw (s1.0, run_arm, ◌>>=◌))
