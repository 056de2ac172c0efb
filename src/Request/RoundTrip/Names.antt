-- ===== src/Request/RoundTrip/Names.antt =====
-- The operations on names.
use rust_fuse.Prelude.{ℕ, ◌+◌, refl, sym, List, [], ◌∷◌, ◌++◌, length, append-nil}
use Prim.Native.Nat.{zero-le}
use rust_fuse.Abi.Control.{FuseInHeader, lk_in_pod, bmap_in_pod}
use rust_fuse.Abi.Names.{
  mknod_in_pod, mkdir_in_pod, rename_in_pod, link_in_pod, setxattr_in_pod, getxattr_in_pod,
  access_in_pod,
}
use rust_fuse.Abi.Files.{
  open_in_pod, read_in_pod, write_in_pod, flush_in_pod, release_in_pod, fsync_in_pod,
}
use rust_fuse.Abi.RoundTrip.Names.{
  mknod_in_pod_laws, mkdir_in_pod_laws, rename_in_pod_laws, link_in_pod_laws, access_in_pod_laws,
}
use rust_fuse.Argument
use rust_fuse.Argument.{ArgumentIterator, done, advance, fetch, fetch_str, fetch_data, ◌>>=◌}
use rust_fuse.Request.Forget.{run_arm}
use rust_fuse.Filesystem.Calls.{Call}
use rust_fuse.Platform.{Platform}
use rust_fuse.Request.Decode.{calls, arm}
use rust_fuse.Request.Encode.Valid.{IsOperation}
use rust_fuse.Request.Encode.{encode}
use rust_fuse.Request.RoundTrip.Steps.{arg_step, name_step}
use rust_fuse.Request.RoundTrip.Reads.{Reads}

module _ (platform : Platform) (h : FuseInHeader) where
  pub lookup_read :
      (parent : ℕ) (name : List ℕ)
      → IsOperation platform.os_x (calls (Call.lookup parent name))
      → Reads platform h (calls (Call.lookup parent name))
  unfolding arm encode
  lookup_read parent name v =
      let it0 : ArgumentIterator =
        Argument.new (encode platform.os_x (calls (Call.lookup parent name))) in
      let s1 = name_step it0 name [] zero-le v refl in
      let it1 : ArgumentIterator = advance it0 (length name + 1) in (it1, rw (s1.0, run_arm, ◌>>=◌))

  pub mknod_read :
      (parent : ℕ) (name : List ℕ) (mode : ℕ) (rdev : ℕ)
      → IsOperation platform.os_x (calls (Call.mknod parent name mode rdev))
      → Reads platform h (calls (Call.mknod parent name mode rdev))
  unfolding arm encode
  mknod_read parent name mode rdev v =
      let it0 : ArgumentIterator =
        Argument.new (encode platform.os_x (calls (Call.mknod parent name mode rdev))) in
      let s1 =
        arg_step mknod_in_pod mknod_in_pod_laws it0 (record { mode = mode; rdev = rdev })
          (name ++ (0 ∷ [])) zero-le v.0 refl in
      let it1 : ArgumentIterator = advance it0 8 in
      let s2 = name_step it1 name [] s1.2 v.1 s1.1 in
      let it2 : ArgumentIterator = advance it1 (length name + 1) in
      (it2, rw (s1.0, s2.0, run_arm, ◌>>=◌))

  pub mkdir_read :
      (parent : ℕ) (name : List ℕ) (mode : ℕ)
      → IsOperation platform.os_x (calls (Call.mkdir parent name mode))
      → Reads platform h (calls (Call.mkdir parent name mode))
  unfolding arm encode
  mkdir_read parent name mode v =
      let it0 : ArgumentIterator =
        Argument.new (encode platform.os_x (calls (Call.mkdir parent name mode))) in
      let s1 =
        arg_step mkdir_in_pod mkdir_in_pod_laws it0 (record { mode = mode; padding = 0 })
          (name ++ (0 ∷ [])) zero-le v.0 refl in
      let it1 : ArgumentIterator = advance it0 8 in
      let s2 = name_step it1 name [] s1.2 v.1 s1.1 in
      let it2 : ArgumentIterator = advance it1 (length name + 1) in
      (it2, rw (s1.0, s2.0, run_arm, ◌>>=◌))

  pub unlink_read :
      (parent : ℕ) (name : List ℕ)
      → IsOperation platform.os_x (calls (Call.unlink parent name))
      → Reads platform h (calls (Call.unlink parent name))
  unfolding arm encode
  unlink_read parent name v =
      let it0 : ArgumentIterator =
        Argument.new (encode platform.os_x (calls (Call.unlink parent name))) in
      let s1 = name_step it0 name [] zero-le v refl in
      let it1 : ArgumentIterator = advance it0 (length name + 1) in (it1, rw (s1.0, run_arm, ◌>>=◌))

  pub rmdir_read :
      (parent : ℕ) (name : List ℕ)
      → IsOperation platform.os_x (calls (Call.rmdir parent name))
      → Reads platform h (calls (Call.rmdir parent name))
  unfolding arm encode
  rmdir_read parent name v =
      let it0 : ArgumentIterator =
        Argument.new (encode platform.os_x (calls (Call.rmdir parent name))) in
      let s1 = name_step it0 name [] zero-le v refl in
      let it1 : ArgumentIterator = advance it0 (length name + 1) in (it1, rw (s1.0, run_arm, ◌>>=◌))

  pub symlink_read :
      (parent : ℕ) (name : List ℕ) (target : List ℕ)
      → IsOperation platform.os_x (calls (Call.symlink parent name target))
      → Reads platform h (calls (Call.symlink parent name target))
  unfolding arm encode
  symlink_read parent name target v =
      let it0 : ArgumentIterator =
        Argument.new (encode platform.os_x (calls (Call.symlink parent name target))) in
      let s1 = name_step it0 name (target ++ (0 ∷ [])) zero-le v.0 refl in
      let it1 : ArgumentIterator = advance it0 (length name + 1) in
      let s2 = name_step it1 target [] s1.2 v.1 s1.1 in
      let it2 : ArgumentIterator = advance it1 (length target + 1) in
      (it2, rw (s1.0, s2.0, run_arm, ◌>>=◌))

  pub rename_read :
      (parent : ℕ) (name : List ℕ) (newparent : ℕ) (newname : List ℕ)
      → IsOperation platform.os_x (calls (Call.rename parent name newparent newname))
      → Reads platform h (calls (Call.rename parent name newparent newname))
  unfolding arm encode
  rename_read parent name newparent newname v =
      let it0 : ArgumentIterator =
        Argument.new (encode platform.os_x (calls (Call.rename parent name newparent newname))) in
      let s1 =
        arg_step rename_in_pod rename_in_pod_laws it0 (record { newdir = newparent })
          (name ++ (0 ∷ (newname ++ (0 ∷ [])))) zero-le v.0 refl in
      let it1 : ArgumentIterator = advance it0 8 in
      let s2 = name_step it1 name (newname ++ (0 ∷ [])) s1.2 v.1 s1.1 in
      let it2 : ArgumentIterator = advance it1 (length name + 1) in
      let s3 = name_step it2 newname [] s2.2 v.2 s2.1 in
      let it3 : ArgumentIterator = advance it2 (length newname + 1) in
      (it3, rw (s1.0, s2.0, s3.0, run_arm, ◌>>=◌))

  pub link_read :
      (ino : ℕ) (newparent : ℕ) (newname : List ℕ)
      → IsOperation platform.os_x (calls (Call.link ino newparent newname))
      → Reads platform h (calls (Call.link ino newparent newname))
  unfolding arm encode
  link_read ino newparent newname v =
      let it0 : ArgumentIterator =
        Argument.new (encode platform.os_x (calls (Call.link ino newparent newname))) in
      let s1 =
        arg_step link_in_pod link_in_pod_laws it0 (record { oldnodeid = ino }) (newname ++ (0 ∷ []))
          zero-le v.0 refl in
      let it1 : ArgumentIterator = advance it0 8 in
      let s2 = name_step it1 newname [] s1.2 v.1 s1.1 in
      let it2 : ArgumentIterator = advance it1 (length newname + 1) in
      (it2, rw (s1.0, s2.0, run_arm, ◌>>=◌))

  pub getattr_read :
      (ino : ℕ)
      → IsOperation platform.os_x (calls (Call.getattr ino))
      → Reads platform h (calls (Call.getattr ino))
  unfolding arm encode
  getattr_read ino v = (_, refl)

  pub readlink_read :
      (ino : ℕ)
      → IsOperation platform.os_x (calls (Call.readlink ino))
      → Reads platform h (calls (Call.readlink ino))
  unfolding arm encode
  readlink_read ino v = (_, refl)

  pub access_read :
      (ino : ℕ) (mask : ℕ)
      → IsOperation platform.os_x (calls (Call.access ino mask))
      → Reads platform h (calls (Call.access ino mask))
  unfolding arm encode
  access_read ino mask v =
      let it0 : ArgumentIterator =
        Argument.new (encode platform.os_x (calls (Call.access ino mask))) in
      let s1 =
        arg_step access_in_pod access_in_pod_laws it0 (record { mask = mask; padding = 0 }) []
          zero-le v (sym (append-nil _)) in
      let it1 : ArgumentIterator = advance it0 8 in (it1, rw (s1.0, run_arm, ◌>>=◌))

  pub removexattr_read :
      (ino : ℕ) (name : List ℕ)
      → IsOperation platform.os_x (calls (Call.removexattr ino name))
      → Reads platform h (calls (Call.removexattr ino name))
  unfolding arm encode
  removexattr_read ino name v =
      let it0 : ArgumentIterator =
        Argument.new (encode platform.os_x (calls (Call.removexattr ino name))) in
      let s1 = name_step it0 name [] zero-le v refl in
      let it1 : ArgumentIterator = advance it0 (length name + 1) in (it1, rw (s1.0, run_arm, ◌>>=◌))
