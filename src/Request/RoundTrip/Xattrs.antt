-- ===== src/Request/RoundTrip/Xattrs.antt =====
-- The operations on extended attributes, whose structures are longer on OS X.
use rust_fuse.Prelude.{
  ℕ, ◌+◌, ◌≡◌, refl, sym, arith, List, [], ◌∷◌, ◌++◌, Bool, true, false, length, append-nil, ==_iff,
}
use Prim.Native.Nat.{zero-le}
use rust_fuse.Abi.Control.{FuseInHeader}
use rust_fuse.Abi.Names.{setxattr_in_pod, getxattr_in_pod}
use rust_fuse.Abi.OsxNames.{setxattr_in_osx_pod, getxattr_in_osx_pod}
use rust_fuse.Abi.RoundTrip.Names.{setxattr_in_pod_laws, getxattr_in_pod_laws}
use rust_fuse.Abi.RoundTrip.OsxNames.{setxattr_in_osx_pod_laws, getxattr_in_osx_pod_laws}
use rust_fuse.Request.Decode.{calls, arm, setxattr_arm, fetch_getxattr_in}
use rust_fuse.Request.Encode.{encode}
use rust_fuse.Request.Arguments.{setxattr_bytes, getxattr_bytes}
use rust_fuse.Argument
use rust_fuse.Argument.{
  ArgumentIterator, done, advance, remaining, fetch, fetch_str, fetch_data, ◌>>=◌,
}
use rust_fuse.Argument.Laws.{IsWithin, IsName}
use rust_fuse.Platform.{Platform}
use rust_fuse.Request.Forget.{run_arm}
use rust_fuse.Filesystem.Calls.{Call}
use rust_fuse.Request.Encode.Valid.{IsOperation}
use rust_fuse.Request.RoundTrip.Steps.{arg_step, name_step, data_step}
use rust_fuse.Request.RoundTrip.Reads.{Reads}

-- The arguments of GETXATTR and LISTXATTR are passed over.
getxattr_step :
    (os_x : Bool) (it : ArgumentIterator) (rest : List ℕ)
    → IsWithin it
    → remaining it ≡ getxattr_bytes os_x ++ rest
    → (it' : ArgumentIterator) × (fetch_getxattr_in os_x it ≡ done (tt, it'))
      × (remaining it' ≡ rest)
      × IsWithin it'
unfolding fetch_getxattr_in getxattr_bytes
getxattr_step true it rest w e =
    let s1 =
      arg_step getxattr_in_osx_pod getxattr_in_osx_pod_laws it
        (record { size = 0; padding = 0; position = 0; padding2 = 0 }) rest w
        (omega arith, omega arith, omega arith, omega arith) e in
    (advance it 16, rw (s1.0, ◌>>=◌), s1.1, s1.2)
getxattr_step false it rest w e =
    let s1 =
      arg_step getxattr_in_pod getxattr_in_pod_laws it (record { size = 0; padding = 0 }) rest w
        (omega arith, omega arith) e in
    (advance it 8, rw (s1.0, ◌>>=◌), s1.1, s1.2)

-- The name and the value of SETXATTR, behind its arguments.
setxattr_tail :
    (it : ArgumentIterator) (name value : List ℕ)
    → IsWithin it
    → IsName name
    → remaining it ≡ name ++ (0 ∷ value)
    → (it' : ArgumentIterator) × (fetch_str it ≡ done (name, it'))
      × (fetch_data it' ≡ done (value, record it' { pos = length it'.bytes }))
setxattr_tail it name value w n e =
    let s2 = name_step it name value w n e in
    (advance it (length name + 1), s2.0, data_step (advance it (length name + 1)) value s2.2 s2.1)

setxattr_arm_read :
    (os_x : Bool) (h : FuseInHeader) (ino : ℕ) (name value : List ℕ) (flags position : ℕ)
    → IsOperation os_x (calls (Call.setxattr ino name value flags position))
    → (it : ArgumentIterator) × (setxattr_arm os_x h
          (Argument.new (encode os_x (calls (Call.setxattr ino name value flags position))))
        ≡ done (calls (Call.setxattr h.nodeid name value flags position), it))
unfolding setxattr_arm encode setxattr_bytes
setxattr_arm_read true h ino name value flags position v =
    let it0 : ArgumentIterator =
      Argument.new (encode true (calls (Call.setxattr ino name value flags position))) in
    let s1 =
      arg_step setxattr_in_osx_pod setxattr_in_osx_pod_laws it0
        (record { size = length value; flags = flags; position = position; padding = 0 })
        (name ++ (0 ∷ value)) zero-le v.0 refl in
    let (it2, s2, s3) = setxattr_tail (advance it0 16) name value s1.2 v.1 s1.1 in
    (
      record it2 { pos = length it2.bytes },
      rw (s1.0, s2, s3, (==_iff (length value) (length value)).1 refl, ◌>>=◌),
    )
setxattr_arm_read false h ino name value flags position v =
    let it0 : ArgumentIterator =
      Argument.new (encode false (calls (Call.setxattr ino name value flags position))) in
    let s1 =
      arg_step setxattr_in_pod setxattr_in_pod_laws it0
        (record { size = length value; flags = flags }) (name ++ (0 ∷ value)) zero-le v.0 refl in
    let (it2, s2, s3) = setxattr_tail (advance it0 8) name value s1.2 v.1 s1.1 in
    (
      record it2 { pos = length it2.bytes },
      rw (s1.0, s2, s3, (==_iff (length value) (length value)).1 refl, ◌>>=◌, v.2),
    )

module _ (platform : Platform) (h : FuseInHeader) where
  pub setxattr_read :
      (ino : ℕ) (name : List ℕ) (value : List ℕ) (flags : ℕ) (position : ℕ)
      → IsOperation platform.os_x (calls (Call.setxattr ino name value flags position))
      → Reads platform h (calls (Call.setxattr ino name value flags position))
  unfolding arm
  setxattr_read ino name value flags position v =
      setxattr_arm_read platform.os_x (record h { nodeid = ino }) ino name value flags position v

  pub getxattr_read :
      (ino : ℕ) (name : List ℕ)
      → IsOperation platform.os_x (calls (Call.getxattr ino name))
      → Reads platform h (calls (Call.getxattr ino name))
  unfolding arm encode
  getxattr_read ino name v =
      let it0 : ArgumentIterator =
        Argument.new (encode platform.os_x (calls (Call.getxattr ino name))) in
      let (it1, s1, left, within) =
        getxattr_step platform.os_x it0 (name ++ (0 ∷ [])) zero-le refl in
      let s2 = name_step it1 name [] within v left in
      (advance it1 (length name + 1), rw (s1, s2.0, run_arm, ◌>>=◌))

  pub listxattr_read :
      (ino : ℕ)
      → IsOperation platform.os_x (calls (Call.listxattr ino))
      → Reads platform h (calls (Call.listxattr ino))
  unfolding arm encode
  listxattr_read ino v =
      let it0 : ArgumentIterator =
        Argument.new (encode platform.os_x (calls (Call.listxattr ino))) in
      let (it1, s1, _, _) = getxattr_step platform.os_x it0 [] zero-le (sym (append-nil _)) in
      (it1, rw (s1, run_arm, ◌>>=◌))
