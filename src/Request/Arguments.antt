-- ===== src/Request/Arguments.antt =====
-- The kernel's side: the structures that carry the arguments of a request.
use rust_fuse.Prelude.{ℕ, ◌+◌, ◌*◌, List, [], ◌∷◌, Bool, true, false, Option, none, some, ◌^◌}
use rust_fuse.Wire.{fields}
use rust_fuse.Abi.Control.{FuseLkIn, lk_in_pod, bmap_in_pod, forget_in_pod, interrupt_in_pod}
use rust_fuse.Abi.Names.{
  FuseSetattrIn, setattr_in_pod, mknod_in_pod, mkdir_in_pod, rename_in_pod, link_in_pod,
  setxattr_in_pod, getxattr_in_pod, access_in_pod,
}
use rust_fuse.Abi.OsxNames.{
  FuseSetattrInOsx, setattr_in_osx_pod, setxattr_in_osx_pod, getxattr_in_osx_pod, exchange_in_pod,
}
use rust_fuse.Abi.Files.{
  open_in_pod, read_in_pod, write_in_pod, flush_in_pod, release_in_pod, fsync_in_pod,
}
use rust_fuse.Platform.{Timespec}
use rust_fuse.Filesystem.Calls.{SetAttr, LockArgs}

abbrev pub bit_of : Bool → ℕ
bit_of true = 1
bit_of false = 0

abbrev pub lk_arg : LockArgs → FuseLkIn
lk_arg a = record {
  fh = a.fh;
  owner = a.lock_owner;
  lk = record { start = a.start; end = a.end; typ = a.typ; pid = a.pid };
}

abbrev pub is_given {ℓ} : {A : Type ℓ} → Option A → Bool
is_given none = false
is_given (some _) = true

abbrev pub value_of : Option ℕ → ℕ
value_of none = 0
value_of (some v) = v

abbrev pub sec_of : Option Timespec → ℕ
sec_of none = 0
sec_of (some t) = t.sec

abbrev pub nsec_of : Option Timespec → ℕ
nsec_of none = 0
nsec_of (some t) = t.nsec

-- The bits of `valid`, lowest first.
unfoldable pub bits : List Bool → ℕ
bits [] = 0
bits (b ∷ bs) = bit_of b + 2 * bits bs

abbrev pub setattr_arg : SetAttr → FuseSetattrIn
setattr_arg s = record {
  valid = bits (
      is_given s.mode
      ∷ is_given s.uid
      ∷ is_given s.gid
      ∷ is_given s.size
      ∷ is_given s.atime
      ∷ is_given s.mtime
      ∷ is_given s.fh
      ∷ []);
  padding = 0;
  fh = value_of s.fh;
  size = value_of s.size;
  unused1 = 0;
  atime = sec_of s.atime;
  mtime = sec_of s.mtime;
  unused2 = 0;
  atimensec = nsec_of s.atime;
  mtimensec = nsec_of s.mtime;
  unused3 = 0;
  mode = value_of s.mode;
  unused4 = 0;
  uid = value_of s.uid;
  gid = value_of s.gid;
  unused5 = 0;
}

-- The same on OS X, with four more arguments.
abbrev pub setattr_arg_osx : SetAttr → FuseSetattrInOsx
setattr_arg_osx s = record {
  valid =
      bits (
        is_given s.mode
        ∷ is_given s.uid
        ∷ is_given s.gid
        ∷ is_given s.size
        ∷ is_given s.atime
        ∷ is_given s.mtime
        ∷ is_given s.fh
        ∷ [])
      + 2 ^ 28
        * bits
            (is_given s.crtime ∷ is_given s.chgtime ∷ is_given s.bkuptime ∷ is_given s.flags ∷ []);
  padding = 0;
  fh = value_of s.fh;
  size = value_of s.size;
  unused1 = 0;
  atime = sec_of s.atime;
  mtime = sec_of s.mtime;
  unused2 = 0;
  atimensec = nsec_of s.atime;
  mtimensec = nsec_of s.mtime;
  unused3 = 0;
  mode = value_of s.mode;
  unused4 = 0;
  uid = value_of s.uid;
  gid = value_of s.gid;
  unused5 = 0;
  bkuptime = sec_of s.bkuptime;
  chgtime = sec_of s.chgtime;
  crtime = sec_of s.crtime;
  bkuptimensec = nsec_of s.bkuptime;
  chgtimensec = nsec_of s.chgtime;
  crtimensec = nsec_of s.crtime;
  flags = value_of s.flags;
}

-- The structures that are longer on OS X.
unfoldable pub setattr_bytes : Bool → SetAttr → List ℕ
unfolding fields
setattr_bytes true changes = setattr_in_osx_pod.to_bytes (setattr_arg_osx changes)
setattr_bytes false changes = setattr_in_pod.to_bytes (setattr_arg changes)

unfoldable pub setxattr_bytes : Bool → (size flags position : ℕ) → List ℕ
unfolding fields
setxattr_bytes true size flags position =
    setxattr_in_osx_pod.to_bytes
      (record { size = size; flags = flags; position = position; padding = 0 })
setxattr_bytes false size flags position =
    setxattr_in_pod.to_bytes (record { size = size; flags = flags })

unfoldable pub getxattr_bytes : Bool → List ℕ
unfolding fields
getxattr_bytes true =
    getxattr_in_osx_pod.to_bytes (record { size = 0; padding = 0; position = 0; padding2 = 0 })
getxattr_bytes false = getxattr_in_pod.to_bytes (record { size = 0; padding = 0 })
