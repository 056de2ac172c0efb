-- ===== src/Request/Decode/Changes.antt =====
-- The arm of SETATTR in `Request::dispatch` of src/request.rs.
use rust_fuse.Prelude.{ℕ, Bool, true, false, Option, none, some, bit_and, ◌==◌, if◌then◌else◌}
use rust_fuse.Wire.{fields}
use rust_fuse.Abi.Consts.{
  fattr_mode, fattr_uid, fattr_gid, fattr_size, fattr_atime, fattr_mtime, fattr_fh, fattr_crtime,
  fattr_chgtime, fattr_bkuptime, fattr_flags,
}
use rust_fuse.Abi.Control.{FuseInHeader, interrupt_in_pod, forget_in_pod, bmap_in_pod, lk_in_pod}
use rust_fuse.Abi.Names.{
  FuseSetattrIn, setattr_in_pod, mknod_in_pod, mkdir_in_pod, rename_in_pod, link_in_pod,
  setxattr_in_pod, getxattr_in_pod, access_in_pod,
}
use rust_fuse.Abi.OsxNames.{
  FuseSetattrInOsx, setattr_in_osx_pod, setxattr_in_osx_pod, getxattr_in_osx_pod, exchange_in_pod,
}
use rust_fuse.Abi.Files.{
  open_in_pod, read_in_pod, write_in_pod, flush_in_pod, release_in_pod, fsync_in_pod,
}
use rust_fuse.Argument.{done, fault, Fetch, ◌>>=◌, pure, fetch}
use rust_fuse.Platform.{Platform, Timespec}
use rust_fuse.Filesystem.Calls.{Call, SetAttr}
use rust_fuse.Request.Decode.Arms.{Operation, calls}

-- `match valid & mask { 0 => None, _ => Some(a) }`
unfoldable pub given {ℓ} : {A : Type ℓ} → ℕ → ℕ → A → Option A
given valid mask a = if bit_and valid mask == 0 then none else some a

-- `match valid & mask { 0 => None, _ => Some(Timespec::new(sec, nsec)) }`
unfoldable pub time_given : Platform → (valid mask sec nsec : ℕ) → Fetch (Option Timespec)
time_given platform valid mask sec nsec it =
    if bit_and valid mask == 0
    then done (none, it)
    else (elim (platform.timespec_new sec nsec) [ done t ↦ done (some t, it) | fault x ↦ fault x ])

-- Not on OS X.
unfoldable pub changes_of : Platform → FuseSetattrIn → Fetch SetAttr
unfolding given
changes_of platform arg = do
  atime ← time_given platform arg.valid fattr_atime arg.atime arg.atimensec
  mtime ← time_given platform arg.valid fattr_mtime arg.mtime arg.mtimensec
  pure (record {
    mode = given arg.valid fattr_mode arg.mode;
    uid = given arg.valid fattr_uid arg.uid;
    gid = given arg.valid fattr_gid arg.gid;
    size = given arg.valid fattr_size arg.size;
    atime = atime;
    mtime = mtime;
    fh = given arg.valid fattr_fh arg.fh;
    crtime = none;
    chgtime = none;
    bkuptime = none;
    flags = none;
  })

-- On OS X.
unfoldable pub changes_of_osx : Platform → FuseSetattrInOsx → Fetch SetAttr
unfolding given
changes_of_osx platform arg = do
  atime ← time_given platform arg.valid fattr_atime arg.atime arg.atimensec
  mtime ← time_given platform arg.valid fattr_mtime arg.mtime arg.mtimensec
  crtime ← time_given platform arg.valid fattr_crtime arg.crtime arg.crtimensec
  chgtime ← time_given platform arg.valid fattr_chgtime arg.chgtime arg.chgtimensec
  bkuptime ← time_given platform arg.valid fattr_bkuptime arg.bkuptime arg.bkuptimensec
  pure (record {
    mode = given arg.valid fattr_mode arg.mode;
    uid = given arg.valid fattr_uid arg.uid;
    gid = given arg.valid fattr_gid arg.gid;
    size = given arg.valid fattr_size arg.size;
    atime = atime;
    mtime = mtime;
    fh = given arg.valid fattr_fh arg.fh;
    crtime = crtime;
    chgtime = chgtime;
    bkuptime = bkuptime;
    flags = given arg.valid fattr_flags arg.flags;
  })

unfoldable pub setattr_arm : Platform → Bool → FuseInHeader → Fetch Operation
unfolding fields changes_of changes_of_osx
setattr_arm platform true h = do
  arg ← fetch {A = FuseSetattrInOsx}
  changes ← changes_of_osx platform arg
  pure (calls (Call.setattr h.nodeid changes))
setattr_arm platform false h = do
  arg ← fetch {A = FuseSetattrIn}
  changes ← changes_of platform arg
  pure (calls (Call.setattr h.nodeid changes))
