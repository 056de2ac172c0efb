-- ===== src/Request/Decode/Locks.antt =====
-- The arms of ACCESS, CREATE, GETLK, SETLK, SETLKW and BMAP in `Request::dispatch` of src/request.rs,
-- and those that only OS X has.
use rust_fuse.Prelude.{Bool}
use rust_fuse.Abi.Control.{FuseInHeader, FuseBmapIn, FuseLkIn, bmap_in_pod, lk_in_pod}
use rust_fuse.Abi.Names.{FuseAccessIn, access_in_pod}
use rust_fuse.Abi.OsxNames.{FuseExchangeIn, exchange_in_pod}
use rust_fuse.Abi.Files.{FuseOpenIn, open_in_pod}
use rust_fuse.Argument.{Fetch, ◌>>=◌, pure, fetch, fetch_str, fetch_path}
use rust_fuse.Filesystem.Calls.{Call, LockArgs}
use rust_fuse.Request.Decode.Arms.{Operation, calls}

abbrev pub access_arm : FuseInHeader → Fetch Operation
access_arm h = do arg ← fetch {A = FuseAccessIn}; pure (calls (Call.access h.nodeid arg.mask))

abbrev pub create_arm : FuseInHeader → Fetch Operation
create_arm h = do
  arg ← fetch {A = FuseOpenIn}
  name ← fetch_path
  pure (calls (Call.create h.nodeid name arg.mode arg.flags))

abbrev pub lock_args : FuseLkIn → LockArgs
lock_args arg = record {
  fh = arg.fh;
  lock_owner = arg.owner;
  start = arg.lk.start;
  end = arg.lk.end;
  typ = arg.lk.typ;
  pid = arg.lk.pid;
}

abbrev pub getlk_arm : FuseInHeader → Fetch Operation
getlk_arm h = do arg ← fetch {A = FuseLkIn}; pure (calls (Call.getlk h.nodeid (lock_args arg)))

-- The arm of SETLK and SETLKW, which is to sleep for the second.
abbrev pub setlk_arm : Bool → FuseInHeader → Fetch Operation
setlk_arm sleep h = do
  arg ← fetch {A = FuseLkIn}
  pure (calls (Call.setlk h.nodeid (lock_args arg) sleep))

abbrev pub bmap_arm : FuseInHeader → Fetch Operation
bmap_arm h = do
  arg ← fetch {A = FuseBmapIn}
  pure (calls (Call.bmap h.nodeid arg.blocksize arg.block))

abbrev pub setvolname_arm : FuseInHeader → Fetch Operation
setvolname_arm h = do name ← fetch_str; pure (calls (Call.setvolname name))

abbrev pub exchange_arm : FuseInHeader → Fetch Operation
exchange_arm h = do
  arg ← fetch {A = FuseExchangeIn}
  oldname ← fetch_path
  newname ← fetch_path
  pure (calls (Call.exchange arg.olddir oldname arg.newdir newname arg.options))

abbrev pub getxtimes_arm : FuseInHeader → Fetch Operation
getxtimes_arm h = pure (calls (Call.getxtimes h.nodeid))
