-- ===== src/Request/Dispatch.antt =====
-- `Request::dispatch` of src/request.rs.
use rust_fuse.Prelude.{
  ℕ, List, [], true, false, Option, none, some, bit_and, bit_or, ◌==◌, ltb, not, ◌&&◌, ◌||◌,
  if◌then◌else◌, Bool, ◌%◌, ◌^◌,
}
use rust_fuse.Wire.{fields}
use rust_fuse.Abi.Consts.{
  fuse_kernel_version, fuse_kernel_minor_version, fuse_async_read, fuse_export_support,
  fuse_big_writes, fuse_case_insensitive, fuse_vol_rename, fuse_xtimes,
}
use rust_fuse.Abi.Opcode.{from_u32}
use rust_fuse.Abi.Control.{FuseInitIn, init_in_pod}
use rust_fuse.Abi.Replies.{FuseInitOut, init_out_pod}
use rust_fuse.Argument
use rust_fuse.Argument.{Outcome, done, fault, Fault, fetch}
use rust_fuse.Platform.{Platform}
use rust_fuse.Reply.Raw
use rust_fuse.Reply.Raw.{Packet, ReplyRaw}
use rust_fuse.Reply.Kinds.{RawKind}
use rust_fuse.Reply.Directory
use rust_fuse.Reply.Answer.{
  raw, directory, Reaction, replies, fails, Answer, Pending, Resolution, sends, new_reply, answer,
}
use rust_fuse.Filesystem.Calls.{Call, kind_of}
use rust_fuse.Filesystem.Trait.{Filesystem, Request}
use rust_fuse.Session.State.{Session, max_write_size}
use rust_fuse.Request.Decode.{
  Operation, calls, reads_directory, forgets, unsupported, Arm, initializes, destroys, operates,
  arm,
}

-- With more on OS X.
abbrev pub init_flags : Bool → ℕ
init_flags false = bit_or (bit_or fuse_async_read fuse_export_support) fuse_big_writes
init_flags true =
    bit_or
      (bit_or
        (bit_or (bit_or (bit_or fuse_async_read fuse_export_support) fuse_big_writes)
          fuse_case_insensitive)
        fuse_vol_rename)
      fuse_xtimes

-- The test for ABI versions before 7.6.
abbrev pub is_too_old : FuseInitIn → Bool
is_too_old arg = ltb arg.major 7 || (arg.major == 7 && ltb arg.minor 6)

-- A dispatched request: the session, the packets that were sent and the reply objects that the
-- filesystem kept, and the fault by which the call ended, if any.
pub record Effect (fs : Filesystem) : Type 0 where
  pub session : Session fs
  pub sent : List Packet
  pub deferred : List Pending
  pub failure : Option Fault

module _ {fs : Filesystem} where
  abbrev pub after : Session fs → Outcome Resolution → Effect fs
  after se (done r) = record {
    session = se;
    sent = r.sent;
    deferred = r.deferred;
    failure = r.failure;
  }
  after se (fault x) = record { session = se; sent = []; deferred = []; failure = some x }

  -- `se.filesystem.method(self, ..., reply)`
  unfoldable pub call_with :
      (req : Request) (se : Session fs) (c : Call)
      → (Answer (kind_of c) → Outcome Resolution)
      → Effect fs
  call_with req se c use_reply =
      let (state, a) = fs.method req c se.filesystem in
      after (record se { filesystem = state }) (use_reply a)

module _ (platform : Platform) {fs : Filesystem} (req : Request) (se : Session fs) where
  -- `self.reply::<ReplyEmpty>()`, and `ok` or `error` on it.
  unfoldable pub reply_empty : Reaction (Unit {0}) → Outcome Resolution
  reply_empty reaction =
      answer platform (raw RawKind.empty)
        (new_reply platform (raw RawKind.empty) req.header.unique req.ch) reaction

  unfoldable pub perform : Operation → Effect fs
  perform (calls c) =
      call_with req se c
        (answer platform (kind_of c) (new_reply platform (kind_of c) req.header.unique req.ch))
  perform (reads_directory ino fh offset size) =
      let reply = Directory.new platform req.header.unique req.ch in
      call_with req se (Call.readdir ino fh offset)
        (answer platform directory (Directory.sized platform reply size))
  perform (forgets ino nlookup) =
      let (state, failure) = fs.forget req ino nlookup se.filesystem in
      after (record se { filesystem = state })
        (done (record { sent = []; deferred = []; failure = failure }))
  perform unsupported = after se (reply_empty (fails platform.enosys))

  abbrev pub init_reply : ReplyRaw
  init_reply = Raw.new req.header.unique req.ch

  abbrev pub init_out : FuseInitIn → FuseInitOut
  init_out arg = record {
    major = fuse_kernel_version;
    minor = fuse_kernel_minor_version;
    max_readahead = arg.max_readahead;
    flags = bit_and arg.flags (init_flags platform.os_x);
    unused = 0;
    max_write = max_write_size % 2 ^ 32;  -- as u32
  }

  -- A fault in the arm of INIT: the reply, which is made first, is dropped on the way out.
  abbrev pub unwinds : Session fs → Fault → Effect fs
  unwinds se' x = record (after se' (sends (Raw.drop_reply platform init_reply))) {
    failure = some x;
  }

  -- The arm of INIT behind the fetch.
  unfoldable pub initialize : FuseInitIn → Effect fs
  unfolding fields
  initialize arg =
      if is_too_old arg
      then after se (sends (Raw.error platform init_reply platform.eproto))
      else (let (state, res) = fs.init req se.filesystem in
          let se' : Session fs = record se {
            proto_major = arg.major;
            proto_minor = arg.minor;
            filesystem = state;
          } in
          elim res [
            | done (some err) ↦ after se' (sends (Raw.error platform init_reply err))
            | fault x ↦ unwinds se' x
            | done none ↦
                after (record se' { initialized = true })
                  (sends (Raw.ok platform init_reply (init_out arg)))
          ])

  -- The reply of INIT is made before the arguments are fetched.
  unfoldable pub dispatch_init : Effect fs
  dispatch_init = elim (fetch {A = FuseInitIn} (Argument.new req.payload)) [
    | done (arg, _) ↦ initialize arg
    | fault x ↦ unwinds se x
  ]

  -- The arm of DESTROY behind the call of `destroy`, with what that did.
  abbrev pub destroyed_with : fs.State × Option Fault → Effect fs
  destroyed_with (state, none) =
      after (record se { filesystem = state; destroyed = true }) (reply_empty (replies tt))
  destroyed_with (state, some x) = after (record se { filesystem = state }) (fault x)

  -- The arms behind INIT, in the order of the source.
  unfoldable pub dispatch_arm : Arm → Effect fs
  dispatch_arm initializes = dispatch_init
  dispatch_arm destroys =
      if not se.initialized
      then after se (reply_empty (fails platform.eio))
      else destroyed_with (fs.destroy req se.filesystem)
  dispatch_arm (operates decode) =
      if not se.initialized
      then after se (reply_empty (fails platform.eio))
      else if se.destroyed
      then after se (reply_empty (fails platform.eio))
      else (elim (decode req.header (Argument.new req.payload)) [
        | done (op, _) ↦ perform op
        | fault x ↦ after se (fault x)
      ])

  unfoldable pub dispatch : Effect fs
  dispatch = elim (from_u32 platform.os_x req.header.opcode) [
    | none ↦ after se (reply_empty (fails platform.enosys))
    | some opcode ↦ dispatch_arm (arm platform opcode)
  ]
