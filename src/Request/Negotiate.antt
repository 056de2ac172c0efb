-- ===== src/Request/Negotiate.antt =====
-- INIT: the answer to each outcome of the negotiation.
use rust_fuse.Prelude.{
  ℕ, ◌<◌, ◌⊎◌, false, ◌≡◌, refl, arith, List, [], ◌∷◌, ◌++◌, true, none, some, Bool-cases, inl, inr,
  Bool,
}
use Prim.Native.Nat.{zero-le, bit_and}
use rust_fuse.Wire.{fields}
use rust_fuse.Abi.Opcode
use rust_fuse.Abi.Opcode.{from_u32}
use rust_fuse.Abi.Control.{FuseInitIn, init_in_pod, in_header_pod}
use rust_fuse.Abi.Files.{write_in_pod}
use rust_fuse.Abi.Replies.{init_out_pod}
use rust_fuse.Abi.RoundTrip.Control.{IsFuseInitIn, init_in_pod_laws}
use rust_fuse.Argument
use rust_fuse.Argument.{done, fetch, fault, Fault}
use rust_fuse.Platform.{Platform}
use rust_fuse.Reply.Raw
use rust_fuse.Reply.Raw.{as_bytes}
use rust_fuse.Reply.Answer.{sends}
use rust_fuse.Reply.Once.{drop_reply_lem}
use rust_fuse.Reply.Message.{packet, consume_lem}
use rust_fuse.Filesystem.Trait.{Filesystem, Request}
use rust_fuse.Session.State.{Session}
use rust_fuse.Request.Decode.{arm}
use rust_fuse.Request.Dispatch.{
  Effect, after, dispatch, dispatch_arm, dispatch_init, initialize, is_too_old, init_reply,
  init_out,
}
use rust_fuse.Request.Lifecycle.{IsSupported, is_too_old-IsSupported, Outcome-cases}
use rust_fuse.Request.RoundTrip.Steps.{arg_step}

module _ (platform : Platform) {fs : Filesystem} (req : Request) (se : Session fs) where
  -- A session, and one packet.
  abbrev pub sent_one : Session fs → ℕ → List (List ℕ) → Effect fs
  sent_one se' err body = record {
    session = se';
    sent = packet (Raw.new req.header.unique req.ch) req.ch err body ∷ [];
    deferred = [];
    failure = none;
  }

  -- The session behind an INIT whose version is supported: the version, and what the filesystem
  -- made of its state; the channel and the other flag are as they were.
  abbrev pub session_with : FuseInitIn → (initialized : Bool) → Session fs
  session_with arg initialized = record {
    filesystem = (fs.init req se.filesystem).0;
    ch = se.ch;
    proto_major = arg.major;
    proto_minor = arg.minor;
    initialized = initialized;
    destroyed = se.destroyed;
  }

  -- The features that the library asks for: asynchronous reads, export and big writes, and on OS X
  -- also names without case, renamed volumes and extended times.
  abbrev pub wanted_flags : Bool → ℕ
  wanted_flags false = 0x31
  wanted_flags true = 0xe0000031

  -- The answer to INIT in the kernel's form, six words of 32 bits: version 7.8, the readahead that the
  -- kernel asked for, those of its flags that are wanted, a reserved word, and writes of 16 MiB.
  abbrev pub init_answer : FuseInitIn → List ℕ
  init_answer arg = fields (
      (4, 7)
      ∷ (4, 8)
      ∷ (4, arg.max_readahead)
      ∷ (4, bit_and arg.flags (wanted_flags platform.os_x))
      ∷ (4, 0)
      ∷ (4, 16777216)
      ∷ [])

  -- What may come of an INIT with these arguments.
  pub data Negotiates (arg : FuseInitIn) : Effect fs → Type 0 where
    too_old :
        (arg.major < 7) ⊎ ((arg.major ≡ 7) × (arg.minor < 6))
        → Negotiates arg (sent_one se platform.eproto [])
    refused :
        (err : ℕ)
        → IsSupported arg.major arg.minor
        → (fs.init req se.filesystem).1 ≡ done (some err)
        → Negotiates arg (sent_one (session_with arg se.initialized) err [])
    broken :
        (x : Fault)
        → IsSupported arg.major arg.minor
        → (fs.init req se.filesystem).1 ≡ fault x
        → Negotiates arg (record (sent_one (session_with arg se.initialized) platform.eio []) {
          failure = some x;
        })
    started :
        IsSupported arg.major arg.minor
        → (fs.init req se.filesystem).1 ≡ done none
        → Negotiates arg (sent_one (session_with arg true) 0 (init_answer arg ∷ []))

  one_sent :
      (se' : Session fs) (err : ℕ) (body : List (List ℕ))
      → after se' (sends (Raw.consume platform (init_reply platform req se) err body))
        ≡ sent_one se' err body
  one_sent se' err body =
      rw (consume_lem platform (init_reply platform req se) req.ch err body refl)

  init_answer_lem :
      (os_x : Bool) (arg : FuseInitIn)
      → os_x ≡ platform.os_x
      → init_out_pod.to_bytes (init_out platform req se arg) ≡ init_answer arg
  unfolding fields
  init_answer_lem false arg e = rw (← e) refl
  init_answer_lem true arg e = rw (← e) refl

  too_old_lem :
      (arg : FuseInitIn)
      → is_too_old arg ≡ true
      → (arg.major < 7) ⊎ ((arg.major ≡ 7) × (arg.minor < 6))
  too_old_lem arg h = ground arith

  initialize-Negotiates : (arg : FuseInitIn) → Negotiates arg (initialize platform req se arg)
  unfolding initialize as_bytes
  initialize-Negotiates arg = elim (Bool-cases (is_too_old arg)) [
    | inl old ↦ rw (old, one_sent se platform.eproto []) (too_old (too_old_lem arg old))
    | inr new ↦
        let ok = is_too_old-IsSupported arg new in
        elim (Outcome-cases (fs.init req se.filesystem).1) [
          | inl (none, e) ↦
              rw (new, e)
                (rw (one_sent _ 0 _, init_answer_lem platform.os_x arg refl) (started ok e))
          | inl (some err, e) ↦ rw (new, e) (rw (one_sent _ err []) (refused err ok e))
          | inr (x, e) ↦
              rw (new, e, drop_reply_lem platform req.header.unique req.ch) (broken x ok e)
        ]
  ]

  -- An INIT whose arguments fit their fields is read back from its bytes, and in every state of
  -- the session one of four things comes of it, each with one packet with its id. A version before
  -- 7.6 is answered with EPROTO, and the session is as it was. For all others the version and the
  -- state that `init` left are kept: if `init` refuses, the packet has its error, and if it ends
  -- in a fault, the packet has EIO and the dispatch fails; if it succeeds, the session is
  -- initialized and the packet has version 7.8, the readahead that was asked for, those of the
  -- flags that the library wants, and 16 MiB as the size of a write.
  pub dispatch-Negotiates :
      (arg : FuseInitIn) (rest : List ℕ)
      → from_u32 platform.os_x req.header.opcode ≡ some Opcode.fuse_init
      → IsFuseInitIn arg
      → req.payload ≡ init_in_pod.to_bytes arg ++ rest
      → Negotiates arg (dispatch platform req se)
  unfolding dispatch dispatch_arm arm dispatch_init
  dispatch-Negotiates arg rest op v e =
      let s1 =
        arg_step init_in_pod init_in_pod_laws (Argument.new req.payload) arg rest zero-le v e in
      rw (op, dispatch) (rw (s1.0, dispatch_init) (initialize-Negotiates arg))
