-- ===== src/Request/Once.antt =====
-- Every request gets exactly one reply, now or later, but FORGET, which gets none.
use rust_fuse.Prelude.{
  ◌⊎◌, ℕ, ◌≡◌, ◌≢◌, refl, List, [], ◌∷◌, true, false, none, some, not, if_cases, not-eq_false, inl,
  inr, Option-cases, Option, ap, ◌∙◌,
}
use rust_fuse.Abi.Opcode
use rust_fuse.Abi.Opcode.{FuseOpcode, from_u32}
use rust_fuse.Abi.Control.{FuseInitIn, init_in_pod}
use rust_fuse.Argument
use rust_fuse.Argument.{Outcome, done, fault, Fault, fetch, panic}
use rust_fuse.Platform.{Platform}
use rust_fuse.Reply.Raw
use rust_fuse.Reply.Directory
use rust_fuse.Reply.Kinds.{RawKind}
use rust_fuse.Reply.Answer.{
  Resolution, ReplyKind, directory, raw, pending, ReplyObject, answer, Answer, Reaction, new_reply,
  sends,
}
use rust_fuse.Reply.Message.{packet, consume_lem}
use rust_fuse.Reply.Once.{
  IsUnsent, Settles, now, later, MayPanic, answer-Settles, new_reply-IsUnsent, drop_reply_lem,
}
use rust_fuse.Filesystem.Trait.{Filesystem, Request}
use rust_fuse.Filesystem.Calls.{kind_of}
use rust_fuse.Session.State.{Session}
use rust_fuse.Request.Decode.{
  Arm, Operation, initializes, destroys, operates, arm, forgets, calls, reads_directory,
  unsupported,
}
use rust_fuse.Request.Dispatch.{
  Effect, after, reply_empty, dispatch_arm, dispatch, perform, call_with, initialize, dispatch_init,
  is_too_old, init_reply, unwinds, destroyed_with,
}
use rust_fuse.Request.Lifecycle.{Outcome-cases}
use rust_fuse.Request.Guards.{arm-destroys, arm-initializes}
use rust_fuse.Request.Forget.{arm-forgets}

-- How a request is answered: by one packet with its id, even if the filesystem panics; by a packet
-- with its id and EIO, if INIT fails while it holds the reply object; later, by a reply object that is
-- still unsent, even if the filesystem panics; not at all,
-- if it is a FORGET that the filesystem got; or the call ends in a fault and makes no reply object.
pub data Answers (platform : Platform) {fs : Filesystem} (req : Request) (se : Session fs)
    (e : Effect fs) : Type 0 where
  replied :
      (err : ℕ) (body : List (List ℕ))
      → e.sent ≡ packet (Raw.new req.header.unique req.ch) req.ch err body ∷ []
      → e.deferred ≡ []
      → MayPanic e.failure
      → Answers platform req se e
  unwound :
      (x : Fault)
      → from_u32 platform.os_x req.header.opcode ≡ some Opcode.fuse_init
      → e.sent ≡ packet (Raw.new req.header.unique req.ch) req.ch platform.eio [] ∷ []
      → e.deferred ≡ []
      → e.failure ≡ some x
      → Answers platform req se e
  kept :
      (kind : ReplyKind) (r : ReplyObject kind)
      → IsUnsent req.header.unique req.ch kind r
      → e.sent ≡ []
      → e.deferred ≡ pending kind r ∷ []
      → MayPanic e.failure
      → Answers platform req se e
  silent :
      from_u32 platform.os_x req.header.opcode ≡ some Opcode.fuse_forget
      → se.initialized ≡ true
      → se.destroyed ≡ false
      → e.sent ≡ []
      → e.deferred ≡ []
      → e.failure ≡ none
      → Answers platform req se e
  broken :
      (x : Fault)
      → e.sent ≡ []
      → e.deferred ≡ []
      → e.failure ≡ some x
      → from_u32 platform.os_x req.header.opcode ≢ some Opcode.fuse_init
      → se.initialized ≡ true
      → (se.destroyed ≡ false)
        ⊎ (from_u32 platform.os_x req.header.opcode ≡ some Opcode.fuse_destroy)
      → Answers platform req se e

module _ (platform : Platform) {fs : Filesystem} (req : Request) (se : Session fs) where
  settled :
      (se' : Session fs) (o : Outcome Resolution)
      → Settles platform req.header.unique req.ch o
      → Answers platform req se (after se' o)
  settled se' _ (now err body _ ok) = replied err body refl refl ok
  settled se' _ (later kind r _ u ok) = kept kind r u refl refl ok

  answered :
      (se' : Session fs) (kind : ReplyKind) (a : Answer kind)
      → Answers platform req se
          (after se' (answer platform kind (new_reply platform kind req.header.unique req.ch) a))
  answered se' kind a =
      settled se' _ (
        answer-Settles platform kind _ a
          (new_reply-IsUnsent platform kind req.header.unique req.ch))

  empty_answered :
      (se' : Session fs) (a : Reaction (Unit {0}))
      → Answers platform req se (after se' (reply_empty platform req se a))
  unfolding reply_empty
  empty_answered se' a = answered se' (raw RawKind.empty) a

  perform_answered :
      (op : Operation)
      → ((ino nlookup : ℕ)
          → op ≡ forgets ino nlookup
          → (from_u32 platform.os_x req.header.opcode ≡ some Opcode.fuse_forget)
            × (se.initialized ≡ true)
            × (se.destroyed ≡ false))
      → Answers platform req se (perform platform req se op)
  unfolding perform call_with
  perform_answered (calls c) h = answered _ (kind_of c) (fs.method req c se.filesystem).1
  perform_answered (reads_directory ino fh offset size) h =
      settled _ _ (answer-Settles platform directory _ _ (sized_unsent size))
    where
      sized_unsent :
          (size : ℕ)
          → IsUnsent req.header.unique req.ch directory
              (Directory.sized platform (Directory.new platform req.header.unique req.ch) size)
      sized_unsent size = unfold Directory.sized Directory.new in refl
  perform_answered (forgets ino nlookup) h =
      let (op, on, off) = h ino nlookup refl in
      elim (Option-cases (fs.forget req ino nlookup se.filesystem).1) [
        | inl ok ↦ silent op on off refl refl ok
        | inr (x, failed) ↦ broken x refl refl failed (λ q. cc op) on (inl off)
      ]
  perform_answered unsupported h = empty_answered se _

  consumed :
      (se' : Session fs) (err : ℕ) (body : List (List ℕ))
      → Answers platform req se
          (after se' (sends (Raw.consume platform (init_reply platform req se) err body)))
  consumed se' err body =
      rw (consume_lem platform (init_reply platform req se) req.ch err body refl)
        (settled se' _ (now err body none (inl refl)))

  unwinds_answered :
      (se' : Session fs) (x : Fault)
      → from_u32 platform.os_x req.header.opcode ≡ some Opcode.fuse_init
      → Answers platform req se (unwinds platform req se se' x)
  unwinds_answered se' x i =
      rw (drop_reply_lem platform req.header.unique req.ch) (unwound x i refl refl refl)

  initialize_answered :
      (arg : FuseInitIn)
      → from_u32 platform.os_x req.header.opcode ≡ some Opcode.fuse_init
      → Answers platform req se (initialize platform req se arg)
  unfolding initialize
  initialize_answered arg i =
      if_cases {A = Effect fs} (Answers platform req se) (is_too_old arg)
        (λ _. consumed se platform.eproto [])
        (λ _. elim (Outcome-cases (fs.init req se.filesystem).1) [
          | inl (none, ok) ↦ rw ok (consumed _ 0 _)
          | inl (some err, e) ↦ rw e (consumed _ err [])
          | inr (x, e) ↦ rw e (unwinds_answered _ x i)
        ])

  dispatch_init_answered :
      from_u32 platform.os_x req.header.opcode ≡ some Opcode.fuse_init
      → Answers platform req se (dispatch_init platform req se)
  unfolding dispatch_init
  dispatch_init_answered i =
      elim (Outcome-cases (fetch {A = FuseInitIn} (Argument.new req.payload))) [
        | inl ((arg, it), e) ↦ rw (e, dispatch_init) (initialize_answered arg i)
        | inr (x, e) ↦ rw (e, dispatch_init) (unwinds_answered se x i)
      ]

  arm_init : arm platform Opcode.fuse_init ≡ initializes
  unfolding arm
  arm_init = refl

  destroyed_answered :
      from_u32 platform.os_x req.header.opcode ≡ some Opcode.fuse_destroy
      → se.initialized ≡ true
      → (r : fs.State × Option Fault) → Answers platform req se (destroyed_with platform req se r)
  destroyed_answered op on (state, none) = empty_answered _ _
  destroyed_answered op on (state, some x) = broken x refl refl refl (λ q. cc op) on (inr op)

  dispatch_arm_answered :
      (op : FuseOpcode)
      → from_u32 platform.os_x req.header.opcode ≡ some op
      → (a : Arm) → arm platform op ≡ a
      → Answers platform req se (dispatch_arm platform req se a)
  unfolding dispatch_arm
  dispatch_arm_answered op e initializes i =
      dispatch_init_answered (e ∙ ap (λ (p : FuseOpcode). some p) (arm-initializes platform op i))
  dispatch_arm_answered op e destroys i =
      if_cases {A = Effect fs} (Answers platform req se) (not se.initialized)
        (λ _. empty_answered se _)
        (λ on.
          destroyed_answered (e ∙ ap (λ (p : FuseOpcode). some p) (arm-destroys platform op i))
            (not-eq_false se.initialized on) (fs.destroy req se.filesystem))
  dispatch_arm_answered op e (operates decode) i =
      if_cases {A = Effect fs} (Answers platform req se) (not se.initialized)
        (λ _. empty_answered se _)
        (λ on.
          if_cases {A = Effect fs} (Answers platform req se) se.destroyed (λ _. empty_answered se _)
            (λ off. elim (Outcome-cases (decode req.header (Argument.new req.payload))) [
              | inl ((o, it), d) ↦ rw d (
                  perform_answered o (λ ino n q. (
                    e
                        ∙ ap (λ (p : FuseOpcode). some p)
                            (arm-forgets platform op req.header (Argument.new req.payload)
                              {ino = ino} {nlookup = n} {it' = it}
                              (rw i (d ∙ ap (λ (p : Operation). done (p, it)) q))),
                    not-eq_false se.initialized on,
                    off,
                  )))
              | inr (x, d) ↦ rw d (
                  broken x refl refl refl (λ q. cc arm_init) (not-eq_false se.initialized on)
                    (inl off))
            ]))

  -- Whatever the request, the state of the session and the filesystem, a dispatch does one of five
  -- things. It sends exactly one packet, the reply with the id of the request, and fails with a
  -- panic of the filesystem or not at all. Or the request is an INIT that fails, and it sends
  -- exactly one packet, which has the id of the request and EIO: the reply object was dropped. Or
  -- it sends nothing, the filesystem keeps one reply object, which is unsent and has the id of the
  -- request, and it fails with a panic or not at all. Or it makes no reply, and the request is a
  -- FORGET in a session that is initialized and not destroyed. Or it ends in a fault and makes no
  -- reply, the request is no INIT, the session is initialized, and it is not destroyed or the
  -- request is a DESTROY.
  pub dispatch-Answers : Answers platform req se (dispatch platform req se)
  unfolding dispatch
  dispatch-Answers = elim (Option-cases (from_u32 platform.os_x req.header.opcode)) [
    | inl e ↦ rw (e, dispatch) (empty_answered se _)
    | inr (op, e) ↦ rw (e, dispatch) (dispatch_arm_answered op e (arm platform op) refl)
  ]
