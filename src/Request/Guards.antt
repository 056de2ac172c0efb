-- ===== src/Request/Guards.antt =====
-- The guards of `Request::dispatch`, and what each of them answers.
use rust_fuse.Prelude.{
  ℕ, ◌≡◌, ◌≢◌, refl, [], ◌∷◌, true, false, none, some, not, if_cases, not-eq_false,
}
use rust_fuse.Abi.Opcode
use rust_fuse.Abi.Opcode.{FuseOpcode, from_u32}
use rust_fuse.Platform.{Platform}
use rust_fuse.Reply.Raw
use rust_fuse.Reply.Kinds.{RawKind}
use rust_fuse.Reply.Answer.{fails, answer, new_reply}
use rust_fuse.Reply.Message.{packet}
use rust_fuse.Reply.Once.{react-fails}
use rust_fuse.Filesystem.Trait.{Filesystem, Request}
use rust_fuse.Session.State.{Session}
use rust_fuse.Request.Decode.{Arm, initializes, destroys, operates, arm}
use rust_fuse.Request.Dispatch.{Effect, after, reply_empty, dispatch_arm, dispatch}

-- Only INIT has the arm of INIT, and only DESTROY that of DESTROY.
pub arm-initializes :
    (platform : Platform) (op : FuseOpcode) → arm platform op ≡ initializes → op ≡ Opcode.fuse_init
unfolding arm
arm-initializes platform Opcode.fuse_init h = refl
arm-initializes platform _ h = cc

pub arm-destroys :
    (platform : Platform) (op : FuseOpcode) → arm platform op ≡ destroys → op ≡ Opcode.fuse_destroy
unfolding arm
arm-destroys platform Opcode.fuse_destroy h = refl
arm-destroys platform _ h = cc

module _ (platform : Platform) {fs : Filesystem} (req : Request) (se : Session fs) where
  -- The request is answered with an error, and the session is as it was.
  abbrev pub refused : ℕ → Effect fs
  refused err = record {
    session = se;
    sent = packet (Raw.new req.header.unique req.ch) req.ch err [] ∷ [];
    deferred = [];
    failure = none;
  }

  pub reply_empty-fails :
      (err : ℕ) → after se (reply_empty platform req se (fails err)) ≡ refused err
  unfolding reply_empty answer new_reply
  reply_empty-fails err = rw (react-fails platform req.header.unique req.ch RawKind.empty err)

  -- An operation code that the library does not know is answered with ENOSYS in every state, and
  -- the session and the filesystem are as they were.
  dispatch_unknown :
      from_u32 platform.os_x req.header.opcode ≡ none
      → dispatch platform req se ≡ refused platform.enosys
  unfolding dispatch
  dispatch_unknown e = rw (e, dispatch, reply_empty-fails)

  dispatch_arm_before :
      (a : Arm)
      → a ≢ initializes
      → se.initialized ≡ false
      → dispatch_arm platform req se a ≡ refused platform.eio
  unfolding dispatch_arm
  dispatch_arm_before initializes i off = absurd (i refl)
  dispatch_arm_before destroys i off =
      if_cases {A = Effect fs} (λ e. e ≡ refused platform.eio) (not se.initialized)
        (λ _. reply_empty-fails platform.eio) (λ on. cc (not-eq_false se.initialized on))
  dispatch_arm_before (operates decode) i off =
      if_cases {A = Effect fs} (λ e. e ≡ refused platform.eio) (not se.initialized)
        (λ _. reply_empty-fails platform.eio) (λ on. cc (not-eq_false se.initialized on))

  dispatch_arm_after :
      (a : Arm)
      → a ≢ initializes
      → a ≢ destroys
      → se.destroyed ≡ true
      → dispatch_arm platform req se a ≡ refused platform.eio
  unfolding dispatch_arm
  dispatch_arm_after initializes i d off = absurd (i refl)
  dispatch_arm_after destroys i d off = absurd (d refl)
  dispatch_arm_after (operates decode) i d off =
      if_cases {A = Effect fs} (λ e. e ≡ refused platform.eio) (not se.initialized)
        (λ _. reply_empty-fails platform.eio)
        (λ _.
          if_cases {A = Effect fs} (λ e. e ≡ refused platform.eio) se.destroyed
            (λ _. reply_empty-fails platform.eio) (λ on. cc))

  -- In a session that is not initialized, every known operation but INIT is answered with EIO, and
  -- the session and the filesystem are as they were.
  pub dispatch_before_init :
      (op : FuseOpcode)
      → from_u32 platform.os_x req.header.opcode ≡ some op
      → op ≢ Opcode.fuse_init
      → se.initialized ≡ false
      → dispatch platform req se ≡ refused platform.eio
  unfolding dispatch
  dispatch_before_init op e i off =
      rw (e, dispatch)
        (dispatch_arm_before (arm platform op) (λ h. i (arm-initializes platform op h)) off)

  -- In a session that is destroyed, every known operation but INIT and DESTROY is answered with
  -- EIO, and the session and the filesystem are as they were.
  pub dispatch_after_destroy :
      (op : FuseOpcode)
      → from_u32 platform.os_x req.header.opcode ≡ some op
      → op ≢ Opcode.fuse_init
      → op ≢ Opcode.fuse_destroy
      → se.destroyed ≡ true
      → dispatch platform req se ≡ refused platform.eio
  unfolding dispatch
  dispatch_after_destroy op e i d off =
      rw (e, dispatch)
        (dispatch_arm_after (arm platform op) (λ h. i (arm-initializes platform op h))
          (λ h. d (arm-destroys platform op h)) off)
