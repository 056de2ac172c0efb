-- ===== src/Session/Run.antt =====
-- `Session::run` of src/session.rs. What the channel delivers is a list of results of `receive`: a
-- buffer, or the error of the system call.
use rust_fuse.Prelude.{
  ℕ, List, [], ◌∷◌, ◌++◌, Bool, Option, false, none, some, ◌==◌, ◌||◌, if◌then◌else◌,
}
use rust_fuse.Argument.{Outcome, done, fault, Fault, panic}
use rust_fuse.Platform.{Platform}
use rust_fuse.Filesystem.Trait.{Filesystem, Request}
use rust_fuse.Reply.Raw.{ChannelSender, Packet}
use rust_fuse.Reply.Answer.{Pending}
use rust_fuse.Request.Parse
use rust_fuse.Request.Dispatch.{dispatch, Effect}
use rust_fuse.Channel.{Channel}
use rust_fuse.Session.State.{Session}

pub data Received : Type 0 where
  buffer : List ℕ → Received
  os_error : ℕ → Received

-- How a run ends: it waits for the next request, the loop was left, or the thread panicked.
pub data End : Type 0 where
  waits leaves : End
  crashes : Fault → End

-- `Session::new`, for a channel that was mounted.
abbrev pub new : (fs : Filesystem) → fs.State → Channel → Session fs
new fs state ch = record {
  filesystem = state;
  ch = ch;
  proto_major = 0;
  proto_minor = 0;
  initialized = false;
  destroyed = false;
}

-- `Channel::sender`.
abbrev pub sender : Channel → ChannelSender
sender ch = record { fd = ch.fd }

pub record Trace (fs : Filesystem) : Type 0 where
  pub session : Session fs
  pub sent : List Packet
  pub deferred : List Pending
  pub end : End

-- The errors after which the loop goes on.
abbrev pub is_retried : Platform → ℕ → Bool
is_retried platform errno =
    errno == platform.enoent || (errno == platform.eintr || errno == platform.eagain)

module _ {fs : Filesystem} where
  abbrev pub stop : Session fs → End → Trace fs
  stop se end = record { session = se; sent = []; deferred = []; end = end }

  -- What a dispatched request did, in front of what follows it.
  abbrev pub behind : Effect fs → Trace fs → Trace fs
  behind e t = record {
    session = t.session;
    sent = e.sent ++ t.sent;
    deferred = e.deferred ++ t.deferred;
    end = t.end;
  }

  -- After the dispatch: a panic ends the thread, and else the loop goes on.
  abbrev pub proceed : Effect fs → Option Fault → (Session fs → Trace fs) → Trace fs
  proceed e none next = behind e (next e.session)
  proceed e (some x) next = behind e (stop e.session (crashes x))

  -- A buffer, as `request` sees it: dispatched, or the end of the loop.
  abbrev pub handle :
      Platform → Session fs → Outcome (Option Request) → (Session fs → Trace fs) → Trace fs
  handle platform se (fault x) next = stop se (crashes x)
  handle platform se (done none) next = stop se leaves
  handle platform se (done (some req)) next =
      proceed (dispatch platform req se) (dispatch platform req se).failure next

  unfoldable pub run : Platform → Session fs → List Received → Trace fs
  run platform se [] = stop se waits
  run platform se (os_error errno ∷ rest) =
      let again = run platform se rest in
      if is_retried platform errno
      then again
      else if errno == platform.enodev
      then stop se leaves
      else stop se (crashes panic)
  run platform se (buffer bytes ∷ rest) =
      handle platform se (Parse.new (sender se.ch) bytes) (λ se'. run platform se' rest)
