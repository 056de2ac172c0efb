-- ===== src/Session/Mount.antt =====
-- A session from mount to unmount: `Session::new` and the destructors of src/session.rs, with
-- `mount` of src/lib.rs. The loop of `mount` makes its calls of libc in the same world.
pub mod Lifecycle
pub mod Threads
use rust_fuse.Prelude.{ℕ, List, Option, none, some}
use rust_fuse.Argument.{Outcome, done, fault, panic}
use rust_fuse.Channel.Calls.{Libc}
use rust_fuse.Channel
use rust_fuse.Channel.{Channel, IoResult, ok, err, os_errno, unmount, drop_channel}
use rust_fuse.Platform.{Platform}
use rust_fuse.Filesystem.Trait.{Filesystem}
use rust_fuse.Session.State.{Session}
use rust_fuse.Session.Live.{live_run}
use rust_fuse.Session.Run
use rust_fuse.Session.Run.{Received, End, waits, leaves, crashes, Trace, run}

-- What the end of a loop does to the channel of its session: whether it left or panicked, the session
-- is dropped; while it waits, nothing happens.
abbrev pub ended : (libc : Libc) → End → Channel → libc.World → libc.World
ended libc waits ch w = w
ended libc leaves ch w = drop_channel libc ch w
ended libc (crashes x) ch w = drop_channel libc ch w

module _ (libc : Libc) (fs : Filesystem) where
  open libc use {World}

  abbrev pub session_of :
      fs.State → World × Outcome (IoResult Channel) → World × Outcome (Session fs)
  session_of state (w, fault x) = (w, fault x)
  session_of state (w, done (err e)) = (w, fault panic)
  session_of state (w, done (ok ch)) = (w, done (Run.new fs state ch))

  -- `Session::new`: an error of the channel is a panic.
  unfoldable pub new_session :
      fs.State
      → (mountpoint : List ℕ) (options : List (List ℕ)) → World
      → World × Outcome (Session fs)
  new_session state mountpoint options w = session_of state (Channel.new libc mountpoint options w)

  abbrev pub mounted_run :
      Platform → (turns : ℕ) → World × Outcome (Session fs) → World × Outcome (Trace fs)
  mounted_run platform turns (w, fault x) = (w, fault x)
  mounted_run platform turns (w, done se) =
      let (w', t) = live_run libc platform turns se w in (ended libc t.end t.session.ch w', done t)

  -- `mount`, with so many turns of the loop.
  unfoldable pub mount :
      Platform
      → fs.State
      → (mountpoint : List ℕ) (options : List (List ℕ)) (turns : ℕ) → World
      → World × Outcome (Trace fs)
  unfolding new_session
  mount platform state mountpoint options turns w =
      mounted_run platform turns (new_session state mountpoint options w)
