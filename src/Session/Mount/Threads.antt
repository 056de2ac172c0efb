-- ===== src/Session/Mount/Threads.antt =====
-- `BackgroundSession` of src/session.rs: the thread of a session and the handle to it, whose calls of
-- libc interleave. Each step is one call, or one whole turn of the loop, which does not mount.
pub mod Counts
pub mod Safety
pub mod Single
use rust_fuse.Prelude.{ℕ, List, Option, none, some, ◌≡◌, ◌&&◌, not, if◌then◌else◌, zero, suc}
use rust_fuse.Channel.Calls.{Libc, Answer, returns, sets_errno}
use rust_fuse.Channel.{Channel, to_cstring}
use rust_fuse.Platform.{Platform}
use rust_fuse.Filesystem.Trait.{Filesystem}
use rust_fuse.Session.State.{Session}
use rust_fuse.Session.Live.{live_run}
use rust_fuse.Session.Run
use rust_fuse.Session.Run.{End, waits, leaves, crashes}

-- What a destructor has still to do: that of a channel closes the descriptor and unmounts, that of the
-- handle unmounts. The helper is asked after an unmount that was refused.
pub data Task : Type 0 where
  closing : Channel → Task
  unmounting : List ℕ → Task
  helping : List ℕ → Task
  over : Task

module _ (libc : Libc) where
  open libc use {World}

  abbrev pub after_umount : List ℕ → World × Answer (Unit {0}) → World × Task
  after_umount mnt (w, returns _) = (w, over)
  after_umount mnt (w, sets_errno e) =
      if not libc.os_x && libc.is_permission_denied e then (w, helping mnt) else (w, over)

  -- The next call of a destructor, and what it has to do then.
  unfoldable pub call_step : Task → World → World × Task
  call_step (closing ch) w = (libc.close ch.fd w, unmounting ch.mountpoint)
  call_step (unmounting mountpoint) w = elim (to_cstring mountpoint) [
    | none ↦ (w, over)
    | some mnt ↦ after_umount mnt (libc.umount mnt w)
  ]
  call_step (helping mnt) w = (libc.fuse_unmount mnt w, over)
  call_step over w = (w, over)

  unfoldable pub run_task : ℕ → Task → World → World × Task
  run_task zero t w = (w, t)
  run_task (suc n) t w = run_task n (call_step t w).1 (call_step t w).0

-- The thread and the handle. While the loop runs, `thread` is none; while the handle is held, `handle`
-- is none.
pub record Threads (fs : Filesystem) (World : Type 0) : Type 0 where
  pub world : World
  pub session : Session fs
  pub thread : Option Task
  pub mountpoint : List ℕ
  pub handle : Option Task

-- When the loop has ended, by a panic or not, the thread drops the session and with it the channel.
abbrev pub task_after : End → Channel → Option Task
task_after waits ch = none
task_after leaves ch = some (closing ch)
task_after (crashes x) ch = some (closing ch)

-- `BackgroundSession::new`, when the thread has been started.
abbrev pub background :
    {fs : Filesystem} (libc : Libc) → Session fs → libc.World → Threads fs libc.World
background libc se w = record {
  world = w;
  session = se;
  thread = none;
  mountpoint = se.ch.mountpoint;
  handle = none;
}

pub data Moves (libc : Libc) (platform : Platform) {fs : Filesystem} (s : Threads fs libc.World)
    : Threads fs libc.World → Type 0 where
  turns :
      s.thread ≡ none
      → Moves libc platform s (record s {
        world = (live_run libc platform 1 s.session s.world).0;
        session = (live_run libc platform 1 s.session s.world).1.session;
        thread =
            task_after
              (live_run libc platform 1 s.session s.world).1.end
              (live_run libc platform 1 s.session s.world).1.session.ch;
      })
  thread_calls :
      (t : Task)
      → s.thread ≡ some t
      → Moves libc platform s (record s {
        world = (call_step libc t s.world).0;
        thread = some (call_step libc t s.world).1;
      })
  -- The destructor of the handle begins.
  drops :
      s.handle ≡ none → Moves libc platform s (record s { handle = some (unmounting s.mountpoint) })
  handle_calls :
      (t : Task)
      → s.handle ≡ some t
      → Moves libc platform s (record s {
        world = (call_step libc t s.world).0;
        handle = some (call_step libc t s.world).1;
      })

-- The states that some interleaving reaches.
pub data Reaches (libc : Libc) (platform : Platform) {fs : Filesystem} (se : Session fs)
    (w : libc.World) : Threads fs libc.World → Type 0 where
  begins : Reaches libc platform se w (background libc se w)
  moves :
      {s t : Threads fs libc.World}
      → Reaches libc platform se w s
      → Moves libc platform s t
      → Reaches libc platform se w t
