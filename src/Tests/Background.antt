-- ===== src/Tests/Background.antt =====
-- A session in a thread whose handle is dropped while the thread unmounts.
use rust_fuse.Prelude.{◌≡◌, refl, List, [], ◌∷◌, ◌++◌, some, All}
use rust_fuse.Channel.Calls.{sets_errno}
use rust_fuse.Channel.Traced.{closes, unmounts, unmounts_helped, Event, traced, closes, unmounts}
use rust_fuse.Channel.Laws.{Log}
use rust_fuse.Channel.{receive, to_cstring}
use rust_fuse.Platform.{linux}
use rust_fuse.Session.State.{Session}
use rust_fuse.Session.Live.{live_run}
use rust_fuse.Session.Run
use rust_fuse.Session.Mount.Threads.{
  Task, closing, unmounting, helping, over, call_step, Threads, turns, thread_calls, drops,
  handle_calls, Reaches, begins, moves,
}
use rust_fuse.Session.Mount.Threads.Counts.{
  total, close_weight, unmount_weight, help_weight, refusal_weight, IsOwn,
}
use rust_fuse.Session.Mount.Threads.Safety.{joined_calls}
use rust_fuse.Tests.Data.{test_fs, hello, hello-IsName}
use rust_fuse.Tests.Mounting.{quiet_libc, silence}

abbrev in_background : Session test_fs
in_background = Run.new test_fs tt (record { mountpoint = hello; fd = 3 })

abbrev state_with : List Event → Task → Task → Threads test_fs (Log quiet_libc)
state_with log thread handle = record {
  world = (tt, log);
  session = in_background;
  thread = some thread;
  mountpoint = hello;
  handle = some handle;
}

abbrev helped_twice : List Event
helped_twice =
    closes 3
    ∷ unmounts hello (sets_errno 1)
    ∷ unmounts hello (sets_errno 1)
    ∷ unmounts_helped hello
    ∷ unmounts_helped hello
    ∷ []

-- The loop reads ENODEV, the handle is dropped, and the calls of the two alternate.
both_over :
    Reaches (traced quiet_libc) linux in_background silence (state_with helped_twice over over)
unfolding live_run receive call_step to_cstring
both_over =
    moves
      (moves
        (moves
          (moves
            (moves (moves (moves begins (turns refl)) (drops refl))
              (thread_calls (closing (record { mountpoint = hello; fd = 3 })) refl))
            (handle_calls (unmounting hello) refl))
          (thread_calls (unmounting hello) refl))
        (handle_calls (helping hello) refl))
      (thread_calls (helping hello) refl)

joined_calls_example :
    (es : List Event) × (helped_twice ≡ [] ++ es)
    × All (IsOwn in_background.ch) es
    × (total close_weight es ≡ 1)
    × (total unmount_weight es ≡ 2)
    × (total help_weight es ≡ total (refusal_weight quiet_libc) es)
joined_calls_example =
    joined_calls quiet_libc linux in_background silence hello-IsName both_over refl refl
