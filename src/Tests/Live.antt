-- ===== src/Tests/Live.antt =====
-- The loop over calls of libc that read from a script and keep what is written.
use rust_fuse.Prelude.{ℕ, ◌≡◌, ◌≢◌, refl, List, [], ◌∷◌, ◌++◌, false, length}
use rust_fuse.Platform.{linux, linux-IsPosix}
use rust_fuse.Channel.{receive, send_buffers}
use rust_fuse.Channel.Calls.{Libc, Answer, returns, sets_errno}
use rust_fuse.Abi.Control.{in_header_pod, init_in_pod}
use rust_fuse.Session.Run.{Received, os_error, waits, leaves}
use rust_fuse.Session.Live.{transmit_all, live_run}
use rust_fuse.Session.Live.Turns.{Served, Turns, live_run-Served, live_run_waits}
use rust_fuse.Wire.{fields}
use rust_fuse.Wire.Numbers.{le, from_le}
use rust_fuse.Argument.{fetch, fetch_data}
use rust_fuse.Abi.Opcode.{from_u32}
use rust_fuse.Request.Parse
use rust_fuse.Request.Parse.{read_request}
use rust_fuse.Request.Decode.{arm}
use rust_fuse.Request.Dispatch.{
  dispatch, dispatch_arm, dispatch_init, initialize, perform, call_with, reply_empty,
}
use rust_fuse.Reply.Answer.{answer, react, new_reply}
use rust_fuse.Reply.Raw.{consume, send, drop_reply, header, as_bytes}
use rust_fuse.Filesystem.Trait.{default_method}
use rust_fuse.Tests.Data.{header_for, init_args, session_at}

-- What is still to be read, and what was written.
abbrev Script : Type 0
Script = List (Answer (List ℕ)) × List (List (List ℕ))

-- When the script is over, the filesystem is unmounted.
abbrev next_read : Script → Script × Answer (List ℕ)
next_read ([], out) = (([], out), sets_errno 19)
next_read (a ∷ rest, out) = ((rest, out), a)

abbrev scripted : Libc
scripted = record {
  World = Script;
  os_x = false;
  realpath = λ path w. (w, sets_errno 2);
  fuse_mount = λ mnt args w. (w, sets_errno 1);
  close = λ fd w. w;
  umount = λ mnt w. (w, returns tt);
  fuse_unmount = λ mnt w. w;
  read = λ fd capacity w. next_read w;
  writev = λ fd iovecs w. ((w.0, w.1 ++ (iovecs ∷ [])), returns 0);
  is_permission_denied = λ e. false;
}

-- An INIT, an interrupted system call, and a GETATTR.
abbrev traffic : Script
traffic = (
  returns (in_header_pod.to_bytes (header_for 26 56) ++ init_in_pod.to_bytes init_args)
      ∷ sets_errno 4
      ∷ returns (in_header_pod.to_bytes (header_for 3 40))
      ∷ [],
  [],
)

live_run-Served_example :
    Served scripted linux 4
      (session_at false false)
      traffic
      (live_run scripted linux 4 (session_at false false) traffic)
live_run-Served_example = live_run-Served scripted linux 4 (session_at false false) traffic

still_waits : (live_run scripted linux 3 (session_at false false) traffic).1.end ≡ waits
unfolding live_run receive send_buffers transmit_all le from_le fields Parse.new read_request fetch
    fetch_data dispatch from_u32 dispatch_arm arm dispatch_init initialize perform call_with answer
    react new_reply consume send drop_reply reply_empty default_method header as_bytes
still_waits = refl

live_run_waits_example :
    (rs : List Received) × (length rs ≡ 3)
    × Turns scripted linux
        (session_at false false)
        traffic
        rs
        (live_run scripted linux 3 (session_at false false) traffic).0
    × ((before after : List Received) → rs ≢ before ++ (os_error 19 ∷ after))
live_run_waits_example =
    live_run_waits scripted linux 3 (session_at false false) traffic linux-IsPosix still_waits

-- The fourth turn reads ENODEV and leaves the loop, after both requests were answered.
leaves_answered :
    ((live_run scripted linux 4 (session_at false false) traffic).1.end ≡ leaves)
    × (length (live_run scripted linux 4 (session_at false false) traffic).0.1 ≡ 2)
unfolding live_run receive send_buffers transmit_all le from_le fields Parse.new read_request fetch
    fetch_data dispatch from_u32 dispatch_arm arm dispatch_init initialize perform call_with answer
    react new_reply consume send drop_reply reply_empty default_method header as_bytes
leaves_answered = (refl, refl)
