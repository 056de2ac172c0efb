-- ===== src/Tests/Sessions.antt =====
-- Runs of the session loop.
use rust_fuse.Prelude.{◌+◌, ◌≤◌, ◌≡◌, refl, arith, List, [], ◌∷◌, ◌++◌, false}
use rust_fuse.Abi.Control.{in_header_pod, init_in_pod}
use rust_fuse.Platform.{linux}
use rust_fuse.Request.Phases.{IsSession, phase}
use rust_fuse.Session.Run.{Received, buffer, os_error, run, waits}
use rust_fuse.Session.Steps.{Runs, run-Runs}
use rust_fuse.Session.Traffic.{◌⟶*◌, run-IsSession}
use rust_fuse.Session.Count.{reply_count, buffer_count, forget_count, run_all_answered}
use rust_fuse.Wire.{fields}
use rust_fuse.Wire.Numbers.{le, from_le}
use rust_fuse.Argument.{fetch, fetch_data}
use rust_fuse.Abi.Opcode.{from_u32}
use rust_fuse.Request.Parse
use rust_fuse.Request.Parse.{read_request}
use rust_fuse.Request.Decode.{arm}
use rust_fuse.Request.Dispatch.{
  dispatch, dispatch_arm, dispatch_init, initialize, perform, call_with, reply_empty,
}
use rust_fuse.Reply.Answer.{answer, react, new_reply}
use rust_fuse.Reply.Raw.{consume, send, drop_reply, header, as_bytes}
use rust_fuse.Filesystem.Trait.{default_method}
use rust_fuse.Tests.Data.{header_for, init_args, session_at}

-- An INIT, an interrupted system call, and a GETATTR.
abbrev traffic : List Received
traffic =
    buffer (in_header_pod.to_bytes (header_for 26 56) ++ init_in_pod.to_bytes init_args)
    ∷ os_error 4
    ∷ buffer (in_header_pod.to_bytes (header_for 3 40))
    ∷ []

fresh_IsSession : IsSession (session_at false false)
fresh_IsSession = record { supported = λ on. ground arith; ordered = λ off. ground arith }

run-Runs_example :
    Runs linux (session_at false false) traffic (run linux (session_at false false) traffic)
run-Runs_example = run-Runs linux (session_at false false) traffic

run-IsSession_example :
    IsSession (run linux (session_at false false) traffic).session
    × (phase (session_at false false) ⟶* phase (run linux (session_at false false) traffic).session)
run-IsSession_example = run-IsSession linux (session_at false false) traffic fresh_IsSession

traffic_waits : (run linux (session_at false false) traffic).end ≡ waits
unfolding run le from_le fields Parse.new read_request fetch fetch_data dispatch from_u32
    dispatch_arm arm dispatch_init initialize perform call_with answer react new_reply consume send
    drop_reply reply_empty default_method header as_bytes
traffic_waits = refl

run_all_answered_example :
    buffer_count traffic
    ≤ reply_count (run linux (session_at false false) traffic) + forget_count traffic
run_all_answered_example = run_all_answered linux (session_at false false) traffic traffic_waits
