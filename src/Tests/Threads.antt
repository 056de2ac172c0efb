-- ===== src/Tests/Threads.antt =====
-- A filesystem that keeps the reply object of GETATTR, and a thread that answers with it later.
use rust_fuse.Prelude.{◌≡◌, ◌+◌, ◌≤◌, refl, arith, [], ◌∷◌, ◌++◌, none, true, false, List}
use rust_fuse.Platform.{linux}
use rust_fuse.Filesystem.Calls.{Call, kind_of}
use rust_fuse.Filesystem.Trait.{Filesystem, default_method}
use rust_fuse.Reply.Raw
use rust_fuse.Reply.Raw.{consume, send, drop_reply, header, as_bytes}
use rust_fuse.Reply.Message.{packet}
use rust_fuse.Reply.Once.{react-fails}
use rust_fuse.Abi.Opcode.{from_u32}
use rust_fuse.Request.Decode.{arm}
use rust_fuse.Reply.Kinds.{RawKind}
use rust_fuse.Reply.Answer.{react, new_reply, Resolution, raw, Answer, fails, defers, answer}
use rust_fuse.Request.Dispatch.{dispatch, dispatch_arm, perform, call_with, reply_empty}
use rust_fuse.Session.State.{Session}
use rust_fuse.Session.Concurrent.{System, serve, start, request, finish, Reach, here, next}
use rust_fuse.Session.Concurrent.Accounts.{
  tally_of, packet_id, request_id, replies_with, forget_id_count,
}
use rust_fuse.Session.Concurrent.Balance.{replies_with-le, requests_answered}
use rust_fuse.Prelude.{All, Bool}
use rust_fuse.Wire.{fields}
use rust_fuse.Wire.Numbers.{le}
use rust_fuse.Abi.Control.{in_header_pod}
use rust_fuse.Filesystem.Trait.{Request}
use rust_fuse.Session.Run.{Received, buffer, os_error, run, sender}
use rust_fuse.Session.Concurrent.Schedule.{requests_of, IsBytes, Remains, run-Reach}
use rust_fuse.Session.Concurrent.Ids.{run_replies_by_id}
use rust_fuse.Wire.Numbers.{from_le}
use rust_fuse.Argument.{fetch, fetch_data, done}
use rust_fuse.Request.Parse
use rust_fuse.Request.Parse.{read_request}
use rust_fuse.Session.Run.{waits}
use rust_fuse.Tests.Data.{header_for, test_sender, request_with}

abbrev keeping_method : (call : Call) → Answer (kind_of call)
keeping_method (Call.getattr ino) = defers
keeping_method call = default_method linux call

abbrev keeping_fs : Filesystem
keeping_fs = record {
  State = Unit {0};
  init = λ req state. (state, done none);
  destroy = λ req state. (state, none);
  forget = λ req ino nlookup state. (state, none);
  method = λ req c state. (state, keeping_method c);
}

abbrev keeping_session : Session keeping_fs
keeping_session = record {
  filesystem = tt;
  ch = record { mountpoint = []; fd = 3 };
  proto_major = 7;
  proto_minor = 8;
  initialized = true;
  destroyed = false;
}

-- A GETATTR is kept, and then a READLINK is answered.
abbrev served : System keeping_fs
served = serve linux (serve linux (start keeping_session) (request_with 3 [])) (request_with 5 [])

-- The thread answers the GETATTR with EACCES.
abbrev late : Resolution
late = record {
  sent = packet (Raw.new 7 test_sender) test_sender 13 [] ∷ [];
  deferred = [];
  failure = none;
}

served_reached : Reach linux keeping_session served
unfolding dispatch from_u32 dispatch_arm arm perform call_with answer react new_reply consume send
    drop_reply reply_empty default_method header as_bytes
served_reached =
    next (next here (request (request_with 3 []) refl (omega arith)))
      (request (request_with 5 []) refl (omega arith))

abbrev finished : System keeping_fs
finished = record served { sent = served.sent ++ late.sent; kept = [] }

finished_reached : Reach linux keeping_session finished
unfolding dispatch from_u32 dispatch_arm arm perform call_with answer react new_reply consume send
    drop_reply reply_empty default_method header as_bytes
finished_reached = next served_reached (
    finish [] [] (raw RawKind.attr) (Raw.new 7 test_sender) (fails 13) late refl
      (react-fails linux 7 test_sender RawKind.attr 13))

replies_with-le_example :
    replies_with 7 served.sent served.kept ≤ tally_of 7 request_id served.requests
replies_with-le_example = replies_with-le linux served_reached 7

finished_serves : finished.serving ≡ true
unfolding dispatch from_u32 dispatch_arm arm perform call_with answer react new_reply consume send
    drop_reply reply_empty default_method header as_bytes
finished_serves = refl

requests_answered_example :
    tally_of 7 request_id finished.requests
    ≤ tally_of 7 packet_id finished.sent + forget_id_count 7 finished.requests
requests_answered_example = requests_answered linux finished_reached finished_serves refl 7

-- An interrupted system call, a GETATTR, and the unmount.
abbrev traffic : List Received
traffic = os_error 4 ∷ buffer (in_header_pod.to_bytes (header_for 3 40)) ∷ os_error 19 ∷ []

traffic-IsBytes : All IsBytes traffic
unfolding fields le
traffic-IsBytes = omega arith

run-Reach_example :
    (reqs ignored : List Request) × (on : Bool) × Reach linux keeping_session (record {
      session = (run linux keeping_session traffic).session;
      requests = reqs;
      sent = (run linux keeping_session traffic).sent;
      kept = (run linux keeping_session traffic).deferred;
      serving = on;
    })
    × (reqs ++ ignored ≡ requests_of (sender keeping_session.ch) traffic)
    × Remains (run linux keeping_session traffic).end ignored on
run-Reach_example = run-Reach linux keeping_session traffic traffic-IsBytes

-- An interrupted system call, and a GETATTR, which is kept.
abbrev short_traffic : List Received
short_traffic = os_error 4 ∷ buffer (in_header_pod.to_bytes (header_for 3 40)) ∷ []

short_traffic-IsBytes : All IsBytes short_traffic
unfolding fields le
short_traffic-IsBytes = omega arith

short_traffic_waits : (run linux keeping_session short_traffic).end ≡ waits
unfolding run le from_le fields Parse.new read_request fetch fetch_data dispatch from_u32
    dispatch_arm arm perform call_with answer react new_reply consume send drop_reply reply_empty
    default_method header as_bytes
short_traffic_waits = refl

run_replies_by_id_example :
    (replies_with 7
        (run linux keeping_session short_traffic).sent
        (run linux keeping_session short_traffic).deferred
      ≤ tally_of 7 request_id (requests_of (sender keeping_session.ch) short_traffic))
    × (tally_of 7 request_id (requests_of (sender keeping_session.ch) short_traffic)
        ≤ replies_with 7
            (run linux keeping_session short_traffic).sent
            (run linux keeping_session short_traffic).deferred
          + forget_id_count 7 (requests_of (sender keeping_session.ch) short_traffic))
run_replies_by_id_example =
    run_replies_by_id linux keeping_session short_traffic 7 short_traffic-IsBytes
      short_traffic_waits
