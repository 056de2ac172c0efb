-- ===== src/Tests/Requests.antt =====
-- Requests of a session.
use rust_fuse.Argument.{fault, panic, fetch}
use rust_fuse.Prelude.{none, some, ◌∷◌}
use rust_fuse.Filesystem.Trait.{Filesystem, default_method}
use rust_fuse.Session.State.{Session}
use rust_fuse.Reply.Raw
use rust_fuse.Reply.Message.{packet}
use rust_fuse.Reply.Raw.{as_bytes}
use rust_fuse.Wire.Numbers.{le, from_le}
use rust_fuse.Wire.{fields}
use rust_fuse.Request.Decode.{arm}
use rust_fuse.Request.Dispatch.{dispatch_init, initialize, dispatch_arm}
use rust_fuse.Prelude.{sym, append-nil, inr, ◌≡◌, ◌≢◌, refl, arith, [], true, false, none}
use rust_fuse.Abi.Opcode
use rust_fuse.Abi.Opcode.{from_u32, to_u32}
use rust_fuse.Platform.{darwin, darwin-IsPosix, linux, linux-IsPosix}
use rust_fuse.Filesystem.Calls.{Call}
use rust_fuse.Abi.Control.{in_header_pod}
use rust_fuse.Abi.Files.{write_in_pod}
use rust_fuse.Filesystem.Trait.{Request}
use rust_fuse.Request.Lifecycle.{IsSupported}
use rust_fuse.Request.Decode.{Operation, calls}
use rust_fuse.Request.Dispatch.{dispatch, perform}
use rust_fuse.Request.Serve.{request_for, dispatch-request_for}
use rust_fuse.Request.Once.{Answers, dispatch-Answers}
use rust_fuse.Request.Guards.{refused, dispatch_before_init, dispatch_after_destroy}
use rust_fuse.Request.Phases.{IsSession, dispatch-IsSession}
use rust_fuse.Request.Negotiate.{Negotiates, dispatch-Negotiates}
use rust_fuse.Tests.Data.{
  test_sender, header_for, request_with, session_at, init_args, init_request, hello, hello-IsName,
}

getattr_init : Opcode.fuse_getattr ≢ Opcode.fuse_init
getattr_init h = cc

getattr_destroy : Opcode.fuse_getattr ≢ Opcode.fuse_destroy
getattr_destroy h = cc

dispatch-Answers_example :
    Answers linux
      (request_with 3 [])
      (session_at true false)
      (dispatch linux (request_with 3 []) (session_at true false))
dispatch-Answers_example = dispatch-Answers linux (request_with 3 []) (session_at true false)

abbrev lookup_hello : Operation
lookup_hello = calls (Call.lookup 1 hello)

abbrev lookup_request : Request
lookup_request = request_for false test_sender (header_for 0 46) lookup_hello

dispatch-request_for_example :
    dispatch linux lookup_request (session_at true false)
    ≡ perform linux lookup_request (session_at true false) lookup_hello
dispatch-request_for_example =
    dispatch-request_for linux (session_at true false) test_sender (header_for 0 46) lookup_hello
      linux-IsPosix hello-IsName refl refl

dispatch-Negotiates_example :
    Negotiates linux init_request
      (session_at false false)
      init_args
      (dispatch linux init_request (session_at false false))
unfolding from_u32
dispatch-Negotiates_example =
    dispatch-Negotiates linux init_request (session_at false false) init_args [] refl
      (omega arith, omega arith, omega arith, omega arith) (sym (append-nil init_request.payload))

-- A GETATTR in a session that is not initialized, and one that is destroyed.
dispatch_before_init_example :
    dispatch linux (request_with 3 []) (session_at false false)
    ≡ refused linux (request_with 3 []) (session_at false false) 5
dispatch_before_init_example =
    dispatch_before_init linux (request_with 3 []) (session_at false false) Opcode.fuse_getattr
      (unfold from_u32 in refl) getattr_init refl

dispatch_after_destroy_example :
    dispatch linux (request_with 3 []) (session_at true true)
    ≡ refused linux (request_with 3 []) (session_at true true) 5
dispatch_after_destroy_example =
    dispatch_after_destroy linux (request_with 3 []) (session_at true true) Opcode.fuse_getattr
      (unfold from_u32 in refl) getattr_init getattr_destroy refl

ready_IsSession : IsSession (session_at true false)
ready_IsSession = record { supported = λ _. supported; ordered = λ _. refl }
  where
    supported : IsSupported 7 8
    supported = inr (refl, omega arith)

dispatch-IsSession_example :
    IsSession (dispatch linux (request_with 38 []) (session_at true false)).session
dispatch-IsSession_example =
    dispatch-IsSession linux (request_with 38 []) (session_at true false) ready_IsSession

-- A filesystem whose `init` panics, with a session that is not initialized.
abbrev failing_fs : Filesystem
failing_fs = record {
  State = Unit {0};
  init = λ req state. (state, fault panic);
  destroy = λ req state. (state, none);
  forget = λ req ino nlookup state. (state, none);
  method = λ req c state. (state, default_method linux c);
}

abbrev failing_session : Session failing_fs
failing_session = record {
  filesystem = tt;
  ch = record { mountpoint = []; fd = 3 };
  proto_major = 0;
  proto_minor = 0;
  initialized = false;
  destroyed = false;
}

-- The version is remembered, and the reply that was made first is sent with EIO.
init_panics : dispatch linux init_request failing_session ≡ record {
  session = record failing_session { proto_major = 7; proto_minor = 8 };
  sent = packet (Raw.new 7 test_sender) test_sender 5 [] ∷ [];
  deferred = [];
  failure = some panic;
}
unfolding dispatch dispatch_arm arm dispatch_init initialize fetch from_u32 fields from_le le
    Raw.drop_reply Raw.send Raw.header as_bytes
init_panics = refl

-- An EXCHANGE, which only OS X has.
abbrev exchange_hello : Operation
exchange_hello = calls (Call.exchange 1 hello 2 hello 0)

exchange_served :
    dispatch darwin
      (request_for true test_sender (header_for 0 56) exchange_hello)
      (session_at true false)
    ≡ perform darwin
        (request_for true test_sender (header_for 0 56) exchange_hello)
        (session_at true false)
        exchange_hello
exchange_served =
    dispatch-request_for darwin (session_at true false) test_sender (header_for 0 56) exchange_hello
      darwin-IsPosix ((omega arith, omega arith, omega arith), hello-IsName, hello-IsName) refl refl
