-- ===== src/Tests/Hello.antt =====
-- HelloFS, asked for its directory.
use rust_fuse.Prelude.{◌≡◌, refl, arith, ℕ, List, [], ◌∷◌, none, true, false}
use rust_fuse.Platform.{linux, linux-IsPosix}
use rust_fuse.Filesystem.Calls.{Call}
use rust_fuse.Reply.Raw
use rust_fuse.Reply.Message.{packet}
use rust_fuse.Reply.Directory.Entries.{read_entries}
use rust_fuse.Session.State.{Session}
use rust_fuse.Request.Decode.{calls, reads_directory}
use rust_fuse.Request.Dispatch.{dispatch}
use rust_fuse.Request.Serve.{request_for}
use rust_fuse.Examples.Hello.{hello_fs}
use rust_fuse.Examples.Hello.Serve.{
  hello_listed, read_effect, dispatch-hello_read, dispatch-hello_readdir,
}
use rust_fuse.Tests.Data.{test_sender, header_for}

abbrev hello_session : Session (hello_fs linux)
hello_session = record {
  filesystem = tt;
  ch = record { mountpoint = []; fd = 3 };
  proto_major = 7;
  proto_minor = 8;
  initialized = true;
  destroyed = false;
}

dispatch-hello_readdir_example :
    (body : List ℕ) × (dispatch linux
        (request_for false test_sender (header_for 0 80) (reads_directory 1 0 0 4096))
        hello_session
      ≡ record {
        session = hello_session;
        sent = packet (Raw.new 7 test_sender) test_sender 0 (body ∷ []) ∷ [];
        deferred = [];
        failure = none;
      })
    × (read_entries 9 body ≡ hello_listed)
dispatch-hello_readdir_example =
    dispatch-hello_readdir hello_session test_sender (header_for 0 80) 0 4096 9
      (omega arith, omega arith, omega arith, omega arith) refl refl (omega arith)

-- A READ behind the end of the file, which has 13 bytes.
dispatch-hello_read_example :
    dispatch linux
      (request_for false test_sender (header_for 0 80) (calls (Call.read 2 0 14 4096)))
      hello_session
    ≡ read_effect linux hello_session test_sender (header_for 0 80) 14
dispatch-hello_read_example =
    dispatch-hello_read linux hello_session test_sender (header_for 0 80) 0 14 4096 linux-IsPosix
      (omega arith, omega arith, omega arith, omega arith) refl refl
