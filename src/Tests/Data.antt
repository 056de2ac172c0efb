-- ===== src/Tests/Data.antt =====
-- The data of the tests.
use rust_fuse.Prelude.{ℕ, arith, List, [], ◌∷◌, Bool}
use rust_fuse.Abi.Control.{FuseInHeader, FuseInitIn, in_header_pod, init_in_pod}
use rust_fuse.Argument.Laws.{IsName}
use rust_fuse.Platform.{linux}
use rust_fuse.Filesystem.Attributes.{directory, regular_file}
use rust_fuse.Examples.Null.{null_fs}
use rust_fuse.Filesystem.Trait.{Filesystem, Request}
use rust_fuse.Reply.Raw.{ChannelSender}
use rust_fuse.Reply.Directory.{DirEntry}
use rust_fuse.Session.State.{Session}

abbrev pub test_fs : Filesystem
test_fs = null_fs linux

abbrev pub test_sender : ChannelSender
test_sender = record { fd = 3 }

-- The header of a request with an operation code, a length and the id 7.
abbrev pub header_for : ℕ → ℕ → FuseInHeader
header_for opcode len = record {
  len = len;
  opcode = opcode;
  unique = 7;
  nodeid = 1;
  uid = 1000;
  gid = 1000;
  pid = 42;
  padding = 0;
}

abbrev pub request_with : ℕ → List ℕ → Request
request_with opcode payload = record {
  ch = test_sender;
  header = header_for opcode 40;
  payload = payload;
}

abbrev pub session_at : Bool → Bool → Session test_fs
session_at initialized destroyed = record {
  filesystem = tt;
  ch = record { mountpoint = []; fd = 3 };
  proto_major = 7;
  proto_minor = 8;
  initialized = initialized;
  destroyed = destroyed;
}

abbrev pub init_args : FuseInitIn
init_args = record { major = 7; minor = 8; max_readahead = 0x20000; flags = 0x7b }

abbrev pub init_request : Request
init_request = request_with 26 (init_in_pod.to_bytes init_args)

-- A name of five bytes.
abbrev pub hello : List ℕ
hello = 104 ∷ 101 ∷ 108 ∷ 108 ∷ 111 ∷ []

pub hello-IsName : IsName hello
hello-IsName = (
  λ h. ground arith,
  (λ h. ground arith, (λ h. ground arith, (λ h. ground arith, (λ h. ground arith, tt)))),
)

abbrev pub dot_entry : DirEntry
dot_entry = record { ino = 1; offset = 0; kind = directory; name = 46 ∷ [] }

abbrev pub hello_entry : DirEntry
hello_entry = record { ino = 2; offset = 1; kind = regular_file; name = hello }
