-- ===== src/Tests/Repository/Data.antt =====
-- The data of the tests of src/reply.rs.
use rust_fuse.Prelude.{ℕ, List, [], ◌∷◌, ◌++◌, none, take, drop}
use rust_fuse.Wire.{Pod, fields, field_at}
use rust_fuse.Argument.{Outcome, done}
use rust_fuse.Platform.{Timespec}
use rust_fuse.Filesystem.Attributes.{FileAttr, regular_file}
use rust_fuse.Reply.Raw
use rust_fuse.Reply.Raw.{ReplyRaw}
use rust_fuse.Reply.Kinds.{Entry}
use rust_fuse.Reply.Answer.{Resolution}
use rust_fuse.Tests.Data.{test_sender}

abbrev pub test_time : Timespec
test_time = record { sec = 0x1234; nsec = 0x5678 }

abbrev pub test_attr : FileAttr
test_attr = record {
  ino = 0x11;
  size = 0x22;
  blocks = 0x33;
  atime = test_time;
  mtime = test_time;
  ctime = test_time;
  crtime = test_time;
  kind = regular_file;
  perm = 420;  -- 0o644
  nlink = 0x55;
  uid = 0x66;
  gid = 0x77;
  rdev = 0x88;
  flags = 0x99;
}

abbrev pub test_entry : Entry
test_entry = record { ttl = test_time; attr = test_attr; generation = 0xaa }

abbrev pub test_reply : ReplyRaw
test_reply = Raw.new 0xdeadbeef test_sender

-- One packet with these buffers.
abbrev pub one_packet : List (List ℕ) → Outcome Resolution
one_packet iovecs =
    done (record { sent = record { fd = 3; iovecs = iovecs } ∷ []; deferred = []; failure = none })

-- The structure `Data` of the tests, two u8 and a u16.
pub record TestData : Type 0 where
  pub a : ℕ
  pub b : ℕ
  pub c : ℕ

abbrev pub data_layout : TestData → List (ℕ × ℕ)
data_layout d = (1, d.a) ∷ (1, d.b) ∷ (2, d.c) ∷ []

abbrev pub data_of_bytes : List ℕ → TestData
data_of_bytes bytes = record {
  a = field_at 1 0 bytes;
  b = field_at 1 1 bytes;
  c = field_at 2 2 bytes;
}

instance abbrev pub data_pod : Pod TestData
unfolding fields
data_pod = record { size_of = 4; to_bytes = λ d. fields (data_layout d); of_bytes = data_of_bytes }

-- Two of them in a tuple, and `()`.
instance abbrev pub two_data_pod : Pod (TestData × TestData)
unfolding fields
two_data_pod = record {
  size_of = 8;
  to_bytes = λ p. fields (data_layout p.0) ++ fields (data_layout p.1);
  of_bytes = λ bytes. (data_of_bytes bytes, data_of_bytes (drop 4 bytes));
}

instance abbrev pub unit_pod : Pod (Unit {0})
unit_pod = record { size_of = 0; to_bytes = λ _. []; of_bytes = λ _. tt }

-- An array of four bytes.
abbrev pub array_pod : Pod (List ℕ)
array_pod = record { size_of = 4; to_bytes = λ bytes. bytes; of_bytes = λ bytes. take 4 bytes }

abbrev pub some_data : TestData
some_data = record { a = 0x12; b = 0x34; c = 0x5678 }
