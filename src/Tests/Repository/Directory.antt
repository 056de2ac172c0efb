-- ===== src/Tests/Repository/Directory.antt =====
-- The test of src/reply.rs of a directory reply.
use rust_fuse.Filesystem.Attributes.{directory, regular_file}
use rust_fuse.Reply.Directory
use rust_fuse.Reply.Directory.{entry_bytes, add, sized, entsize, entlen}
use rust_fuse.Reply.Answer
use rust_fuse.Reply.Answer.{answer, fill, finish_directory, new_reply, adds, finish}
use rust_fuse.Tests.Data.{test_sender, hello}
use rust_fuse.Prelude.{refl, ℕ, List, [], ◌∷◌}
use rust_fuse.Wire.{fields}
use rust_fuse.Wire.Numbers.{le}
use rust_fuse.Argument.{Outcome}
use rust_fuse.Platform.{Platform, linux, darwin}
use rust_fuse.Reply.Raw.{consume, send, drop_reply, header, as_bytes}
use rust_fuse.Reply.Answer.{Resolution, react, replies, fails, sends}
use rust_fuse.Tests.Repository.{Assertion, Passes}
use rust_fuse.Tests.Repository.Data.{one_packet, data_pod, two_data_pod, unit_pod}

-- "world.rs"
abbrev world : List ℕ
world = 119 ∷ 111 ∷ 114 ∷ 108 ∷ 100 ∷ 46 ∷ 114 ∷ 115 ∷ []

abbrev reply_directory_test : Platform → Assertion (Outcome Resolution)
reply_directory_test platform = record {
  actual =
      answer platform Answer.directory (new_reply platform Answer.directory 0xdeadbeef test_sender)
        (adds (record { ino = 0xaabb; offset = 1; kind = directory; name = hello })
          (λ _.
            adds (record { ino = 0xccdd; offset = 2; kind = regular_file; name = world })
              (λ _. finish (replies tt))));
  expected = one_packet (
      (0x50 ∷ 0x00 ∷ 0x00 ∷ 0x00 ∷ 0x00 ∷ 0x00 ∷ 0x00 ∷ 0x00 ∷ 0xef ∷ 0xbe ∷ 0xad ∷ 0xde ∷ 0x00
        ∷ 0x00 ∷ 0x00 ∷ 0x00 ∷ [])
      ∷ (0xbb ∷ 0xaa ∷ 0x00 ∷ 0x00 ∷ 0x00 ∷ 0x00 ∷ 0x00 ∷ 0x00 ∷ 0x01 ∷ 0x00 ∷ 0x00 ∷ 0x00 ∷ 0x00
          ∷ 0x00 ∷ 0x00 ∷ 0x00 ∷ 0x05 ∷ 0x00 ∷ 0x00 ∷ 0x00 ∷ 0x04 ∷ 0x00 ∷ 0x00 ∷ 0x00 ∷ 0x68 ∷ 0x65
          ∷ 0x6c ∷ 0x6c ∷ 0x6f ∷ 0x00 ∷ 0x00 ∷ 0x00 ∷ 0xdd ∷ 0xcc ∷ 0x00 ∷ 0x00 ∷ 0x00 ∷ 0x00 ∷ 0x00
          ∷ 0x00 ∷ 0x02 ∷ 0x00 ∷ 0x00 ∷ 0x00 ∷ 0x00 ∷ 0x00 ∷ 0x00 ∷ 0x00 ∷ 0x08 ∷ 0x00 ∷ 0x00 ∷ 0x00
          ∷ 0x08 ∷ 0x00 ∷ 0x00 ∷ 0x00 ∷ 0x77 ∷ 0x6f ∷ 0x72 ∷ 0x6c ∷ 0x64 ∷ 0x2e ∷ 0x72 ∷ 0x73 ∷ [])
      ∷ []);
}

-- It passes on Linux.
directory_bytes : Passes (reply_directory_test linux)
unfolding answer fill finish_directory new_reply Directory.new add sized entsize entry_bytes consume
    send drop_reply header as_bytes fields le
directory_bytes = refl

-- It passes on OS X.
directory_bytes_osx : Passes (reply_directory_test darwin)
unfolding answer fill finish_directory new_reply Directory.new add sized entsize entry_bytes consume
    send drop_reply header as_bytes fields le
directory_bytes_osx = refl
