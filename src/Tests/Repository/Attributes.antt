-- ===== src/Tests/Repository/Attributes.antt =====
-- The tests of src/reply.rs: the bytes of replies with the attributes of a file.
use rust_fuse.Prelude.{refl, [], ◌∷◌, if◌then◌else◌}
use rust_fuse.Wire.{fields}
use rust_fuse.Wire.Numbers.{le}
use rust_fuse.Argument.{Outcome}
use rust_fuse.Platform.{Platform, linux, darwin}
use rust_fuse.Reply.Raw.{consume, send, drop_reply, header, as_bytes}
use rust_fuse.Reply.Kinds.{RawKind, reply_body, entry_body, attr_body, create_body}
use rust_fuse.Reply.Answer.{Resolution, react, replies}
use rust_fuse.Tests.Repository.{Assertion, Passes}
use rust_fuse.Tests.Repository.Data.{
  test_time, test_attr, test_entry, test_reply, one_packet, data_pod, two_data_pod, unit_pod,
}

abbrev reply_entry_test : Platform → Assertion (Outcome Resolution)
reply_entry_test platform = record {
  actual = react platform RawKind.entry test_reply (replies test_entry);
  expected = one_packet (
      if platform.os_x
      then ((0x98 ∷ 0x00 ∷ 0x00 ∷ 0x00 ∷ 0x00 ∷ 0x00 ∷ 0x00 ∷ 0x00 ∷ 0xef ∷ 0xbe ∷ 0xad ∷ 0xde
            ∷ 0x00 ∷ 0x00 ∷ 0x00 ∷ 0x00 ∷ [])
          ∷ (0x11 ∷ 0x00 ∷ 0x00 ∷ 0x00 ∷ 0x00 ∷ 0x00 ∷ 0x00 ∷ 0x00 ∷ 0xaa ∷ 0x00 ∷ 0x00 ∷ 0x00
              ∷ 0x00 ∷ 0x00 ∷ 0x00 ∷ 0x00 ∷ 0x34 ∷ 0x12 ∷ 0x00 ∷ 0x00 ∷ 0x00 ∷ 0x00 ∷ 0x00 ∷ 0x00
              ∷ 0x34 ∷ 0x12 ∷ 0x00 ∷ 0x00 ∷ 0x00 ∷ 0x00 ∷ 0x00 ∷ 0x00 ∷ 0x78 ∷ 0x56 ∷ 0x00 ∷ 0x00
              ∷ 0x78 ∷ 0x56 ∷ 0x00 ∷ 0x00 ∷ 0x11 ∷ 0x00 ∷ 0x00 ∷ 0x00 ∷ 0x00 ∷ 0x00 ∷ 0x00 ∷ 0x00
              ∷ 0x22 ∷ 0x00 ∷ 0x00 ∷ 0x00 ∷ 0x00 ∷ 0x00 ∷ 0x00 ∷ 0x00 ∷ 0x33 ∷ 0x00 ∷ 0x00 ∷ 0x00
              ∷ 0x00 ∷ 0x00 ∷ 0x00 ∷ 0x00 ∷ 0x34 ∷ 0x12 ∷ 0x00 ∷ 0x00 ∷ 0x00 ∷ 0x00 ∷ 0x00 ∷ 0x00
              ∷ 0x34 ∷ 0x12 ∷ 0x00 ∷ 0x00 ∷ 0x00 ∷ 0x00 ∷ 0x00 ∷ 0x00 ∷ 0x34 ∷ 0x12 ∷ 0x00 ∷ 0x00
              ∷ 0x00 ∷ 0x00 ∷ 0x00 ∷ 0x00 ∷ 0x34 ∷ 0x12 ∷ 0x00 ∷ 0x00 ∷ 0x00 ∷ 0x00 ∷ 0x00 ∷ 0x00
              ∷ 0x78 ∷ 0x56 ∷ 0x00 ∷ 0x00 ∷ 0x78 ∷ 0x56 ∷ 0x00 ∷ 0x00 ∷ 0x78 ∷ 0x56 ∷ 0x00 ∷ 0x00
              ∷ 0x78 ∷ 0x56 ∷ 0x00 ∷ 0x00 ∷ 0xa4 ∷ 0x81 ∷ 0x00 ∷ 0x00 ∷ 0x55 ∷ 0x00 ∷ 0x00 ∷ 0x00
              ∷ 0x66 ∷ 0x00 ∷ 0x00 ∷ 0x00 ∷ 0x77 ∷ 0x00 ∷ 0x00 ∷ 0x00 ∷ 0x88 ∷ 0x00 ∷ 0x00 ∷ 0x00
              ∷ 0x99 ∷ 0x00 ∷ 0x00 ∷ 0x00 ∷ [])
          ∷ [])
      else ((0x88 ∷ 0x00 ∷ 0x00 ∷ 0x00 ∷ 0x00 ∷ 0x00 ∷ 0x00 ∷ 0x00 ∷ 0xef ∷ 0xbe ∷ 0xad ∷ 0xde
            ∷ 0x00 ∷ 0x00 ∷ 0x00 ∷ 0x00 ∷ [])
          ∷ (0x11 ∷ 0x00 ∷ 0x00 ∷ 0x00 ∷ 0x00 ∷ 0x00 ∷ 0x00 ∷ 0x00 ∷ 0xaa ∷ 0x00 ∷ 0x00 ∷ 0x00
              ∷ 0x00 ∷ 0x00 ∷ 0x00 ∷ 0x00 ∷ 0x34 ∷ 0x12 ∷ 0x00 ∷ 0x00 ∷ 0x00 ∷ 0x00 ∷ 0x00 ∷ 0x00
              ∷ 0x34 ∷ 0x12 ∷ 0x00 ∷ 0x00 ∷ 0x00 ∷ 0x00 ∷ 0x00 ∷ 0x00 ∷ 0x78 ∷ 0x56 ∷ 0x00 ∷ 0x00
              ∷ 0x78 ∷ 0x56 ∷ 0x00 ∷ 0x00 ∷ 0x11 ∷ 0x00 ∷ 0x00 ∷ 0x00 ∷ 0x00 ∷ 0x00 ∷ 0x00 ∷ 0x00
              ∷ 0x22 ∷ 0x00 ∷ 0x00 ∷ 0x00 ∷ 0x00 ∷ 0x00 ∷ 0x00 ∷ 0x00 ∷ 0x33 ∷ 0x00 ∷ 0x00 ∷ 0x00
              ∷ 0x00 ∷ 0x00 ∷ 0x00 ∷ 0x00 ∷ 0x34 ∷ 0x12 ∷ 0x00 ∷ 0x00 ∷ 0x00 ∷ 0x00 ∷ 0x00 ∷ 0x00
              ∷ 0x34 ∷ 0x12 ∷ 0x00 ∷ 0x00 ∷ 0x00 ∷ 0x00 ∷ 0x00 ∷ 0x00 ∷ 0x34 ∷ 0x12 ∷ 0x00 ∷ 0x00
              ∷ 0x00 ∷ 0x00 ∷ 0x00 ∷ 0x00 ∷ 0x78 ∷ 0x56 ∷ 0x00 ∷ 0x00 ∷ 0x78 ∷ 0x56 ∷ 0x00 ∷ 0x00
              ∷ 0x78 ∷ 0x56 ∷ 0x00 ∷ 0x00 ∷ 0xa4 ∷ 0x81 ∷ 0x00 ∷ 0x00 ∷ 0x55 ∷ 0x00 ∷ 0x00 ∷ 0x00
              ∷ 0x66 ∷ 0x00 ∷ 0x00 ∷ 0x00 ∷ 0x77 ∷ 0x00 ∷ 0x00 ∷ 0x00 ∷ 0x88 ∷ 0x00 ∷ 0x00 ∷ 0x00
              ∷ [])
          ∷ []));
}

abbrev reply_attr_test : Platform → Assertion (Outcome Resolution)
reply_attr_test platform = record {
  actual =
      react platform RawKind.attr test_reply
        (replies (record { ttl = test_time; attr = test_attr }));
  expected = one_packet (
      if platform.os_x
      then ((0x80 ∷ 0x00 ∷ 0x00 ∷ 0x00 ∷ 0x00 ∷ 0x00 ∷ 0x00 ∷ 0x00 ∷ 0xef ∷ 0xbe ∷ 0xad ∷ 0xde
            ∷ 0x00 ∷ 0x00 ∷ 0x00 ∷ 0x00 ∷ [])
          ∷ (0x34 ∷ 0x12 ∷ 0x00 ∷ 0x00 ∷ 0x00 ∷ 0x00 ∷ 0x00 ∷ 0x00 ∷ 0x78 ∷ 0x56 ∷ 0x00 ∷ 0x00
              ∷ 0x00 ∷ 0x00 ∷ 0x00 ∷ 0x00 ∷ 0x11 ∷ 0x00 ∷ 0x00 ∷ 0x00 ∷ 0x00 ∷ 0x00 ∷ 0x00 ∷ 0x00
              ∷ 0x22 ∷ 0x00 ∷ 0x00 ∷ 0x00 ∷ 0x00 ∷ 0x00 ∷ 0x00 ∷ 0x00 ∷ 0x33 ∷ 0x00 ∷ 0x00 ∷ 0x00
              ∷ 0x00 ∷ 0x00 ∷ 0x00 ∷ 0x00 ∷ 0x34 ∷ 0x12 ∷ 0x00 ∷ 0x00 ∷ 0x00 ∷ 0x00 ∷ 0x00 ∷ 0x00
              ∷ 0x34 ∷ 0x12 ∷ 0x00 ∷ 0x00 ∷ 0x00 ∷ 0x00 ∷ 0x00 ∷ 0x00 ∷ 0x34 ∷ 0x12 ∷ 0x00 ∷ 0x00
              ∷ 0x00 ∷ 0x00 ∷ 0x00 ∷ 0x00 ∷ 0x34 ∷ 0x12 ∷ 0x00 ∷ 0x00 ∷ 0x00 ∷ 0x00 ∷ 0x00 ∷ 0x00
              ∷ 0x78 ∷ 0x56 ∷ 0x00 ∷ 0x00 ∷ 0x78 ∷ 0x56 ∷ 0x00 ∷ 0x00 ∷ 0x78 ∷ 0x56 ∷ 0x00 ∷ 0x00
              ∷ 0x78 ∷ 0x56 ∷ 0x00 ∷ 0x00 ∷ 0xa4 ∷ 0x81 ∷ 0x00 ∷ 0x00 ∷ 0x55 ∷ 0x00 ∷ 0x00 ∷ 0x00
              ∷ 0x66 ∷ 0x00 ∷ 0x00 ∷ 0x00 ∷ 0x77 ∷ 0x00 ∷ 0x00 ∷ 0x00 ∷ 0x88 ∷ 0x00 ∷ 0x00 ∷ 0x00
              ∷ 0x99 ∷ 0x00 ∷ 0x00 ∷ 0x00 ∷ [])
          ∷ [])
      else ((0x70 ∷ 0x00 ∷ 0x00 ∷ 0x00 ∷ 0x00 ∷ 0x00 ∷ 0x00 ∷ 0x00 ∷ 0xef ∷ 0xbe ∷ 0xad ∷ 0xde
            ∷ 0x00 ∷ 0x00 ∷ 0x00 ∷ 0x00 ∷ [])
          ∷ (0x34 ∷ 0x12 ∷ 0x00 ∷ 0x00 ∷ 0x00 ∷ 0x00 ∷ 0x00 ∷ 0x00 ∷ 0x78 ∷ 0x56 ∷ 0x00 ∷ 0x00
              ∷ 0x00 ∷ 0x00 ∷ 0x00 ∷ 0x00 ∷ 0x11 ∷ 0x00 ∷ 0x00 ∷ 0x00 ∷ 0x00 ∷ 0x00 ∷ 0x00 ∷ 0x00
              ∷ 0x22 ∷ 0x00 ∷ 0x00 ∷ 0x00 ∷ 0x00 ∷ 0x00 ∷ 0x00 ∷ 0x00 ∷ 0x33 ∷ 0x00 ∷ 0x00 ∷ 0x00
              ∷ 0x00 ∷ 0x00 ∷ 0x00 ∷ 0x00 ∷ 0x34 ∷ 0x12 ∷ 0x00 ∷ 0x00 ∷ 0x00 ∷ 0x00 ∷ 0x00 ∷ 0x00
              ∷ 0x34 ∷ 0x12 ∷ 0x00 ∷ 0x00 ∷ 0x00 ∷ 0x00 ∷ 0x00 ∷ 0x00 ∷ 0x34 ∷ 0x12 ∷ 0x00 ∷ 0x00
              ∷ 0x00 ∷ 0x00 ∷ 0x00 ∷ 0x00 ∷ 0x78 ∷ 0x56 ∷ 0x00 ∷ 0x00 ∷ 0x78 ∷ 0x56 ∷ 0x00 ∷ 0x00
              ∷ 0x78 ∷ 0x56 ∷ 0x00 ∷ 0x00 ∷ 0xa4 ∷ 0x81 ∷ 0x00 ∷ 0x00 ∷ 0x55 ∷ 0x00 ∷ 0x00 ∷ 0x00
              ∷ 0x66 ∷ 0x00 ∷ 0x00 ∷ 0x00 ∷ 0x77 ∷ 0x00 ∷ 0x00 ∷ 0x00 ∷ 0x88 ∷ 0x00 ∷ 0x00 ∷ 0x00
              ∷ [])
          ∷ []));
}

abbrev reply_create_test : Platform → Assertion (Outcome Resolution)
reply_create_test platform = record {
  actual =
      react platform RawKind.create test_reply
        (replies (test_entry, record { fh = 0xbb; flags = 0xcc }));
  expected = one_packet (
      if platform.os_x
      then ((0xa8 ∷ 0x00 ∷ 0x00 ∷ 0x00 ∷ 0x00 ∷ 0x00 ∷ 0x00 ∷ 0x00 ∷ 0xef ∷ 0xbe ∷ 0xad ∷ 0xde
            ∷ 0x00 ∷ 0x00 ∷ 0x00 ∷ 0x00 ∷ [])
          ∷ (0x11 ∷ 0x00 ∷ 0x00 ∷ 0x00 ∷ 0x00 ∷ 0x00 ∷ 0x00 ∷ 0x00 ∷ 0xaa ∷ 0x00 ∷ 0x00 ∷ 0x00
              ∷ 0x00 ∷ 0x00 ∷ 0x00 ∷ 0x00 ∷ 0x34 ∷ 0x12 ∷ 0x00 ∷ 0x00 ∷ 0x00 ∷ 0x00 ∷ 0x00 ∷ 0x00
              ∷ 0x34 ∷ 0x12 ∷ 0x00 ∷ 0x00 ∷ 0x00 ∷ 0x00 ∷ 0x00 ∷ 0x00 ∷ 0x78 ∷ 0x56 ∷ 0x00 ∷ 0x00
              ∷ 0x78 ∷ 0x56 ∷ 0x00 ∷ 0x00 ∷ 0x11 ∷ 0x00 ∷ 0x00 ∷ 0x00 ∷ 0x00 ∷ 0x00 ∷ 0x00 ∷ 0x00
              ∷ 0x22 ∷ 0x00 ∷ 0x00 ∷ 0x00 ∷ 0x00 ∷ 0x00 ∷ 0x00 ∷ 0x00 ∷ 0x33 ∷ 0x00 ∷ 0x00 ∷ 0x00
              ∷ 0x00 ∷ 0x00 ∷ 0x00 ∷ 0x00 ∷ 0x34 ∷ 0x12 ∷ 0x00 ∷ 0x00 ∷ 0x00 ∷ 0x00 ∷ 0x00 ∷ 0x00
              ∷ 0x34 ∷ 0x12 ∷ 0x00 ∷ 0x00 ∷ 0x00 ∷ 0x00 ∷ 0x00 ∷ 0x00 ∷ 0x34 ∷ 0x12 ∷ 0x00 ∷ 0x00
              ∷ 0x00 ∷ 0x00 ∷ 0x00 ∷ 0x00 ∷ 0x34 ∷ 0x12 ∷ 0x00 ∷ 0x00 ∷ 0x00 ∷ 0x00 ∷ 0x00 ∷ 0x00
              ∷ 0x78 ∷ 0x56 ∷ 0x00 ∷ 0x00 ∷ 0x78 ∷ 0x56 ∷ 0x00 ∷ 0x00 ∷ 0x78 ∷ 0x56 ∷ 0x00 ∷ 0x00
              ∷ 0x78 ∷ 0x56 ∷ 0x00 ∷ 0x00 ∷ 0xa4 ∷ 0x81 ∷ 0x00 ∷ 0x00 ∷ 0x55 ∷ 0x00 ∷ 0x00 ∷ 0x00
              ∷ 0x66 ∷ 0x00 ∷ 0x00 ∷ 0x00 ∷ 0x77 ∷ 0x00 ∷ 0x00 ∷ 0x00 ∷ 0x88 ∷ 0x00 ∷ 0x00 ∷ 0x00
              ∷ 0x99 ∷ 0x00 ∷ 0x00 ∷ 0x00 ∷ 0xbb ∷ 0x00 ∷ 0x00 ∷ 0x00 ∷ 0x00 ∷ 0x00 ∷ 0x00 ∷ 0x00
              ∷ 0xcc ∷ 0x00 ∷ 0x00 ∷ 0x00 ∷ 0x00 ∷ 0x00 ∷ 0x00 ∷ 0x00 ∷ [])
          ∷ [])
      else ((0x98 ∷ 0x00 ∷ 0x00 ∷ 0x00 ∷ 0x00 ∷ 0x00 ∷ 0x00 ∷ 0x00 ∷ 0xef ∷ 0xbe ∷ 0xad ∷ 0xde
            ∷ 0x00 ∷ 0x00 ∷ 0x00 ∷ 0x00 ∷ [])
          ∷ (0x11 ∷ 0x00 ∷ 0x00 ∷ 0x00 ∷ 0x00 ∷ 0x00 ∷ 0x00 ∷ 0x00 ∷ 0xaa ∷ 0x00 ∷ 0x00 ∷ 0x00
              ∷ 0x00 ∷ 0x00 ∷ 0x00 ∷ 0x00 ∷ 0x34 ∷ 0x12 ∷ 0x00 ∷ 0x00 ∷ 0x00 ∷ 0x00 ∷ 0x00 ∷ 0x00
              ∷ 0x34 ∷ 0x12 ∷ 0x00 ∷ 0x00 ∷ 0x00 ∷ 0x00 ∷ 0x00 ∷ 0x00 ∷ 0x78 ∷ 0x56 ∷ 0x00 ∷ 0x00
              ∷ 0x78 ∷ 0x56 ∷ 0x00 ∷ 0x00 ∷ 0x11 ∷ 0x00 ∷ 0x00 ∷ 0x00 ∷ 0x00 ∷ 0x00 ∷ 0x00 ∷ 0x00
              ∷ 0x22 ∷ 0x00 ∷ 0x00 ∷ 0x00 ∷ 0x00 ∷ 0x00 ∷ 0x00 ∷ 0x00 ∷ 0x33 ∷ 0x00 ∷ 0x00 ∷ 0x00
              ∷ 0x00 ∷ 0x00 ∷ 0x00 ∷ 0x00 ∷ 0x34 ∷ 0x12 ∷ 0x00 ∷ 0x00 ∷ 0x00 ∷ 0x00 ∷ 0x00 ∷ 0x00
              ∷ 0x34 ∷ 0x12 ∷ 0x00 ∷ 0x00 ∷ 0x00 ∷ 0x00 ∷ 0x00 ∷ 0x00 ∷ 0x34 ∷ 0x12 ∷ 0x00 ∷ 0x00
              ∷ 0x00 ∷ 0x00 ∷ 0x00 ∷ 0x00 ∷ 0x78 ∷ 0x56 ∷ 0x00 ∷ 0x00 ∷ 0x78 ∷ 0x56 ∷ 0x00 ∷ 0x00
              ∷ 0x78 ∷ 0x56 ∷ 0x00 ∷ 0x00 ∷ 0xa4 ∷ 0x81 ∷ 0x00 ∷ 0x00 ∷ 0x55 ∷ 0x00 ∷ 0x00 ∷ 0x00
              ∷ 0x66 ∷ 0x00 ∷ 0x00 ∷ 0x00 ∷ 0x77 ∷ 0x00 ∷ 0x00 ∷ 0x00 ∷ 0x88 ∷ 0x00 ∷ 0x00 ∷ 0x00
              ∷ 0xbb ∷ 0x00 ∷ 0x00 ∷ 0x00 ∷ 0x00 ∷ 0x00 ∷ 0x00 ∷ 0x00 ∷ 0xcc ∷ 0x00 ∷ 0x00 ∷ 0x00
              ∷ 0x00 ∷ 0x00 ∷ 0x00 ∷ 0x00 ∷ [])
          ∷ []));
}

-- On Linux all of them pass.
attributes_bytes :
    Passes (reply_entry_test linux)
    × Passes (reply_attr_test linux)
    × Passes (reply_create_test linux)
unfolding react reply_body entry_body attr_body create_body consume send drop_reply header as_bytes
    fields le
attributes_bytes = (refl, refl, refl)

-- On OS X all of them pass.
attributes_bytes_osx :
    Passes (reply_entry_test darwin)
    × Passes (reply_attr_test darwin)
    × Passes (reply_create_test darwin)
unfolding react reply_body entry_body attr_body create_body consume send drop_reply header as_bytes
    fields le
attributes_bytes_osx = (refl, refl, refl)
