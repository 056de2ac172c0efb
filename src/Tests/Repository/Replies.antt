-- ===== src/Tests/Repository/Replies.antt =====
-- The tests of src/reply.rs: the bytes of replies without attributes.
use rust_fuse.Prelude.{refl, [], ◌∷◌}
use rust_fuse.Wire.{fields}
use rust_fuse.Wire.Numbers.{le}
use rust_fuse.Argument.{Outcome}
use rust_fuse.Platform.{Platform, linux, darwin}
use rust_fuse.Reply.Raw
use rust_fuse.Reply.Raw.{consume, send, drop_reply, header, as_bytes}
use rust_fuse.Reply.Kinds.{RawKind, reply_body, entry_body, attr_body, create_body}
use rust_fuse.Reply.Answer.{Resolution, react, replies, sends}
use rust_fuse.Tests.Repository.{Assertion, Passes}
use rust_fuse.Tests.Repository.Data.{
  test_time, test_reply, one_packet, some_data, data_pod, two_data_pod, unit_pod,
}

abbrev reply_raw_test : Platform → Assertion (Outcome Resolution)
reply_raw_test platform = record {
  actual = sends (Raw.ok platform test_reply some_data);
  expected = one_packet (
      (0x14 ∷ 0x00 ∷ 0x00 ∷ 0x00 ∷ 0x00 ∷ 0x00 ∷ 0x00 ∷ 0x00 ∷ 0xef ∷ 0xbe ∷ 0xad ∷ 0xde ∷ 0x00
        ∷ 0x00 ∷ 0x00 ∷ 0x00 ∷ [])
      ∷ (0x12 ∷ 0x34 ∷ 0x78 ∷ 0x56 ∷ [])
      ∷ []);
}

abbrev reply_error_test : Platform → Assertion (Outcome Resolution)
reply_error_test platform = record {
  actual = sends (Raw.error platform test_reply 66);
  expected = one_packet (
      (0x10 ∷ 0x00 ∷ 0x00 ∷ 0x00 ∷ 0xbe ∷ 0xff ∷ 0xff ∷ 0xff ∷ 0xef ∷ 0xbe ∷ 0xad ∷ 0xde ∷ 0x00
        ∷ 0x00 ∷ 0x00 ∷ 0x00 ∷ [])
      ∷ []);
}

abbrev reply_empty_test : Platform → Assertion (Outcome Resolution)
reply_empty_test platform = record {
  actual = react platform RawKind.empty test_reply (replies tt);
  expected = one_packet (
      (0x10 ∷ 0x00 ∷ 0x00 ∷ 0x00 ∷ 0x00 ∷ 0x00 ∷ 0x00 ∷ 0x00 ∷ 0xef ∷ 0xbe ∷ 0xad ∷ 0xde ∷ 0x00
        ∷ 0x00 ∷ 0x00 ∷ 0x00 ∷ [])
      ∷ []);
}

abbrev reply_data_test : Platform → Assertion (Outcome Resolution)
reply_data_test platform = record {
  actual = react platform RawKind.blob test_reply (replies (0xde ∷ 0xad ∷ 0xbe ∷ 0xef ∷ []));
  expected = one_packet (
      (0x14 ∷ 0x00 ∷ 0x00 ∷ 0x00 ∷ 0x00 ∷ 0x00 ∷ 0x00 ∷ 0x00 ∷ 0xef ∷ 0xbe ∷ 0xad ∷ 0xde ∷ 0x00
        ∷ 0x00 ∷ 0x00 ∷ 0x00 ∷ [])
      ∷ (0xde ∷ 0xad ∷ 0xbe ∷ 0xef ∷ [])
      ∷ []);
}

abbrev reply_open_test : Platform → Assertion (Outcome Resolution)
reply_open_test platform = record {
  actual =
      react platform RawKind.open_file test_reply (replies (record { fh = 0x1122; flags = 0x33 }));
  expected = one_packet (
      (0x20 ∷ 0x00 ∷ 0x00 ∷ 0x00 ∷ 0x00 ∷ 0x00 ∷ 0x00 ∷ 0x00 ∷ 0xef ∷ 0xbe ∷ 0xad ∷ 0xde ∷ 0x00
        ∷ 0x00 ∷ 0x00 ∷ 0x00 ∷ [])
      ∷ (0x22 ∷ 0x11 ∷ 0x00 ∷ 0x00 ∷ 0x00 ∷ 0x00 ∷ 0x00 ∷ 0x00 ∷ 0x33 ∷ 0x00 ∷ 0x00 ∷ 0x00 ∷ 0x00
          ∷ 0x00 ∷ 0x00 ∷ 0x00 ∷ [])
      ∷ []);
}

abbrev reply_write_test : Platform → Assertion (Outcome Resolution)
reply_write_test platform = record {
  actual = react platform RawKind.write test_reply (replies 0x1122);
  expected = one_packet (
      (0x18 ∷ 0x00 ∷ 0x00 ∷ 0x00 ∷ 0x00 ∷ 0x00 ∷ 0x00 ∷ 0x00 ∷ 0xef ∷ 0xbe ∷ 0xad ∷ 0xde ∷ 0x00
        ∷ 0x00 ∷ 0x00 ∷ 0x00 ∷ [])
      ∷ (0x22 ∷ 0x11 ∷ 0x00 ∷ 0x00 ∷ 0x00 ∷ 0x00 ∷ 0x00 ∷ 0x00 ∷ [])
      ∷ []);
}

abbrev reply_statfs_test : Platform → Assertion (Outcome Resolution)
reply_statfs_test platform = record {
  actual = react platform RawKind.statfs test_reply (
      replies (record {
        blocks = 0x11;
        bfree = 0x22;
        bavail = 0x33;
        files = 0x44;
        ffree = 0x55;
        bsize = 0x66;
        namelen = 0x77;
        frsize = 0x88;
      }));
  expected = one_packet (
      (0x60 ∷ 0x00 ∷ 0x00 ∷ 0x00 ∷ 0x00 ∷ 0x00 ∷ 0x00 ∷ 0x00 ∷ 0xef ∷ 0xbe ∷ 0xad ∷ 0xde ∷ 0x00
        ∷ 0x00 ∷ 0x00 ∷ 0x00 ∷ [])
      ∷ (0x11 ∷ 0x00 ∷ 0x00 ∷ 0x00 ∷ 0x00 ∷ 0x00 ∷ 0x00 ∷ 0x00 ∷ 0x22 ∷ 0x00 ∷ 0x00 ∷ 0x00 ∷ 0x00
          ∷ 0x00 ∷ 0x00 ∷ 0x00 ∷ 0x33 ∷ 0x00 ∷ 0x00 ∷ 0x00 ∷ 0x00 ∷ 0x00 ∷ 0x00 ∷ 0x00 ∷ 0x44 ∷ 0x00
          ∷ 0x00 ∷ 0x00 ∷ 0x00 ∷ 0x00 ∷ 0x00 ∷ 0x00 ∷ 0x55 ∷ 0x00 ∷ 0x00 ∷ 0x00 ∷ 0x00 ∷ 0x00 ∷ 0x00
          ∷ 0x00 ∷ 0x66 ∷ 0x00 ∷ 0x00 ∷ 0x00 ∷ 0x77 ∷ 0x00 ∷ 0x00 ∷ 0x00 ∷ 0x88 ∷ 0x00 ∷ 0x00 ∷ 0x00
          ∷ 0x00 ∷ 0x00 ∷ 0x00 ∷ 0x00 ∷ 0x00 ∷ 0x00 ∷ 0x00 ∷ 0x00 ∷ 0x00 ∷ 0x00 ∷ 0x00 ∷ 0x00 ∷ 0x00
          ∷ 0x00 ∷ 0x00 ∷ 0x00 ∷ 0x00 ∷ 0x00 ∷ 0x00 ∷ 0x00 ∷ 0x00 ∷ 0x00 ∷ 0x00 ∷ 0x00 ∷ 0x00 ∷ 0x00
          ∷ 0x00 ∷ 0x00 ∷ [])
      ∷ []);
}

abbrev reply_lock_test : Platform → Assertion (Outcome Resolution)
reply_lock_test platform = record {
  actual =
      react platform RawKind.lock test_reply
        (replies (record { start = 0x11; end = 0x22; typ = 0x33; pid = 0x44 }));
  expected = one_packet (
      (0x28 ∷ 0x00 ∷ 0x00 ∷ 0x00 ∷ 0x00 ∷ 0x00 ∷ 0x00 ∷ 0x00 ∷ 0xef ∷ 0xbe ∷ 0xad ∷ 0xde ∷ 0x00
        ∷ 0x00 ∷ 0x00 ∷ 0x00 ∷ [])
      ∷ (0x11 ∷ 0x00 ∷ 0x00 ∷ 0x00 ∷ 0x00 ∷ 0x00 ∷ 0x00 ∷ 0x00 ∷ 0x22 ∷ 0x00 ∷ 0x00 ∷ 0x00 ∷ 0x00
          ∷ 0x00 ∷ 0x00 ∷ 0x00 ∷ 0x33 ∷ 0x00 ∷ 0x00 ∷ 0x00 ∷ 0x44 ∷ 0x00 ∷ 0x00 ∷ 0x00 ∷ [])
      ∷ []);
}

abbrev reply_bmap_test : Platform → Assertion (Outcome Resolution)
reply_bmap_test platform = record {
  actual = react platform RawKind.bmap test_reply (replies 0x1234);
  expected = one_packet (
      (0x18 ∷ 0x00 ∷ 0x00 ∷ 0x00 ∷ 0x00 ∷ 0x00 ∷ 0x00 ∷ 0x00 ∷ 0xef ∷ 0xbe ∷ 0xad ∷ 0xde ∷ 0x00
        ∷ 0x00 ∷ 0x00 ∷ 0x00 ∷ [])
      ∷ (0x34 ∷ 0x12 ∷ 0x00 ∷ 0x00 ∷ 0x00 ∷ 0x00 ∷ 0x00 ∷ 0x00 ∷ [])
      ∷ []);
}

abbrev reply_xtimes_test : Platform → Assertion (Outcome Resolution)
reply_xtimes_test platform = record {
  actual =
      react platform RawKind.xtimes test_reply
        (replies (record { bkuptime = test_time; crtime = test_time }));
  expected = one_packet (
      (0x28 ∷ 0x00 ∷ 0x00 ∷ 0x00 ∷ 0x00 ∷ 0x00 ∷ 0x00 ∷ 0x00 ∷ 0xef ∷ 0xbe ∷ 0xad ∷ 0xde ∷ 0x00
        ∷ 0x00 ∷ 0x00 ∷ 0x00 ∷ [])
      ∷ (0x34 ∷ 0x12 ∷ 0x00 ∷ 0x00 ∷ 0x00 ∷ 0x00 ∷ 0x00 ∷ 0x00 ∷ 0x34 ∷ 0x12 ∷ 0x00 ∷ 0x00 ∷ 0x00
          ∷ 0x00 ∷ 0x00 ∷ 0x00 ∷ 0x78 ∷ 0x56 ∷ 0x00 ∷ 0x00 ∷ 0x78 ∷ 0x56 ∷ 0x00 ∷ 0x00 ∷ [])
      ∷ []);
}

-- On Linux all of them pass.
replies_bytes :
    Passes (reply_raw_test linux)
    × Passes (reply_error_test linux)
    × Passes (reply_empty_test linux)
    × Passes (reply_data_test linux)
    × Passes (reply_open_test linux)
    × Passes (reply_write_test linux)
    × Passes (reply_statfs_test linux)
    × Passes (reply_lock_test linux)
    × Passes (reply_bmap_test linux)
unfolding react reply_body entry_body attr_body create_body consume send drop_reply header as_bytes
    fields le
replies_bytes = (refl, refl, refl, refl, refl, refl, refl, refl, refl)

-- On OS X all of them pass.
replies_bytes_osx :
    Passes (reply_raw_test darwin)
    × Passes (reply_error_test darwin)
    × Passes (reply_empty_test darwin)
    × Passes (reply_data_test darwin)
    × Passes (reply_open_test darwin)
    × Passes (reply_write_test darwin)
    × Passes (reply_statfs_test darwin)
    × Passes (reply_lock_test darwin)
    × Passes (reply_bmap_test darwin)
    × Passes (reply_xtimes_test darwin)
unfolding react reply_body entry_body attr_body create_body consume send drop_reply header as_bytes
    fields le
replies_bytes_osx = (refl, refl, refl, refl, refl, refl, refl, refl, refl, refl)
