-- ===== src/Reply/Body.antt =====
-- What the kernel reads from the body of every typed reply.
mod Reader
pub use Reader.{Body, read_body, body_of, IsContent}
use Reader.{mode_type, mode_of, seen_attr, seen_attr_osx, seen_entry, seen_entry_osx, seen_opened}
use rust_fuse.Prelude.{
  Bool, true, false, ℕ, ◌-◌, ◌^◌, ◌<◌, ◌≡◌, refl, arith, List, [], ◌∷◌, ◌++◌, none, some, ap, ◌∙◌,
  append-nil, take, drop, length, replicate, bit_or,
}
use rust_fuse.Wire.{Pod, PodLaws, fields, IsU64, IsU32}
use rust_fuse.Wire.Numbers.{le, from_le, from_le-le}
use rust_fuse.Filesystem.Attributes.{
  FileType, FileAttr, file_type_bits, mode_from_kind_and_perm, fuse_attr_from_attr,
  fuse_attr_from_attr_osx,
}
use rust_fuse.Abi.Replies.{
  FuseEntryOut, FuseAttrOut, FuseOpenOut, FuseWriteOut, FuseStatfsOut, FuseLkOut, FuseBmapOut,
  entry_out_pod, attr_out_pod, open_out_pod, write_out_pod, statfs_out_pod, lk_out_pod,
  bmap_out_pod, FuseAttr,
}
use rust_fuse.Abi.RoundTrip.Replies.{
  IsFuseEntryOut, IsFuseAttrOut, IsFuseOpenOut, IsFuseLkOut, entry_out_pod_laws, attr_out_pod_laws,
  open_out_pod_laws, write_out_pod_laws, lk_out_pod_laws, bmap_out_pod_laws,
}
use rust_fuse.Abi.OsxReplies.{
  FuseEntryOutOsx, FuseAttrOutOsx, FuseGetxtimesOut, entry_out_osx_pod, attr_out_osx_pod,
  getxtimes_out_pod,
}
use rust_fuse.Abi.RoundTrip.OsxReplies.{
  IsFuseEntryOutOsx, IsFuseAttrOutOsx, IsFuseGetxtimesOut, entry_out_osx_pod_laws,
  attr_out_osx_pod_laws, getxtimes_out_pod_laws,
}
use rust_fuse.Argument.{done}
use rust_fuse.Platform.{Platform, HasFileTypes}
use rust_fuse.Reply.Raw
use rust_fuse.Reply.Raw.{ChannelSender, Packet, as_bytes, total_length}
use rust_fuse.Reply.Kinds.{
  Entry, Attr, Opened, entry_body, attr_body, create_body, entry_out_osx, attr_out_osx, xtimes_out,
  RawKind, Content, reply_body, entry_out, attr_out, open_out, statfs_out, lk_out, create_pod,
}
use rust_fuse.Reply.Answer.{react, replies}
use rust_fuse.Reply.Message.{gather, packet, read_message, read_message-packet}
use rust_fuse.Reply.Once.{react-replies}

module _ (platform : Platform) where
  -- What the code puts into the structures.
  abbrev written : (os_x : Bool) (kind : RawKind) → Content kind → Body os_x kind
  written os_x RawKind.empty _ = []
  written os_x RawKind.blob bytes = bytes
  written false RawKind.entry e = entry_out platform e
  written true RawKind.entry e = entry_out_osx platform e
  written false RawKind.attr a = attr_out platform a
  written true RawKind.attr a = attr_out_osx platform a
  written os_x RawKind.open_file o = open_out o
  written os_x RawKind.write size = record { size = size; padding = 0 }
  written os_x RawKind.statfs s = statfs_out s
  written false RawKind.create (e, o) = (entry_out platform e, open_out o)
  written true RawKind.create (e, o) = (entry_out_osx platform e, open_out o)
  written os_x RawKind.lock l = lk_out l
  written os_x RawKind.bmap block = record { block = block }
  written os_x RawKind.xtimes x = xtimes_out x

  file_type_lem :
      HasFileTypes platform → (kind : FileType) → file_type_bits platform kind ≡ mode_type kind
  file_type_lem t FileType.named_pipe = t.ififo
  file_type_lem t FileType.char_device = t.ifchr
  file_type_lem t FileType.directory = t.ifdir
  file_type_lem t FileType.block_device = t.ifblk
  file_type_lem t FileType.regular_file = t.ifreg
  file_type_lem t FileType.symlink = t.iflnk

  mode_lem :
      HasFileTypes platform
      → (a : FileAttr) → mode_from_kind_and_perm platform a.kind a.perm ≡ mode_of a
  mode_lem t a = ap (λ m. bit_or m a.perm) (file_type_lem t a.kind)

  attr_lem : HasFileTypes platform → (a : FileAttr) → fuse_attr_from_attr platform a ≡ seen_attr a
  attr_lem t a = ap (λ m. record (seen_attr a) { mode = m }) (mode_lem t a)

  attr_osx_lem :
      HasFileTypes platform → (a : FileAttr) → fuse_attr_from_attr_osx platform a ≡ seen_attr_osx a
  attr_osx_lem t a = ap (λ m. record (seen_attr_osx a) { mode = m }) (mode_lem t a)

  entry_lem : HasFileTypes platform → (e : Entry) → entry_out platform e ≡ seen_entry e
  entry_lem t e = ap (λ a. record (seen_entry e) { attr = a }) (attr_lem t e.attr)

  entry_osx_lem : HasFileTypes platform → (e : Entry) → entry_out_osx platform e ≡ seen_entry_osx e
  entry_osx_lem t e = ap (λ a. record (seen_entry_osx e) { attr = a }) (attr_osx_lem t e.attr)

  written-body_of :
      HasFileTypes platform
      → (os_x : Bool) (kind : RawKind) (c : Content kind)
      → written os_x kind c ≡ body_of os_x kind c
  written-body_of t os_x RawKind.empty c = refl
  written-body_of t os_x RawKind.blob c = refl
  written-body_of t false RawKind.entry e = entry_lem t e
  written-body_of t true RawKind.entry e = entry_osx_lem t e
  written-body_of t false RawKind.attr a =
      ap (λ k. record (body_of false RawKind.attr a) { attr = k }) (attr_lem t a.attr)
  written-body_of t true RawKind.attr a =
      ap (λ k. record (body_of true RawKind.attr a) { attr = k }) (attr_osx_lem t a.attr)
  written-body_of t os_x RawKind.open_file o = refl
  written-body_of t os_x RawKind.write size = refl
  written-body_of t os_x RawKind.statfs s = refl
  written-body_of t false RawKind.create (e, o) = ap (λ k. (k, seen_opened o)) (entry_lem t e)
  written-body_of t true RawKind.create (e, o) = ap (λ k. (k, seen_opened o)) (entry_osx_lem t e)
  written-body_of t os_x RawKind.lock l = refl
  written-body_of t os_x RawKind.bmap block = refl
  written-body_of t os_x RawKind.xtimes x = refl

  read_one :
      {A : Type 0} (p : Pod A) {IsValid : A → Type 0} (laws : PodLaws p IsValid) (a : A)
      → IsValid a
      → p.of_bytes (p.to_bytes a ++ []) ≡ a
  read_one p laws a v = ap p.of_bytes (append-nil _) ∙ laws.of-to a v

  read_entry :
      (os_x : Bool) (e : Entry)
      → IsContent platform os_x RawKind.entry e
      → read_body os_x RawKind.entry (gather (entry_body platform os_x e))
        ≡ written os_x RawKind.entry e
  unfolding entry_body fields
  read_entry true e v =
      read_one entry_out_osx_pod entry_out_osx_pod_laws (entry_out_osx platform e) v
  read_entry false e v = read_one entry_out_pod entry_out_pod_laws (entry_out platform e) v

  read_attr :
      (os_x : Bool) (a : Attr)
      → IsContent platform os_x RawKind.attr a
      → read_body os_x RawKind.attr (gather (attr_body platform os_x a))
        ≡ written os_x RawKind.attr a
  unfolding attr_body fields
  read_attr true a v = read_one attr_out_osx_pod attr_out_osx_pod_laws (attr_out_osx platform a) v
  read_attr false a v = read_one attr_out_pod attr_out_pod_laws (attr_out platform a) v

  read_create :
      (os_x : Bool) (c : Entry × Opened)
      → IsContent platform os_x RawKind.create c
      → read_body os_x RawKind.create (gather (create_body platform os_x c))
        ≡ written os_x RawKind.create c
  unfolding create_body fields le from_le
  read_create true (e, o) v = λ i. (
    entry_out_osx_pod_laws.of-to (entry_out_osx platform e) v.0 i,
    open_out_pod_laws.of-to (open_out o) v.1 i,
  )
  read_create false (e, o) v = λ i. (
    entry_out_pod_laws.of-to (entry_out platform e) v.0 i,
    open_out_pod_laws.of-to (open_out o) v.1 i,
  )

  pub read_body-reply_body :
      (kind : RawKind) (c : Content kind)
      → IsContent platform platform.os_x kind c
      → read_body platform.os_x kind (gather (reply_body platform kind c))
        ≡ written platform.os_x kind c
  unfolding reply_body fields le from_le
  read_body-reply_body RawKind.empty c v = refl
  read_body-reply_body RawKind.blob c v = append-nil c
  read_body-reply_body RawKind.entry c v = read_entry platform.os_x c v
  read_body-reply_body RawKind.attr c v = read_attr platform.os_x c v
  read_body-reply_body RawKind.open_file c v =
      read_one open_out_pod open_out_pod_laws (open_out c) v
  read_body-reply_body RawKind.write c v =
      read_one write_out_pod write_out_pod_laws (record { size = c; padding = 0 }) (v, omega arith)
  read_body-reply_body RawKind.statfs c v = λ i. record {
    st = record {
      blocks = from_le-le 8 c.blocks v.0 i;
      bfree = from_le-le 8 c.bfree v.1 i;
      bavail = from_le-le 8 c.bavail v.2 i;
      files = from_le-le 8 c.files v.3 i;
      ffree = from_le-le 8 c.ffree v.4 i;
      bsize = from_le-le 4 c.bsize v.5 i;
      namelen = from_le-le 4 c.namelen v.6 i;
      frsize = from_le-le 4 c.frsize v.7 i;
      padding = 0;
      spare = replicate 6 0;
    };
  }
  read_body-reply_body RawKind.create c v = read_create platform.os_x c v
  read_body-reply_body RawKind.xtimes c v =
      read_one getxtimes_out_pod getxtimes_out_pod_laws (xtimes_out c) v
  read_body-reply_body RawKind.lock c v = read_one lk_out_pod lk_out_pod_laws (lk_out c) v
  read_body-reply_body RawKind.bmap c v =
      read_one bmap_out_pod bmap_out_pod_laws (record { block = c }) v

  length_entry_body :
      (os_x : Bool) (e : Entry) → total_length (entry_body platform os_x e) < 2 ^ 32 - 16
  unfolding entry_body fields le
  length_entry_body true e = omega arith
  length_entry_body false e = omega arith

  length_attr_body :
      (os_x : Bool) (a : Attr) → total_length (attr_body platform os_x a) < 2 ^ 32 - 16
  unfolding attr_body fields le
  length_attr_body true a = omega arith
  length_attr_body false a = omega arith

  length_create_body :
      (os_x : Bool) (c : Entry × Opened) → total_length (create_body platform os_x c) < 2 ^ 32 - 16
  unfolding create_body fields le
  length_create_body true c = omega arith
  length_create_body false c = omega arith

  length_reply_body :
      (kind : RawKind) (c : Content kind)
      → IsContent platform platform.os_x kind c
      → total_length (reply_body platform kind c) < 2 ^ 32 - 16
  unfolding reply_body fields le
  length_reply_body RawKind.empty c v = omega arith
  length_reply_body RawKind.blob c v = omega arith
  length_reply_body RawKind.entry c v = length_entry_body platform.os_x c
  length_reply_body RawKind.attr c v = length_attr_body platform.os_x c
  length_reply_body RawKind.open_file c v = omega arith
  length_reply_body RawKind.write c v = omega arith
  length_reply_body RawKind.statfs c v = omega arith
  length_reply_body RawKind.create c v = length_create_body platform.os_x c
  length_reply_body RawKind.lock c v = omega arith
  length_reply_body RawKind.bmap c v = omega arith
  length_reply_body RawKind.xtimes c v = omega arith

  -- For every typed reply, on Linux and on OS X, if the types of files have the numbers of POSIX
  -- systems, the id is a u64 and the values of the answer fit their fields, a successful answer
  -- sends one packet, and the kernel reads from it the id, no error, and a body with exactly those
  -- values: the attributes of the file, and its type and permissions as its mode, the time of
  -- validity twice, for the entry and for its attributes.
  pub react-read_body :
      (unique : ℕ) (ch : ChannelSender) (kind : RawKind) (c : Content kind)
      → HasFileTypes platform
      → IsU64 unique
      → IsContent platform platform.os_x kind c
      → (p : Packet) × (body : List ℕ) × (react platform kind (Raw.new unique ch) (replies c)
          ≡ done (record { sent = p ∷ []; deferred = []; failure = none }))
        × (read_message p ≡ some (record { unique = unique; error = 0; body = body }))
        × (read_body platform.os_x kind body ≡ body_of platform.os_x kind c)
  react-read_body unique ch kind c t u v = (
    packet (Raw.new unique ch) ch 0 (reply_body platform kind c),
    gather (reply_body platform kind c),
    react-replies platform unique ch kind c,
    read_message-packet (Raw.new unique ch) ch 0 (reply_body platform kind c) u
        (length_reply_body kind c v),
    read_body-reply_body kind c v ∙ written-body_of t platform.os_x kind c,
  )
