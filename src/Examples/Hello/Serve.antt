-- ===== src/Examples/Hello/Serve.antt =====
-- What a kernel gets from HelloFS, from the bytes of its requests to the packets.
use rust_fuse.Prelude.{
  ℕ, ◌++◌, length-append, le→not-ltb, All, ◌+◌, ◌≤◌, ◌<◌, ◌≡◌, refl, arith, List, [], ◌∷◌, map,
  none, some, true, false, length, drop, leb, if◌then◌else◌, if_cases, inl, inr, Bool-cases, ◌∙◌,
  ap,
}
use rust_fuse.Argument.{Outcome, panic}
use rust_fuse.Abi.Control.{FuseInHeader}
use rust_fuse.Platform.{Platform, IsPosix, linux, linux-IsPosix, linux-HasFileTypes}
use rust_fuse.Filesystem.Calls.{Call}
use rust_fuse.Reply.Raw
use rust_fuse.Reply.Raw.{ChannelSender}
use rust_fuse.Reply.Kinds.{reply_body, RawKind, Entry}
use rust_fuse.Reply.Answer.{Resolution, replies, answer, react, new_reply, fill}
use rust_fuse.Reply.Message.{packet}
use rust_fuse.Reply.Once.{react-replies, drop_reply_lem}
use rust_fuse.Reply.Directory
use rust_fuse.Reply.Directory.{ReplyDirectory, DirEntry, add, sized, entsize, entry_bytes}
use rust_fuse.Reply.Directory.Bounds.{length-entry_bytes}
use rust_fuse.Reply.Listing.{IsProgram, taken, reply_for, answer-taken}
use rust_fuse.Reply.Directory.Entries.{IsEntry, listed, read_entries, Listed}
use rust_fuse.Session.State.{Session}
use rust_fuse.Request.Decode.{calls, reads_directory}
use rust_fuse.Request.Dispatch.{Effect, dispatch, perform, call_with, after}
use rust_fuse.Request.Encode.Valid.{IsOperation}
use rust_fuse.Request.Serve.{request_for, dispatch-request_for}
use rust_fuse.Examples.Hello.{
  hello_fs, hello_method, hello_txt_content, hello_listing, dot, dot_dot, hello_entry,
}

-- Whatever name is found, its number has the same attributes.
pub lookup-getattr :
    (platform : Platform) (parent : ℕ) (name : List ℕ) (e : Entry)
    → hello_method platform (Call.lookup parent name) ≡ replies e
    → hello_method platform (Call.getattr e.attr.ino)
      ≡ replies (record { ttl = e.ttl; attr = e.attr })
unfolding hello_method
lookup-getattr platform parent name e h = ground arith

module _ (platform : Platform) (se : Session (hello_fs platform)) (ch : ChannelSender)
    (h : FuseInHeader) where
  -- What comes of a READ of the file: the rest of the content, or a panic behind its end.
  abbrev pub read_effect : ℕ → Effect (hello_fs platform)
  read_effect offset =
      if leb offset (length hello_txt_content)
      then record {
        session = se;
        sent = packet (Raw.new h.unique ch) ch 0 (drop offset hello_txt_content ∷ []) ∷ [];
        deferred = [];
        failure = none;
      }
      else record {
        session = se;
        sent = packet (Raw.new h.unique ch) ch platform.eio [] ∷ [];
        deferred = [];
        failure = some panic;
      }

  -- If errors, memory and `Timespec::new` are as documented, then in a session with HelloFS that
  -- is initialized and not destroyed, a READ of the file whose values fit their fields is answered
  -- with all of the content from the offset on, whatever the size, if the offset is within the
  -- content; behind its end the method panics, and the reply is EIO.
  pub dispatch-hello_read :
      (fh offset size : ℕ)
      → IsPosix platform
      → IsOperation platform.os_x (calls (Call.read 2 fh offset size))
      → se.initialized ≡ true
      → se.destroyed ≡ false
      → dispatch platform (request_for platform.os_x ch h (calls (Call.read 2 fh offset size))) se
        ≡ read_effect offset
  unfolding perform call_with hello_method answer react new_reply reply_body
  dispatch-hello_read fh offset size posix v on off =
      dispatch-request_for platform se ch h (calls (Call.read 2 fh offset size)) posix v on off
      ∙ elim (Bool-cases (leb offset (length hello_txt_content))) [
        | inl within ↦ rw within (
            ap (λ (o : Outcome Resolution). after se o)
              (react-replies platform h.unique ch RawKind.blob (drop offset hello_txt_content)))
        | inr behind ↦ rw (behind, drop_reply_lem platform h.unique ch)
      ]

entries_IsEntry : All (IsEntry linux) (dot ∷ dot_dot ∷ hello_entry ∷ [])
entries_IsEntry = omega arith

hello_IsProgram : IsProgram linux hello_listing
hello_IsProgram = let (a, (b, (c, _))) = entries_IsEntry in (a, λ _. (b, λ _. (c, λ _. tt)))

-- An entry that has room is taken.
add_room :
    (r : ReplyDirectory) (e : DirEntry)
    → length r.bytes + entsize e ≤ r.capacity
    → add linux r e ≡ (record r { bytes = r.bytes ++ entry_bytes linux e }, false)
unfolding add
add_room r e h = rw (le→not-ltb _ _ h)

hello_sizes : (entsize dot ≡ 32) × (entsize dot_dot ≡ 32) × (entsize hello_entry ≡ 40)
unfolding entsize
hello_sizes = (refl, refl, refl)

-- All three have room in 104 bytes.
taken-hello_listing :
    (r : ReplyDirectory)
    → length r.bytes + 104 ≤ r.capacity
    → taken linux r hello_listing ≡ dot ∷ dot_dot ∷ hello_entry ∷ []
taken-hello_listing r h =
    let (s1, s2, s3) = hello_sizes in
    let r1 : ReplyDirectory = record r { bytes = r.bytes ++ entry_bytes linux dot } in
    let r2 : ReplyDirectory = record r1 { bytes = r1.bytes ++ entry_bytes linux dot_dot } in
    let l1 = length-append r.bytes (entry_bytes linux dot) in
    let l2 = length-append r1.bytes (entry_bytes linux dot_dot) in
    let n1 = length-entry_bytes linux dot (omega arith) in
    let n2 = length-entry_bytes linux dot_dot (omega arith) in
    let a1 = add_room r dot (omega arith) in
    let a2 = add_room r1 dot_dot (omega arith) in
    let a3 = add_room r2 hello_entry (omega arith) in rw (a1, a2, a3)

-- The reply that READDIR makes has that room, whatever the size.
hello_taken :
    (unique : ℕ) (ch : ChannelSender) (size : ℕ)
    → taken linux (reply_for linux unique ch size) hello_listing ≡ dot ∷ dot_dot ∷ hello_entry ∷ []
unfolding sized Directory.new
hello_taken unique ch size = taken-hello_listing (reply_for linux unique ch size) (
    if_cases {A = ℕ} (λ (c : ℕ). 0 + 104 ≤ c) (leb (0 + size) 4096) (λ _. omega arith)
      (λ small. large (0 + size) small))
  where
    large : (n : ℕ) → leb n 4096 ≡ false → 0 + 104 ≤ n
    large n small = ground arith

-- What `ls` should show: two directories and a file.
abbrev pub hello_listed : List Listed
hello_listed =
    record { ino = 1; off = 0; typ = 4; name = 46 ∷ [] }
    ∷ record { ino = 1; off = 1; typ = 4; name = 46 ∷ 46 ∷ [] }
    ∷ record {
      ino = 2;
      off = 2;
      typ = 8;
      name = 104 ∷ 101 ∷ 108 ∷ 108 ∷ 111 ∷ 46 ∷ 116 ∷ 120 ∷ 116 ∷ [];
    }
    ∷ []

-- On Linux, in a session with HelloFS that is initialized and not destroyed, a READDIR of the root
-- directory from the offset 0, of whatever size that fits its field, is answered with one packet.
-- With more fuel than the three entries, the kernel reads from its body exactly three entries: the
-- directory `.` with the number 1 and the offset 0, the directory `..` with the number 1 and the
-- offset 1, and the regular file `hello.txt` with the number 2 and the offset 2.
pub dispatch-hello_readdir :
    (se : Session (hello_fs linux)) (ch : ChannelSender) (h : FuseInHeader) (fh size fuel : ℕ)
    → IsOperation linux.os_x (reads_directory 1 fh 0 size)
    → se.initialized ≡ true
    → se.destroyed ≡ false
    → 3 < fuel
    → (body : List ℕ) × (dispatch linux
          (request_for linux.os_x ch h (reads_directory 1 fh 0 size))
          se
        ≡ record {
          session = se;
          sent = packet (Raw.new h.unique ch) ch 0 (body ∷ []) ∷ [];
          deferred = [];
          failure = none;
        })
      × (read_entries fuel body ≡ hello_listed)
unfolding perform call_with hello_method
dispatch-hello_readdir se ch h fh size fuel v on off f =
    let taken_lem = hello_taken h.unique ch size in
    let (body, sent, entries) =
      answer-taken linux hello_listing h.unique ch size fuel linux-HasFileTypes hello_IsProgram
        (unfold fill in refl) (omega (arith, ap length taken_lem)) in
    (
      body,
      dispatch-request_for linux se ch h (reads_directory 1 fh 0 size) linux-IsPosix v on off
          ∙ ap (λ (o : Outcome Resolution). after se o) sent,
      entries ∙ ap (map listed) taken_lem,
    )
