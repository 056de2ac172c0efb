-- ===== src/Reply/Answer.antt =====
-- What a method of a filesystem may do with its reply object (src/reply.rs): call a method that
-- consumes it, drop it, move it away, to another thread, and use it later, or panic while it holds
-- the reply, which drops it on the way out; or do one of these and panic after it.
use rust_fuse.Prelude.{ℕ, List, [], ◌∷◌, Bool, Option, none, some}
use rust_fuse.Argument.{Fault, panic, Outcome, done, fault}
use rust_fuse.Platform.{Platform}
use rust_fuse.Reply.Raw
use rust_fuse.Reply.Raw.{ReplyRaw, ChannelSender, Packet}
use rust_fuse.Reply.Kinds.{RawKind, Content, reply_body}
use rust_fuse.Reply.Directory
use rust_fuse.Reply.Directory.{ReplyDirectory, DirEntry}

pub data ReplyKind : Type 0 where
  raw : RawKind → ReplyKind
  directory : ReplyKind

pub data Reaction (C : Type 0) : Type 0 where
  replies : C → Reaction C
  fails : ℕ → Reaction C
  drops : Reaction C
  defers : Reaction C
  panics : Reaction C
  panics_after : Reaction C → Reaction C

-- With a directory reply a filesystem adds entries, sees each time whether the buffer is full, may ask
-- for another size, and then does one of the same things.
pub data DirectoryProgram : Type 0 where
  adds : DirEntry → (Bool → DirectoryProgram) → DirectoryProgram
  resizes : ℕ → DirectoryProgram → DirectoryProgram
  finish : Reaction (Unit {0}) → DirectoryProgram

abbrev pub Answer : ReplyKind → Type 0
Answer (raw kind) = Reaction (Content kind)
Answer directory = DirectoryProgram

abbrev pub ReplyObject : ReplyKind → Type 0
ReplyObject (raw kind) = ReplyRaw
ReplyObject directory = ReplyDirectory

-- A reply object that was moved away and not used yet.
pub data Pending : Type 0 where
  pending : (kind : ReplyKind) → ReplyObject kind → Pending

-- What came of a reply object: packets, an object that was kept, and a panic.
pub record Resolution : Type 0 where
  pub sent : List Packet
  pub deferred : List Pending
  pub failure : Option Fault

-- A panic of the method: what the destructor of the reply object sent, and the panic.
abbrev pub unwinds : Outcome (List Packet) → Outcome Resolution
unwinds (done ps) = done (record { sent = ps; deferred = []; failure = some panic })
unwinds (fault x) = fault x

abbrev pub sends : Outcome (List Packet) → Outcome Resolution
sends (done ps) = done (record { sent = ps; deferred = []; failure = none })
sends (fault x) = fault x

-- A panic behind the last use of the reply object.
abbrev pub fails_after : Outcome Resolution → Outcome Resolution
fails_after (done res) = done (record res { failure = some panic })
fails_after (fault x) = fault x

module _ (platform : Platform) where
  -- `Request::reply`, with the constructor of the type.
  unfoldable pub new_reply : (kind : ReplyKind) → ℕ → ChannelSender → ReplyObject kind
  new_reply (raw _) unique ch = Raw.new unique ch
  new_reply directory unique ch = Directory.new platform unique ch

  unfoldable pub react : (kind : RawKind) → ReplyRaw → Reaction (Content kind) → Outcome Resolution
  react kind r (replies c) = sends (Raw.consume platform r 0 (reply_body platform kind c))
  react kind r (fails err) = sends (Raw.error platform r err)
  react kind r drops = sends (Raw.drop_reply platform r)
  react kind r defers =
      done (record { sent = []; deferred = pending (raw kind) r ∷ []; failure = none })
  react kind r panics = unwinds (Raw.drop_reply platform r)
  react kind r (panics_after reaction) = fails_after (react kind r reaction)

  unfoldable pub finish_directory : ReplyDirectory → Reaction (Unit {0}) → Outcome Resolution
  finish_directory r (replies _) = sends (Directory.ok platform r)
  finish_directory r (fails err) = sends (Directory.error platform r err)
  finish_directory r drops = sends (Raw.drop_reply platform r.reply)
  finish_directory r defers =
      done (record { sent = []; deferred = pending directory r ∷ []; failure = none })
  finish_directory r panics = unwinds (Raw.drop_reply platform r.reply)
  finish_directory r (panics_after reaction) = fails_after (finish_directory r reaction)

  -- The reply as the program leaves it, and the entries that were taken on the way.
  unfoldable pub fill : ReplyDirectory → DirectoryProgram → ReplyDirectory × Reaction (Unit {0})
  fill r (finish reaction) = (r, reaction)
  fill r (resizes size p) = fill (Directory.sized platform r size) p
  fill r (adds e k) = fill (Directory.add platform r e).0 (k (Directory.add platform r e).1)

  unfoldable pub answer : (kind : ReplyKind) → ReplyObject kind → Answer kind → Outcome Resolution
  unfolding react finish_directory fill
  answer (raw kind) r reaction = react kind r reaction
  answer directory r program = let (r', reaction) = fill r program in finish_directory r' reaction
