-- ===== src/Request/Frame.antt =====
-- Which part of the session each piece of `Request::dispatch` changes.
use rust_fuse.Prelude.{◌≡◌, refl}
use rust_fuse.Argument.{Outcome, done, fault}
use rust_fuse.Platform.{Platform}
use rust_fuse.Reply.Answer.{Answer, Resolution}
use rust_fuse.Filesystem.Calls.{Call, kind_of}
use rust_fuse.Filesystem.Trait.{Filesystem, Request}
use rust_fuse.Session.State.{Session}
use rust_fuse.Request.Decode.{Operation, calls, reads_directory, forgets, unsupported}
use rust_fuse.Request.Dispatch.{after, call_with, perform}

module _ {fs : Filesystem} where
  pub session-after : (se : Session fs) (o : Outcome Resolution) → (after se o).session ≡ se
  session-after se (done r) = refl
  session-after se (fault x) = refl

  -- All but the filesystem is as it was.
  pub record SameSession (se se' : Session fs) : Type 0 where
    pub ch : se'.ch ≡ se.ch
    pub proto_major : se'.proto_major ≡ se.proto_major
    pub proto_minor : se'.proto_minor ≡ se.proto_minor
    pub initialized : se'.initialized ≡ se.initialized
    pub destroyed : se'.destroyed ≡ se.destroyed

  abbrev pub with_filesystem : Session fs → fs.State → Session fs
  with_filesystem se state = record se { filesystem = state }

  pub with_filesystem-SameSession :
      (se : Session fs) (state : fs.State) → SameSession se (with_filesystem se state)
  with_filesystem-SameSession se state = record {
    ch = refl;
    proto_major = refl;
    proto_minor = refl;
    initialized = refl;
    destroyed = refl;
  }

  pub session-call_with :
      (req : Request) (se : Session fs) (c : Call)
      (use_reply : Answer (kind_of c) → Outcome Resolution)
      → (call_with req se c use_reply).session
        ≡ with_filesystem se (fs.method req c se.filesystem).0
  unfolding call_with
  session-call_with req se c use_reply = session-after _ _

  pub perform-SameSession :
      (platform : Platform) (req : Request) (se : Session fs) (op : Operation)
      → SameSession se (perform platform req se op).session
  unfolding perform
  perform-SameSession platform req se (calls c) =
      rw (session-call_with req se c) (with_filesystem-SameSession se _)
  perform-SameSession platform req se (reads_directory ino fh offset size) =
      rw (session-call_with req se (Call.readdir ino fh offset)) (with_filesystem-SameSession se _)
  perform-SameSession platform req se (forgets ino nlookup) = with_filesystem-SameSession se _
  perform-SameSession platform req se unsupported =
      rw (session-after se) (with_filesystem-SameSession se se.filesystem)
