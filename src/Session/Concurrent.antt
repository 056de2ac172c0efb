-- ===== src/Session/Concurrent.antt =====
-- A session whose filesystem keeps reply objects and uses them later, from any thread and in any
-- order, between the requests that the loop of `Session::run` dispatches.
pub mod Accounts
pub mod Balance
pub mod Schedule
pub mod Ids
use rust_fuse.Prelude.{List, [], ◌∷◌, ◌++◌, ◌≡◌, Bool, true, false, Option, none, some}
use rust_fuse.Wire.{IsU64}
use rust_fuse.Argument.{done}
use rust_fuse.Platform.{Platform}
use rust_fuse.Filesystem.Trait.{Filesystem, Request}
use rust_fuse.Reply.Raw.{Packet}
use rust_fuse.Reply.Answer.{ReplyKind, ReplyObject, Pending, pending, Answer, answer, Resolution}
use rust_fuse.Request.Dispatch.{dispatch}
use rust_fuse.Session.State.{Session}

-- The session, the requests it dispatched so far, the packets that were sent, the reply objects that
-- are kept, and whether the loop still runs.
pub record System (fs : Filesystem) : Type 0 where
  pub session : Session fs
  pub requests : List Request
  pub sent : List Packet
  pub kept : List Pending
  pub serving : Bool

abbrev pub is_none {ℓ} : {A : Type ℓ} → Option A → Bool
is_none none = true
is_none (some a) = false

abbrev pub serve : Platform → {fs : Filesystem} → System fs → Request → System fs
serve platform s req = record {
  session = (dispatch platform req s.session).session;
  requests = s.requests ++ (req ∷ []);
  sent = s.sent ++ (dispatch platform req s.session).sent;
  kept = s.kept ++ (dispatch platform req s.session).deferred;
  serving = is_none (dispatch platform req s.session).failure;
}

-- One step: the loop dispatches a request, or a thread that holds a reply object uses it.
pub data Step (platform : Platform) {fs : Filesystem} (s : System fs) : System fs → Type 0 where
  request :
      (req : Request)
      → s.serving ≡ true
      → IsU64 req.header.unique
      → Step platform s (serve platform s req)
  finish :
      (before after : List Pending) (kind : ReplyKind) (r : ReplyObject kind) (a : Answer kind)
      (res : Resolution)
      → s.kept ≡ before ++ (pending kind r ∷ after)
      → answer platform kind r a ≡ done res
      → Step platform s
          (record s { sent = s.sent ++ res.sent; kept = before ++ (after ++ res.deferred) })

abbrev pub start : {fs : Filesystem} → Session fs → System fs
start se = record { session = se; requests = []; sent = []; kept = []; serving = true }

pub data Reach (platform : Platform) {fs : Filesystem} (se : Session fs) : System fs → Type 0 where
  here : Reach platform se (start se)
  next : {s t : System fs} → Reach platform se s → Step platform s t → Reach platform se t
