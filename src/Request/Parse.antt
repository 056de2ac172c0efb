-- ===== src/Request/Parse.antt =====
-- `Request::new` of src/request.rs, and the methods that read a request.
use rust_fuse.Prelude.{ℕ, List, Option, none, some, length, ltb, if◌then◌else◌}
use rust_fuse.Wire.{fields}
use rust_fuse.Abi.Control.{FuseInHeader, in_header_pod}
use rust_fuse.Argument
use rust_fuse.Argument.{Outcome, done, fault, Fetch, ◌>>=◌, pure, fetch, fetch_data}
use rust_fuse.Reply.Raw.{ChannelSender}
use rust_fuse.Filesystem.Trait.{Request}

unfoldable pub read_request : ChannelSender → Fetch Request
read_request ch = do
  header ← fetch {A = FuseInHeader}
  payload ← fetch_data
  pure (record { ch = ch; header = header; payload = payload })

-- `none` is a short read.
unfoldable pub new : ChannelSender → List ℕ → Outcome (Option Request)
unfolding fields
new ch buffer =
    if ltb (length buffer) in_header_pod.size_of
    then done none
    else (elim (read_request ch (Argument.new buffer)) [
      | fault x ↦ fault x
      | done (req, _) ↦ if ltb (length buffer) req.header.len then done none else done (some req)
    ])

-- What a filesystem reads of a request.
abbrev pub unique : Request → ℕ
unique req = req.header.unique

abbrev pub uid : Request → ℕ
uid req = req.header.uid

abbrev pub gid : Request → ℕ
gid req = req.header.gid

abbrev pub pid : Request → ℕ
pid req = req.header.pid
