-- ===== src/Reply/Once.antt =====
-- A reply object is used exactly once, whatever a filesystem does with it.
use rust_fuse.Prelude.{none, some, ℕ, ◌≡◌, refl, ◌∙◌, arith, List, [], ◌∷◌, Option, inl, inr, ◌⊎◌}
use rust_fuse.Wire.{fields}
use rust_fuse.Argument.{panic, Outcome, done, Fault}
use rust_fuse.Platform.{Platform}
use rust_fuse.Reply.Raw
use rust_fuse.Reply.Raw.{ReplyRaw, ChannelSender, Packet, drop_reply, send}
use rust_fuse.Reply.Kinds.{RawKind, Content, reply_body}
use rust_fuse.Reply.Directory
use rust_fuse.Reply.Directory.{ReplyDirectory, add, sized}
use rust_fuse.Reply.Answer.{
  ReplyKind, raw, directory, Reaction, panics, replies, fails, drops, defers, DirectoryProgram,
  adds, finish, Answer, ReplyObject, pending, Resolution, new_reply, react, finish_directory, fill,
  answer, fails_after, resizes, panics_after,
}
use rust_fuse.Reply.Message.{packet, consume_lem}

abbrev pub raw_of : (kind : ReplyKind) → ReplyObject kind → ReplyRaw
raw_of (raw _) r = r
raw_of directory r = r.reply

-- The reply of a request has not been sent.
abbrev pub IsUnsent : ℕ → ChannelSender → (kind : ReplyKind) → ReplyObject kind → Type 0
IsUnsent unique ch kind r = raw_of kind r ≡ Raw.new unique ch

pub new_reply-IsUnsent :
    (platform : Platform) (kind : ReplyKind) (unique : ℕ) (ch : ChannelSender)
    → IsUnsent unique ch kind (new_reply platform kind unique ch)
unfolding new_reply Directory.new
new_reply-IsUnsent platform (raw _) unique ch = refl
new_reply-IsUnsent platform directory unique ch = refl

-- A use of a reply object fails with a panic of the filesystem or not at all.
abbrev pub MayPanic : Option Fault → Type 0
MayPanic failure = (failure ≡ none) ⊎ (failure ≡ some panic)

-- One packet with the id of the request was sent, or the reply object is still there, unsent; and the
-- filesystem may have panicked.
pub data Settles (platform : Platform) (unique : ℕ) (ch : ChannelSender)
    : Outcome Resolution → Type 0 where
  now :
      (err : ℕ) (body : List (List ℕ)) (failure : Option Fault)
      → MayPanic failure
      → Settles platform unique ch (
          done (record {
            sent = packet (Raw.new unique ch) ch err body ∷ [];
            deferred = [];
            failure = failure;
          }))
  later :
      (kind : ReplyKind) (r : ReplyObject kind) (failure : Option Fault)
      → IsUnsent unique ch kind r
      → MayPanic failure
      → Settles platform unique ch
          (done (record { sent = []; deferred = pending kind r ∷ []; failure = failure }))

Settles-fails_after :
    (platform : Platform) (unique : ℕ) (ch : ChannelSender) {o : Outcome Resolution}
    → Settles platform unique ch o
    → Settles platform unique ch (fails_after o)
Settles-fails_after platform unique ch (now err body _ _) = now err body (some panic) (inr refl)
Settles-fails_after platform unique ch (later kind r _ u _) = later kind r (some panic) u (inr refl)

pub drop_reply_lem :
    (platform : Platform) (unique : ℕ) (ch : ChannelSender)
    → drop_reply platform (Raw.new unique ch)
      ≡ done (packet (Raw.new unique ch) ch platform.eio [] ∷ [])
unfolding drop_reply fields
drop_reply_lem platform unique ch = refl

module _ (platform : Platform) (unique : ℕ) (ch : ChannelSender) where
  -- What is sent: the answer, the error, or EIO for a reply that is dropped.
  pub react-replies :
      (kind : RawKind) (c : Content kind)
      → react platform kind (Raw.new unique ch) (replies c)
        ≡ done (record {
          sent = packet (Raw.new unique ch) ch 0 (reply_body platform kind c) ∷ [];
          deferred = [];
          failure = none;
        })
  unfolding react
  react-replies kind c =
      rw (consume_lem platform (Raw.new unique ch) ch 0 (reply_body platform kind c) refl)

  pub react-fails :
      (kind : RawKind) (err : ℕ)
      → react platform kind (Raw.new unique ch) (fails err)
        ≡ done (record {
          sent = packet (Raw.new unique ch) ch err [] ∷ [];
          deferred = [];
          failure = none;
        })
  unfolding react
  react-fails kind err = rw (consume_lem platform (Raw.new unique ch) ch err [] refl)

  pub react-drops :
      (kind : RawKind)
      → react platform kind (Raw.new unique ch) drops
        ≡ done (record {
          sent = packet (Raw.new unique ch) ch platform.eio [] ∷ [];
          deferred = [];
          failure = none;
        })
  unfolding react
  react-drops kind = rw (drop_reply_lem platform unique ch)

  react_after :
      (kind : RawKind) (a : Reaction (Content kind))
      → Settles platform unique ch (react platform kind (Raw.new unique ch) a)
      → Settles platform unique ch (react platform kind (Raw.new unique ch) (panics_after a))
  unfolding react
  react_after kind a s = Settles-fails_after platform unique ch s

  react-Settles :
      (kind : RawKind) (a : Reaction (Content kind))
      → Settles platform unique ch (react platform kind (Raw.new unique ch) a)
  react-Settles kind (replies c) = rw (react-replies kind c) (now 0 _ none (inl refl))
  react-Settles kind (fails err) = rw (react-fails kind err) (now err [] none (inl refl))
  react-Settles kind drops = rw (react-drops kind) (now platform.eio [] none (inl refl))
  react-Settles kind panics =
      unfold react in
      rw (drop_reply_lem platform unique ch) (now platform.eio [] (some panic) (inr refl))
  react-Settles kind defers =
      unfold react in later (raw kind) (Raw.new unique ch) none refl (inl refl)
  react-Settles kind (panics_after a) = react_after kind a (react-Settles kind a)

  finish_directory-Settles :
      (r : ReplyDirectory) (a : Reaction (Unit {0}))
      → r.reply ≡ Raw.new unique ch
      → Settles platform unique ch (finish_directory platform r a)
  unfolding finish_directory
  finish_directory-Settles r (replies _) e =
      rw (e, consume_lem platform (Raw.new unique ch) ch 0 (r.bytes ∷ []) refl)
        (now 0 (r.bytes ∷ []) none (inl refl))
  finish_directory-Settles r (fails err) e =
      rw (e, consume_lem platform (Raw.new unique ch) ch err [] refl) (now err [] none (inl refl))
  finish_directory-Settles r drops e =
      rw (e, drop_reply_lem platform unique ch) (now platform.eio [] none (inl refl))
  finish_directory-Settles r panics e =
      rw (e, drop_reply_lem platform unique ch) (now platform.eio [] (some panic) (inr refl))
  finish_directory-Settles r defers e = later directory r none e (inl refl)
  finish_directory-Settles r (panics_after a) e =
      Settles-fails_after platform unique ch (finish_directory-Settles r a e)

pub reply-add :
    (platform : Platform) (r : ReplyDirectory) (e : Directory.DirEntry)
    → (add platform r e).0.reply ≡ r.reply
unfolding add
reply-add platform r e = ground arith

pub reply-sized :
    (platform : Platform) (r : ReplyDirectory) (size : ℕ) → (sized platform r size).reply ≡ r.reply
unfolding sized
reply-sized platform r size = refl

pub reply-fill :
    (platform : Platform) (r : ReplyDirectory) (p : DirectoryProgram)
    → (fill platform r p).0.reply ≡ r.reply
unfolding fill
reply-fill platform r (finish _) = refl
reply-fill platform r (resizes size p) =
    reply-fill platform (sized platform r size) p ∙ reply-sized platform r size
reply-fill platform r (adds e k) =
    reply-fill platform (add platform r e).0 (k (add platform r e).1) ∙ reply-add platform r e

-- Whatever a filesystem does with a reply object that is unsent, whether or not it panics while it
-- holds it or after it, one of two things comes of it: exactly one packet with the id of the
-- request is sent, and nothing is kept; or nothing is sent, and exactly one reply with that id is
-- pending, unsent. It fails with a panic of the filesystem or not at all.
pub answer-Settles :
    (platform : Platform) (kind : ReplyKind) (r : ReplyObject kind) (a : Answer kind) {unique : ℕ}
    {ch : ChannelSender}
    → IsUnsent unique ch kind r
    → Settles platform unique ch (answer platform kind r a)
unfolding answer
answer-Settles platform (raw kind) r a {unique} {ch} e =
    rw e (react-Settles platform unique ch kind a)
answer-Settles platform directory r p {unique} {ch} e =
    finish_directory-Settles platform unique ch (fill platform r p).0 (fill platform r p).1
      (reply-fill platform r p ∙ e)
