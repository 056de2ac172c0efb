-- ===== src/Session/Concurrent/Accounts.antt =====
-- Counting replies by the id of their request.
use rust_fuse.Prelude.{
  ℕ, ◌+◌, ◌≤◌, ◌≡◌, refl, arith, List, [], ◌∷◌, ◌++◌, map, ◌==◌, if◌then◌else◌, All, ap,
}
use rust_fuse.Wire.{IsU64}
use rust_fuse.Abi.Replies.{FuseOutHeader, out_header_of_bytes}
use rust_fuse.Argument.{Outcome, done, fault}
use rust_fuse.Platform.{Platform}
use rust_fuse.Filesystem.Trait.{Filesystem, Request}
use rust_fuse.Reply.Raw
use rust_fuse.Reply.Raw.{ReplyRaw, Packet, ChannelSender}
use rust_fuse.Reply.Answer.{ReplyKind, ReplyObject, Pending, pending, Resolution}
use rust_fuse.Reply.Message.{gather, packet, header_lem}
use rust_fuse.Reply.Once.{raw_of, IsUnsent, Settles, now, later}
use rust_fuse.Request.Dispatch.{Effect}
use rust_fuse.Request.Once.{Answers, replied, unwound, kept, silent, broken}
use rust_fuse.Request.Parse
use rust_fuse.Session.State.{Session}
use rust_fuse.Session.Count.{forget_weight, forget_weight_lem}
use rust_fuse.Session.Concurrent.{is_none}

-- How often an id stands in a list.
abbrev pub tally : ℕ → List ℕ → ℕ
tally n [] = 0
tally n (x ∷ xs) = (if x == n then 1 else 0) + tally n xs

tally-append : (n : ℕ) (xs ys : List ℕ) → tally n (xs ++ ys) ≡ tally n xs + tally n ys
tally-append n [] ys = omega arith
tally-append n (x ∷ xs) ys = omega (arith, tally-append n xs ys)

module _ {ℓ} {A : Type ℓ} (n : ℕ) (id : A → ℕ) where
  -- How many of a list have the id.
  abbrev pub tally_of : List A → ℕ
  tally_of xs = tally n (map id xs)

  pub tally_of-append : (xs ys : List A) → tally_of (xs ++ ys) ≡ tally_of xs + tally_of ys
  tally_of-append [] ys = omega arith
  tally_of-append (x ∷ xs) ys = omega (arith, tally_of-append xs ys)

-- The id that the kernel reads from a packet, and those of a kept reply object and of a request.
abbrev pub packet_id : Packet → ℕ
packet_id p = (out_header_of_bytes (gather p.iovecs)).unique

abbrev pub pending_id : Pending → ℕ
pending_id (pending kind r) = (raw_of kind r).unique

abbrev pub request_id : Request → ℕ
request_id req = Parse.unique req

packet_id_lem :
    (unique : ℕ) (ch : ChannelSender) (err : ℕ) (body : List (List ℕ))
    → IsU64 unique
    → packet_id (packet (Raw.new unique ch) ch err body) ≡ unique
unfolding Raw.header
packet_id_lem unique ch err body u =
    ap (λ (h : FuseOutHeader). h.unique) (header_lem (Raw.new unique ch) ch err body u)

-- A kept reply object is unsent.
abbrev pub IsKept : Pending → Type 0
IsKept (pending kind r) =
    (ch : ChannelSender) × (raw_of kind r ≡ Raw.new (raw_of kind r).unique ch)
    × IsU64 (raw_of kind r).unique

-- The replies that have an id: sent, or kept.
abbrev pub replies_with : ℕ → List Packet → List Pending → ℕ
replies_with n packets objects = tally_of n packet_id packets + tally_of n pending_id objects

pub replies_with-append :
    (n : ℕ) (sent sent' : List Packet) (objects objects' : List Pending)
    → replies_with n (sent ++ sent') (objects ++ objects')
      ≡ replies_with n sent objects + replies_with n sent' objects'
replies_with-append n sent sent' objects objects' =
    omega
      (arith, tally_of-append n packet_id sent sent', tally_of-append n pending_id objects objects')

-- One object goes, and what came of it is added.
pub replies_with-finish :
    (n : ℕ) (before after : List Pending) (kind : ReplyKind) (r : ReplyObject kind)
    (res : Resolution) (sent : List Packet) {objects : List Pending}
    → objects ≡ before ++ (pending kind r ∷ after)
    → replies_with n (sent ++ res.sent) (before ++ (after ++ res.deferred))
        + tally n (pending_id (pending kind r) ∷ [])
      ≡ replies_with n sent objects + replies_with n res.sent res.deferred
replies_with-finish n before after kind r res sent split = omega (
  arith,
  tally_of-append n packet_id sent res.sent,
  tally_of-append n pending_id before (after ++ res.deferred),
  tally_of-append n pending_id after res.deferred,
  tally_of-append n pending_id before (pending kind r ∷ after),
  ap (tally_of n pending_id) split,
)

IsUnsent-IsKept :
    (kind : ReplyKind) (r : ReplyObject kind) (unique : ℕ) (ch : ChannelSender)
    → IsU64 unique
    → IsUnsent unique ch kind r
    → IsKept (pending kind r) × (pending_id (pending kind r) ≡ unique)
IsUnsent-IsKept kind r unique ch u e = (rw e (ch, refl, u), ap (λ (raw : ReplyRaw). raw.unique) e)

one_id : (n x y : ℕ) → x ≡ y → tally n (x ∷ []) ≡ tally n (y ∷ [])
one_id n x y e = rw e

-- An outcome that leaves one reply with the id, sent or kept.
abbrev pub Accounted : (unique n : ℕ) → Outcome Resolution → Type 0
Accounted unique n (done res) =
    (replies_with n res.sent res.deferred ≡ tally n (unique ∷ [])) × All IsKept res.deferred
Accounted unique n (fault x) = ⊥

pub Accounted-cases :
    (unique n : ℕ) (o : Outcome Resolution)
    → Accounted unique n o
    → (res : Resolution) × (o ≡ done res)
      × (replies_with n res.sent res.deferred ≡ tally n (unique ∷ []))
Accounted-cases unique n (done res) a = (res, refl, a.0)
Accounted-cases unique n (fault x) a = absurd a

pub Settles-account :
    (platform : Platform) (unique : ℕ) (ch : ChannelSender) (n : ℕ) {o : Outcome Resolution}
    → IsU64 unique
    → Settles platform unique ch o
    → Accounted unique n o
Settles-account platform unique ch n u (now err body _ _) =
    (omega (arith, one_id n _ _ (packet_id_lem unique ch err body u)), tt)
Settles-account platform unique ch n u (later kind r _ e _) =
    let (held, id) = IsUnsent-IsKept kind r unique ch u e in
    (omega (arith, one_id n _ _ id), (held, tt))

-- Whether a request is a FORGET with the id.
abbrev pub forget_of : ℕ → Request → ℕ
forget_of n req = if req.header.unique == n then forget_weight req.header.opcode else 0

pub Answers-account :
    {platform : Platform} {fs : Filesystem} {req : Request} {se : Session fs} {e : Effect fs}
    (n : ℕ)
    → IsU64 req.header.unique
    → Answers platform req se e
    → All IsKept e.deferred
      × (replies_with n e.sent e.deferred ≤ tally n (req.header.unique ∷ []))
      × (tally n (req.header.unique ∷ [])
          ≤ replies_with n e.sent e.deferred
            + forget_of n req
            + (if is_none e.failure then 0 else 1))
Answers-account {req} n u (replied err body sent deferred ok) =
    let id = one_id n _ _ (packet_id_lem req.header.unique req.ch err body u) in
    rw (sent, deferred) (tt, omega (arith, id), omega (arith, id))
Answers-account {platform} {req} n u (unwound x _ sent deferred failed) =
    let id = one_id n _ _ (packet_id_lem req.header.unique req.ch platform.eio [] u) in
    rw (sent, deferred) (tt, omega (arith, id), omega (arith, id))
Answers-account {req} n u (kept kind r e sent deferred ok) =
    let (held, same) = IsUnsent-IsKept kind r req.header.unique req.ch u e in
    let id = one_id n _ _ same in
    rw (sent, deferred) ((held, tt), omega (arith, id), omega (arith, id))
Answers-account {platform} {req} n u (silent op on off sent deferred ok) =
    rw (sent, deferred, forget_weight_lem platform.os_x req.header.opcode op)
      (tt, omega arith, ground arith)
Answers-account {req} n u (broken x sent deferred failed _ _ _) =
    rw (sent, deferred, failed) (tt, omega arith, ground arith)

-- The requests that FORGET.
abbrev pub forget_id_count : ℕ → List Request → ℕ
forget_id_count n [] = 0
forget_id_count n (req ∷ reqs) = forget_of n req + forget_id_count n reqs

pub forget_id_count-append :
    (n : ℕ) (xs : List Request) (req : Request)
    → forget_id_count n (xs ++ (req ∷ [])) ≡ forget_id_count n xs + forget_of n req
forget_id_count-append n [] req = omega arith
forget_id_count-append n (x ∷ xs) req = omega (arith, forget_id_count-append n xs req)
