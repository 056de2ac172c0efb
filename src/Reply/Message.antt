-- ===== src/Reply/Message.antt =====
-- What the kernel makes of a reply: it sees one write, checks the length that the header states, and
-- takes the rest as the body.
use rust_fuse.Prelude.{
  ℕ, ◌^◌, ◌<◌, ◌≤◌, ◌≡◌, refl, arith, List, [], ◌∷◌, ◌++◌, Option, none, some, length, drop, leb,
  ◌==◌, ◌&&◌, if◌then◌else◌, le→leb, ==_iff, length-append, ◌-◌, ap, ◌∙◌,
}
use rust_fuse.Wire.{IsU64, fields}
use rust_fuse.Wire.Numbers.{le, from_le}
use rust_fuse.Abi.Replies.{FuseOutHeader, out_header_pod, out_header_of_bytes}
use rust_fuse.Abi.RoundTrip.Replies.{out_header_pod_laws}
use rust_fuse.Argument.{done}
use rust_fuse.Platform.{Platform}
use rust_fuse.Reply.Raw.{ReplyRaw, ChannelSender, Packet, total_length, neg_c_int, header, consume}

-- What `writev` puts on the channel.
abbrev pub gather : List (List ℕ) → List ℕ
gather [] = []
gather (b ∷ bs) = b ++ gather bs

pub length-gather : (bs : List (List ℕ)) → length (gather bs) ≡ total_length bs
length-gather [] = refl
length-gather (b ∷ bs) = omega (arith, length-append b (gather bs), length-gather bs)

pub record Message : Type 0 where
  pub unique : ℕ
  pub error : ℕ
  pub body : List ℕ

unfoldable pub read_message : Packet → Option Message
read_message p =
    let all = gather p.iovecs in
    let head : FuseOutHeader = out_header_of_bytes all in
    if leb 16 (length all) && (head.len == length all)
    then some (record { unique = head.unique; error = head.error; body = drop 16 all })
    else none

-- The packet of a reply.
abbrev pub packet : ReplyRaw → ChannelSender → ℕ → List (List ℕ) → Packet
packet r ch err body = record {
  fd = ch.fd;
  iovecs = out_header_pod.to_bytes (header r err body) ∷ body;
}

abbrev message_of : FuseOutHeader → List ℕ → Message
message_of h all = record { unique = h.unique; error = h.error; body = drop 16 all }

read_message_lem :
    (p : Packet)
    → 16 ≤ length (gather p.iovecs)
    → (out_header_of_bytes (gather p.iovecs)).len ≡ length (gather p.iovecs)
    → read_message p ≡ some (message_of (out_header_of_bytes (gather p.iovecs)) (gather p.iovecs))
unfolding read_message
read_message_lem p l n = rw (le→leb 16 _ l, (==_iff _ (length (gather p.iovecs))).1 n)

pub header_lem :
    (r : ReplyRaw) (ch : ChannelSender) (err : ℕ) (body : List (List ℕ))
    → IsU64 r.unique
    → out_header_of_bytes (gather (packet r ch err body).iovecs) ≡ header r err body
unfolding header fields le from_le
header_lem r ch err body u =
    out_header_pod_laws.of-to (header r err body) (omega arith, omega arith, u)

-- If the id is a u64 and the body is shorter than a u32 can say, the kernel accepts the packet of
-- a reply, since the length in its header is right, and reads back the id, the negated error and
-- the body.
pub read_message-packet :
    (r : ReplyRaw) (ch : ChannelSender) (err : ℕ) (body : List (List ℕ))
    → IsU64 r.unique
    → total_length body < 2 ^ 32 - 16
    → read_message (packet r ch err body)
      ≡ some (record { unique = r.unique; error = neg_c_int err; body = gather body })
unfolding header fields le
read_message-packet r ch err body u s =
    let h = header_lem r ch err body u in
    let all : List ℕ = gather (packet r ch err body).iovecs in
    let len = length-gather body in
    read_message_lem (packet r ch err body) (omega arith)
      (ap (λ (t : FuseOutHeader). t.len) h ∙ omega (arith, len))
    ∙ ap (λ (t : FuseOutHeader). some (message_of t all)) h

-- A method that consumes a reply which still has its sender sends one packet, and the destructor
-- sends no second one.
pub consume_lem :
    (platform : Platform) (r : ReplyRaw) (ch : ChannelSender) (err : ℕ) (body : List (List ℕ))
    → r.sender ≡ some ch
    → consume platform r err body ≡ done (packet r ch err body ∷ [])
unfolding consume fields
consume_lem platform r ch err body e = rw (e, consume)
