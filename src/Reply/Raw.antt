-- ===== src/Reply/Raw.antt =====
-- The raw reply of src/reply.rs, and the sender of src/channel.rs that its closure calls
-- (src/request.rs, `Request::reply`).
use rust_fuse.Prelude.{
  ℕ, ◌+◌, ◌-◌, ◌%◌, ◌^◌, List, [], ◌∷◌, ◌++◌, Option, none, some, length, ◌==◌, if◌then◌else◌,
}
use rust_fuse.Wire.{Pod}
use rust_fuse.Abi.Replies.{FuseOutHeader, out_header_pod}
use rust_fuse.Argument.{Outcome, done, fault, panic}
use rust_fuse.Platform.{Platform}

pub record ChannelSender : Type 0 where
  pub fd : ℕ

-- One call of `writev`: the descriptor and the buffers. A failure of the call is only logged.
pub record Packet : Type 0 where
  pub fd : ℕ
  pub iovecs : List (List ℕ)

-- `ChannelSender::send`.
abbrev pub channel_send : ChannelSender → List (List ℕ) → Packet
channel_send ch buffer = record { fd = ch.fd; iovecs = buffer }

-- `sender` is `none` once the closure is taken.
pub record ReplyRaw : Type 0 where
  pub unique : ℕ
  pub sender : Option ChannelSender

abbrev pub new : ℕ → ChannelSender → ReplyRaw
new unique ch = record { unique = unique; sender = some ch }

-- The buffers that `as_bytes` passes on: none for a type of size 0.
unfoldable pub as_bytes {ℓ} : {A : Type ℓ} ⦃p : Pod A⦄ → A → List (List ℕ)
as_bytes ⦃p⦄ a = if p.size_of == 0 then [] else p.to_bytes a ∷ []

-- The fold that sums the lengths.
abbrev pub total_length : List (List ℕ) → ℕ
total_length [] = 0
total_length (b ∷ bs) = length b + total_length bs

-- `-err` for a c_int, as bit patterns.
abbrev pub neg_c_int : ℕ → ℕ
neg_c_int err = (2 ^ 32 - err) % 2 ^ 32

unfoldable pub header : ReplyRaw → ℕ → List (List ℕ) → FuseOutHeader
header r err bytes = record {
  len = (16 + total_length bytes) % 2 ^ 32;
  error = neg_c_int err;
  unique = r.unique;
}

-- `ReplyRaw::send`: the assertion, the header, and the call that uses the sender up.
unfoldable pub send : ReplyRaw → ℕ → List (List ℕ) → Outcome (ReplyRaw × List Packet)
unfolding header as_bytes
send r err bytes = elim r.sender [
  | none ↦ fault panic
  | some ch ↦
      done
        (record r { sender = none }, channel_send ch (as_bytes (header r err bytes) ++ bytes) ∷ [])
]

module _ (platform : Platform) where
  -- The destructor: a reply that was not sent is answered with EIO.
  unfoldable pub drop_reply : ReplyRaw → Outcome (List Packet)
  unfolding send
  drop_reply r = elim r.sender [
    | none ↦ done []
    | some _ ↦ elim (send r platform.eio []) [ done (_, ps) ↦ done ps | fault x ↦ fault x ]
  ]

  -- A method that consumes the reply sends, and then the destructor runs.
  unfoldable pub consume : ReplyRaw → ℕ → List (List ℕ) → Outcome (List Packet)
  unfolding drop_reply send
  consume r err bytes = elim (send r err bytes) [
    | fault x ↦ fault x
    | done (r', ps) ↦ elim (drop_reply r') [ done qs ↦ done (ps ++ qs) | fault x ↦ fault x ]
  ]

  abbrev pub ok {ℓ} : {A : Type ℓ} ⦃p : Pod A⦄ → ReplyRaw → A → Outcome (List Packet)
  ok r a = consume r 0 (as_bytes a)

  abbrev pub error : ReplyRaw → ℕ → Outcome (List Packet)
  error r err = consume r err []
