-- ===== src/Request/Exact.antt =====
-- `Request::new`, and the bytes of the request that it returns.
use rust_fuse.Prelude.{
  ℕ, ◌+◌, ◌≤◌, ◌≡◌, ◌↔◌, ◌∙◌, sym, ap, refl, arith, List, ◌++◌, some, length, take, drop, All,
  All-take, ltb, inl, inr, Bool-cases, take-append_drop, length-take, length-append, not-ltb→le,
}
use rust_fuse.Wire.{IsByte, fields}
use rust_fuse.Abi.Control.{in_header_pod}
use rust_fuse.Abi.RoundTrip.Control.{IsFuseInHeader, in_header_pod_laws}
use rust_fuse.Abi.Exact.Control.{in_header_pod_exact}
use rust_fuse.Argument.{done}
use rust_fuse.Reply.Raw.{ChannelSender}
use rust_fuse.Filesystem.Trait.{Request}
use rust_fuse.Request.Parse.{new}
use rust_fuse.Request.Short.{
  header_of, whole_request, split_request, new-split_request, new-to_bytes,
}

-- The buffer is the header and the payload of a request, and no shorter than the header says.
pub record Holds (ch : ChannelSender) (buffer : List ℕ) (req : Request) : Type 0 where
  pub sender : req.ch ≡ ch
  pub header : IsFuseInHeader req.header
  pub len : req.header.len ≤ length buffer
  pub bytes : buffer ≡ in_header_pod.to_bytes req.header ++ req.payload

whole_request-Holds :
    (ch : ChannelSender) (buffer : List ℕ)
    → All IsByte buffer
    → 40 ≤ length buffer
    → (header_of buffer).len ≤ length buffer
    → Holds ch buffer (whole_request ch buffer)
unfolding fields
whole_request-Holds ch buffer h l len =
    let front : List ℕ = take 40 buffer in
    let front_h : All IsByte front = All-take IsByte 40 buffer h in
    let front_l : length front ≡ 40 = omega (arith, length-take 40 buffer) in
    record {
      sender = refl;
      header = in_header_pod_exact.of_bytes-IsValid front front_h front_l;
      len = len;
      bytes = sym (
          ap (λ t. t ++ drop 40 buffer) (in_header_pod_exact.to-of front front_h front_l)
          ∙ take-append_drop 40 buffer);
    }

split_request-Holds :
    (ch : ChannelSender) (buffer : List ℕ) {req : Request}
    → All IsByte buffer
    → split_request ch buffer ≡ some req
    → Holds ch buffer req
split_request-Holds ch buffer {req} h e = elim (Bool-cases (ltb (length buffer) 40)) [
  | inl short ↦ absurd (ground arith)
  | inr l ↦ elim (Bool-cases (ltb (length buffer) (header_of buffer).len)) [
    | inl short ↦ absurd (ground arith)
    | inr len ↦
        let same : whole_request ch buffer ≡ req = ground arith in
        rw (← same) (whole_request-Holds ch buffer h (not-ltb→le _ _ l) (not-ltb→le _ _ len))
  ]
]

new-Holds :
    (ch : ChannelSender) (buffer : List ℕ) {req : Request}
    → Holds ch buffer req
    → new ch buffer ≡ done (some req)
unfolding fields
new-Holds ch buffer {req} v =
    let fits : req.header.len ≤ 40 + length req.payload = omega (
      arith,
      v.len,
      ap length v.bytes,
      length-append (in_header_pod.to_bytes req.header) req.payload,
      in_header_pod_laws.length_lem req.header,
    ) in
    ap (new ch) v.bytes
    ∙ new-to_bytes ch req.header req.payload v.header fits
    ∙ ap (λ c. done (some (record { ch = c; header = req.header; payload = req.payload })))
        (sym v.sender)

-- Over a buffer of bytes, `Request::new` returns a request exactly if the request has the sender
-- that was given, the values of its header fit their fields, the header does not claim more than
-- the buffer has, and the buffer is the bytes of the header with the payload behind them.
pub new_iff :
    (ch : ChannelSender) (buffer : List ℕ) (req : Request)
    → All IsByte buffer
    → (new ch buffer ≡ done (some req)) ↔ Holds ch buffer req
new_iff ch buffer req h = (
  λ e. split_request-Holds ch buffer h (ground (arith, new-split_request ch buffer)),
  new-Holds ch buffer,
)
