-- ===== src/Request/Short.antt =====
-- `Request::new`: short reads.
use rust_fuse.Prelude.{
  ℕ, ◌+◌, ◌≤◌, ◌≡◌, ◌∙◌, arith, List, ◌++◌, Option, none, some, ◌||◌, length, take, drop, ltb,
  not-ltb→le, le→not-ltb, inl, inr, if◌then◌else◌, if_cases, Bool-cases, ap,
}
use rust_fuse.Wire.{fields}
use rust_fuse.Abi.Control.{FuseInHeader, in_header_pod, in_header_of_bytes}
use rust_fuse.Abi.RoundTrip.Control.{IsFuseInHeader, in_header_pod_laws}
use rust_fuse.Argument
use rust_fuse.Argument.{Outcome, done, fetch, fetch_data, ◌>>=◌, remaining}
use rust_fuse.Argument.Laws.{fetch_cases, fetch_data_lem}
use rust_fuse.Wire.Numbers.{le, from_le}
use rust_fuse.Reply.Raw.{ChannelSender}
use rust_fuse.Filesystem.Trait.{Request}
use rust_fuse.Request.Parse.{new, read_request}

abbrev pub header_of : List ℕ → FuseInHeader
header_of buffer = in_header_of_bytes (take 40 buffer)

-- The request that a buffer holds.
abbrev pub whole_request : ChannelSender → List ℕ → Request
whole_request ch buffer = record { ch = ch; header = header_of buffer; payload = drop 40 buffer }

read_request_lem :
    (ch : ChannelSender) (buffer : List ℕ)
    → 40 ≤ length buffer
    → read_request ch (Argument.new buffer)
      ≡ done (whole_request ch buffer, record { bytes = buffer; pos = length buffer })
unfolding read_request fields
read_request_lem ch buffer h = elim (fetch_cases in_header_pod (Argument.new buffer)) [
  | inl (_, e) ↦
      rw (e, fetch_data_lem (Argument.advance (Argument.new buffer) 40) (omega arith), ◌>>=◌)
  | inr (l, _) ↦ absurd (omega arith)
]

-- What the kernel's buffer holds: nothing whole, or a header and all that follows it.
abbrev pub split_request : ChannelSender → List ℕ → Option Request
split_request ch buffer =
    if ltb (length buffer) 40 || ltb (length buffer) (header_of buffer).len
    then none
    else some (whole_request ch buffer)

-- `Request::new` never faults. It refuses exactly the buffers that are shorter than a header or
-- than the length that the header states.
pub new-split_request :
    (ch : ChannelSender) (buffer : List ℕ) → new ch buffer ≡ done (split_request ch buffer)
unfolding new fields
new-split_request ch buffer = elim (Bool-cases (ltb (length buffer) 40)) [
  | inl short ↦ rw short
  | inr whole ↦
      rw (whole, read_request_lem ch buffer (not-ltb→le _ _ whole), new)
        (if_cases {A = Outcome (Option Request)}
          (λ r.
            r
            ≡ done (
                if ltb (length buffer) (header_of buffer).len
                then none
                else some (whole_request ch buffer)))
          (ltb (length buffer) (header_of buffer).len) (λ l. rw l) (λ l. rw l))
]

-- A header whose values fit and the bytes that follow it are read back, if the header does not
-- claim more than there is.
pub new-to_bytes :
    (ch : ChannelSender) (h : FuseInHeader) (payload : List ℕ)
    → IsFuseInHeader h
    → h.len ≤ 40 + length payload
    → new ch (in_header_pod.to_bytes h ++ payload)
      ≡ done (some (record { ch = ch; header = h; payload = payload }))
unfolding fields
new-to_bytes ch h payload v l =
    let buffer : List ℕ = in_header_pod.to_bytes h ++ payload in
    let head : header_of buffer ≡ h = unfold fields le from_le in in_header_pod_laws.of-to h v in
    let fits : (header_of buffer).len ≤ length buffer =
      omega (arith, ap (λ (t : FuseInHeader). t.len) head) in
    new-split_request ch buffer
    ∙ rw
        (
          le→not-ltb (length buffer) 40 (omega arith),
          le→not-ltb (length buffer) (header_of buffer).len fits,
        )
        (ap (λ (t : FuseInHeader). done (some (record { ch = ch; header = t; payload = payload })))
          head)
