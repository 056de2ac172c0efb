-- ===== src/Session/Count.antt =====
-- How many replies a run of the session sends.
use rust_fuse.Prelude.{
  Bool, ℕ, suc, ◌+◌, ◌≤◌, ◌≡◌, arith, List, [], ◌∷◌, none, some, length, length-append, ◌==◌,
  if◌then◌else◌, ap,
}
use rust_fuse.Abi.Control.{FuseInHeader}
use rust_fuse.Abi.Opcode
use rust_fuse.Abi.Opcode.{from_u32, to_u32, from_u32-eq_some}
use rust_fuse.Platform.{Platform}
use rust_fuse.Filesystem.Trait.{Filesystem, Request}
use rust_fuse.Reply.Raw.{ChannelSender}
use rust_fuse.Request.Short.{split_request, header_of}
use rust_fuse.Request.Dispatch.{dispatch, Effect}
use rust_fuse.Request.Once.{Answers, unwound, replied, kept, silent, broken, dispatch-Answers}
use rust_fuse.Session.State.{Session}
use rust_fuse.Session.Run.{Received, buffer, os_error, waits, Trace, run}
use rust_fuse.Session.Steps.{
  Runs, ends, retries, unmounted, loses, refuses, breaks, serves, run-Runs,
}

abbrev pub buffer_count : List Received → ℕ
buffer_count [] = 0
buffer_count (buffer bytes ∷ rest) = suc (buffer_count rest)
buffer_count (os_error errno ∷ rest) = buffer_count rest

abbrev pub forget_weight : ℕ → ℕ
forget_weight opcode = if opcode == to_u32 Opcode.fuse_forget then 1 else 0

-- The buffers whose header states the operation FORGET.
abbrev pub forget_count : List Received → ℕ
forget_count [] = 0
forget_count (buffer bytes ∷ rest) = forget_weight (header_of bytes).opcode + forget_count rest
forget_count (os_error errno ∷ rest) = forget_count rest

-- The replies that were sent, and those that the filesystem still holds.
abbrev pub reply_count : {fs : Filesystem} → Trace fs → ℕ
reply_count t = length t.sent + length t.deferred

abbrev effect_count : {fs : Filesystem} → Effect fs → ℕ
effect_count e = length e.sent + length e.deferred

pub forget_weight_lem :
    (os_x : Bool) (opcode : ℕ)
    → from_u32 os_x opcode ≡ some Opcode.fuse_forget
    → forget_weight opcode ≡ 1
unfolding to_u32
forget_weight_lem os_x opcode e =
    let known : 2 ≡ opcode = from_u32-eq_some os_x opcode e in ground arith

Answers-count :
    {platform : Platform} {fs : Filesystem} {req : Request} {se : Session fs} {e : Effect fs}
    → Answers platform req se e
    → effect_count e ≤ 1 × (e.failure ≡ none → 1 ≤ effect_count e + forget_weight req.header.opcode)
Answers-count (replied err body sent deferred _) =
    rw (sent, deferred) (omega arith, λ _. omega arith)
Answers-count (unwound x _ sent deferred failed) =
    rw (sent, deferred) (omega arith, λ ok. absurd (ground arith))
Answers-count (kept kind r _ sent deferred _) = rw (sent, deferred) (omega arith, λ _. omega arith)
Answers-count {platform} {req} (silent op _ _ sent deferred _) =
    rw (sent, deferred, forget_weight_lem platform.os_x req.header.opcode op)
      (omega arith, λ _. omega arith)
Answers-count (broken x sent deferred failed _ _ _) =
    rw (sent, deferred) (omega arith, λ ok. absurd (ground arith))

split_request_header :
    (ch : ChannelSender) (bytes : List ℕ) {req : Request}
    → split_request ch bytes ≡ some req
    → req.header ≡ header_of bytes
split_request_header ch bytes e = ground arith

module _ (platform : Platform) {fs : Filesystem} where
  Runs-count :
      {se : Session fs} {received : List Received} {t : Trace fs}
      → Runs platform se received t
      → reply_count t ≤ buffer_count received
        × (t.end ≡ waits → buffer_count received ≤ reply_count t + forget_count received)
  Runs-count ends = (omega arith, λ _. omega arith)
  Runs-count (retries errno r rest) = Runs-count rest
  Runs-count (unmounted errno r u) = (omega arith, λ w. absurd (ground arith))
  Runs-count (loses errno r u) = (omega arith, λ w. absurd (ground arith))
  Runs-count (refuses bytes e) = (omega arith, λ w. absurd (ground arith))
  Runs-count {se} (breaks bytes req x e f) =
      let one = Answers-count (dispatch-Answers platform req se) in
      let sent = length-append (dispatch platform req se).sent [] in
      let deferred = length-append (dispatch platform req se).deferred [] in
      (omega (arith, one.0, sent, deferred), λ w. absurd (ground arith))
  Runs-count {se} (serves {t = t'} bytes req e ok rest) =
      let d = dispatch platform req se in
      let one = Answers-count (dispatch-Answers platform req se) in
      let ih = Runs-count rest in
      let sent = length-append d.sent t'.sent in
      let deferred = length-append d.deferred t'.deferred in
      let same =
        ap (λ (h : FuseInHeader). forget_weight h.opcode) (split_request_header _ bytes e) in
      (
        omega (arith, one.0, ih.0, sent, deferred),
        λ w. omega (arith, one.1 ok, ih.1 w, sent, deferred, same),
      )

  -- A run never makes more replies, sent or held by the filesystem, than it got buffers.
  pub run_reply_bound :
      (se : Session fs) (received : List Received)
      → reply_count (run platform se received) ≤ buffer_count received
  run_reply_bound se received = (Runs-count (run-Runs platform se received)).0

  -- If a run ends waiting for more, then the buffers that came are at most as many as the replies,
  -- sent or held by the filesystem, and the buffers whose header states the operation FORGET.
  pub run_all_answered :
      (se : Session fs) (received : List Received)
      → (run platform se received).end ≡ waits
      → buffer_count received ≤ reply_count (run platform se received) + forget_count received
  run_all_answered se received w = (Runs-count (run-Runs platform se received)).1 w
