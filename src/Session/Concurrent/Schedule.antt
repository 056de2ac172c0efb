-- ===== src/Session/Concurrent/Schedule.antt =====
-- The loop of `Session::run` as a schedule of the system in which no kept reply object is used: what a
-- run does is reached by steps that dispatch the requests that the kernel sent, in their order.
use rust_fuse.Prelude.{
  ℕ, ◌≡◌, ◌≢◌, refl, arith, List, [], ◌∷◌, ◌++◌, Bool, true, false, Option, none, some, take, drop,
  All, append-nil, append_assoc, ap, All-drop, All-take,
}
use mathlib.Core.Path.{subst}
use rust_fuse.Wire.{IsByte, IsU64}
use rust_fuse.Wire.Numbers.{from_le, from_le-take}
use rust_fuse.Platform.{Platform}
use rust_fuse.Filesystem.Trait.{Filesystem, Request}
use rust_fuse.Reply.Raw.{ChannelSender, Packet}
use rust_fuse.Reply.Answer.{Pending}
use rust_fuse.Request.Dispatch.{dispatch, Effect}
use rust_fuse.Request.Short.{split_request, whole_request}
use rust_fuse.Session.State.{Session}
use rust_fuse.Session.Run.{behind, Received, buffer, os_error, waits, End, Trace, run, sender}
use rust_fuse.Session.Steps.{
  Runs, ends, retries, unmounted, loses, refuses, breaks, serves, run-Runs,
}
use rust_fuse.Session.Fixed.{ch-dispatch}
use rust_fuse.Session.Concurrent.{request, Reach, here, next}

-- The requests that the buffers hold.
abbrev pub requests_in : Option Request → List Request
requests_in none = []
requests_in (some req) = req ∷ []

abbrev pub requests_of : ChannelSender → List Received → List Request
requests_of ch [] = []
requests_of ch (os_error e ∷ rest) = requests_of ch rest
requests_of ch (buffer bytes ∷ rest) = requests_in (split_request ch bytes) ++ requests_of ch rest

-- What was received consists of bytes.
abbrev pub IsBytes : Received → Type 0
IsBytes (os_error e) = Unit {0}
IsBytes (buffer bytes) = All IsByte bytes

-- A run either waits and has dispatched all requests, or it has ended and ignored some.
pub data Remains (end : End) : List Request → Bool → Type 0 where
  nothing : end ≡ waits → Remains end [] true
  ignores : (reqs : List Request) (on : Bool) → end ≢ waits → Remains end reqs on

-- The id of a request that was parsed from bytes fits its field.
split_request-IsU64 :
    (ch : ChannelSender) (bytes : List ℕ) {req : Request}
    → All IsByte bytes
    → split_request ch bytes ≡ some req
    → IsU64 req.header.unique
unfolding from_le
split_request-IsU64 ch bytes {req} h e =
    let field =
      from_le-take 8 (drop 8 (take 40 bytes))
        (All-drop IsByte 8 (take 40 bytes) (All-take IsByte 40 bytes h)) in
    let whole : whole_request ch bytes ≡ req = ground arith in
    subst (λ (r : Request). IsU64 r.header.unique) whole field

module _ (platform : Platform) {fs : Filesystem} (se0 : Session fs) where
  -- A reachable system behind which a run goes on.
  Schedules :
      Session fs → List Request → List Packet → List Pending → List Received → Trace fs → Type 0
  Schedules se rs ps ks received t =
      (reqs ignored : List Request) × (on : Bool) × Reach platform se0 (record {
        session = t.session;
        requests = rs ++ reqs;
        sent = ps ++ t.sent;
        kept = ks ++ t.deferred;
        serving = on;
      })
      × (reqs ++ ignored ≡ requests_of (sender se.ch) received)
      × Remains t.end ignored on

  -- Nothing was added.
  stays :
      {se : Session fs} (rs : List Request) (ps : List Packet) (ks : List Pending)
      → Reach platform se0
          (record { session = se; requests = rs; sent = ps; kept = ks; serving = true })
      → Reach platform se0 (record {
        session = se;
        requests = rs ++ [];
        sent = ps ++ [];
        kept = ks ++ [];
        serving = true;
      })
  stays rs ps ks r = rw (append-nil rs, append-nil ps, append-nil ks) r

  -- A request that was served, in front of what follows.
  behind-Schedules :
      (se : Session fs) (received : List Received) (t : Trace fs) (rs : List Request)
      (ps : List Packet) (ks : List Pending) (bytes : List ℕ) (req : Request) (d : Effect fs)
      → split_request (sender se.ch) bytes ≡ some req
      → d.session.ch ≡ se.ch
      → Schedules d.session (rs ++ (req ∷ [])) (ps ++ d.sent) (ks ++ d.deferred) received t
      → Schedules se rs ps ks (buffer bytes ∷ received) (behind d t)
  unfolding Schedules
  behind-Schedules se received t rs ps ks bytes req d e c (reqs, ignored, on, reached, all, left) =
      (
        req ∷ reqs,
        ignored,
        on,
        rw
            (
              append_assoc rs (req ∷ []) reqs,
              append_assoc ps d.sent t.sent,
              append_assoc ks d.deferred t.deferred,
            )
            at reached,
        rw e (ap (λ l. req ∷ l) (rw c at all)),
        left,
      )

  Runs-Reach :
      {se : Session fs} {received : List Received} {t : Trace fs} (rs : List Request)
      (ps : List Packet) (ks : List Pending)
      → Reach platform se0
          (record { session = se; requests = rs; sent = ps; kept = ks; serving = true })
      → All IsBytes received
      → Runs platform se received t
      → Schedules se rs ps ks received t
  unfolding Schedules
  Runs-Reach rs ps ks r h ends = ([], [], true, stays rs ps ks r, refl, nothing refl)
  Runs-Reach rs ps ks r h (retries errno e rest) = Runs-Reach rs ps ks r h.1 rest
  Runs-Reach rs ps ks r h (unmounted errno e u) =
      ([], _, true, stays rs ps ks r, refl, ignores _ true (λ q. ground arith))
  Runs-Reach rs ps ks r h (loses errno e u) =
      ([], _, true, stays rs ps ks r, refl, ignores _ true (λ q. ground arith))
  Runs-Reach rs ps ks r h (refuses bytes e) =
      ([], _, true, stays rs ps ks r, refl, ignores _ true (λ q. ground arith))
  Runs-Reach rs ps ks r h (breaks {se} {rest} bytes req x e f) =
      let d = dispatch platform req se in
      let r' = next r (request req refl (split_request-IsU64 (sender se.ch) bytes h.0 e)) in
      (
        req ∷ [],
        requests_of (sender se.ch) rest,
        false,
        rw (append-nil d.sent, append-nil d.deferred) (rw f at r'),
        rw e refl,
        ignores _ false (λ q. ground arith),
      )
  Runs-Reach rs ps ks r h (serves {se} {rest} {t} bytes req e fine more) =
      let d = dispatch platform req se in
      let r' = next r (request req refl (split_request-IsU64 (sender se.ch) bytes h.0 e)) in
      behind-Schedules se rest t rs ps ks bytes req d e (ch-dispatch platform req se)
        (Runs-Reach (rs ++ (req ∷ [])) (ps ++ d.sent) (ks ++ d.deferred) (rw fine at r') h.1 more)

  -- Over buffers of bytes, what a run of the loop did is reached in the system by steps that
  -- dispatch the requests that the buffers hold, in their order: all of them if the run waits for
  -- more, and else all but those that it ignored.
  pub run-Reach :
      (received : List Received)
      → All IsBytes received
      → (reqs ignored : List Request) × (on : Bool) × Reach platform se0 (record {
        session = (run platform se0 received).session;
        requests = reqs;
        sent = (run platform se0 received).sent;
        kept = (run platform se0 received).deferred;
        serving = on;
      })
        × (reqs ++ ignored ≡ requests_of (sender se0.ch) received)
        × Remains (run platform se0 received).end ignored on
  unfolding Schedules
  run-Reach received h = Runs-Reach [] [] [] here h (run-Runs platform se0 received)
