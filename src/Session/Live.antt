-- ===== src/Session/Live.antt =====
-- `Session::run` over the calls of libc: each turn reads once, dispatches, and writes the packets of
-- the dispatch before the next turn reads.
pub mod Turns
pub mod Fixed
use rust_fuse.Prelude.{ℕ, zero, suc, List, [], ◌∷◌, ◌≡◌, Option, none, some, ◌==◌, if◌then◌else◌}
use rust_fuse.Argument.{Outcome, done, fault, Fault, panic}
use rust_fuse.Platform.{Platform}
use rust_fuse.Filesystem.Trait.{Filesystem, Request}
use rust_fuse.Channel.{IoResult, ok, err, os_errno, invalid_input, receive, send_buffers}
use rust_fuse.Channel.Calls.{Libc}
use rust_fuse.Reply.Raw.{Packet}
use rust_fuse.Request.Parse
use rust_fuse.Request.Dispatch.{dispatch, Effect}
use rust_fuse.Session.State.{Session, buffer_size}
use rust_fuse.Session.Run.{End, waits, leaves, crashes, Trace, stop, behind, is_retried, sender}

module _ (libc : Libc) where
  open libc use {World}

  -- The closure that `Request::reply` makes: a failure of the call is only logged.
  abbrev pub transmit : Packet → World → World
  transmit p w = (send_buffers libc (record { fd = p.fd }) p.iovecs w).0

  -- The packets of a dispatch, in their order.
  unfoldable pub transmit_all : List Packet → World → World
  transmit_all [] w = w
  transmit_all (p ∷ ps) w = transmit_all ps (transmit p w)

  -- What follows a turn.
  abbrev pub Next : Filesystem → Type 0
  Next fs = Session fs → World → World × Trace fs

  module _ (platform : Platform) {fs : Filesystem} where
    abbrev pub live_proceed : Effect fs → Option Fault → World → Next fs → World × Trace fs
    live_proceed e none w next =
        let (w', t) = next e.session (transmit_all e.sent w) in (w', behind e t)
    live_proceed e (some x) w next = (transmit_all e.sent w, behind e (stop e.session (crashes x)))

    abbrev pub live_handle :
        Session fs → Outcome (Option Request) → World → Next fs → World × Trace fs
    live_handle se (fault x) w next = (w, stop se (crashes x))
    live_handle se (done none) w next = (w, stop se leaves)
    live_handle se (done (some req)) w next =
        live_proceed (dispatch platform req se) (dispatch platform req se).failure w next

    -- One turn of the loop, on what `receive` returned.
    abbrev pub live_turn : Session fs → World × IoResult (List ℕ) → Next fs → World × Trace fs
    live_turn se (w, ok bytes) next = live_handle se (Parse.new (sender se.ch) bytes) w next
    live_turn se (w, err (os_errno errno)) next =
        let again = next se w in
        if is_retried platform errno
        then again
        else if errno == platform.enodev
        then (w, stop se leaves)
        else (w, stop se (crashes panic))
    live_turn se (w, err invalid_input) next = (w, stop se (crashes panic))

    -- So many turns of the loop, or less if it ends.
    unfoldable pub live_run : ℕ → Session fs → World → World × Trace fs
    live_run zero se w = (w, stop se waits)
    live_run (suc n) se w =
        live_turn se (receive libc se.ch buffer_size w) (λ se' w'. live_run n se' w')
