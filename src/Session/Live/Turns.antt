-- ===== src/Session/Live/Turns.antt =====
-- What the loop over the calls of libc does is what the loop does with the results of its reads.
use mathlib.Core.Path.{sym}
use rust_fuse.Argument.{panic}
use rust_fuse.Prelude.{
  ℕ, zero, suc, ◌≡◌, ◌≢◌, refl, arith, List, [], ◌∷◌, length, ◌==◌, if_cases, inl, inr,
  Option-cases, ap, append-nil, ◌++◌, ◌∙◌, ◌⊎◌, if◌then◌else◌,
}
use rust_fuse.Platform.{Platform, IsPosix}
use rust_fuse.Filesystem.Trait.{Filesystem}
use rust_fuse.Channel.{receive, received, send_buffers}
use rust_fuse.Request.Parse
use rust_fuse.Reply.Raw.{Packet}
use rust_fuse.Channel.Calls.{Libc, Answer, returns, sets_errno}
use rust_fuse.Request.Short.{split_request, new-split_request}
use rust_fuse.Request.Dispatch.{dispatch}
use rust_fuse.Session.State.{Session, buffer_size}
use rust_fuse.Session.Run.{
  Received, buffer, os_error, waits, leaves, crashes, Trace, stop, behind, is_retried, run, sender,
}
use rust_fuse.Session.Ends.{run_ends}
use rust_fuse.Session.Live.{transmit_all, live_run, live_turn, live_handle, Next}

-- The result of `receive`, as the loop sees it.
abbrev pub received_of : Answer (List ℕ) → Received
received_of (returns bytes) = buffer bytes
received_of (sets_errno e) = os_error e

-- The calls that write some packets: one `writev` for each, on its descriptor and with its buffers, in
-- their order, whatever they return.
pub data Writes (libc : Libc) : List Packet → libc.World → libc.World → Type 0 where
  writes_none : {w : libc.World} → Writes libc [] w w
  writes_next :
      {w w' w'' : libc.World} {ps : List Packet} (p : Packet) (a : Answer ℕ)
      → libc.writev p.fd p.iovecs w ≡ (w', a)
      → Writes libc ps w' w''
      → Writes libc (p ∷ ps) w w''

-- From a session and a world, the turns of a loop: each reads once, and then writes what the loop sends
-- on that one result, before the next one reads.
pub data Turns (libc : Libc) (platform : Platform) {fs : Filesystem}
    : Session fs → libc.World → List Received → libc.World → Type 0 where
  rests : {se : Session fs} {w : libc.World} → Turns libc platform se w [] w
  turn :
      {se : Session fs} {w w' v w'' : libc.World} {rest : List Received} (a : Answer (List ℕ))
      → libc.read se.ch.fd buffer_size w ≡ (w', a)
      → Writes libc (run platform se (received_of a ∷ [])).sent w' v
      → Turns libc platform (run platform se (received_of a ∷ [])).session v rest w''
      → Turns libc platform se w (received_of a ∷ rest) w''

one_more :
    {n : ℕ} {Q : Type 0} (rs : List Received) → (length rs ≡ n) ⊎ Q → (suc (length rs) ≡ suc n) ⊎ Q
one_more rs (inl e) = inl (ap suc e)
one_more rs (inr ended) = inr ended

transmit_all-Writes :
    (libc : Libc) (ps : List Packet) (w : libc.World) → Writes libc ps w (transmit_all libc ps w)
unfolding transmit_all send_buffers
transmit_all-Writes libc [] w = writes_none
transmit_all-Writes libc (p ∷ ps) w =
    writes_next p (libc.writev p.fd p.iovecs w).1 refl
      (transmit_all-Writes libc ps (libc.writev p.fd p.iovecs w).0)

module _ (libc : Libc) (platform : Platform) {fs : Filesystem} where
  -- Some turns, their trace, and whether they were all.
  abbrev pub Served : ℕ → Session fs → libc.World → libc.World × Trace fs → Type 0
  Served n se w r =
      (rs : List Received) × (r.1 ≡ run platform se rs)
      × Turns libc platform se w rs r.0
      × ((length rs ≡ n) ⊎ (r.1.end ≢ waits))

  -- A turn, by what the loop does with its one result.
  turn_by :
      {se : Session fs} {w w' w'' : libc.World} {rest : List Received} (a : Answer (List ℕ))
      (one : Trace fs) (packets : List Packet)
      → libc.read se.ch.fd buffer_size w ≡ (w', a)
      → run platform se (received_of a ∷ []) ≡ one
      → one.sent ≡ packets
      → Turns libc platform one.session (transmit_all libc packets w') rest w''
      → Turns libc platform se w (received_of a ∷ rest) w''
  turn_by {w' = w'} a one packets q e s ts =
      turn {v = transmit_all libc packets w'} a q (rw (e, s) (transmit_all-Writes libc packets w'))
        (rw e ts)

  -- The turn that ends the loop.
  last_turn :
      (n : ℕ) (se : Session fs) {w w' : libc.World} (a : Answer (List ℕ)) (one : Trace fs)
      (packets : List Packet)
      → libc.read se.ch.fd buffer_size w ≡ (w', a)
      → run platform se (received_of a ∷ []) ≡ one
      → one.sent ≡ packets
      → one.end ≢ waits
      → Served (suc n) se w (transmit_all libc packets w', one)
  last_turn n se a one packets q e s ended =
      (received_of a ∷ [], sym e, turn_by a one packets q e s rests, inr ended)

  error-Served :
      (n errno : ℕ) (se : Session fs) (w w' : libc.World) (again : libc.World × Trace fs)
      → libc.read se.ch.fd buffer_size w ≡ (w', sets_errno errno)
      → Served n se w' again
      → Served (suc n) se w (
          if is_retried platform errno
          then again
          else if errno == platform.enodev
          then (w', stop se leaves)
          else (w', stop se (crashes panic)))
  unfolding run transmit_all
  error-Served n errno se w w' again q (rs, e, ts, all) =
      let a : Answer (List ℕ) = sets_errno errno in
      if_cases (Served (suc n) se w) (is_retried platform errno)
        (λ r. (
          os_error errno ∷ rs,
          rw (r, run) e,
          turn_by a (stop se waits) [] q (rw (r, run)) refl ts,
          one_more rs all,
        ))
        (λ r.
          if_cases (Served (suc n) se w) (errno == platform.enodev)
            (λ u. last_turn n se a (stop se leaves) [] q (rw (r, run, u)) refl (λ i. ground arith))
            (λ u.
              last_turn n se a (stop se (crashes panic)) [] q (rw (r, run, u)) refl
                (λ i. ground arith)))

  request-Served :
      (n : ℕ) (bytes : List ℕ) (se : Session fs) (w w' : libc.World) (next : Next libc fs)
      → libc.read se.ch.fd buffer_size w ≡ (w', returns bytes)
      → ((se' : Session fs) (v : libc.World) → Served n se' v (next se' v))
      → Served (suc n) se w (live_handle libc platform se (Parse.new (sender se.ch) bytes) w' next)
  unfolding run transmit_all
  request-Served n bytes se w w' next q ih =
      let a : Answer (List ℕ) = returns bytes in
      let split = new-split_request (sender se.ch) bytes in
      elim (Option-cases (split_request (sender se.ch) bytes)) [
        | inl e ↦
            rw (split, e)
              (last_turn n se a (stop se leaves) [] q (rw (run, split, e)) refl (λ i. ground arith))
        | inr (req, e) ↦
            let did = dispatch platform req se in
            elim (Option-cases did.failure) [
              | inl ok ↦
                  let (rs, t, ts, all) = ih did.session (transmit_all libc did.sent w') in
                  rw (split, e, ok)
                    (
                      buffer bytes ∷ rs,
                      rw (run, split, e, ok, t),
                      turn_by a (behind did (stop did.session waits)) did.sent q
                          (rw (run, split, e, ok)) (append-nil did.sent) ts,
                      one_more rs all,
                    )
              | inr (x, f) ↦
                  rw (split, e, f)
                    (last_turn n se a (behind did (stop did.session (crashes x))) did.sent q
                      (rw (run, split, e, f)) (append-nil did.sent) (λ i. ground arith))
            ]
      ]

  turn-Served :
      (n : ℕ) (se : Session fs) (w w' : libc.World) (a : Answer (List ℕ)) (next : Next libc fs)
      → libc.read se.ch.fd buffer_size w ≡ (w', a)
      → ((se' : Session fs) (v : libc.World) → Served n se' v (next se' v))
      → Served (suc n) se w (live_turn libc platform se (received libc (w', a)) next)
  turn-Served n se w w' (returns bytes) next q ih = request-Served n bytes se w w' next q ih
  turn-Served n se w w' (sets_errno errno) next q ih =
      error-Served n errno se w w' (next se w') q (ih se w')

  -- Whatever libc answers, what the loop does in so many turns is a run over the results that it
  -- read: each turn reads once, and writes the packets that the loop sends on that result, one
  -- `writev` for each, before the next turn reads, whether or not the writes succeed. There are as
  -- many turns as were allowed, or the loop has ended.
  pub live_run-Served :
      (n : ℕ) (se : Session fs) (w : libc.World) → Served n se w (live_run libc platform n se w)
  unfolding live_run receive run
  live_run-Served zero se w = ([], refl, rests, inl refl)
  live_run-Served (suc n) se w =
      turn-Served n se w (libc.read se.ch.fd buffer_size w).0 (libc.read se.ch.fd buffer_size w).1 _
        refl (λ se' v. live_run-Served n se' v)

  -- If ENODEV is none of the retried errors, a loop that waits for more after so many turns has
  -- read as many results in those turns, and ENODEV is none of them.
  pub live_run_waits :
      (n : ℕ) (se : Session fs) (w : libc.World)
      → IsPosix platform
      → (live_run libc platform n se w).1.end ≡ waits
      → (rs : List Received) × (length rs ≡ n)
        × Turns libc platform se w rs (live_run libc platform n se w).0
        × ((before after : List Received) → rs ≢ before ++ (os_error platform.enodev ∷ after))
  live_run_waits n se w posix waiting =
      let (rs, t, ts, all) = live_run-Served n se w in
      (
        rs,
        elim all [ inl e ↦ e | inr ended ↦ absurd (ended waiting) ],
        ts,
        λ before after split.
            run_ends platform posix se before after
              (ap (λ i. (run platform se i).end) (sym split) ∙ ap (λ i. i.end) (sym t) ∙ waiting),
      )
