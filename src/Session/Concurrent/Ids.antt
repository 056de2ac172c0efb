-- ===== src/Session/Concurrent/Ids.antt =====
-- The replies of a whole run, counted by the id that the kernel gave to each request.
use rust_fuse.Prelude.{
  ℕ, ◌+◌, ◌≤◌, ◌≡◌, refl, arith, List, [], Bool, true, All, append-nil, ◌∙◌, sym,
}
use rust_fuse.Platform.{Platform}
use rust_fuse.Filesystem.Trait.{Filesystem, Request}
use rust_fuse.Session.State.{Session}
use rust_fuse.Session.Run.{Received, End, waits, run, sender}
use rust_fuse.Session.Concurrent.{System}
use rust_fuse.Session.Concurrent.Accounts.{tally_of, request_id, replies_with, forget_id_count}
use rust_fuse.Session.Concurrent.Balance.{IsBalanced, Reach-IsBalanced}
use rust_fuse.Session.Concurrent.Schedule.{
  requests_of, IsBytes, Remains, nothing, ignores, run-Reach,
}

module _ (platform : Platform) {fs : Filesystem} (se : Session fs) where
  -- A run that waits has ignored nothing.
  Remains-waits :
      {end : End} {ignored : List Request} {on : Bool}
      → end ≡ waits
      → Remains end ignored on
      → (ignored ≡ []) × (on ≡ true)
  Remains-waits w (nothing _) = (refl, refl)
  Remains-waits w (ignores reqs on n) = absurd (n w)

  balanced_low :
      {s : System fs}
      → IsBalanced s
      → s.serving ≡ true
      → (n : ℕ)
      → tally_of n request_id s.requests
        ≤ replies_with n s.sent s.kept + forget_id_count n s.requests
  balanced_low v on n = let low = v.at_least n in omega (arith, rw on at low)

  -- If the buffers that came consist of bytes and the run waits for more, then for every id the
  -- replies, sent or held by the filesystem, are at most as many as the requests with it, and
  -- those are at most as many as the replies and the FORGET requests with it.
  pub run_replies_by_id :
      (received : List Received) (n : ℕ)
      → All IsBytes received
      → (run platform se received).end ≡ waits
      → (replies_with n (run platform se received).sent (run platform se received).deferred
          ≤ tally_of n request_id (requests_of (sender se.ch) received))
        × (tally_of n request_id (requests_of (sender se.ch) received)
            ≤ replies_with n (run platform se received).sent (run platform se received).deferred
              + forget_id_count n (requests_of (sender se.ch) received))
  run_replies_by_id received n h w =
      let (reqs, ignored, on, reach, all, left) = run-Reach platform se received h in
      let (i, o) = Remains-waits w left in
      let same : reqs ≡ requests_of (sender se.ch) received =
        sym (append-nil reqs) ∙ (rw i at all) in
      let balance = Reach-IsBalanced platform reach in
      rw (← same) (balance.at_most n, balanced_low balance o n)
