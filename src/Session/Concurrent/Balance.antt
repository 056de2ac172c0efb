-- ===== src/Session/Concurrent/Balance.antt =====
-- Every request is answered at most once, and none is lost, however the uses of the kept reply objects
-- interleave with the requests.
use rust_fuse.Prelude.{
  ℕ, ◌+◌, ◌≤◌, ◌≡◌, arith, List, [], ◌∷◌, ◌++◌, if◌then◌else◌, All, All-append, ap, append_assoc,
  true,
}
use rust_fuse.Argument.{done}
use rust_fuse.Platform.{Platform}
use rust_fuse.Filesystem.Trait.{Filesystem}
use rust_fuse.Reply.Answer.{ReplyKind, ReplyObject, Pending, pending, Resolution, Answer, answer}
use rust_fuse.Reply.Once.{answer-Settles}
use rust_fuse.Request.Dispatch.{dispatch}
use rust_fuse.Request.Once.{dispatch-Answers}
use rust_fuse.Session.State.{Session}
use rust_fuse.Session.Concurrent.Accounts.{
  tally, tally_of, tally_of-append, packet_id, pending_id, request_id, IsKept, replies_with,
  Accounted-cases, Settles-account, Answers-account, replies_with-append, replies_with-finish,
  forget_id_count, forget_id_count-append,
}
use rust_fuse.Session.Concurrent.{System, Step, request, finish, Reach, here, next}

-- Kept reply objects are unsent, and for each id the replies are as many as the requests, but for the
-- FORGET requests and the one that ended the loop.
pub record IsBalanced {fs : Filesystem} (s : System fs) : Type 0 where
  pub unsent : All IsKept s.kept
  pub at_most : (n : ℕ) → replies_with n s.sent s.kept ≤ tally_of n request_id s.requests
  pub at_least :
      (n : ℕ)
      → tally_of n request_id s.requests
        ≤ replies_with n s.sent s.kept + forget_id_count n s.requests + (if s.serving then 0 else 1)

All-head {ℓ} :
    {A : Type ℓ} (P : A → Type 0) (xs : List A) (y : A) (ys : List A)
    → All P (xs ++ (y ∷ ys))
    → P y × All P (xs ++ ys)
All-head P [] y ys h = h
All-head P (x ∷ xs) y ys h = let (p, rest) = All-head P xs y ys h.1 in (p, (h.0, rest))

module _ (platform : Platform) {fs : Filesystem} where
  Step-IsBalanced : {s t : System fs} → Step platform s t → IsBalanced s → IsBalanced t
  Step-IsBalanced {s} (request req on u) v =
      let e = dispatch platform req s.session in
      let a = λ (n : ℕ). Answers-account n u (dispatch-Answers platform req s.session) in
      record {
        unsent = All-append IsKept s.kept e.deferred v.unsent (a 0).0;
        at_most = λ n. omega (
          arith,
          (a n).1,
          v.at_most n,
          replies_with-append n s.sent e.sent s.kept e.deferred,
          tally_of-append n request_id s.requests (req ∷ []),
        );
        at_least = λ n. omega (
          arith,
          (a n).2,
          rw on at (v.at_least n),
          replies_with-append n s.sent e.sent s.kept e.deferred,
          tally_of-append n request_id s.requests (req ∷ []),
          forget_id_count-append n s.requests req,
        );
      }
  Step-IsBalanced {s} (finish before after kind r x res split e) v =
      let held = All-head IsKept before (pending kind r) after (rw split at v.unsent) in
      let (ch, unsent, u) = held.0 in
      let one = λ (n : ℕ). rw e at (
        Settles-account platform (pending_id (pending kind r)) ch n u
          (answer-Settles platform kind r x unsent)) in
      record {
        unsent =
            rw append_assoc at (All-append IsKept (before ++ after) res.deferred held.1 (one 0).1);
        at_most = λ n. omega (
          arith,
          v.at_most n,
          (one n).0,
          replies_with-finish n before after kind r res s.sent split,
        );
        at_least = λ n. omega (
          arith,
          v.at_least n,
          (one n).0,
          replies_with-finish n before after kind r res s.sent split,
        );
      }

  pub Reach-IsBalanced : {se : Session fs} {s : System fs} → Reach platform se s → IsBalanced s
  Reach-IsBalanced here = record {
    unsent = tt;
    at_most = λ n. omega arith;
    at_least = λ n. omega arith;
  }
  Reach-IsBalanced (next r st) = Step-IsBalanced st (Reach-IsBalanced r)

  -- However the dispatches of a session and the uses of the reply objects that its filesystem kept
  -- interleave, the packets that were sent with an id and the kept reply objects with that id are
  -- together at most as many as the requests with that id, if ids of requests are u64.
  pub replies_with-le :
      {se : Session fs} {s : System fs}
      → Reach platform se s
      → (n : ℕ) → replies_with n s.sent s.kept ≤ tally_of n request_id s.requests
  replies_with-le r n = (Reach-IsBalanced r).at_most n

  -- However the dispatches of a session and the uses of the reply objects that its filesystem kept
  -- interleave: if ids of requests are u64, no dispatch ended in a fault and no reply object is
  -- kept any more, then the requests with an id are at most as many as the packets that were sent
  -- with it and the FORGET requests with it.
  pub requests_answered :
      {se : Session fs} {s : System fs}
      → Reach platform se s
      → s.serving ≡ true
      → s.kept ≡ []
      → (n : ℕ)
      → tally_of n request_id s.requests
        ≤ tally_of n packet_id s.sent + forget_id_count n s.requests
  requests_answered {s} r on none n =
      let bound = (Reach-IsBalanced r).at_least n in
      omega (arith, rw on at bound, ap (tally_of n pending_id) none)

  -- No use of a kept reply object is a fault of the library, and each leaves one reply with its
  -- id, sent or kept.
  pub kept-answer :
      {se : Session fs} {s : System fs} (before after : List Pending) (kind : ReplyKind)
      (r : ReplyObject kind) (a : Answer kind)
      → Reach platform se s
      → s.kept ≡ before ++ (pending kind r ∷ after)
      → (n : ℕ)
      → (res : Resolution) × (answer platform kind r a ≡ done res)
        × (replies_with n res.sent res.deferred ≡ tally n (pending_id (pending kind r) ∷ []))
  kept-answer before after kind r a reach split n =
      let held =
        All-head IsKept before (pending kind r) after
          (rw split at (Reach-IsBalanced reach).unsent) in
      let (ch, unsent, u) = held.0 in
      Accounted-cases (pending_id (pending kind r)) n (answer platform kind r a) (
        Settles-account platform (pending_id (pending kind r)) ch n u
          (answer-Settles platform kind r a unsent))
