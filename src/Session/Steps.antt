-- ===== src/Session/Steps.antt =====
-- `Session::run` as a relation: what the loop does with each result of `receive`.
use rust_fuse.Prelude.{
  ℕ, ◌≡◌, List, [], ◌∷◌, true, false, none, some, ◌==◌, if_cases, inl, inr, Option-cases, arith,
  ◌⊎◌, ◌≢◌,
}
use rust_fuse.Argument.{Fault, panic}
use rust_fuse.Platform.{Platform}
use rust_fuse.Filesystem.Trait.{Filesystem, Request}
use rust_fuse.Request.Short.{split_request, new-split_request}
use rust_fuse.Request.Dispatch.{dispatch}
use rust_fuse.Session.State.{Session}
use rust_fuse.Session.Run.{
  Received, buffer, os_error, waits, leaves, crashes, Trace, stop, behind, is_retried, run, sender,
}

-- The errors after which the loop goes on: ENOENT, EINTR and EAGAIN.
abbrev pub IsRetried : Platform → ℕ → Type 0
IsRetried platform errno =
    (errno ≡ platform.enoent) ⊎ (errno ≡ platform.eintr) ⊎ (errno ≡ platform.eagain)

is_retried-IsRetried :
    (platform : Platform) (errno : ℕ) → is_retried platform errno ≡ true → IsRetried platform errno
is_retried-IsRetried platform errno h = ground arith

is_retried-not :
    (platform : Platform) (errno : ℕ)
    → is_retried platform errno ≡ false
    → ¬ (IsRetried platform errno)
is_retried-not platform errno h r = ground arith

pub data Runs (platform : Platform) {fs : Filesystem}
    : Session fs → List Received → Trace fs → Type 0 where
  ends : {se : Session fs} → Runs platform se [] (stop se waits)
  retries :
      {se : Session fs} {rest : List Received} {t : Trace fs} (errno : ℕ)
      → IsRetried platform errno
      → Runs platform se rest t
      → Runs platform se (os_error errno ∷ rest) t
  unmounted :
      {se : Session fs} {rest : List Received} (errno : ℕ)
      → ¬ (IsRetried platform errno)
      → errno ≡ platform.enodev
      → Runs platform se (os_error errno ∷ rest) (stop se leaves)
  loses :
      {se : Session fs} {rest : List Received} (errno : ℕ)
      → ¬ (IsRetried platform errno)
      → errno ≢ platform.enodev
      → Runs platform se (os_error errno ∷ rest) (stop se (crashes panic))
  refuses :
      {se : Session fs} {rest : List Received} (bytes : List ℕ)
      → split_request (sender se.ch) bytes ≡ none
      → Runs platform se (buffer bytes ∷ rest) (stop se leaves)
  breaks :
      {se : Session fs} {rest : List Received} (bytes : List ℕ) (req : Request) (x : Fault)
      → split_request (sender se.ch) bytes ≡ some req
      → (dispatch platform req se).failure ≡ some x
      → Runs platform se
          (buffer bytes ∷ rest)
          (behind (dispatch platform req se) (stop (dispatch platform req se).session (crashes x)))
  serves :
      {se : Session fs} {rest : List Received} {t : Trace fs} (bytes : List ℕ) (req : Request)
      → split_request (sender se.ch) bytes ≡ some req
      → (dispatch platform req se).failure ≡ none
      → Runs platform (dispatch platform req se).session rest t
      → Runs platform se (buffer bytes ∷ rest) (behind (dispatch platform req se) t)

module _ (platform : Platform) {fs : Filesystem} where
  -- The loop follows the relation `Runs` on every sequence of results of `receive`: it skips the
  -- errors ENOENT, EINTR and EAGAIN, leaves on ENODEV, unless that is one of them, and on a buffer
  -- that is no whole request, ends its thread on any other error and on a fault of the dispatch,
  -- and else goes on with the session that the dispatch left.
  pub run-Runs :
      (se : Session fs) (received : List Received)
      → Runs platform se received (run platform se received)
  unfolding run
  run-Runs se [] = ends
  run-Runs se (os_error errno ∷ rest) =
      let ih = run-Runs se rest in
      if_cases {A = Trace fs} (Runs platform se (os_error errno ∷ rest)) (is_retried platform errno)
        (λ r. retries errno (is_retried-IsRetried platform errno r) ih)
        (λ r.
          if_cases {A = Trace fs} (Runs platform se (os_error errno ∷ rest))
            (errno == platform.enodev)
            (λ u. unmounted errno (is_retried-not platform errno r) (ground arith))
            (λ u. loses errno (is_retried-not platform errno r) (λ q. ground arith)))
  run-Runs se (buffer bytes ∷ rest) =
      let ih = λ (se' : Session fs). run-Runs se' rest in
      elim (Option-cases (split_request (sender se.ch) bytes)) [
        | inl e ↦ rw (new-split_request (sender se.ch) bytes, e) (refuses bytes e)
        | inr (req, e) ↦ elim (Option-cases (dispatch platform req se).failure) [
          | inl ok ↦
              rw (new-split_request (sender se.ch) bytes, e, ok)
                (serves bytes req e ok (ih (dispatch platform req se).session))
          | inr (x, f) ↦ rw (new-split_request (sender se.ch) bytes, e, f) (breaks bytes req x e f)
        ]
      ]
