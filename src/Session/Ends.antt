-- ===== src/Session/Ends.antt =====
-- Where the loop of `Session::run` ends.
use mathlib.Core.Path.{fun_ext}
use rust_fuse.Prelude.{
  Option, sym, if_cases, ◌≡◌, ◌≢◌, refl, arith, List, [], ◌∷◌, ◌++◌, false, none, some, ap, ◌==◌,
  ==_iff, ◌∙◌,
}
use rust_fuse.Argument.{Outcome, done, fault, Fault}
use rust_fuse.Platform.{Platform, IsPosix}
use rust_fuse.Filesystem.Trait.{Filesystem, Request}
use rust_fuse.Request.Parse
use rust_fuse.Request.Dispatch.{dispatch, Effect}
use rust_fuse.Session.State.{Session}
use rust_fuse.Session.Run.{
  Received, buffer, os_error, waits, leaves, Trace, is_retried, stop, proceed, run, handle, sender,
}

module _ (platform : Platform) (posix : IsPosix platform) where
  -- ENODEV is none of the errors that are retried.
  is_retried-enodev : is_retried platform platform.enodev ≡ false
  is_retried-enodev =
      ground (arith, posix.enodev-ne-enoent, posix.enodev-ne-eintr, posix.enodev-ne-eagain)

  module _ {fs : Filesystem} where
    run-enodev :
        (se : Session fs) (after : List Received)
        → run platform se (os_error platform.enodev ∷ after) ≡ stop se leaves
    unfolding run
    run-enodev se after = rw (is_retried-enodev, (==_iff platform.enodev platform.enodev).1 refl)

    -- What follows the end of a request that was handled does not matter to whether the loop ends.
    handle_ends :
        (se : Session fs) (o : Outcome (Option Request)) (next : Session fs → Trace fs)
        → ((se' : Session fs) → (next se').end ≢ waits)
        → (handle platform se o next).end ≢ waits
    handle_ends se (fault x) next h = λ q. ground arith
    handle_ends se (done none) next h = λ q. ground arith
    handle_ends se (done (some req)) next h =
        proceed_ends (dispatch platform req se) (dispatch platform req se).failure
      where
        proceed_ends : (e : Effect fs) (f : Option Fault) → (proceed e f next).end ≢ waits
        proceed_ends e none = h e.session
        proceed_ends e (some x) = λ q. ground arith

    -- If ENODEV is none of the retried errors, a loop that receives ENODEV at some time does not
    -- wait for more, whatever it received before.
    pub run_ends :
        (se : Session fs) (before after : List Received)
        → (run platform se (before ++ (os_error platform.enodev ∷ after))).end ≢ waits
    unfolding run
    run_ends se [] after = rw (run-enodev se after) (λ e. ground arith)
    run_ends se (os_error errno ∷ before) after =
        let ih = run_ends se before after in
        if_cases {A = Trace fs} (λ t. t.end ≢ waits) (is_retried platform errno) (λ _. ih)
          (λ _.
            if_cases {A = Trace fs} (λ t. t.end ≢ waits) (errno == platform.enodev)
              (λ _ e. ground arith) (λ _ e. ground arith))
    run_ends se (buffer bytes ∷ before) after =
        handle_ends se (Parse.new (sender se.ch) bytes) _ (λ se'. run_ends se' before after)

    pub run-append_unmounted :
        (se : Session fs) (before after : List Received)
        → run platform se (before ++ (os_error platform.enodev ∷ after))
          ≡ run platform se (before ++ (os_error platform.enodev ∷ []))
    unfolding run
    run-append_unmounted se [] after = run-enodev se after ∙ sym (run-enodev se [])
    run-append_unmounted se (os_error errno ∷ before) after =
        rw (run-append_unmounted se before after)
    run-append_unmounted se (buffer bytes ∷ before) after =
        ap (handle platform se (Parse.new (sender se.ch) bytes))
          (fun_ext (λ se'. run-append_unmounted se' before after))
