-- ===== src/Session/Fixed.antt =====
-- What no request of a session changes.
use rust_fuse.Prelude.{◌≡◌, refl, ◌∙◌, List}
use rust_fuse.Platform.{Platform}
use rust_fuse.Filesystem.Trait.{Filesystem, Request}
use rust_fuse.Request.Dispatch.{dispatch}
use rust_fuse.Request.Lifecycle.{dispatch_session_cases}
use rust_fuse.Session.State.{Session}
use rust_fuse.Session.Run.{Received, Trace, run}
use rust_fuse.Session.Steps.{
  Runs, ends, retries, unmounted, loses, refuses, breaks, serves, run-Runs,
}

-- The channel of a session stays.
pub ch-dispatch :
    (platform : Platform) {fs : Filesystem} (req : Request) (se : Session fs)
    → (dispatch platform req se).session.ch ≡ se.ch
ch-dispatch platform req se =
    dispatch_session_cases platform req se (λ se'. se'.ch ≡ se.ch) (λ se' same. same.ch)
      (λ arg state new. refl) (λ arg state new. refl) (λ state on. refl)

Runs-ch :
    {platform : Platform} {fs : Filesystem} {se : Session fs} {received : List Received}
    {t : Trace fs}
    → Runs platform se received t
    → t.session.ch ≡ se.ch
Runs-ch ends = refl
Runs-ch (retries errno r rest) = Runs-ch rest
Runs-ch (unmounted errno r u) = refl
Runs-ch (loses errno r u) = refl
Runs-ch (refuses bytes e) = refl
Runs-ch {platform} {se} (breaks bytes req x e f) = ch-dispatch platform req se
Runs-ch {platform} {se} (serves bytes req e fine rest) = Runs-ch rest ∙ ch-dispatch platform req se

pub ch-run :
    (platform : Platform) {fs : Filesystem} (se : Session fs) (received : List Received)
    → (run platform se received).session.ch ≡ se.ch
ch-run platform se received = Runs-ch (run-Runs platform se received)
