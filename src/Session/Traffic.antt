-- ===== src/Session/Traffic.antt =====
-- Runs of the session loop: the invariant and the phases.
use rust_fuse.Prelude.{List}
use rust_fuse.Platform.{Platform}
use rust_fuse.Filesystem.Trait.{Filesystem}
use rust_fuse.Request.Phases.{IsSession, Phase, ◌⟶◌, phase, dispatch-IsSession, dispatch-⟶}
use rust_fuse.Session.State.{Session}
use rust_fuse.Session.Run.{Received, Trace, run}
use rust_fuse.Session.Steps.{
  Runs, ends, retries, unmounted, loses, refuses, breaks, serves, run-Runs,
}

-- Along the diagram, any number of times.
infix 40 ◌⟶*◌
pub data ◌⟶*◌ : Phase → Phase → Type 0 where
  here : {p : Phase} → p ⟶* p
  step : {p q r : Phase} → p ⟶ q → q ⟶* r → p ⟶* r

module _ (platform : Platform) {fs : Filesystem} where
  Runs-IsSession :
      {se : Session fs} {received : List Received} {t : Trace fs}
      → Runs platform se received t
      → IsSession se
      → IsSession t.session × (phase se ⟶* phase t.session)
  Runs-IsSession ends v = (v, here)
  Runs-IsSession (retries errno r rest) v = Runs-IsSession rest v
  Runs-IsSession (unmounted errno r u) v = (v, here)
  Runs-IsSession (loses errno r u) v = (v, here)
  Runs-IsSession (refuses bytes e) v = (v, here)
  Runs-IsSession {se} (breaks bytes req x e f) v =
      (dispatch-IsSession platform req se v, step (dispatch-⟶ platform req se v) here)
  Runs-IsSession {se} (serves bytes req e ok rest) v =
      let (w, path) = Runs-IsSession rest (dispatch-IsSession platform req se v) in
      (w, step (dispatch-⟶ platform req se v) path)

  -- From a session that has the invariant, a run over whatever the kernel sends ends in a session
  -- that has it, and the phase only moves along the diagram.
  pub run-IsSession :
      (se : Session fs) (received : List Received)
      → IsSession se
      → IsSession (run platform se received).session
        × (phase se ⟶* phase (run platform se received).session)
  run-IsSession se received v = Runs-IsSession (run-Runs platform se received) v
