-- ===== src/Request/Phases.antt =====
-- The invariant of a session, and the diagram of its phases.
use rust_fuse.Prelude.{◌≡◌, refl, Bool, true, false, if◌then◌else◌}
use mathlib.Core.Bool.{false≢true}
use rust_fuse.Platform.{Platform}
use rust_fuse.Filesystem.Trait.{Filesystem, Request}
use rust_fuse.Session.State.{Session}
use rust_fuse.Request.Dispatch.{dispatch}
use rust_fuse.Request.Lifecycle.{IsSupported, dispatch_session_cases}

-- A session that serves requests has agreed on a version from 7.6 on, and only such a session is
-- ever destroyed.
pub record IsSession {fs : Filesystem} (se : Session fs) : Type 0 where
  pub supported : se.initialized ≡ true → IsSupported se.proto_major se.proto_minor
  pub ordered : se.destroyed ≡ true → se.initialized ≡ true

module _ (platform : Platform) {fs : Filesystem} (req : Request) (se : Session fs) where
  -- No request, well formed or not, breaks the invariant of a session.
  pub dispatch-IsSession : IsSession se → IsSession (dispatch platform req se).session
  dispatch-IsSession v =
      dispatch_session_cases platform req se IsSession
        (λ se' same. record {
          supported = λ on.
              rw (same.proto_major, same.proto_minor) (v.supported (rw same.initialized at on));
          ordered = λ off. rw same.initialized (v.ordered (rw same.destroyed at off));
        })
        (λ arg state new. record { supported = λ _. new; ordered = v.ordered })
        (λ arg state new. record { supported = λ _. new; ordered = λ _. refl })
        (λ state on. record { supported = v.supported; ordered = λ _. on })

-- The phases of a session.
pub data Phase : Type 0 where
  fresh ready gone : Phase

abbrev pub phase_of : Bool → Bool → Phase
phase_of initialized destroyed = if initialized then (if destroyed then gone else ready) else fresh

abbrev pub phase : {fs : Filesystem} → Session fs → Phase
phase se = phase_of se.initialized se.destroyed

-- The diagram: one way, and every phase may last.
infix 40 ◌⟶◌
pub data ◌⟶◌ : Phase → Phase → Type 0 where
  stay : {p : Phase} → p ⟶ p
  start : fresh ⟶ ready
  stop : ready ⟶ gone

starts : (i d : Bool) → (d ≡ true → i ≡ true) → phase_of i d ⟶ phase_of true d
starts true d h = stay
starts false false h = start
starts false true h = absurd (false≢true (h refl))

stops : (i d : Bool) → i ≡ true → phase_of i d ⟶ phase_of i true
stops true true h = stay
stops true false h = stop
stops false d h = absurd (false≢true h)

-- In a session that has the invariant, a request leaves the phase as it is, or moves it from fresh
-- to ready or from ready to gone.
pub dispatch-⟶ :
    (platform : Platform) {fs : Filesystem} (req : Request) (se : Session fs)
    → IsSession se
    → phase se ⟶ phase (dispatch platform req se).session
dispatch-⟶ platform req se v =
    dispatch_session_cases platform req se (λ se'. phase se ⟶ phase se')
      (λ se' same. rw (same.initialized, same.destroyed) stay) (λ arg state new. stay)
      (λ arg state new. starts se.initialized se.destroyed v.ordered)
      (λ state on. stops se.initialized se.destroyed on)
