-- ===== src/Request/Lifecycle.antt =====
-- The state of a session as `Request::dispatch` moves it: initialized once and for all by a good
-- INIT, destroyed once and for all by a DESTROY after that.
use rust_fuse.Prelude.{
  none, some, Option, ℕ, ◌≤◌, ◌<◌, ◌≡◌, refl, arith, true, false, ◌⊎◌, inl, inr, Bool-cases,
  Option-cases, not, if_cases, not-eq_false,
}
use rust_fuse.Abi.Opcode.{from_u32}
use rust_fuse.Abi.Control.{FuseInitIn, init_in_pod}
use rust_fuse.Argument
use rust_fuse.Argument.{Outcome, ArgumentIterator, done, fault, fetch}
use rust_fuse.Platform.{Platform}
use rust_fuse.Filesystem.Trait.{Filesystem, Request}
use rust_fuse.Session.State.{Session}
use rust_fuse.Request.Decode.{Arm, initializes, destroys, operates, arm}
use rust_fuse.Request.Dispatch.{
  initialize, dispatch_init, dispatch_arm, dispatch, is_too_old, Effect, destroyed_with,
}
use rust_fuse.Request.Frame.{
  SameSession, session-after, with_filesystem-SameSession, perform-SameSession,
}

-- ABI versions from 7.6 on.
abbrev pub IsSupported : (major minor : ℕ) → Type 0
IsSupported major minor = (7 < major) ⊎ ((major ≡ 7) × (6 ≤ minor))

pub is_too_old-IsSupported :
    (arg : FuseInitIn) → is_too_old arg ≡ false → IsSupported arg.major arg.minor
is_too_old-IsSupported arg h = ground arith

pub Outcome-cases {ℓ} :
    {A : Type ℓ} (o : Outcome A) → ((a : A) × (o ≡ done a)) ⊎ ((x : Argument.Fault) × (o ≡ fault x))
Outcome-cases (done a) = inl (a, refl)
Outcome-cases (fault x) = inr (x, refl)

module _ (platform : Platform) {fs : Filesystem} (req : Request) (se : Session fs) where
  -- The session that INIT leaves.
  abbrev pub negotiated : FuseInitIn → fs.State → Session fs
  negotiated arg state = record se {
    filesystem = state;
    proto_major = arg.major;
    proto_minor = arg.minor;
  }

  -- All that can become of the session.
  module _ {ℓ} (P : Session fs → Type ℓ) (same : (se' : Session fs) → SameSession se se' → P se')
      (refused : (arg : FuseInitIn) (state : fs.State)
        → IsSupported arg.major arg.minor
        → P (negotiated arg state))
      (started : (arg : FuseInitIn) (state : fs.State)
        → IsSupported arg.major arg.minor
        → P (record (negotiated arg state) { initialized = true }))
      (stopped : (state : fs.State)
        → se.initialized ≡ true
        → P (record se { filesystem = state; destroyed = true })) where
    unchanged : P se
    unchanged = same se (with_filesystem-SameSession se se.filesystem)

    initialize_cases : (arg : FuseInitIn) → P (initialize platform req se arg).session
    unfolding initialize
    initialize_cases arg = elim (Bool-cases (is_too_old arg)) [
      | inl old ↦ rw (old, session-after se) unchanged
      | inr new ↦ elim (Outcome-cases (fs.init req se.filesystem).1) [
        | inl (none, ok) ↦
            rw
              (
                new,
                ok,
                session-after
                    (record (negotiated arg (fs.init req se.filesystem).0) { initialized = true }),
              )
              (started arg _ (is_too_old-IsSupported arg new))
        | inl (some err, e) ↦
            rw (new, e, session-after (negotiated arg (fs.init req se.filesystem).0))
              (refused arg _ (is_too_old-IsSupported arg new))
        | inr (x, e) ↦
            rw (new, e, session-after (negotiated arg (fs.init req se.filesystem).0))
              (refused arg _ (is_too_old-IsSupported arg new))
      ]
    ]

    dispatch_init_cases : P (dispatch_init platform req se).session
    unfolding dispatch_init
    dispatch_init_cases = elim (Outcome-cases (fetch {A = FuseInitIn} (Argument.new req.payload))) [
      | inl ((arg, it), e) ↦ rw (e, dispatch_init) (initialize_cases arg)
      | inr (x, e) ↦ rw (e, dispatch_init, session-after se) unchanged
    ]

    destroyed_cases :
        se.initialized ≡ true
        → (r : fs.State × Option Argument.Fault) → P (destroyed_with platform req se r).session
    destroyed_cases on (state, none) = rw session-after (stopped state on)
    destroyed_cases on (state, some x) = same _ (with_filesystem-SameSession se state)

    dispatch_arm_cases : (a : Arm) → P (dispatch_arm platform req se a).session
    unfolding dispatch_arm
    dispatch_arm_cases initializes = dispatch_init_cases
    dispatch_arm_cases destroys =
        if_cases {A = Effect fs} (λ e. P e.session) (not se.initialized)
          (λ _. rw session-after unchanged)
          (λ on. destroyed_cases (not-eq_false se.initialized on) (fs.destroy req se.filesystem))
    dispatch_arm_cases (operates decode) =
        if_cases {A = Effect fs} (λ e. P e.session) (not se.initialized)
          (λ _. rw session-after unchanged)
          (λ _.
            if_cases {A = Effect fs} (λ e. P e.session) se.destroyed
              (λ _. rw session-after unchanged)
              (λ _. elim (Outcome-cases (decode req.header (Argument.new req.payload))) [
                | inl ((op, it), e) ↦ rw e (same _ (perform-SameSession platform req se op))
                | inr (x, e) ↦ rw e unchanged
              ]))

    pub dispatch_session_cases : P (dispatch platform req se).session
    unfolding dispatch
    dispatch_session_cases = elim (Option-cases (from_u32 platform.os_x req.header.opcode)) [
      | inl e ↦ rw (e, dispatch, session-after se) unchanged
      | inr (op, e) ↦ rw (e, dispatch) (dispatch_arm_cases (arm platform op))
    ]
