-- ===== src/Session/Mount/Threads/Counts.antt =====
-- How often a thread and the handle to it close and unmount, however their calls interleave.
use rust_fuse.Prelude.{
  ℕ, ◌+◌, ◌≡◌, refl, arith, List, [], ◌∷◌, ◌++◌, Option, none, some, All, not, ◌&&◌, if◌then◌else◌,
  Bool-cases, inl, inr, ap, sym, append-nil,
}
use rust_fuse.Argument.Laws.{IsName}
use rust_fuse.Channel.{Channel}
use rust_fuse.Channel.Calls.{Libc, Answer, returns, sets_errno}
use rust_fuse.Channel.Traced.{Event, closes, unmounts, unmounts_helped, traced}
use rust_fuse.Channel.Laws.{Log, to_cstring-IsName}
use rust_fuse.Session.Mount.Threads.{
  Task, closing, unmounting, helping, over, after_umount, call_step,
}

module _ (weight : Event → ℕ) where
  abbrev pub total : List Event → ℕ
  total [] = 0
  total (e ∷ es) = weight e + total es

  pub total-append : (xs ys : List Event) → total (xs ++ ys) ≡ total xs + total ys
  total-append [] ys = omega arith
  total-append (x ∷ xs) ys = omega (arith, total-append xs ys)

abbrev pub close_weight : Event → ℕ
close_weight (closes fd) = 1
close_weight _ = 0

abbrev pub unmount_weight : Event → ℕ
unmount_weight (unmounts q a) = 1
unmount_weight _ = 0

abbrev pub help_weight : Event → ℕ
help_weight (unmounts_helped q) = 1
help_weight _ = 0

-- An unmount that was refused for want of permission, and not on OS X.
abbrev pub refusal_weight : Libc → Event → ℕ
refusal_weight libc (unmounts q (sets_errno e)) =
    if not libc.os_x && libc.is_permission_denied e then 1 else 0
refusal_weight libc _ = 0

-- The calls that concern a channel.
abbrev pub IsOwn : Channel → Event → Type 0
IsOwn ch (closes fd) = fd ≡ ch.fd
IsOwn ch (unmounts q a) = q ≡ ch.mountpoint
IsOwn ch (unmounts_helped q) = q ≡ ch.mountpoint
IsOwn ch _ = ⊥

abbrev pub IsOwnTask : Channel → Task → Type 0
IsOwnTask ch (closing c) = c ≡ ch
IsOwnTask ch (unmounting q) = q ≡ ch.mountpoint
IsOwnTask ch (helping q) = q ≡ ch.mountpoint
IsOwnTask ch over = Unit {0}

-- Whether a destructor is past its close, past its unmount, and before its call of the helper.
abbrev pub closed : Task → ℕ
closed (closing ch) = 0
closed _ = 1

abbrev pub unmounted_once : Task → ℕ
unmounted_once (closing ch) = 0
unmounted_once (unmounting q) = 0
unmounted_once _ = 1

abbrev pub helps : Task → ℕ
helps (helping q) = 1
helps _ = 0

-- The same of a destructor that may not have begun.
abbrev pub of_stage : (Task → ℕ) → Option Task → ℕ
of_stage f none = 0
of_stage f (some t) = f t

abbrev pub IsOwnStage : Channel → Option Task → Type 0
IsOwnStage ch none = Unit {0}
IsOwnStage ch (some t) = IsOwnTask ch t

-- The destructor of the handle has no descriptor to close.
abbrev pub IsHandle : Option Task → Type 0
IsHandle none = Unit {0}
IsHandle (some t) = closed t ≡ 1

module _ (libc : Libc) (ch : Channel) where
  -- What one call adds to the log.
  pub record Logs (log : List Event) (t : Task) (r : Log libc × Task) : Type 0 where
    pub added : List Event
    pub log_lem : r.0.1 ≡ log ++ added
    pub own : All (IsOwn ch) added
    pub task : IsOwnTask ch r.1
    pub closes_lem : total close_weight added + closed t ≡ closed r.1
    pub unmounts_lem : total unmount_weight added + unmounted_once t ≡ unmounted_once r.1
    pub helps_lem :
        total help_weight added + helps r.1 ≡ total (refusal_weight libc) added + helps t

  umount-Logs :
      (q : List ℕ) (log : List Event) (w : libc.World) (a : Answer (Unit {0}))
      → q ≡ ch.mountpoint
      → Logs log (unmounting q) (after_umount (traced libc) q ((w, log ++ (unmounts q a ∷ [])), a))
  umount-Logs q log w (returns tt) e = record {
    added = unmounts q (returns tt) ∷ [];
    log_lem = refl;
    own = (e, tt);
    task = tt;
    closes_lem = refl;
    unmounts_lem = refl;
    helps_lem = refl;
  }
  umount-Logs q log w (sets_errno i) e =
      elim (Bool-cases (not libc.os_x && libc.is_permission_denied i)) [
        | inl h ↦ rw h (record {
          added = unmounts q (sets_errno i) ∷ [];
          log_lem = refl;
          own = (e, tt);
          task = e;
          closes_lem = refl;
          unmounts_lem = refl;
          helps_lem = rw h refl;
        })
        | inr h ↦ rw h (record {
          added = unmounts q (sets_errno i) ∷ [];
          log_lem = refl;
          own = (e, tt);
          task = tt;
          closes_lem = refl;
          unmounts_lem = refl;
          helps_lem = rw h refl;
        })
      ]

  pub call_step-Logs :
      (t : Task) (w : Log libc)
      → IsName ch.mountpoint
      → IsOwnTask ch t
      → Logs w.1 t (call_step (traced libc) t w)
  unfolding call_step
  call_step-Logs (closing c) w name e = record {
    added = closes c.fd ∷ [];
    log_lem = refl;
    own = (ap (λ (k : Channel). k.fd) e, tt);
    task = ap (λ (k : Channel). k.mountpoint) e;
    closes_lem = refl;
    unmounts_lem = refl;
    helps_lem = refl;
  }
  call_step-Logs (unmounting q) w name e =
      rw (to_cstring-IsName q (rw e name), call_step)
        (umount-Logs q w.1 (libc.umount q w.0).0 (libc.umount q w.0).1 e)
  call_step-Logs (helping q) w name e = record {
    added = unmounts_helped q ∷ [];
    log_lem = refl;
    own = (e, tt);
    task = tt;
    closes_lem = refl;
    unmounts_lem = refl;
    helps_lem = refl;
  }
  call_step-Logs over w name e = record {
    added = [];
    log_lem = sym (append-nil w.1);
    own = tt;
    task = tt;
    closes_lem = refl;
    unmounts_lem = refl;
    helps_lem = refl;
  }
