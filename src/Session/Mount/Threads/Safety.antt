-- ===== src/Session/Mount/Threads/Safety.antt =====
-- What the thread of a session and the handle to it do to its channel, in every interleaving of their
-- calls of libc.
use rust_fuse.Prelude.{
  ℕ, ◌+◌, ◌≡◌, refl, arith, List, [], ◌++◌, none, some, All, All-append, ap, sym, ◌∙◌, append-nil,
  append_assoc,
}
use rust_fuse.Argument.Laws.{IsName}
use rust_fuse.Channel.{Channel}
use rust_fuse.Channel.Calls.{Libc}
use rust_fuse.Channel.Traced.{Event, traced}
use rust_fuse.Channel.Laws.{Log}
use rust_fuse.Platform.{Platform}
use rust_fuse.Filesystem.Trait.{Filesystem}
use rust_fuse.Session.State.{Session}
use rust_fuse.Session.Live.{live_run}
use rust_fuse.Session.Live.Fixed.{live_run-ch, live_run-log}
use rust_fuse.Session.Run.{End, waits, leaves, crashes}
use rust_fuse.Session.Mount.Threads.{
  Task, closing, unmounting, helping, over, call_step, Threads, task_after, Moves, turns,
  thread_calls, drops, handle_calls, Reaches, begins, moves,
}
use rust_fuse.Session.Mount.Threads.Counts.{
  total, total-append, close_weight, unmount_weight, help_weight, refusal_weight, IsOwn, IsOwnStage,
  IsHandle, closed, unmounted_once, helps, of_stage, call_step-Logs,
}

module _ (libc : Libc) where
  -- What has been called so far, by what the thread and the handle have still to do.
  record IsCounted {fs : Filesystem} (ch : Channel) (log : List Event) (s : Threads fs (Log libc))
      : Type 0 where
    es : List Event
    log_lem : s.world.1 ≡ log ++ es
    own : All (IsOwn ch) es
    same_channel : s.session.ch ≡ ch
    same_mountpoint : s.mountpoint ≡ ch.mountpoint
    thread_own : IsOwnStage ch s.thread
    handle_own : IsOwnStage ch s.handle
    handle_open : IsHandle s.handle
    closes_lem : total close_weight es ≡ of_stage closed s.thread
    unmounts_lem :
        total unmount_weight es
        ≡ of_stage unmounted_once s.thread + of_stage unmounted_once s.handle
    helps_lem :
        total help_weight es + of_stage helps s.thread + of_stage helps s.handle
        ≡ total (refusal_weight libc) es

  task_after-IsOwnStage : (end : End) (ch c : Channel) → c ≡ ch → IsOwnStage ch (task_after end c)
  task_after-IsOwnStage waits ch c e = tt
  task_after-IsOwnStage leaves ch c e = e
  task_after-IsOwnStage (crashes x) ch c e = e

  task_after-counts :
      (end : End) (c : Channel)
      → (of_stage closed (task_after end c) ≡ 0)
        × (of_stage unmounted_once (task_after end c) ≡ 0)
        × (of_stage helps (task_after end c) ≡ 0)
  task_after-counts waits c = (refl, refl, refl)
  task_after-counts leaves c = (refl, refl, refl)
  task_after-counts (crashes x) c = (refl, refl, refl)

  closed_stays : (t : Task) (n : ℕ) → n + 1 ≡ closed t → (n ≡ 0) × (closed t ≡ 1)
  closed_stays (closing ch) n h = absurd (omega arith)
  closed_stays (unmounting q) n h = (omega arith, refl)
  closed_stays (helping q) n h = (omega arith, refl)
  closed_stays over n h = (omega arith, refl)

  module _ {fs : Filesystem} (platform : Platform) (ch : Channel) (log : List Event)
      (name : IsName ch.mountpoint) where
    turns-IsCounted :
        (s : Threads fs (Log libc)) (w : Log libc) (se : Session fs) (end : End)
        → s.thread ≡ none
        → w.1 ≡ s.world.1
        → se.ch ≡ s.session.ch
        → IsCounted ch log s
        → IsCounted ch log (record s { world = w; session = se; thread = task_after end se.ch })
    turns-IsCounted s w se end e l c v =
        let (n0, n1, n2) = task_after-counts end se.ch in
        record {
          es = v.es;
          log_lem = l ∙ v.log_lem;
          own = v.own;
          same_channel = c ∙ v.same_channel;
          same_mountpoint = v.same_mountpoint;
          thread_own = task_after-IsOwnStage end ch se.ch (c ∙ v.same_channel);
          handle_own = v.handle_own;
          handle_open = v.handle_open;
          closes_lem = omega (arith, v.closes_lem, ap (of_stage closed) e, n0);
          unmounts_lem = omega (arith, v.unmounts_lem, ap (of_stage unmounted_once) e, n1);
          helps_lem = omega (arith, v.helps_lem, ap (of_stage helps) e, n2);
        }

    Moves-IsCounted :
        {s t : Threads fs (Log libc)}
        → Moves (traced libc) platform s t
        → IsCounted ch log s
        → IsCounted ch log t
    Moves-IsCounted {s} (turns e) v =
        turns-IsCounted s (live_run (traced libc) platform 1 s.session s.world).0
          (live_run (traced libc) platform 1 s.session s.world).1.session
          (live_run (traced libc) platform 1 s.session s.world).1.end e
          (live_run-log libc platform 1 s.session s.world)
          (live_run-ch libc platform 1 s.session s.world) v
    Moves-IsCounted {s} (thread_calls t e) v =
        let c = call_step-Logs libc ch t s.world name (rw e at v.thread_own) in
        record {
          es = v.es ++ c.added;
          log_lem = c.log_lem ∙ ap (λ k. k ++ c.added) v.log_lem ∙ append_assoc log v.es c.added;
          own = All-append (IsOwn ch) v.es c.added v.own c.own;
          same_channel = v.same_channel;
          same_mountpoint = v.same_mountpoint;
          thread_own = c.task;
          handle_own = v.handle_own;
          handle_open = v.handle_open;
          closes_lem = omega (
            arith,
            total-append close_weight v.es c.added,
            v.closes_lem,
            c.closes_lem,
            ap (of_stage closed) e,
          );
          unmounts_lem = omega (
            arith,
            total-append unmount_weight v.es c.added,
            v.unmounts_lem,
            c.unmounts_lem,
            ap (of_stage unmounted_once) e,
          );
          helps_lem = omega (
            arith,
            total-append help_weight v.es c.added,
            total-append (refusal_weight libc) v.es c.added,
            v.helps_lem,
            c.helps_lem,
            ap (of_stage helps) e,
          );
        }
    Moves-IsCounted {s} (drops e) v = record {
      es = v.es;
      log_lem = v.log_lem;
      own = v.own;
      same_channel = v.same_channel;
      same_mountpoint = v.same_mountpoint;
      thread_own = v.thread_own;
      handle_own = v.same_mountpoint;
      handle_open = refl;
      closes_lem = v.closes_lem;
      unmounts_lem = omega (arith, v.unmounts_lem, ap (of_stage unmounted_once) e);
      helps_lem = omega (arith, v.helps_lem, ap (of_stage helps) e);
    }
    Moves-IsCounted {s} (handle_calls t e) v =
        let c = call_step-Logs libc ch t s.world name (rw e at v.handle_own) in
        let open_lem : closed t ≡ 1 = rw e at v.handle_open in
        let (none_closed, still) =
          closed_stays (call_step (traced libc) t s.world).1 (total close_weight c.added)
            (omega (arith, c.closes_lem, open_lem)) in
        record {
          es = v.es ++ c.added;
          log_lem = c.log_lem ∙ ap (λ k. k ++ c.added) v.log_lem ∙ append_assoc log v.es c.added;
          own = All-append (IsOwn ch) v.es c.added v.own c.own;
          same_channel = v.same_channel;
          same_mountpoint = v.same_mountpoint;
          thread_own = v.thread_own;
          handle_own = c.task;
          handle_open = still;
          closes_lem =
              omega (arith, total-append close_weight v.es c.added, v.closes_lem, none_closed);
          unmounts_lem = omega (
            arith,
            total-append unmount_weight v.es c.added,
            v.unmounts_lem,
            c.unmounts_lem,
            ap (of_stage unmounted_once) e,
          );
          helps_lem = omega (
            arith,
            total-append help_weight v.es c.added,
            total-append (refusal_weight libc) v.es c.added,
            v.helps_lem,
            c.helps_lem,
            ap (of_stage helps) e,
          );
        }

  module _ {fs : Filesystem} (platform : Platform) (se : Session fs) (w : Log libc)
      (name : IsName se.ch.mountpoint) where
    Reaches-IsCounted :
        {s : Threads fs (Log libc)} → Reaches (traced libc) platform se w s → IsCounted se.ch w.1 s
    Reaches-IsCounted begins = record {
      es = [];
      log_lem = sym (append-nil w.1);
      own = tt;
      same_channel = refl;
      same_mountpoint = refl;
      thread_own = tt;
      handle_own = tt;
      handle_open = tt;
      closes_lem = refl;
      unmounts_lem = refl;
      helps_lem = refl;
    }
    Reaches-IsCounted (moves r m) = Moves-IsCounted platform se.ch w.1 name m (Reaches-IsCounted r)

    -- However the calls of the thread of a session and of the handle to it interleave, if the
    -- mount point holds no zero byte: when both destructors are through, the calls to close,
    -- unmount and ask the helper concerned the descriptor and the mount point of the session, and
    -- there were no other calls to mount or unmount. The descriptor was closed once and the mount
    -- point unmounted twice, and the helper was asked once for each unmount that was refused for
    -- want of permission, not on OS X.
    pub joined_calls :
        {s : Threads fs (Log libc)}
        → Reaches (traced libc) platform se w s
        → s.thread ≡ some over
        → s.handle ≡ some over
        → (es : List Event) × (s.world.1 ≡ w.1 ++ es)
          × All (IsOwn se.ch) es
          × (total close_weight es ≡ 1)
          × (total unmount_weight es ≡ 2)
          × (total help_weight es ≡ total (refusal_weight libc) es)
    joined_calls r left dropped =
        let v = Reaches-IsCounted r in
        (
          v.es,
          v.log_lem,
          v.own,
          omega (arith, v.closes_lem, ap (of_stage closed) left),
          omega (
            arith,
            v.unmounts_lem,
            ap (of_stage unmounted_once) left,
            ap (of_stage unmounted_once) dropped,
          ),
          omega (arith, v.helps_lem, ap (of_stage helps) left, ap (of_stage helps) dropped),
        )
