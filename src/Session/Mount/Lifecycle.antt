-- ===== src/Session/Mount/Lifecycle.antt =====
-- The calls of libc from the mount to the unmount, in their order.
use rust_fuse.Prelude.{ℕ, ◌≡◌, ◌≢◌, refl, ap, ◌∙◌, arith, List, ◌∷◌, ◌++◌, append_assoc}
use rust_fuse.Argument.{Outcome, done, fault, Fault}
use rust_fuse.Argument.Laws.{IsName}
use rust_fuse.Channel
use rust_fuse.Channel.{Channel, IoResult, ok, err, drop_channel, unmount, IoError, os_errno}
use rust_fuse.Channel.Calls.{Libc}
use rust_fuse.Channel.Traced.{Event, closes, traced}
use rust_fuse.Channel.Laws.{Opens, opened, Unmounts, Log, Adds, new-Opens, drop_channel-Unmounts}
use rust_fuse.Platform.{Platform}
use rust_fuse.Filesystem.Trait.{Filesystem}
use rust_fuse.Session.Run
use rust_fuse.Session.Run.{Received, os_error, End, waits, leaves, crashes, Trace, run}
use rust_fuse.Session.Mount.{session_of, new_session, ended, mounted_run, mount}
use rust_fuse.Session.Live.{live_run}
use rust_fuse.Session.Live.Fixed.{live_run-ch, live_run-log}

-- The calls of a session's life. If the channel cannot be opened, `Session::new` panics, and nothing was
-- opened. While the loop waits, the channel is open. When the loop has ended, the descriptor was closed
-- once, and then the mount point was unmounted.
pub data Life {fs : Filesystem} (libc : Libc) (options : List (List ℕ))
    : List Event → Outcome (Trace fs) → Type 0 where
  unopened :
      {es : List Event} {o : Outcome (IoResult Channel)} (x : Fault)
      → Opens options es o
      → ((ch : Channel) → o ≢ done (ok ch))
      → Life libc options es (fault x)
  waiting :
      {es : List Event} {ch : Channel} {t : Trace fs}
      → Opens options es (done (ok ch))
      → t.end ≡ waits
      → Life libc options es (done t)
  over :
      {es u : List Event} {ch : Channel} {t : Trace fs}
      → Opens options es (done (ok ch))
      → t.end ≢ waits
      → Unmounts libc ch.mountpoint u
      → Life libc options (es ++ (closes ch.fd ∷ u)) (done t)

-- The mount point of a channel that was opened holds no zero byte.
pub mountpoint-IsName :
    {options : List (List ℕ)} {es : List Event} {ch : Channel}
    → Opens options es (done (ok ch))
    → IsName ch.mountpoint
mountpoint-IsName (opened p q args fd e h) = h

module _ (libc : Libc) (platform : Platform) (fs : Filesystem) (options : List (List ℕ)) where
  dropped-Life :
      (log : List Event) (w : Log libc) (es : List Event) (ch : Channel) (t : Trace fs)
      → t.end ≢ waits
      → w.1 ≡ log ++ es
      → Opens options es (done (ok ch))
      → (es' : List Event) × ((drop_channel (traced libc) ch w).1 ≡ log ++ es')
        × Life libc options es' (done t)
  dropped-Life log w es ch t e l o =
      let (u, p, m) = drop_channel-Unmounts libc ch w (mountpoint-IsName o) in
      (
        es ++ (closes ch.fd ∷ u),
        m ∙ ap (λ k. k ++ (closes ch.fd ∷ u)) l ∙ append_assoc log es (closes ch.fd ∷ u),
        over o e p,
      )

  ended-Life :
      (log : List Event) (w : Log libc) (es : List Event) (ch : Channel) (t : Trace fs) (end : End)
      → t.end ≡ end
      → w.1 ≡ log ++ es
      → Opens options es (done (ok ch))
      → (es' : List Event) × ((ended (traced libc) end ch w).1 ≡ log ++ es')
        × Life libc options es' (done t)
  ended-Life log w es ch t waits e l o = (es, l, waiting o e)
  ended-Life log w es ch t leaves e l o = dropped-Life log w es ch t (λ q. ground arith) l o
  ended-Life log w es ch t (crashes x) e l o = dropped-Life log w es ch t (λ q. ground arith) l o

  mounted_run-Life :
      (state : fs.State) (turns : ℕ) (log : List Event) (w : Log libc) (es : List Event)
      (o : Outcome (IoResult Channel))
      → w.1 ≡ log ++ es
      → Opens options es o
      → Adds libc log
          (Life libc options)
          (mounted_run (traced libc) fs platform turns (session_of (traced libc) fs state (w, o)))
  mounted_run-Life state turns log w es (fault x) l o = (es, l, unopened x o (λ ch e. ground arith))
  mounted_run-Life state turns log w es (done (err i)) l o =
      (es, l, unopened _ o (λ ch e. ground arith))
  mounted_run-Life state turns log w es (done (ok ch)) l o =
      let se = Run.new fs state ch in
      let (w', t) = live_run (traced libc) platform turns se w in
      rw (live_run-ch libc platform turns se w)
        (ended-Life log w' es ch t t.end refl (live_run-log libc platform turns se w ∙ l) o)

  -- Whatever libc answers, and however many turns the loop takes, the calls of `mount` to mount,
  -- close and unmount are those of one of three lives. The channel was not opened, and `mount`
  -- panics. Or the channel is open and the loop waits. Or the loop has ended, the descriptor was
  -- closed once, and then the mount point was unmounted, and the helper of libfuse was asked if,
  -- and only if, that was refused for want of permission and the target is not OS X.
  pub mount-Life :
      (state : fs.State) (mountpoint : List ℕ) (turns : ℕ) (w : Log libc)
      → Adds libc w.1
          (Life libc options)
          (mount (traced libc) fs platform state mountpoint options turns w)
  unfolding mount new_session
  mount-Life state mountpoint turns w =
      let (es, l, o) = new-Opens libc mountpoint options w in
      mounted_run-Life state turns w.1 (Channel.new (traced libc) mountpoint options w).0 es
        (Channel.new (traced libc) mountpoint options w).1 l o
