-- ===== src/Session/Live/Fixed.antt =====
-- What no turn of the loop over the calls of libc changes: the channel, and the log of the calls that
-- mount.
use rust_fuse.Prelude.{ℕ, ◌≡◌, refl, ap, sym, ◌∙◌, List}
use rust_fuse.Channel.Calls.{Libc}
use rust_fuse.Channel.Traced.{traced}
use rust_fuse.Channel.Laws.{Log}
use rust_fuse.Platform.{Platform}
use rust_fuse.Filesystem.Trait.{Filesystem}
use rust_fuse.Reply.Raw.{Packet}
use rust_fuse.Session.State.{Session}
use rust_fuse.Session.Run.{Received}
use rust_fuse.Session.Fixed.{ch-run}
use rust_fuse.Session.Live.{live_run}
use rust_fuse.Session.Live.Turns.{
  Writes, writes_none, writes_next, Turns, rests, turn, live_run-Served, Writes, writes_next,
}

Writes-log :
    (libc : Libc) {packets : List Packet} {w w' : Log libc}
    → Writes (traced libc) packets w w'
    → w'.1 ≡ w.1
Writes-log libc writes_none = refl
Writes-log libc (writes_next p a q rest) = Writes-log libc rest ∙ ap (λ r. r.0.1) (sym q)

Turns-log :
    (libc : Libc) {platform : Platform} {fs : Filesystem} {se : Session fs} {w w' : Log libc}
    {received : List Received}
    → Turns (traced libc) platform se w received w'
    → w'.1 ≡ w.1
Turns-log libc rests = refl
Turns-log libc (turn a q ws ts) = Turns-log libc ts ∙ Writes-log libc ws ∙ ap (λ r. r.0.1) (sym q)

module _ (libc : Libc) (platform : Platform) {fs : Filesystem} where
  pub live_run-ch :
      (turns : ℕ) (se : Session fs) (w : Log libc)
      → (live_run (traced libc) platform turns se w).1.session.ch ≡ se.ch
  live_run-ch turns se w =
      let (received, t, _, _) = live_run-Served (traced libc) platform turns se w in
      ap (λ i. i.session.ch) t ∙ ch-run platform se received

  pub live_run-log :
      (turns : ℕ) (se : Session fs) (w : Log libc)
      → (live_run (traced libc) platform turns se w).0.1 ≡ w.1
  live_run-log turns se w =
      let (_, _, ts, _) = live_run-Served (traced libc) platform turns se w in Turns-log libc ts
