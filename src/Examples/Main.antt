-- ===== src/Examples/Main.antt =====
-- The functions `main` of examples/null.rs and examples/hello.rs: the first argument of the command
-- line behind the program's name is the mount point.
use rust_fuse.Prelude.{ℕ, ◌≡◌, refl, List, [], ◌∷◌, ◌⊎◌, inl, inr}
use rust_fuse.Argument.{Outcome, fault, panic}
use rust_fuse.Platform.{Platform}
use rust_fuse.Channel.Calls.{Libc}
use rust_fuse.Channel.Traced.{traced}
use rust_fuse.Channel.Laws.{Log, Adds}
use rust_fuse.Filesystem.Trait.{Filesystem}
use rust_fuse.Session.Run.{Trace}
use rust_fuse.Session.Mount.{mount}
use rust_fuse.Session.Mount.Lifecycle.{Life, mount-Life}
use rust_fuse.Examples.Null.{null_fs}
use rust_fuse.Examples.Hello.{hello_fs}

-- The arguments of the command line, as bytes without a zero byte behind them.
abbrev Arguments : Type 0
Arguments = List (List ℕ)

module _ (libc : Libc) (platform : Platform) where
  open libc use {World}

  -- `env::args_os().nth(1).unwrap()`, and the call of `mount` without options.
  abbrev mounts_first :
      (fs : Filesystem) → fs.State → Arguments → (turns : ℕ) → World → World × Outcome (Trace fs)
  mounts_first fs state (program ∷ mountpoint ∷ rest) turns w =
      mount libc fs platform state mountpoint [] turns w
  mounts_first fs state _ turns w = (w, fault panic)

  abbrev null_main : Arguments → (turns : ℕ) → World → World × Outcome (Trace (null_fs platform))
  null_main arguments turns w = mounts_first (null_fs platform) tt arguments turns w

  abbrev hello_main : Arguments → (turns : ℕ) → World → World × Outcome (Trace (hello_fs platform))
  hello_main arguments turns w = mounts_first (hello_fs platform) tt arguments turns w

module _ (libc : Libc) (platform : Platform) (fs : Filesystem) (state : fs.State) where
  -- Without a mount point nothing is called; with one, the calls are those of the life of a session
  -- that is mounted without options.
  mounts_first-Life :
      (arguments : Arguments) (turns : ℕ) (w : Log libc)
      → (mounts_first (traced libc) platform fs state arguments turns w ≡ (w, fault panic))
        ⊎ Adds libc w.1
            (Life libc [])
            (mounts_first (traced libc) platform fs state arguments turns w)
  mounts_first-Life [] turns w = inl refl
  mounts_first-Life (program ∷ []) turns w = inl refl
  mounts_first-Life (program ∷ mountpoint ∷ rest) turns w =
      inr (mount-Life libc platform fs [] state mountpoint turns w)
