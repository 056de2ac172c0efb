-- ===== src/Tests/Mounting.antt =====
-- A session over calls of libc that mount, refuse to unmount without the helper, and read nothing.
use rust_fuse.Prelude.{ℕ, ◌≡◌, refl, List, [], ◌∷◌, ◌++◌, ◌==◌, false}
use rust_fuse.Platform.{linux}
use rust_fuse.Argument.{c_string}
use rust_fuse.Channel
use rust_fuse.Channel.{
  program_name, mount_resolved, mount_at, real_path, unmount, drop_channel, to_cstring,
  option_strings, fuse_args_of, receive,
}
use rust_fuse.Channel.Calls.{Libc, returns, sets_errno}
use rust_fuse.Channel.Traced.{resolves, mounts, closes, unmounts, unmounts_helped, traced}
use rust_fuse.Channel.Laws.{Log, Adds}
use rust_fuse.Session.Live.{live_run}
use rust_fuse.Session.Mount.{mount, new_session}
use rust_fuse.Session.Mount.Lifecycle.{Life, mount-Life}
use rust_fuse.Tests.Data.{test_fs, hello}

abbrev pub quiet_libc : Libc
quiet_libc = record {
  World = Unit {0};
  os_x = false;
  realpath = λ path w. (tt, returns (path ++ (0 ∷ [])));
  fuse_mount = λ mnt args w. (tt, returns 3);
  close = λ fd w. tt;
  umount = λ mnt w. (tt, sets_errno 1);
  fuse_unmount = λ mnt w. tt;
  read = λ fd capacity w. (tt, sets_errno 19);
  writev = λ fd iovecs w. (tt, sets_errno 32);
  is_permission_denied = λ e. e == 1;
}

-- "allow_other"
abbrev test_options : List (List ℕ)
test_options = (97 ∷ 108 ∷ 108 ∷ 111 ∷ 119 ∷ 95 ∷ 111 ∷ 116 ∷ 104 ∷ 101 ∷ 114 ∷ []) ∷ []

abbrev pub silence : Log quiet_libc
silence = (tt, [])

mount-Life_example :
    Adds quiet_libc []
      (Life {fs = test_fs} quiet_libc test_options)
      (mount (traced quiet_libc) test_fs linux tt hello test_options 2 silence)
mount-Life_example = mount-Life quiet_libc linux test_fs test_options tt hello 2 silence

-- The calls of a whole life, in their order.
hello_calls :
    (mount (traced quiet_libc) test_fs linux tt hello test_options 2 silence).0.1
    ≡ resolves hello
      ∷ mounts hello (program_name ∷ test_options)
      ∷ closes 3
      ∷ unmounts hello (sets_errno 1)
      ∷ unmounts_helped hello
      ∷ []
unfolding c_string mount new_session Channel.new mount_resolved mount_at real_path unmount
    drop_channel to_cstring option_strings fuse_args_of live_run receive
hello_calls = refl
