-- ===== src/Channel/Traced.antt =====
-- The calls of libc with a log of those that concern mounting.
use rust_fuse.Prelude.{ℕ, List, [], ◌∷◌, ◌++◌}
use rust_fuse.Channel.Calls.{Libc, Answer}

pub data Event : Type 0 where
  resolves : List ℕ → Event
  mounts : List ℕ → List (List ℕ) → Event
  closes : ℕ → Event
  -- with what the call returned
  unmounts : List ℕ → Answer (Unit {0}) → Event
  -- through the setuid helper
  unmounts_helped : List ℕ → Event

-- The same calls, which also write the log.
abbrev pub traced : Libc → Libc
traced libc = record {
  World = libc.World × List Event;
  os_x = libc.os_x;
  realpath =
      λ path w. let (w', a) = libc.realpath path w.0 in ((w', w.1 ++ (resolves path ∷ [])), a);
  fuse_mount = λ mnt args w.
      let (w', a) = libc.fuse_mount mnt args w.0 in ((w', w.1 ++ (mounts mnt args ∷ [])), a);
  close = λ fd w. (libc.close fd w.0, w.1 ++ (closes fd ∷ []));
  umount = λ mnt w. let (w', a) = libc.umount mnt w.0 in ((w', w.1 ++ (unmounts mnt a ∷ [])), a);
  fuse_unmount = λ mnt w. (libc.fuse_unmount mnt w.0, w.1 ++ (unmounts_helped mnt ∷ []));
  read = λ fd capacity w. let (w', a) = libc.read fd capacity w.0 in ((w', w.1), a);
  writev = λ fd iovecs w. let (w', a) = libc.writev fd iovecs w.0 in ((w', w.1), a);
  is_permission_denied = libc.is_permission_denied;
}
