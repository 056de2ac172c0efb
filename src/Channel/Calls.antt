-- ===== src/Channel/Calls.antt =====
-- The calls of libc and libfuse, which are not part of the program: they change the world, and they
-- return a value or set `errno`.
use rust_fuse.Prelude.{ℕ, List, Bool}

pub data Answer (A : Type 0) : Type 0 where
  returns : A → Answer A
  sets_errno : ℕ → Answer A

pub record Libc : Type 1 where
  pub World : Type 0
  -- Whether the target is OS X.
  pub os_x : Bool
  -- The buffer that `realpath` fills.
  pub realpath : List ℕ → World → World × Answer (List ℕ)
  -- `fuse_mount_compat25` with the strings of `argv`: a file descriptor.
  pub fuse_mount : List ℕ → List (List ℕ) → World → World × Answer ℕ
  pub close : (fd : ℕ) → World → World
  -- `umount`, or `unmount` with no flags on OS X.
  pub umount : List ℕ → World → World × Answer (Unit {0})
  -- `fuse_unmount_compat22`, which returns nothing.
  pub fuse_unmount : List ℕ → World → World
  -- `read` of at most so many bytes.
  pub read : (fd capacity : ℕ) → World → World × Answer (List ℕ)
  -- `writev` of some buffers: how many bytes were written.
  pub writev : (fd : ℕ) → List (List ℕ) → World → World × Answer ℕ
  -- The errors whose kind is `PermissionDenied`.
  pub is_permission_denied : ℕ → Bool
