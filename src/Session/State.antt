-- ===== src/Session/State.antt =====
-- The structure `Session` of src/session.rs, and its limits.
use rust_fuse.Channel.{Channel}
use rust_fuse.Prelude.{ℕ, ◌+◌, ◌*◌, Bool}
use rust_fuse.Filesystem.Trait.{Filesystem}

abbrev pub max_write_size : ℕ
max_write_size = 16 * 1024 * 1024

abbrev pub buffer_size : ℕ
buffer_size = max_write_size + 4096

pub record Session (fs : Filesystem) : Type 0 where
  pub filesystem : fs.State
  pub ch : Channel
  pub proto_major : ℕ
  pub proto_minor : ℕ
  pub initialized : Bool
  pub destroyed : Bool
