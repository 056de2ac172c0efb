-- ===== src/Examples/Null.antt =====
-- The filesystem of examples/null.rs: the default methods of the trait, and nothing else.
use rust_fuse.Prelude.{none}
use rust_fuse.Argument.{done}
use rust_fuse.Platform.{Platform}
use rust_fuse.Filesystem.Trait.{Filesystem, default_method}

abbrev pub null_fs : Platform → Filesystem
null_fs platform = record {
  State = Unit {0};
  init = λ req state. (state, done none);
  destroy = λ req state. (state, none);
  forget = λ req ino nlookup state. (state, none);
  method = λ req c state. (state, default_method platform c);
}
