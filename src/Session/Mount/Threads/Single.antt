-- ===== src/Session/Mount/Threads/Single.antt =====
-- The calls of one destructor, when nothing comes between them.
use rust_fuse.Channel.{Channel}
