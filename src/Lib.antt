-- ===== src/Lib.antt =====
-- rust-fuse: the userspace side of the FUSE protocol.
--
-- The program is a library. The kernel writes requests to a channel. A session reads them one at a
-- time, a request is decoded and dispatched to a method of a filesystem that the user of the library
-- implements, and the method answers through a reply object, which serializes its answer and sends
-- one packet back. This development models that path from the bytes of a request to the bytes of the
-- reply. What the source compiles for OS X only, or for the other systems only, depends on a field
-- `os_x` of the platform, so that the theorems hold of both builds unless they say which.
--
-- The files and what they model:
--   Prelude        shared names, and lemmas on lists, Boolean tests and bit masks.
--   Wire           little-endian numbers, and plain data as bytes: an interface `Pod` with its laws
--                  `PodLaws`, which every structure of the protocol implements, and `PodExact`,
--                  which those of requests implement.
--   Abi            src/fuse.rs. A record for each structure, its bytes and its laws
--                  (Abi/RoundTrip, and Abi/Exact for those of requests), the constants, and
--                  `fuse_opcode` with `from_u32`. A structure that has more fields on OS X is
--                  two records (Abi/OsxNames, Abi/OsxReplies).
--   Argument       src/argument.rs. `ArgumentIterator` with `fetch`, `fetch_str`, `fetch_path` and
--                  `fetch_data`. A result is a value and the moved iterator, or a fault.
--   Platform       the error numbers and mode bits of libc, the growth of a vector, the target
--                  system, and `Timespec::new` of the crate `time`: a parameter of all that uses
--                  them, with the documented behaviour in `IsPosix`.
--   Filesystem     src/lib.rs. `FileType`, `FileAttr`, the trait `Filesystem` as a record, its
--                  methods as the constructors of `Call`, and the default methods.
--   Reply          src/reply.rs and `ChannelSender` of src/channel.rs. `ReplyRaw` with `send`, `ok`,
--                  `error` and its destructor, the typed replies as kinds (`RawKind`), and
--                  `ReplyDirectory`. Reply/Answer says what a filesystem can do with a reply object:
--                  use it, use its `error`, drop it, keep it, panic while it holds it, or panic
--                  after any of these; with that of a directory also ask for another size.
--                  Reply/Message, Reply/Body and Reply/Directory/Entries have the kernel's readers
--                  of what is sent.
--   Channel        src/channel.rs. `Channel::new` with `real_path` and `with_fuse_args`, `receive`,
--                  `unmount` and the destructor, over the calls of libc and libfuse, which are a
--                  parameter (Channel/Calls). Channel/Traced is the same calls with a log.
--   Session        src/session.rs. The record `Session`, and `run` on the sequence of results that
--                  `Channel::receive` gives. Session/Live is the same loop over the calls of libc,
--                  turn by turn. Session/Concurrent is the step relation of a session whose
--                  filesystem keeps reply objects and uses them later, from any thread;
--                  Concurrent/Schedule finds the loop in it, and Concurrent/Ids counts what it
--                  answers. Session/Mount is the life of a session with its channel: `mount` of
--                  src/lib.rs, and the destructors. Session/Mount/Threads is `BackgroundSession`: the
--                  calls of libc of a thread and of the handle to it, in any interleaving.
--   Request        src/request.rs. Request/Parse is `Request::new`, Request/Decode the arms of
--                  `dispatch` up to the method call, Request/Dispatch the guards, INIT, DESTROY and
--                  the calls. Request/Arguments and Request/Encode are the kernel's encoder, written
--                  from the protocol and not from the library, and Request/RoundTrip shows that
--                  the arms undo it.
--   Examples       examples/null.rs and examples/hello.rs as filesystems, and their `main`.
--   Build          build.rs. `main`, over the target and the crate pkg_config as parameters.
--   Tests          concrete runs. Tests/Repository has the tests of src/reply.rs, src/argument.rs
--                  and src/channel.rs, each with what it asserts, but for that of a reply in another
--                  thread, which asserts nothing of what is sent.
--
-- State is passed explicitly. A dispatch returns an `Effect`: the new session with the new state of
-- the filesystem, the packets that were sent, the reply objects that the filesystem keeps, and the
-- fault by which it ended, if any. A run returns a `Trace` of the same shape. The methods of a
-- filesystem are functions on its own type of states, so that every theorem holds of all of them.
--
-- Bounds. Integers are natural numbers with their wrap-around written out where the code casts
-- (`as u32`, `-err`), as in a build without overflow checks; an i32 or i64 stands as the number of its
-- bit pattern. A machine has 64 bits and
-- is little-endian. The kernel's reader of directory entries runs on fuel; more fuel than entries is
-- enough, as its theorems say. The loop of a session is recursion on the sequence of results that
-- `receive` gives. Over the calls of libc it takes a given number of turns, one read each: the turns
-- up to a read of ENODEV are enough.
--
-- A failed assertion, a panic and a read behind a slice are faults. A fault of a dispatch ends the
-- session's thread; a reply object that the call holds is dropped on the way. A read behind a slice is
-- a fault of its own, `out_of_bounds`: the program has no assertion there, and what it does from then
-- on is undefined, so that the model stops at that point and says nothing of what follows.
--
-- Not modelled: logging; the declarations of the C library's functions in src/fuse.rs, which are a
-- parameter (Channel/Calls); and a thread of `spawn_mount` that cannot be started. In
-- Session/Mount/Threads a turn of the loop, with its read, the dispatch and its writes, is one step:
-- the loop makes no calls to mount or unmount.
pub mod Prelude
pub mod Wire
pub mod Abi
pub mod Argument
pub mod Platform
pub mod Filesystem
pub mod Reply
pub mod Channel
pub mod Session
pub mod Request
pub mod Examples
pub mod Build
pub mod Tests
