-- ===== src/Examples/Hello.antt =====
-- The filesystem `HelloFS` of examples/hello.rs: a directory with one file.
pub mod Serve
use rust_fuse.Argument.{done}
use rust_fuse.Prelude.{
  ℕ, List, [], ◌∷◌, Bool, ◌&&◌, none, ◌==◌, leb, length, drop, if◌then◌else◌, true, false,
  same_bytes,
}
use rust_fuse.Platform.{Platform, Timespec}
use rust_fuse.Filesystem.Attributes.{FileAttr, directory, regular_file}
use rust_fuse.Filesystem.Calls.{Call, kind_of}
use rust_fuse.Filesystem.Trait.{Filesystem, default_method}
use rust_fuse.Reply.Answer.{Answer, replies, fails, panics, DirectoryProgram, adds, finish}
use rust_fuse.Reply.Directory.{DirEntry}

-- One second.
abbrev pub ttl : Timespec
ttl = record { sec = 1; nsec = 0 }

abbrev pub create_time : Timespec
create_time = record { sec = 1381237736; nsec = 0 }

abbrev pub hello_dir_attr : FileAttr
hello_dir_attr = record {
  ino = 1;
  size = 0;
  blocks = 0;
  atime = create_time;
  mtime = create_time;
  ctime = create_time;
  crtime = create_time;
  kind = directory;
  perm = 493;  -- 0o755
  nlink = 2;
  uid = 501;
  gid = 20;
  rdev = 0;
  flags = 0;
}

-- "Hello World!\n"
abbrev pub hello_txt_content : List ℕ
hello_txt_content = 72 ∷ 101 ∷ 108 ∷ 108 ∷ 111 ∷ 32 ∷ 87 ∷ 111 ∷ 114 ∷ 108 ∷ 100 ∷ 33 ∷ 10 ∷ []

abbrev pub hello_txt_attr : FileAttr
hello_txt_attr = record {
  ino = 2;
  size = 13;
  blocks = 1;
  atime = create_time;
  mtime = create_time;
  ctime = create_time;
  crtime = create_time;
  kind = regular_file;
  perm = 420;  -- 0o644
  nlink = 1;
  uid = 501;
  gid = 20;
  rdev = 0;
  flags = 0;
}

-- "hello.txt"
abbrev pub hello_txt : List ℕ
hello_txt = 104 ∷ 101 ∷ 108 ∷ 108 ∷ 111 ∷ 46 ∷ 116 ∷ 120 ∷ 116 ∷ []

abbrev pub dot : DirEntry
dot = record { ino = 1; offset = 0; kind = directory; name = 46 ∷ [] }

abbrev pub dot_dot : DirEntry
dot_dot = record { ino = 1; offset = 1; kind = directory; name = 46 ∷ 46 ∷ [] }

abbrev pub hello_entry : DirEntry
hello_entry = record { ino = 2; offset = 2; kind = regular_file; name = hello_txt }

-- The adds of `readdir`, whose results it ignores.
abbrev pub hello_listing : DirectoryProgram
hello_listing = adds dot (λ _. adds dot_dot (λ _. adds hello_entry (λ _. finish (replies tt))))

-- The methods that HelloFS implements, and the defaults. `name.to_str() == Some(...)`
-- compares the bytes, and `content[offset..]` panics behind the end.
unfoldable pub hello_method : Platform → (call : Call) → Answer (kind_of call)
hello_method p (Call.lookup parent name) =
    if parent == 1 && same_bytes name hello_txt
    then replies (record { ttl = ttl; attr = hello_txt_attr; generation = 0 })
    else fails p.enoent
hello_method p (Call.getattr ino) =
    if ino == 1
    then replies (record { ttl = ttl; attr = hello_dir_attr })
    else if ino == 2
    then replies (record { ttl = ttl; attr = hello_txt_attr })
    else fails p.enoent
hello_method p (Call.read ino fh offset size) =
    if ino == 2
    then if leb offset (length hello_txt_content)
      then replies (drop offset hello_txt_content)
      else panics
    else fails p.enoent
hello_method p (Call.readdir ino fh offset) =
    if ino == 1
    then if offset == 0 then hello_listing else finish (replies tt)
    else finish (fails p.enoent)
hello_method p call = default_method p call

abbrev pub hello_fs : Platform → Filesystem
hello_fs platform = record {
  State = Unit {0};
  init = λ req state. (state, done none);
  destroy = λ req state. (state, none);
  forget = λ req ino nlookup state. (state, none);
  method = λ req c state. (state, hello_method platform c);
}
