-- ===== src/Reply/Directory.antt =====
-- `ReplyDirectory` of src/reply.rs: directory entries packed into one buffer. The vector is its
-- bytes and its capacity.
pub mod Bounds
pub mod Entries
use rust_fuse.Prelude.{
  ℕ, ◌+◌, ◌-◌, ◌/◌, ◌%◌, ◌^◌, List, [], ◌∷◌, ◌++◌, Bool, true, false, length, replicate, ltb, leb,
  bit_and, if◌then◌else◌,
}
use rust_fuse.Wire.{fields}
use rust_fuse.Abi.Replies.{FuseDirent, dirent_pod}
use rust_fuse.Argument.{Outcome}
use rust_fuse.Platform.{Platform}
use rust_fuse.Filesystem.Attributes.{FileType, mode_from_kind_and_perm}
use rust_fuse.Reply.Raw
use rust_fuse.Reply.Raw.{ReplyRaw, ChannelSender, Packet}

pub record ReplyDirectory : Type 0 where
  pub reply : ReplyRaw
  pub size : ℕ
  pub bytes : List ℕ  -- the field `data`
  pub capacity : ℕ

-- The arguments of `add`.
pub record DirEntry : Type 0 where
  pub ino : ℕ
  pub offset : ℕ
  pub kind : FileType
  pub name : List ℕ

-- `size_of::<fuse_dirent>() + name.len()`, and the same rounded up to a multiple of 8.
abbrev pub entlen : DirEntry → ℕ
entlen e = 24 + length e.name

unfoldable pub entsize : DirEntry → ℕ
entsize e = bit_and (entlen e + 8 - 1) (2 ^ 64 - 8)

module _ (platform : Platform) where
  unfoldable pub new : ℕ → ChannelSender → ReplyDirectory
  new unique ch = record {
    reply = Raw.new unique ch;
    size = 0;
    bytes = [];
    capacity = platform.grow 0 4096;
  }

  -- `Vec::reserve` leaves a capacity alone that is large enough.
  unfoldable pub sized : ReplyDirectory → ℕ → ReplyDirectory
  sized r size = record r { size = size; capacity = capacity }
    where
      need : ℕ
      need = length r.bytes + size

      capacity : ℕ
      capacity = if leb need r.capacity then r.capacity else platform.grow r.capacity need

  abbrev pub dirent : DirEntry → FuseDirent
  dirent e = record {
    ino = e.ino;
    off = e.offset;
    namelen = length e.name % 2 ^ 32;
    typ = mode_from_kind_and_perm platform e.kind 0 / 2 ^ 12;
  }

  -- What `add` writes behind the buffer: the structure, the name, and zeros up to `entsize`.
  unfoldable pub entry_bytes : DirEntry → List ℕ
  unfolding fields
  entry_bytes e = dirent_pod.to_bytes (dirent e) ++ (e.name ++ replicate (entsize e - entlen e) 0)

  -- Returns true if the buffer is full.
  unfoldable pub add : ReplyDirectory → DirEntry → ReplyDirectory × Bool
  add r e =
      if ltb r.capacity (length r.bytes + entsize e)
      then (r, true)
      else (record r { bytes = r.bytes ++ entry_bytes e }, false)

  abbrev pub ok : ReplyDirectory → Outcome (List Packet)
  ok r = Raw.consume platform r.reply 0 (r.bytes ∷ [])

  abbrev pub error : ReplyDirectory → ℕ → Outcome (List Packet)
  error r err = Raw.error platform r.reply err
