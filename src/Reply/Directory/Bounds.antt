-- ===== src/Reply/Directory/Bounds.antt =====
-- The buffer of a directory reply: room, alignment, and how far it may grow.
use rust_fuse.Prelude.{
  ℕ, ◌+◌, ◌-◌, ◌*◌, ◌/◌, ◌%◌, ◌^◌, ◌≤◌, ◌<◌, ◌≡◌, arith, length, length-append, length-replicate,
  replicate,
}
use rust_fuse.Prelude.Bits.{bit_and_align}
use rust_fuse.Platform.{Platform, IsPosix}
use rust_fuse.Reply.Raw.{ChannelSender}
use rust_fuse.Reply.Directory.{
  ReplyDirectory, DirEntry, entlen, entsize, new, sized, entry_bytes, add,
}

-- A name that the kernel can be told the length of.
abbrev pub IsShort : DirEntry → Type 0
IsShort e = length e.name < 2 ^ 32

-- For a name shorter than 4 GiB, the bit mask of `add` rounds the length of an entry up to a
-- multiple of 8.
pub entsize_lem : (e : DirEntry) → IsShort e → entsize e ≡ (entlen e + 7) / 8 * 8
unfolding entsize
entsize_lem e h = omega (arith, bit_and_align (entlen e + 8 - 1) (omega arith))

module _ (platform : Platform) where
  pub length-entry_bytes : (e : DirEntry) → IsShort e → length (entry_bytes platform e) ≡ entsize e
  unfolding entry_bytes
  length-entry_bytes e h = omega (
    arith,
    entsize_lem e h,
    length-append e.name (replicate (entsize e - entlen e) 0),
    length-replicate {A = ℕ} (entsize e - entlen e) 0,
  )

  -- The unsafe writes of `add` stay within the allocation, and entries start at multiples of 8.
  pub record IsValid (r : ReplyDirectory) : Type 0 where
    pub within : length r.bytes ≤ r.capacity
    pub aligned : length r.bytes % 8 ≡ 0

  pub new-IsValid : (unique : ℕ) (ch : ChannelSender) → IsValid (new platform unique ch)
  unfolding new
  new-IsValid unique ch = omega arith

  pub sized-IsValid :
      (r : ReplyDirectory) (size : ℕ)
      → IsPosix platform
      → IsValid r
      → IsValid (sized platform r size)
  unfolding sized
  sized-IsValid r size px v = ground (arith, px.grows r.capacity (length r.bytes + size))

  -- For a name shorter than 4 GiB, `add` keeps the buffer within its capacity and its length a
  -- multiple of 8.
  pub add-IsValid :
      (r : ReplyDirectory) (e : DirEntry) → IsShort e → IsValid r → IsValid (add platform r e).0
  unfolding add
  add-IsValid r e h v = ground (
    arith,
    length-append r.bytes (entry_bytes platform e),
    length-entry_bytes e h,
    entsize_lem e h,
  )
