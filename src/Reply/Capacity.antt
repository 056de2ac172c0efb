-- ===== src/Reply/Capacity.antt =====
-- The room of a directory reply: what it is, and that it is not the size that the kernel asks for.
use rust_fuse.Prelude.{
  ℕ, ◌≤◌, ◌%◌, ◌≡◌, refl, arith, false, length, ◌∙◌, ◌⊎◌, ◌+◌, Bool, true, inl, inr,
}
use rust_fuse.Platform.{Platform, IsPosix}
use rust_fuse.Reply.Raw.{ChannelSender}
use rust_fuse.Reply.Directory
use rust_fuse.Reply.Directory.{ReplyDirectory, DirEntry, add, sized}
use rust_fuse.Reply.Directory.Bounds.{IsValid, add-IsValid, new-IsValid, sized-IsValid}
use rust_fuse.Reply.Answer.{DirectoryProgram, adds, resizes, finish, fill}
use rust_fuse.Reply.Listing.{IsProgram, reply_for}

module _ (platform : Platform) where
  -- Whether a program asks for another size on its way.
  abbrev pub resized : ReplyDirectory → DirectoryProgram → Bool
  resized r (finish reaction) = false
  resized r (resizes size p) = true
  resized r (adds e k) = resized (add platform r e).0 (k (add platform r e).1)

  capacity-add : (r : ReplyDirectory) (e : DirEntry) → (add platform r e).0.capacity ≡ r.capacity
  unfolding add
  capacity-add r e = ground arith

  capacity-fill :
      (p : DirectoryProgram) (r : ReplyDirectory)
      → ((fill platform r p).0.capacity ≡ r.capacity) ⊎ (resized r p ≡ true)
  unfolding fill
  capacity-fill (finish reaction) r = inl refl
  capacity-fill (resizes size p) r = inr refl
  capacity-fill (adds e k) r = elim (capacity-fill (k (add platform r e).1) (add platform r e).0) [
    | inl same ↦ inl (same ∙ capacity-add r e)
    | inr more ↦ inr more
  ]

  capacity-sized :
      (r : ReplyDirectory) (size : ℕ)
      → IsPosix platform
      → length r.bytes ≤ r.capacity
      → length r.bytes + size ≤ (sized platform r size).capacity
  unfolding sized
  capacity-sized r size posix h = ground (arith, posix.grows r.capacity (length r.bytes + size))

  fill-IsValid :
      (p : DirectoryProgram) (r : ReplyDirectory)
      → IsPosix platform
      → IsProgram platform p
      → IsValid platform r
      → IsValid platform (fill platform r p).0
  unfolding fill
  fill-IsValid (finish reaction) r posix p v = v
  fill-IsValid (resizes size q) r posix p v =
      fill-IsValid q (sized platform r size) posix p (sized-IsValid platform r size posix v)
  fill-IsValid (adds e k) r posix p v =
      fill-IsValid (k (add platform r e).1) (add platform r e).0 posix (p.1 _)
        (add-IsValid platform r e p.0.name v)

  -- If errors and memory are as documented and every entry's values fit, then however many entries
  -- a filesystem adds, and whatever sizes it asks for, the buffer that READDIR makes stays within
  -- its capacity, and its length is a multiple of 8. The capacity is the one that READDIR
  -- reserved, unless the filesystem asks for another size.
  pub fill_within :
      (p : DirectoryProgram) (unique : ℕ) (ch : ChannelSender) (size : ℕ)
      → IsPosix platform
      → IsProgram platform p
      → (length (fill platform (reply_for platform unique ch size) p).0.bytes
          ≤ (fill platform (reply_for platform unique ch size) p).0.capacity)
        × (length (fill platform (reply_for platform unique ch size) p).0.bytes % 8 ≡ 0)
        × (((fill platform (reply_for platform unique ch size) p).0.capacity
              ≡ (reply_for platform unique ch size).capacity)
            ⊎ (resized (reply_for platform unique ch size) p ≡ true))
  fill_within p unique ch size posix v =
      let r = reply_for platform unique ch size in
      let w = fill-IsValid p r posix v (
        sized-IsValid platform (Directory.new platform unique ch) size posix
          (new-IsValid platform unique ch)) in
      (w.within, w.aligned, capacity-fill p r)
