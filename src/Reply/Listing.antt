-- ===== src/Reply/Listing.antt =====
-- What a filesystem's use of a directory reply leaves in the message.
use rust_fuse.Prelude.{
  if_cases, ℕ, ◌<◌, ◌≡◌, refl, List, [], ◌∷◌, ◌++◌, Bool, true, false, length, All, if◌then◌else◌,
  append-nil, append_assoc, sym, ap, ◌∙◌, map, none,
}
use rust_fuse.Platform.{Platform, HasFileTypes}
use rust_fuse.Argument.{done}
use rust_fuse.Reply.Raw
use rust_fuse.Reply.Raw.{ReplyRaw, ChannelSender}
use rust_fuse.Reply.Directory
use rust_fuse.Reply.Directory.{ReplyDirectory, DirEntry, add, sized, entsize}
use rust_fuse.Reply.Directory.Entries.{
  IsEntry, Holds, buffer_of, listed, read_entries, read_entries-buffer_of, add-Holds,
}
use rust_fuse.Reply.Answer.{
  DirectoryProgram, adds, finish, fill, Reaction, replies, directory, answer, finish_directory,
  resizes,
}
use rust_fuse.Reply.Once.{reply-fill}
use rust_fuse.Reply.Message.{packet, consume_lem}

module _ (platform : Platform) where
  -- The entries of a program that found room.
  abbrev pub taken : ReplyDirectory → DirectoryProgram → List DirEntry
  taken r (finish reaction) = []
  taken r (resizes size p) = taken (sized platform r size) p
  taken r (adds e k) =
      let rest = taken (add platform r e).0 (k (add platform r e).1) in
      if (add platform r e).1 then rest else e ∷ rest

  -- Every entry that a program adds fits its fields.
  abbrev pub IsProgram : DirectoryProgram → Type 0
  IsProgram (finish reaction) = Unit {0}
  IsProgram (resizes size p) = IsProgram p
  IsProgram (adds e k) = IsEntry platform e × ((full : Bool) → IsProgram (k full))

  put_append :
      (full : Bool) (e : DirEntry) (es rest : List DirEntry)
      → (if full then es else es ++ (e ∷ [])) ++ rest ≡ es ++ (if full then rest else e ∷ rest)
  put_append true e es rest = refl
  put_append false e es rest = append_assoc es (e ∷ []) rest

  fill-Holds :
      (p : DirectoryProgram) (r : ReplyDirectory) (es : List DirEntry)
      → Holds platform r es
      → Holds platform (fill platform r p).0 (es ++ taken r p)
  unfolding fill
  fill-Holds (finish reaction) r es h = h ∙ ap (buffer_of platform) (sym (append-nil es))
  fill-Holds (resizes size p) r es h = fill-Holds p (sized platform r size) es (unfold sized in h)
  fill-Holds (adds e k) r es h =
      fill-Holds (k (add platform r e).1) (add platform r e).0 _ (add-Holds platform r e es h)
      ∙ ap (buffer_of platform) (put_append (add platform r e).1 e es _)

  taken-IsEntry :
      (p : DirectoryProgram) (r : ReplyDirectory) → IsProgram p → All (IsEntry platform) (taken r p)
  taken-IsEntry (finish reaction) r v = tt
  taken-IsEntry (resizes size p) r v = taken-IsEntry p (sized platform r size) v
  taken-IsEntry (adds e k) r v =
      let ih = taken-IsEntry (k (add platform r e).1) (add platform r e).0 (v.1 _) in
      if_cases (All (IsEntry platform)) (add platform r e).1 (λ _. ih) (λ _. (v.0, ih))

  -- The reply object that READDIR makes.
  abbrev pub reply_for : ℕ → ChannelSender → ℕ → ReplyDirectory
  reply_for unique ch size = sized platform (Directory.new platform unique ch) size

  abbrev pub reaction_of : ReplyDirectory → DirectoryProgram → Reaction (Unit {0})
  reaction_of r p = (fill platform r p).1

  finish_directory-replies :
      (r : ReplyDirectory) (a : Reaction (Unit {0})) (unique : ℕ) (ch : ChannelSender)
      (body : List ℕ)
      → a ≡ replies tt
      → r.reply ≡ Raw.new unique ch
      → r.bytes ≡ body
      → finish_directory platform r a
        ≡ done (record {
          sent = packet (Raw.new unique ch) ch 0 (body ∷ []) ∷ [];
          deferred = [];
          failure = none;
        })
  unfolding finish_directory
  finish_directory-replies r a unique ch body ok same held =
      rw (ok, same, held, consume_lem platform (Raw.new unique ch) ch 0 (body ∷ []) refl)

  -- A filesystem that adds entries whose values fit, and then answers with `ok`, sends one
  -- message. If the types of files have the numbers of POSIX systems, then with more fuel than
  -- entries the kernel reads from its body exactly the entries that `add` took, in their order:
  -- the number, the offset, the type and the name of each.
  pub answer-taken :
      (p : DirectoryProgram) (unique : ℕ) (ch : ChannelSender) (size fuel : ℕ)
      → HasFileTypes platform
      → IsProgram p
      → reaction_of (reply_for unique ch size) p ≡ replies tt
      → length (taken (reply_for unique ch size) p) < fuel
      → (body : List ℕ) × (answer platform directory (reply_for unique ch size) p
          ≡ done (record {
            sent = packet (Raw.new unique ch) ch 0 (body ∷ []) ∷ [];
            deferred = [];
            failure = none;
          }))
        × (read_entries fuel body ≡ map listed (taken (reply_for unique ch size) p))
  unfolding answer
  answer-taken p unique ch size fuel t v ok f =
      let r = reply_for unique ch size in
      let held : Holds platform (fill platform r p).0 (taken r p) =
        fill-Holds p r [] (unfold sized Directory.new in refl) in
      let kept = reply-fill platform r p in
      (
        buffer_of platform (taken r p),
        finish_directory-replies (fill platform r p).0 (fill platform r p).1 unique ch _ ok
            (kept ∙ (unfold sized Directory.new in refl)) held,
        read_entries-buffer_of platform fuel (taken r p) t (taken-IsEntry p r v) f,
      )
