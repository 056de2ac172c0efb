-- ===== src/Reply/Directory/Entries.antt =====
-- What the kernel reads out of the buffer of a directory reply, and that it is what was added.
use rust_fuse.Prelude.{
  ℕ, zero, suc, ◌+◌, ◌*◌, ◌/◌, ◌^◌, ◌≤◌, ◌<◌, ◌≡◌, refl, arith, List, [], ◌∷◌, ◌++◌, length, take,
  drop, leb, length-append, take-append_length, drop-append_length, append_assoc, if◌then◌else◌, ap,
  ◌∙◌, le→leb, All, ◌&&◌, map, Bool-cases, sym, ltb, inl, inr, append-nil, All-append, false, ◌⊎◌,
  true,
}
use rust_fuse.Wire.{IsU32, IsU64}
use rust_fuse.Wire.Numbers.{le, from_le}
use rust_fuse.Abi.Replies.{FuseDirent, dirent_pod, dirent_of_bytes}
use rust_fuse.Abi.RoundTrip.Replies.{dirent_pod_laws}
use rust_fuse.Platform.{Platform, HasFileTypes}
use rust_fuse.Reply.Directory.{
  DirEntry, dirent, entry_bytes, ReplyDirectory, add, entsize, FileType, mode_from_kind_and_perm,
}
use rust_fuse.Reply.Directory.Bounds.{IsShort, entsize_lem, length-entry_bytes}

-- An entry as the kernel hands it on.
pub record Listed : Type 0 where
  pub ino : ℕ
  pub off : ℕ
  pub typ : ℕ
  pub name : List ℕ

abbrev listed_of : FuseDirent → List ℕ → Listed
listed_of head name = record { ino = head.ino; off = head.off; typ = head.typ; name = name }

-- The numbers DT_FIFO, DT_CHR, DT_BLK, DT_DIR, DT_REG and DT_LNK of the kernel's interface.
abbrev pub dirent_type : FileType → ℕ
dirent_type FileType.named_pipe = 1
dirent_type FileType.char_device = 2
dirent_type FileType.block_device = 6
dirent_type FileType.directory = 4
dirent_type FileType.regular_file = 8
dirent_type FileType.symlink = 10

-- What the kernel should hand on for an entry that was added.
abbrev pub listed : DirEntry → Listed
listed e = record { ino = e.ino; off = e.offset; typ = dirent_type e.kind; name = e.name }

-- The kernel's loop: a structure, the name that follows it, and on to the next multiple of 8.
-- It stops in front of an entry that is not whole.
unfoldable pub read_entries : ℕ → List ℕ → List Listed
read_entries zero bytes = []
read_entries (suc fuel) bytes =
    let head : FuseDirent = dirent_of_bytes bytes in
    let reclen = (24 + head.namelen + 7) / 8 * 8 in
    let rest = read_entries fuel (drop reclen bytes) in
    if leb 24 (length bytes) && leb reclen (length bytes)
    then listed_of head (take head.namelen (drop 24 bytes)) ∷ rest
    else []

read_entries_whole :
    (fuel : ℕ) (bytes : List ℕ) (n : ℕ)
    → (dirent_of_bytes bytes).namelen ≡ n
    → (24 + n + 7) / 8 * 8 ≤ length bytes
    → read_entries (suc fuel) bytes
      ≡ listed_of (dirent_of_bytes bytes) (take n (drop 24 bytes))
        ∷ read_entries fuel (drop ((24 + n + 7) / 8 * 8) bytes)
unfolding read_entries
read_entries_whole fuel bytes n p h = rw (p, le→leb 24 (length bytes) (omega arith), le→leb _ _ h)

module _ (platform : Platform) where
  typ_lem :
      HasFileTypes platform
      → (kind : FileType) → mode_from_kind_and_perm platform kind 0 / 2 ^ 12 ≡ dirent_type kind
  typ_lem t FileType.named_pipe = rw t.ififo refl
  typ_lem t FileType.char_device = rw t.ifchr refl
  typ_lem t FileType.block_device = rw t.ifblk refl
  typ_lem t FileType.directory = rw t.ifdir refl
  typ_lem t FileType.regular_file = rw t.ifreg refl
  typ_lem t FileType.symlink = rw t.iflnk refl

  listed-dirent :
      HasFileTypes platform → (e : DirEntry) → listed_of (dirent platform e) e.name ≡ listed e
  listed-dirent t e = rw (typ_lem t e.kind)

  -- The values of an entry fit their fields.
  pub record IsEntry (e : DirEntry) : Type 0 where
    pub ino : IsU64 e.ino
    pub offset : IsU64 e.offset
    pub typ : IsU32 (dirent platform e).typ
    pub name : IsShort e

  -- The buffer that holds the entries of a list.
  abbrev pub buffer_of : List DirEntry → List ℕ
  buffer_of [] = []
  buffer_of (e ∷ es) = entry_bytes platform e ++ buffer_of es

  module _ (e : DirEntry) (rest : List ℕ) (v : IsEntry e) where
    head_listed : dirent_of_bytes (entry_bytes platform e ++ rest) ≡ dirent platform e
    unfolding entry_bytes le from_le
    head_listed = dirent_pod_laws.of-to (dirent platform e) (v.ino, v.offset, omega arith, v.typ)

    name_listed : take (length e.name) (drop 24 (entry_bytes platform e ++ rest)) ≡ e.name
    unfolding entry_bytes
    name_listed =
        ap (take (length e.name)) (append_assoc e.name _ rest) ∙ take-append_length e.name _

    namelen_listed : (dirent_of_bytes (entry_bytes platform e ++ rest)).namelen ≡ length e.name
    namelen_listed = ap (λ (d : FuseDirent). d.namelen) head_listed ∙ omega (arith, v.name)

    reclen_listed : (24 + length e.name + 7) / 8 * 8 ≡ length (entry_bytes platform e)
    reclen_listed = omega (arith, entsize_lem e v.name, length-entry_bytes platform e v.name)

    rest_listed : drop ((24 + length e.name + 7) / 8 * 8) (entry_bytes platform e ++ rest) ≡ rest
    rest_listed = rw reclen_listed (drop-append_length (entry_bytes platform e) rest)

    read_entries_step :
        HasFileTypes platform
        → (fuel : ℕ)
        → read_entries (suc fuel) (entry_bytes platform e ++ rest)
          ≡ listed e ∷ read_entries fuel rest
    read_entries_step t fuel =
        read_entries_whole fuel (entry_bytes platform e ++ rest) (length e.name) namelen_listed
          (omega (arith, reclen_listed, length-append (entry_bytes platform e) rest))
        ∙ (λ i. listed_of (head_listed i) (name_listed i) ∷ read_entries fuel (rest_listed i))
        ∙ ap (λ l. l ∷ read_entries fuel rest) (listed-dirent t e)

  -- If the types of files have the numbers of POSIX systems, then with more fuel than entries the
  -- kernel reads from the packed bytes of entries whose values fit exactly those entries, in their
  -- order: the number, the offset, the type and the name of each.
  pub read_entries-buffer_of :
      (fuel : ℕ) (es : List DirEntry)
      → HasFileTypes platform
      → All IsEntry es
      → length es < fuel
      → read_entries fuel (buffer_of es) ≡ map listed es
  read_entries-buffer_of zero es t h f = absurd (omega arith)
  read_entries-buffer_of (suc fuel) [] t h f = unfold read_entries in refl
  read_entries-buffer_of (suc fuel) (e ∷ es) t h f =
      read_entries_step e (buffer_of es) h.0 t fuel
      ∙ ap (λ l. listed e ∷ l) (read_entries-buffer_of fuel es t h.1 (omega arith))

  -- The buffer of a reply holds the entries of a list.
  abbrev pub Holds : ReplyDirectory → List DirEntry → Type 0
  Holds r es = r.bytes ≡ buffer_of es

  buffer_of-append : (es fs : List DirEntry) → buffer_of (es ++ fs) ≡ buffer_of es ++ buffer_of fs
  buffer_of-append [] fs = refl
  buffer_of-append (e ∷ es) fs =
      ap (λ b. entry_bytes platform e ++ b) (buffer_of-append es fs)
      ∙ sym (append_assoc (entry_bytes platform e) (buffer_of es) (buffer_of fs))

  pub add-Holds :
      (r : ReplyDirectory) (e : DirEntry) (es : List DirEntry)
      → Holds r es
      → Holds (add platform r e).0 (if (add platform r e).1 then es else es ++ (e ∷ []))
  unfolding add
  add-Holds r e es h = elim (Bool-cases (ltb r.capacity (length r.bytes + entsize e))) [
    | inl full ↦ rw full h
    | inr room ↦ rw room (
        ap (λ b. b ++ entry_bytes platform e) h
        ∙ ap (λ b. buffer_of es ++ b) (sym (append-nil _))
        ∙ sym (buffer_of-append es (e ∷ [])))
  ]

  length-add_one : (es : List DirEntry) (e : DirEntry) → length (es ++ (e ∷ [])) ≡ length es + 1
  length-add_one es e = length-append es (e ∷ [])

  All-add_one :
      (es : List DirEntry) (e : DirEntry)
      → All IsEntry es
      → IsEntry e
      → All IsEntry (es ++ (e ∷ []))
  All-add_one es e h v = All-append IsEntry es (e ∷ []) h (v, tt)

  -- If the buffer of a reply holds the entries of a list, and their values and those of a new
  -- entry fit, then the length of the new entry, 24 bytes and its name, rounded up to a multiple
  -- of 8, either has room in the capacity, and `add` answers false and the kernel, with more fuel
  -- than entries, reads exactly the old entries and the new one behind them; or it has none, and
  -- `add` answers true and the reply is as it was.
  pub add-read_entries :
      (r : ReplyDirectory) (e : DirEntry) (es : List DirEntry) (fuel : ℕ)
      → HasFileTypes platform
      → Holds r es
      → All IsEntry es
      → IsEntry e
      → length es + 1 < fuel
      → ((length r.bytes + (24 + length e.name + 7) / 8 * 8 ≤ r.capacity)
          × ((add platform r e).1 ≡ false)
          × (read_entries fuel (add platform r e).0.bytes ≡ map listed (es ++ (e ∷ []))))
        ⊎ ((r.capacity < length r.bytes + (24 + length e.name + 7) / 8 * 8)
            × ((add platform r e).1 ≡ true)
            × ((add platform r e).0 ≡ r))
  add-read_entries r e es fuel t h all v f =
      let size = entsize_lem e v.name in
      elim (Bool-cases (ltb r.capacity (length r.bytes + entsize e))) [
        | inl full ↦
            inr (ground arith, ap (λ p. p.1) (full_lem full), ap (λ p. p.0) (full_lem full))
        | inr room ↦ inl (
          ground arith,
          ap (λ p. p.1) (room_lem room),
          ap (λ p. read_entries fuel p.0.bytes) (room_lem room)
              ∙ ap (read_entries fuel) (bytes_lem)
              ∙ read_entries-buffer_of fuel (es ++ (e ∷ [])) t (All-add_one es e all v)
                  (omega (arith, length-add_one es e)),
        )
      ]
    where
      full_lem : ltb r.capacity (length r.bytes + entsize e) ≡ true → add platform r e ≡ (r, true)
      full_lem full = unfold add in rw full

      room_lem :
          ltb r.capacity (length r.bytes + entsize e) ≡ false
          → add platform r e ≡ (record r { bytes = r.bytes ++ entry_bytes platform e }, false)
      room_lem room = unfold add in rw room

      bytes_lem : r.bytes ++ entry_bytes platform e ≡ buffer_of (es ++ (e ∷ []))
      bytes_lem =
          ap (λ b. b ++ entry_bytes platform e) h
          ∙ ap (λ b. buffer_of es ++ b) (sym (append-nil _))
          ∙ sym (buffer_of-append es (e ∷ []))
