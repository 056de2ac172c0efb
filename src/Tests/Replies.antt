-- ===== src/Tests/Replies.antt =====
-- Replies, and the buffer of a directory.
use rust_fuse.Reply.Body.{read_body, react-read_body}
use rust_fuse.Reply.Answer.{react, replies}
use rust_fuse.Prelude.{
  ℕ, ◌%◌, ◌≤◌, ◌≡◌, refl, arith, List, [], ◌∷◌, false, some, length, map, none, ◌⊎◌, ◌+◌, ◌/◌, true,
  ◌*◌, ◌<◌,
}
use rust_fuse.Argument.{done}
use rust_fuse.Platform.{linux, linux-IsPosix, linux-HasFileTypes}
use rust_fuse.Reply.Raw
use rust_fuse.Reply.Raw.{consume, ReplyRaw, Packet}
use rust_fuse.Reply.Kinds.{RawKind}
use rust_fuse.Reply.Directory
use rust_fuse.Reply.Directory.{entsize, entlen, add, ReplyDirectory}
use rust_fuse.Reply.Directory.Entries.{
  IsEntry, buffer_of, listed, read_entries, read_entries-buffer_of, add-read_entries,
}
use rust_fuse.Reply.Answer.{
  raw, directory, replies, panics_after, fails, DirectoryProgram, adds, finish, answer, fill, react,
}
use rust_fuse.Reply.Message.{packet, read_message, read_message-packet}
use rust_fuse.Reply.Once.{Settles, answer-Settles}
use rust_fuse.Reply.Listing.{IsProgram, reply_for, taken, answer-taken}
use rust_fuse.Reply.Capacity.{fill_within, resized}
use rust_fuse.Tests.Data.{test_sender, dot_entry, hello_entry}

abbrev test_reply : ReplyRaw
test_reply = Raw.new 7 test_sender

abbrev one_body : List (List ℕ)
one_body = (1 ∷ 2 ∷ 3 ∷ []) ∷ []

read_message-packet_example :
    read_message (packet test_reply test_sender 0 one_body)
    ≡ some (record { unique = 7; error = 0; body = 1 ∷ 2 ∷ 3 ∷ [] })
read_message-packet_example =
    read_message-packet test_reply test_sender 0 one_body (omega arith) (omega arith)

-- A filesystem that answers GETATTR with an error and panics after it.
answer-Settles_example :
    Settles linux 7 test_sender
      (answer linux (raw RawKind.attr) test_reply (panics_after (fails 2)))
answer-Settles_example =
    answer-Settles linux (raw RawKind.attr) test_reply (panics_after (fails 2)) refl

abbrev empty_directory : ReplyDirectory
empty_directory = Directory.new linux 7 test_sender

hello_IsEntry : IsEntry linux hello_entry
hello_IsEntry = record {
  ino = omega arith;
  offset = omega arith;
  typ = omega arith;
  name = omega arith;
}

dot_IsEntry : IsEntry linux dot_entry
dot_IsEntry = record {
  ino = omega arith;
  offset = omega arith;
  typ = omega arith;
  name = omega arith;
}

read_entries-buffer_of_example :
    read_entries 3 (buffer_of linux (dot_entry ∷ hello_entry ∷ []))
    ≡ map listed (dot_entry ∷ hello_entry ∷ [])
read_entries-buffer_of_example =
    read_entries-buffer_of linux 3 (dot_entry ∷ hello_entry ∷ []) linux-HasFileTypes
      (dot_IsEntry, (hello_IsEntry, tt)) (omega arith)

-- A filesystem that lists two entries.
abbrev two_entries : DirectoryProgram
two_entries = adds dot_entry (λ _. adds hello_entry (λ _. finish (replies tt)))

two_entries-IsProgram : IsProgram linux two_entries
two_entries-IsProgram = (dot_IsEntry, λ _. (hello_IsEntry, λ _. tt))

answer-taken_example :
    (body : List ℕ) × (answer linux directory (reply_for linux 7 test_sender 4096) two_entries
      ≡ done (record {
        sent = packet test_reply test_sender 0 (body ∷ []) ∷ [];
        deferred = [];
        failure = none;
      }))
    × (read_entries 9 body
        ≡ map listed (taken linux (reply_for linux 7 test_sender 4096) two_entries))
unfolding fill Directory.sized Directory.new add entsize Directory.entry_bytes
answer-taken_example =
    answer-taken linux two_entries 7 test_sender 4096 9 linux-HasFileTypes two_entries-IsProgram
      refl (omega arith)

fill_within_example :
    (length (fill linux (reply_for linux 7 test_sender 4096) two_entries).0.bytes
      ≤ (fill linux (reply_for linux 7 test_sender 4096) two_entries).0.capacity)
    × (length (fill linux (reply_for linux 7 test_sender 4096) two_entries).0.bytes % 8 ≡ 0)
    × (((fill linux (reply_for linux 7 test_sender 4096) two_entries).0.capacity
          ≡ (reply_for linux 7 test_sender 4096).capacity)
        ⊎ (resized linux (reply_for linux 7 test_sender 4096) two_entries ≡ true))
fill_within_example =
    fill_within linux two_entries 7 test_sender 4096 linux-IsPosix two_entries-IsProgram

-- The kernel asks for 16 bytes, and a second entry is taken behind the first.
abbrev one_entry : DirectoryProgram
one_entry = adds dot_entry (λ _. finish (replies tt))

-- An entry that is added behind another.
abbrev one_held : ReplyDirectory
one_held = record empty_directory { bytes = buffer_of linux (dot_entry ∷ []) }

add-read_entries_example :
    ((length one_held.bytes + (24 + length hello_entry.name + 7) / 8 * 8 ≤ one_held.capacity)
      × ((add linux one_held hello_entry).1 ≡ false)
      × (read_entries 3 (add linux one_held hello_entry).0.bytes
          ≡ map listed (dot_entry ∷ hello_entry ∷ [])))
    ⊎ ((one_held.capacity < length one_held.bytes + (24 + length hello_entry.name + 7) / 8 * 8)
        × ((add linux one_held hello_entry).1 ≡ true)
        × ((add linux one_held hello_entry).0 ≡ one_held))
add-read_entries_example =
    add-read_entries linux one_held hello_entry (dot_entry ∷ []) 3 linux-HasFileTypes refl
      (dot_IsEntry, tt) hello_IsEntry (omega arith)

react-read_body_example :
    (p : Packet) × (body : List ℕ) × (react linux RawKind.write
        (Raw.new 7 test_sender)
        (replies 512)
      ≡ done (record { sent = p ∷ []; deferred = []; failure = none }))
    × (read_message p ≡ some (record { unique = 7; error = 0; body = body }))
    × (read_body false RawKind.write body ≡ record { size = 512; padding = 0 })
react-read_body_example =
    react-read_body linux 7 test_sender RawKind.write 512 linux-HasFileTypes (omega arith)
      (omega arith)
