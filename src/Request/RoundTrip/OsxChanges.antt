-- ===== src/Request/RoundTrip/OsxChanges.antt =====
-- SETATTR on OS X: each of the eleven optional arguments is there exactly when its bit is set.
use rust_fuse.Request.Decode.{changes_of_osx}
use rust_fuse.Argument.{done, ArgumentIterator, ◌>>=◌}
use rust_fuse.Platform.{Platform, IsPosix, nsec_per_sec}
use rust_fuse.Filesystem.Calls.{SetAttr}
use rust_fuse.Request.Arguments.{is_given, nsec_of, setattr_arg_osx}
use rust_fuse.Request.RoundTrip.Flags.{given_number, time_given_lem}
use rust_fuse.Prelude.{ℕ, ◌+◌, ◌*◌, ◌^◌, ◌≡◌, refl, [], ◌∷◌, Bool, true, bit_and, ◌==◌, not, ◌<◌}
use rust_fuse.Request.Arguments.{bits}
use rust_fuse.Request.RoundTrip.Flags.{all_flags, all_flags_sound, same_flag, same_flag_sound}

abbrev Pick : Type 0
Pick = (a b c d e f g p q r s : Bool) → Bool

abbrev valid_of : (a b c d e f g p q r s : Bool) → ℕ
valid_of a b c d e f g p q r s =
    bits (a ∷ b ∷ c ∷ d ∷ e ∷ f ∷ g ∷ []) + 2 ^ 28 * bits (p ∷ q ∷ r ∷ s ∷ [])

-- The mask is not set exactly where the flag that is picked is false, for all 2048 sets of flags.
agrees : ℕ → Pick → Bool
agrees mask pick = all_flags λ a. all_flags λ b. all_flags λ c. all_flags λ d. all_flags λ e.
    all_flags λ f. all_flags λ g. all_flags λ p. all_flags λ q. all_flags λ r. all_flags λ s.
      same_flag (bit_and (valid_of a b c d e f g p q r s) mask == 0)
        (not (pick a b c d e f g p q r s))

agrees_sound :
    (mask : ℕ) (pick : Pick)
    → agrees mask pick ≡ true
    → (a b c d e f g p q r s : Bool)
    → (bit_and (valid_of a b c d e f g p q r s) mask == 0) ≡ not (pick a b c d e f g p q r s)
unfolding agrees
agrees_sound mask pick h a b c d e f g p q r s =
    let h1 = all_flags_sound _ h a in
    let h2 = all_flags_sound _ h1 b in
    let h3 = all_flags_sound _ h2 c in
    let h4 = all_flags_sound _ h3 d in
    let h5 = all_flags_sound _ h4 e in
    let h6 = all_flags_sound _ h5 f in
    let h7 = all_flags_sound _ h6 g in
    let h8 = all_flags_sound _ h7 p in
    let h9 = all_flags_sound _ h8 q in
    let h10 = all_flags_sound _ h9 r in let h11 = all_flags_sound _ h10 s in same_flag_sound _ _ h11

-- On OS X, if `Timespec::new` is as documented, then for arguments of SETATTR whose times have
-- less than a second of nanoseconds, the valid bits and the values that the kernel writes are
-- decoded to exactly the arguments that were given, the four that only OS X has included, and the
-- iterator stays where it is.
pub changes_of_osx-setattr_arg_osx :
    (platform : Platform) (s : SetAttr) (it : ArgumentIterator)
    → IsPosix platform
    → nsec_of s.atime < nsec_per_sec
    → nsec_of s.mtime < nsec_per_sec
    → nsec_of s.crtime < nsec_per_sec
    → nsec_of s.chgtime < nsec_per_sec
    → nsec_of s.bkuptime < nsec_per_sec
    → changes_of_osx platform (setattr_arg_osx s) it ≡ done (s, it)
unfolding changes_of_osx agrees all_flags same_flag bits
changes_of_osx-setattr_arg_osx platform s it posix at mt ct ht bt =
    let given_if = λ (mask : ℕ) (pick : Pick) (h : agrees mask pick ≡ true).
      agrees_sound mask pick h (is_given s.mode) (is_given s.uid) (is_given s.gid) (is_given s.size)
        (is_given s.atime) (is_given s.mtime) (is_given s.fh) (is_given s.crtime)
        (is_given s.chgtime) (is_given s.bkuptime) (is_given s.flags) in
    let valid : ℕ = (setattr_arg_osx s).valid in
    let atime =
      time_given_lem platform valid 16 s.atime it posix at
        (given_if 16 (λ a b c d e f g p q r s. e) refl) in
    let mtime =
      time_given_lem platform valid 32 s.mtime it posix mt
        (given_if 32 (λ a b c d e f g p q r s. f) refl) in
    let crtime =
      time_given_lem platform valid (2 ^ 28) s.crtime it posix ct
        (given_if (2 ^ 28) (λ a b c d e f g p q r s. p) refl) in
    let chgtime =
      time_given_lem platform valid (2 ^ 29) s.chgtime it posix ht
        (given_if (2 ^ 29) (λ a b c d e f g p q r s. q) refl) in
    let bkuptime =
      time_given_lem platform valid (2 ^ 30) s.bkuptime it posix bt
        (given_if (2 ^ 30) (λ a b c d e f g p q r s. r) refl) in
    rw (atime, changes_of_osx, mtime, crtime, chgtime, bkuptime, ◌>>=◌)
      λ i. done (
        record {
          mode = given_number valid 1 s.mode (given_if 1 (λ a b c d e f g p q r s. a) refl) i;
          uid = given_number valid 2 s.uid (given_if 2 (λ a b c d e f g p q r s. b) refl) i;
          gid = given_number valid 4 s.gid (given_if 4 (λ a b c d e f g p q r s. c) refl) i;
          size = given_number valid 8 s.size (given_if 8 (λ a b c d e f g p q r s. d) refl) i;
          atime = s.atime;
          mtime = s.mtime;
          fh = given_number valid 64 s.fh (given_if 64 (λ a b c d e f g p q r s. g) refl) i;
          crtime = s.crtime;
          chgtime = s.chgtime;
          bkuptime = s.bkuptime;
          flags =
              given_number valid (2 ^ 31) s.flags
                (given_if (2 ^ 31) (λ a b c d e f g p q r s. s) refl) i;
        },
        it,
      )
