-- ===== src/Request/RoundTrip/Changes.antt =====
-- SETATTR: each optional argument is there exactly when its bit is set.
use rust_fuse.Prelude.{
  ℕ, ◌<◌, ◌≡◌, refl, sym, [], ◌∷◌, Bool, true, none, append-nil, bit_and, ◌==◌, not, false,
}
use Prim.Native.Nat.{zero-le}
use rust_fuse.Prelude.{not}
use rust_fuse.Abi.Control.{FuseInHeader}
use rust_fuse.Abi.Names.{setattr_in_pod}
use rust_fuse.Abi.RoundTrip.Names.{setattr_in_pod_laws}
use rust_fuse.Argument
use rust_fuse.Argument.{done, ArgumentIterator, advance, ◌>>=◌}
use rust_fuse.Filesystem.Calls.{Call, SetAttr}
use rust_fuse.Platform.{Platform, IsPosix, nsec_per_sec}
use rust_fuse.Request.Decode.{calls, arm, changes_of}
use rust_fuse.Request.Encode.Valid.{IsOperation}
use rust_fuse.Request.Encode.{encode}
use rust_fuse.Request.Arguments.{bits, is_given, nsec_of, setattr_arg}
use rust_fuse.Request.RoundTrip.Steps.{arg_step}
use rust_fuse.Request.RoundTrip.Reads.{Reads}
use rust_fuse.Request.RoundTrip.Flags.{
  all_flags, all_flags_sound, same_flag, same_flag_sound, given_number, time_given_lem,
}
use rust_fuse.Abi.OsxNames.{setattr_in_osx_pod}
use rust_fuse.Abi.RoundTrip.OsxNames.{setattr_in_osx_pod_laws}
use rust_fuse.Request.Decode.{setattr_arm}
use rust_fuse.Request.Arguments.{setattr_bytes, setattr_arg_osx}
use rust_fuse.Request.RoundTrip.OsxChanges.{changes_of_osx-setattr_arg_osx}

abbrev Pick : Type 0
Pick = (a b c d e f g : Bool) → Bool

-- The mask is not set exactly where the flag that is picked is false, for all 128 sets of flags.
agrees : ℕ → Pick → Bool
agrees mask pick = all_flags λ a. all_flags λ b. all_flags λ c. all_flags λ d. all_flags λ e.
    all_flags λ f. all_flags λ g.
      same_flag (bit_and (bits (a ∷ b ∷ c ∷ d ∷ e ∷ f ∷ g ∷ [])) mask == 0)
        (not (pick a b c d e f g))

agrees_sound :
    (mask : ℕ) (pick : Pick)
    → agrees mask pick ≡ true
    → (a b c d e f g : Bool)
    → (bit_and (bits (a ∷ b ∷ c ∷ d ∷ e ∷ f ∷ g ∷ [])) mask == 0) ≡ not (pick a b c d e f g)
unfolding agrees
agrees_sound mask pick h a b c d e f g = same_flag_sound _ _ (
    all_flags_sound _
      (all_flags_sound _
        (all_flags_sound _
          (all_flags_sound _ (all_flags_sound _ (all_flags_sound _ (all_flags_sound _ h a) b) c) d)
          e)
        f)
      g)

-- If `Timespec::new` is as documented, then for arguments of SETATTR without those for OS X, whose
-- times have less than a second of nanoseconds, the valid bits and the values that the kernel
-- writes are decoded to exactly the arguments that were given, and the iterator stays where it is.
pub changes_of-setattr_arg :
    (platform : Platform) (s : SetAttr) (it : ArgumentIterator)
    → IsPosix platform
    → nsec_of s.atime < nsec_per_sec
    → nsec_of s.mtime < nsec_per_sec
    → s.crtime ≡ none
    → s.chgtime ≡ none
    → s.bkuptime ≡ none
    → s.flags ≡ none
    → changes_of platform (setattr_arg s) it ≡ done (s, it)
unfolding changes_of agrees all_flags same_flag bits
changes_of-setattr_arg platform s it posix at mt c h b f =
    let given_if = λ (mask : ℕ) (pick : Pick) (h : agrees mask pick ≡ true).
      agrees_sound mask pick h (is_given s.mode) (is_given s.uid) (is_given s.gid) (is_given s.size)
        (is_given s.atime) (is_given s.mtime) (is_given s.fh) in
    let valid : ℕ = (setattr_arg s).valid in
    let atime =
      time_given_lem platform valid 16 s.atime it posix at
        (given_if 16 (λ a b c d e f g. e) refl) in
    let mtime =
      time_given_lem platform valid 32 s.mtime it posix mt
        (given_if 32 (λ a b c d e f g. f) refl) in
    rw (atime, changes_of, mtime, ◌>>=◌)
      λ i. done (
        record {
          mode = given_number valid 1 s.mode (given_if 1 (λ a b c d e f g. a) refl) i;
          uid = given_number valid 2 s.uid (given_if 2 (λ a b c d e f g. b) refl) i;
          gid = given_number valid 4 s.gid (given_if 4 (λ a b c d e f g. c) refl) i;
          size = given_number valid 8 s.size (given_if 8 (λ a b c d e f g. d) refl) i;
          atime = s.atime;
          mtime = s.mtime;
          fh = given_number valid 64 s.fh (given_if 64 (λ a b c d e f g. g) refl) i;
          crtime = sym c i;
          chgtime = sym h i;
          bkuptime = sym b i;
          flags = sym f i;
        },
        it,
      )

setattr_arm_read :
    (platform : Platform) (posix : IsPosix platform) (os_x : Bool) (h : FuseInHeader) (ino : ℕ)
    (s : SetAttr)
    → IsOperation os_x (calls (Call.setattr ino s))
    → (it : ArgumentIterator) × (setattr_arm platform os_x h
          (Argument.new (encode os_x (calls (Call.setattr ino s))))
        ≡ done (calls (Call.setattr h.nodeid s), it))
unfolding setattr_arm encode setattr_bytes
setattr_arm_read platform posix true h ino s v =
    let it0 : ArgumentIterator = Argument.new (encode true (calls (Call.setattr ino s))) in
    let s1 =
      arg_step setattr_in_osx_pod setattr_in_osx_pod_laws it0 (setattr_arg_osx s) [] zero-le v.0
        (sym (append-nil _)) in
    (
      advance it0 128,
      rw (
        s1.0,
        ◌>>=◌,
        changes_of_osx-setattr_arg_osx platform s (advance it0 128) posix v.1 v.2 v.3 v.4 v.5,
      ),
    )
setattr_arm_read platform posix false h ino s v =
    let it0 : ArgumentIterator = Argument.new (encode false (calls (Call.setattr ino s))) in
    let s1 =
      arg_step setattr_in_pod setattr_in_pod_laws it0 (setattr_arg s) [] zero-le v.0
        (sym (append-nil _)) in
    (
      advance it0 88,
      rw (
        s1.0,
        ◌>>=◌,
        changes_of-setattr_arg platform s (advance it0 88) posix v.1 v.2 v.3 v.4 v.5 v.6,
      ),
    )

pub setattr_read :
    (platform : Platform) (posix : IsPosix platform) (h : FuseInHeader) (ino : ℕ) (s : SetAttr)
    → IsOperation platform.os_x (calls (Call.setattr ino s))
    → Reads platform h (calls (Call.setattr ino s))
unfolding arm
setattr_read platform posix h ino s v =
    setattr_arm_read platform posix platform.os_x (record h { nodeid = ino }) ino s v
