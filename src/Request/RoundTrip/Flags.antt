-- ===== src/Request/RoundTrip/Flags.antt =====
-- An optional argument is there exactly when its bit is set, and a check of all sets of bits.
use rust_fuse.Prelude.{
  ℕ, ◌<◌, ◌≡◌, refl, Bool, true, Option, none, some, bit_and, ◌==◌, not, false, arith,
}
use rust_fuse.Prelude.{◌&&◌, not}
use rust_fuse.Abi.Names.{setattr_in_pod}
use rust_fuse.Argument.{done, ArgumentIterator}
use rust_fuse.Platform.{Timespec}
use rust_fuse.Platform.{Platform, IsPosix, nsec_per_sec}
use rust_fuse.Request.Decode.{time_given, given}
use rust_fuse.Request.Arguments.{is_given, value_of, sec_of, nsec_of}

-- A check of all values of a flag.
unfoldable pub all_flags : (Bool → Bool) → Bool
all_flags p = p true && p false

pub all_flags_sound : (p : Bool → Bool) → all_flags p ≡ true → (b : Bool) → p b ≡ true
unfolding all_flags
all_flags_sound p h true = ground arith
all_flags_sound p h false = ground arith

unfoldable pub same_flag : Bool → Bool → Bool
same_flag true b = b
same_flag false b = not b

pub same_flag_sound : (a b : Bool) → same_flag a b ≡ true → a ≡ b
unfolding same_flag
same_flag_sound true true h = refl
same_flag_sound true false h = cc
same_flag_sound false true h = cc
same_flag_sound false false h = refl

pub given_number :
    (valid mask : ℕ) (o : Option ℕ)
    → (bit_and valid mask == 0) ≡ not (is_given o)
    → given valid mask (value_of o) ≡ o
unfolding given
given_number valid mask none e = rw e
given_number valid mask (some v) e = rw e

pub time_given_lem :
    (platform : Platform) (valid mask : ℕ) (o : Option Timespec) (it : ArgumentIterator)
    → IsPosix platform
    → nsec_of o < nsec_per_sec
    → (bit_and valid mask == 0) ≡ not (is_given o)
    → time_given platform valid mask (sec_of o) (nsec_of o) it ≡ done (o, it)
unfolding time_given
time_given_lem platform valid mask none it posix h e = rw e
time_given_lem platform valid mask (some t) it posix h e =
    rw (e, posix.timespec_new_lem t.sec t.nsec h)
