-- ===== src/Channel.antt =====
-- src/channel.rs: the channel to the kernel driver, over the calls of libc and libfuse that it makes.
pub mod Calls
pub mod Traced
pub mod Laws
use rust_fuse.Prelude.{
  ℕ, suc, ◌+◌, ◌%◌, ◌^◌, List, [], ◌∷◌, Bool, true, false, Option, none, some, length, ◌==◌,
  if◌then◌else◌, ◌&&◌, not,
}
use Calls.{Libc, Answer, returns, sets_errno}
use rust_fuse.Reply.Raw.{ChannelSender}
use rust_fuse.Argument.{Outcome, done, fault, Fault, panic, out_of_bounds, c_string}

-- `io::Error`: an error of the system, or one that the library makes.
pub data IoError : Type 0 where
  os_errno : ℕ → IoError
  invalid_input : IoError

-- `io::Result`.
pub data IoResult {ℓ} (A : Type ℓ) : Type ℓ where
  ok : A → IoResult A
  err : IoError → IoResult A

pub record Channel : Type 0 where
  pub mountpoint : List ℕ
  pub fd : ℕ

-- `to_cstring` of the standard library: none if there is a zero byte.
unfoldable pub to_cstring : List ℕ → Option (List ℕ)
to_cstring [] = some []
to_cstring (b ∷ bs) = if b == 0 then none else cons_some b (to_cstring bs)
  where
    cons_some : ℕ → Option (List ℕ) → Option (List ℕ)
    cons_some b none = none
    cons_some b (some bs) = some (b ∷ bs)

-- The structure `fuse_args` of src/fuse.rs, with the strings that its pointers point to.
pub record FuseArgs : Type 0 where
  pub argc : ℕ  -- i32
  pub argv : List (List ℕ)
  pub allocated : ℕ  -- i32

-- "rust-fuse"
abbrev pub program_name : List ℕ
program_name = 114 ∷ 117 ∷ 115 ∷ 116 ∷ 45 ∷ 102 ∷ 117 ∷ 115 ∷ 101 ∷ []

-- `options.iter().map(|s| s.to_cstring().unwrap())`
unfoldable pub option_strings : List (List ℕ) → Outcome (List (List ℕ))
option_strings [] = done []
option_strings (o ∷ os) = elim (to_cstring o) [
  | none ↦ fault panic
  | some s ↦ elim (option_strings os) [ done ss ↦ done (s ∷ ss) | fault x ↦ fault x ]
]

-- What `with_fuse_args` calls its closure with.
unfoldable pub fuse_args_of : List (List ℕ) → Outcome FuseArgs
fuse_args_of options = elim (option_strings options) [
  | fault x ↦ fault x
  | done ss ↦ done (record {
    argc = length (program_name ∷ ss) % 2 ^ 32;
    argv = program_name ∷ ss;
    allocated = 0;
  })
]

module _ (libc : Libc) where
  open libc use {World}

  -- What a call does to the world, and what it returns: a result, or a fault.
  abbrev pub Io : Type 0 → Type 0
  Io A = World → World × Outcome (IoResult A)

  -- `CStr::from_ptr` on the buffer, which has to hold a zero byte.
  abbrev pub named : World → Option (List ℕ) → World × Outcome (IoResult (List ℕ))
  named w none = (w, fault out_of_bounds)
  named w (some s) = (w, done (ok s))

  abbrev pub resolved : World × Answer (List ℕ) → World × Outcome (IoResult (List ℕ))
  resolved (w, sets_errno e) = (w, done (err (os_errno e)))
  resolved (w, returns buffer) = named w (c_string buffer)

  -- `real_path`: the C string in the buffer that the call filled.
  unfoldable pub real_path : List ℕ → Io (List ℕ)
  real_path path w = resolved (libc.realpath path w)

  abbrev pub mounted : List ℕ → World × Answer ℕ → World × Outcome (IoResult Channel)
  mounted mnt (w, sets_errno e) = (w, done (err (os_errno e)))
  mounted mnt (w, returns fd) = (w, done (ok (record { mountpoint = mnt; fd = fd })))

  -- The closures of `Channel::new`: the options, and the call that mounts.
  unfoldable pub mount_at : List ℕ → Outcome FuseArgs → Io Channel
  mount_at mnt (fault x) w = (w, fault x)
  mount_at mnt (done args) w = mounted mnt (libc.fuse_mount mnt args.argv w)

  unfoldable pub mount_resolved :
      List (List ℕ) → World × Outcome (IoResult (List ℕ)) → World × Outcome (IoResult Channel)
  unfolding mount_at
  mount_resolved options (w, fault x) = (w, fault x)
  mount_resolved options (w, done (err e)) = (w, done (err e))
  mount_resolved options (w, done (ok mnt)) = mount_at mnt (fuse_args_of options) w

  -- `Channel::new`.
  unfoldable pub new : List ℕ → List (List ℕ) → Io Channel
  unfolding mount_resolved real_path
  new mountpoint options w = elim (to_cstring mountpoint) [
    | none ↦ (w, done (err invalid_input))
    | some mnt ↦ mount_resolved options (real_path mnt w)
  ]

  -- `libc_umount`, which has no helper on OS X, and the result of `unmount` on what it returns.
  abbrev pub unmounted : List ℕ → World × Answer (Unit {0}) → World × IoResult (Unit {0})
  unmounted mnt (w, returns _) = (w, ok tt)
  unmounted mnt (w, sets_errno e) =
      if not libc.os_x && libc.is_permission_denied e
      then (libc.fuse_unmount mnt w, ok tt)
      else (w, err (os_errno e))

  unfoldable pub unmount : List ℕ → World → World × IoResult (Unit {0})
  unmount mountpoint w = elim (to_cstring mountpoint) [
    | none ↦ (w, err invalid_input)
    | some mnt ↦ unmounted mnt (libc.umount mnt w)
  ]

  -- The destructor of a channel, which ignores the result of `unmount`.
  unfoldable pub drop_channel : Channel → World → World
  unfolding unmount
  drop_channel ch w = (unmount ch.mountpoint (libc.close ch.fd w)).0

  abbrev pub received : World × Answer (List ℕ) → World × IoResult (List ℕ)
  received (w, returns bytes) = (w, ok bytes)
  received (w, sets_errno e) = (w, err (os_errno e))

  -- `Channel::receive` into a buffer of a given capacity: the new bytes of the buffer.
  unfoldable pub receive : Channel → (capacity : ℕ) → World → World × IoResult (List ℕ)
  receive ch capacity w = received (libc.read ch.fd capacity w)

  abbrev pub written : Answer ℕ → IoResult (Unit {0})
  written (returns _) = ok tt
  written (sets_errno e) = err (os_errno e)

  -- `ChannelSender::send` as the call that it makes.
  unfoldable pub send_buffers : ChannelSender → List (List ℕ) → World → World × IoResult (Unit {0})
  send_buffers ch buffer w = let (w', a) = libc.writev ch.fd buffer w in (w', written a)
