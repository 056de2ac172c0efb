-- ===== src/Platform.antt =====
-- What the program takes from libc, from the crate `time` and from the allocator, which are not part
-- of it: the numbers of the errors and of the file types, times, and the capacity that a vector gets
-- when it grows.
use rust_fuse.Prelude.{
  Bool, true, false, ℕ, ◌≤◌, ◌<◌, ◌^◌, ◌≡◌, ◌≢◌, refl, arith, ltb, if◌then◌else◌,
}
use rust_fuse.Argument.{Outcome, done, fault, panic}

-- The crate `time`: seconds (i64) and nanoseconds (i32).
pub record Timespec : Type 0 where
  pub sec : ℕ
  pub nsec : ℕ

pub record Platform : Type 0 where
  -- What `cfg(target_os = "macos")` says.
  pub os_x : Bool
  pub eio : ℕ
  pub enosys : ℕ
  pub eproto : ℕ
  pub enoent : ℕ
  pub eintr : ℕ
  pub eagain : ℕ
  pub enodev : ℕ
  pub s_ififo : ℕ
  pub s_ifchr : ℕ
  pub s_ifblk : ℕ
  pub s_ifdir : ℕ
  pub s_ifreg : ℕ
  pub s_iflnk : ℕ
  -- `Timespec::new`, which may panic.
  pub timespec_new : ℕ → ℕ → Outcome Timespec
  -- The new capacity of a vector that has the first and needs the second.
  pub grow : ℕ → ℕ → ℕ

abbrev pub nsec_per_sec : ℕ
nsec_per_sec = 1000000000

-- Documented behaviour: an error number is a positive c_int, and different errors have different
-- numbers; a time has less than a second of nanoseconds, which `Timespec::new` asserts; and a vector
-- that reserves room has it.
pub record IsPosix (p : Platform) : Type 0 where
  pub eio_pos : 0 < p.eio
  pub eio_c_int : p.eio < 2 ^ 31
  pub enosys_pos : 0 < p.enosys
  pub enosys_c_int : p.enosys < 2 ^ 31
  pub eproto_pos : 0 < p.eproto
  pub eproto_c_int : p.eproto < 2 ^ 31
  pub enodev-ne-enoent : p.enodev ≢ p.enoent
  pub enodev-ne-eintr : p.enodev ≢ p.eintr
  pub enodev-ne-eagain : p.enodev ≢ p.eagain
  pub timespec_new_lem :
      (sec nsec : ℕ)
      → nsec < nsec_per_sec
      → p.timespec_new sec nsec ≡ done (record { sec = sec; nsec = nsec })
  pub timespec_new_panics :
      (sec nsec : ℕ) → nsec_per_sec ≤ nsec → p.timespec_new sec nsec ≡ fault panic
  pub grows : (have need : ℕ) → need ≤ p.grow have need

-- Documented behaviour: the numbers that POSIX systems give to the types of files in a mode.
pub record HasFileTypes (p : Platform) : Type 0 where
  pub ififo : p.s_ififo ≡ 0x1000
  pub ifchr : p.s_ifchr ≡ 0x2000
  pub ifdir : p.s_ifdir ≡ 0x4000
  pub ifblk : p.s_ifblk ≡ 0x6000
  pub ifreg : p.s_ifreg ≡ 0x8000
  pub iflnk : p.s_iflnk ≡ 0xa000

-- The numbers of Linux, and a vector that grows to what is needed.
abbrev pub linux : Platform
linux = record {
  os_x = false;
  eio = 5;
  enosys = 38;
  eproto = 71;
  enoent = 2;
  eintr = 4;
  eagain = 11;
  enodev = 19;
  s_ififo = 0x1000;
  s_ifchr = 0x2000;
  s_ifblk = 0x6000;
  s_ifdir = 0x4000;
  s_ifreg = 0x8000;
  s_iflnk = 0xa000;
  timespec_new = λ sec nsec.
      if ltb nsec nsec_per_sec then done (record { sec = sec; nsec = nsec }) else fault panic;
  grow = λ have need. need;
}

-- The numbers of OS X.
abbrev pub darwin : Platform
darwin = record linux { os_x = true; enosys = 78; eproto = 100; eagain = 35 }

pub linux-HasFileTypes : HasFileTypes linux
linux-HasFileTypes = record {
  ififo = refl;
  ifchr = refl;
  ifdir = refl;
  ifblk = refl;
  ifreg = refl;
  iflnk = refl;
}

pub linux-IsPosix : IsPosix linux
linux-IsPosix = record {
  eio_pos = omega arith;
  eio_c_int = omega arith;
  enosys_pos = omega arith;
  enosys_c_int = omega arith;
  eproto_pos = omega arith;
  eproto_c_int = omega arith;
  enodev-ne-enoent = λ h. ground arith;
  enodev-ne-eintr = λ h. ground arith;
  enodev-ne-eagain = λ h. ground arith;
  timespec_new_lem = λ sec nsec h. ground arith;
  timespec_new_panics = λ sec nsec h. ground arith;
  grows = λ have need. omega arith;
}

pub darwin-IsPosix : IsPosix darwin
darwin-IsPosix = record {
  eio_pos = omega arith;
  eio_c_int = omega arith;
  enosys_pos = omega arith;
  enosys_c_int = omega arith;
  eproto_pos = omega arith;
  eproto_c_int = omega arith;
  enodev-ne-enoent = λ h. ground arith;
  enodev-ne-eintr = λ h. ground arith;
  enodev-ne-eagain = λ h. ground arith;
  timespec_new_lem = λ sec nsec h. ground arith;
  timespec_new_panics = λ sec nsec h. ground arith;
  grows = λ have need. omega arith;
}
