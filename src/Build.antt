-- ===== src/Build.antt =====
-- src/build.rs: the C library that the build script asks the system for. The target that the build
-- is for and the crate pkg_config are parameters.
pub mod Suffix
pub mod Library
use rust_fuse.Prelude.{ℕ, List, [], ◌∷◌, Bool, true, false, ◌||◌, Option, none, some, if◌then◌else◌}
use rust_fuse.Argument.{Fault, panic, Outcome, done, fault}
use rust_fuse.Build.Suffix.{ends_with}

pub record PkgConfig : Type 1 where
  pub World : Type 0
  -- `find_library`, and whether it found the library.
  pub find_library : List ℕ → World → World × Bool

-- "-apple-darwin"
abbrev pub apple_darwin : List ℕ
apple_darwin = 45 ∷ 97 ∷ 112 ∷ 112 ∷ 108 ∷ 101 ∷ 45 ∷ 100 ∷ 97 ∷ 114 ∷ 119 ∷ 105 ∷ 110 ∷ []

-- "-unknown-linux-gnu"
abbrev pub unknown_linux_gnu : List ℕ
unknown_linux_gnu =
    45 ∷ 117 ∷ 110 ∷ 107 ∷ 110 ∷ 111 ∷ 119 ∷ 110 ∷ 45 ∷ 108 ∷ 105 ∷ 110 ∷ 117 ∷ 120 ∷ 45 ∷ 103 ∷ 110
    ∷ 117 ∷ []

-- "-unknown-freebsd"
abbrev pub unknown_freebsd : List ℕ
unknown_freebsd =
    45 ∷ 117 ∷ 110 ∷ 107 ∷ 110 ∷ 111 ∷ 119 ∷ 110 ∷ 45 ∷ 102 ∷ 114 ∷ 101 ∷ 101 ∷ 98 ∷ 115 ∷ 100 ∷ []

-- "osxfuse"
abbrev pub osxfuse : List ℕ
osxfuse = 111 ∷ 115 ∷ 120 ∷ 102 ∷ 117 ∷ 115 ∷ 101 ∷ []

-- "fuse"
abbrev pub fuse : List ℕ
fuse = 102 ∷ 117 ∷ 115 ∷ 101 ∷ []

module _ (pkg_config : PkgConfig) where
  open pkg_config use {World, find_library}

  -- `find_library(name).unwrap()`
  abbrev pub unwrapped : World × Bool → World × Outcome (Unit {0})
  unwrapped (w, true) = (w, done tt)
  unwrapped (w, false) = (w, fault panic)

  abbrev pub require : List ℕ → World → World × Outcome (Unit {0})
  require name w = unwrapped (find_library name w)

  -- `main`, with the value of the variable `TARGET`, if it has one that is Unicode.
  unfoldable pub main : Option (List ℕ) → World → World × Outcome (Unit {0})
  unfolding ends_with
  main none w = (w, fault panic)
  main (some target) w =
      if ends_with target apple_darwin
      then require osxfuse w
      else if ends_with target unknown_linux_gnu || ends_with target unknown_freebsd
      then require fuse w
      else (w, fault panic)
