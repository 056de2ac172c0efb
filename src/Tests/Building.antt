-- ===== src/Tests/Building.antt =====
-- The build script on a system that has all libraries and logs what it is asked for.
use rust_fuse.Prelude.{ℕ, ◌≡◌, refl, ◌↔◌, List, [], ◌∷◌, ◌++◌, true, some}
use rust_fuse.Argument.{done}
use rust_fuse.Build.{PkgConfig, main, fuse, unknown_linux_gnu}
use rust_fuse.Build.Library.{Asks, main_iff}
use rust_fuse.Build.Suffix.{ends_with}

abbrev pkg_config : PkgConfig
pkg_config = record {
  World = List (List ℕ);
  find_library = λ name asked. (asked ++ (name ∷ []), true);
}

-- "x86_64-unknown-linux-gnu"
abbrev linux_target : List ℕ
linux_target = (120 ∷ 56 ∷ 54 ∷ 95 ∷ 54 ∷ 52 ∷ []) ++ unknown_linux_gnu

build_on_linux : main pkg_config (some linux_target) [] ≡ (fuse ∷ [], done tt)
unfolding main ends_with
build_on_linux = refl

main_iff_example :
    (main pkg_config (some linux_target) [] ≡ (fuse ∷ [], done tt))
    ↔ Asks pkg_config [] (some linux_target) (fuse ∷ [], done tt)
main_iff_example = main_iff pkg_config (some linux_target) [] (fuse ∷ [], done tt)
