-- ===== src/Build/Library.antt =====
-- What the build script does on each target, said by the target's form.
use rust_fuse.Prelude.{
  ℕ, ◌≡◌, refl, sym, ap, ◌∙◌, ◌↔◌, arith, List, ◌++◌, true, false, Option, none, some, Bool-cases,
  inl, inr,
}
use rust_fuse.Argument.{Outcome, fault, panic}
use rust_fuse.Build.{
  PkgConfig, apple_darwin, unknown_linux_gnu, unknown_freebsd, osxfuse, fuse, require, main,
}
use rust_fuse.Build.Suffix.{ends_with, ends_with-append, ends_with-prefix, ends_with-append_other}

-- A target is a machine and a system.
abbrev pub Ends : List ℕ → List ℕ → Type 0
Ends target system = (machine : List ℕ) × (target ≡ machine ++ system)

not-Ends : (target system : List ℕ) → ends_with target system ≡ false → ¬ Ends target system
not-Ends target system e (machine, eq) =
    let clash : false ≡ true =
      sym e ∙ ap (λ t. ends_with t system) eq ∙ ends_with-append machine system in
    cc

module _ (pkg_config : PkgConfig) where
  open pkg_config use {World}

  -- The library that the script asks for, or that it panics and asks for none.
  pub data Asks (w : World) : Option (List ℕ) → World × Outcome (Unit {0}) → Type 0 where
    on_osx :
        (machine : List ℕ) → Asks w (some (machine ++ apple_darwin)) (require pkg_config osxfuse w)
    on_linux :
        (machine : List ℕ)
        → Asks w (some (machine ++ unknown_linux_gnu)) (require pkg_config fuse w)
    on_freebsd :
        (machine : List ℕ) → Asks w (some (machine ++ unknown_freebsd)) (require pkg_config fuse w)
    no_target : Asks w none (w, fault panic)
    unsupported :
        (target : List ℕ)
        → ¬ Ends target apple_darwin
        → ¬ Ends target unknown_linux_gnu
        → ¬ Ends target unknown_freebsd
        → Asks w (some target) (w, fault panic)

  main-Asks : (target : Option (List ℕ)) (w : World) → Asks w target (main pkg_config target w)
  unfolding main
  main-Asks none w = no_target
  main-Asks (some target) w = elim (Bool-cases (ends_with target apple_darwin)) [
    | inl osx ↦
        let (machine, eq) = ends_with-prefix target apple_darwin osx in
        rw (osx, eq) (on_osx machine)
    | inr n1 ↦ elim (Bool-cases (ends_with target unknown_linux_gnu)) [
      | inl linux ↦
          let (machine, eq) = ends_with-prefix target unknown_linux_gnu linux in
          rw (n1, linux, eq) (on_linux machine)
      | inr n2 ↦ elim (Bool-cases (ends_with target unknown_freebsd)) [
        | inl freebsd ↦
            let (machine, eq) = ends_with-prefix target unknown_freebsd freebsd in
            rw (n1, n2, freebsd, eq) (on_freebsd machine)
        | inr n3 ↦
            rw (n1, n2, n3)
              (unsupported target (not-Ends target apple_darwin n1)
                (not-Ends target unknown_linux_gnu n2) (not-Ends target unknown_freebsd n3))
      ]
    ]
  ]

  Ends-not : (target system : List ℕ) → ¬ Ends target system → ends_with target system ≡ false
  Ends-not target system n = elim (Bool-cases (ends_with target system)) [
    | inl e ↦ absurd (n (ends_with-prefix target system e))
    | inr e ↦ e
  ]

  Asks-main :
      {target : Option (List ℕ)} (w : World) {r : World × Outcome (Unit {0})}
      → Asks w target r
      → main pkg_config target w ≡ r
  unfolding main
  Asks-main w (on_osx machine) = rw (ends_with-append machine apple_darwin)
  Asks-main w (on_linux machine) = rw (
    ends_with-append_other machine unknown_linux_gnu apple_darwin (λ h. ground arith)
        (λ h. ground arith) (λ h. ground arith),
    ends_with-append machine unknown_linux_gnu,
  )
  Asks-main w (on_freebsd machine) = rw (
    ends_with-append_other machine unknown_freebsd apple_darwin (λ h. ground arith)
        (λ h. ground arith) (λ h. ground arith),
    ends_with-append_other machine unknown_freebsd unknown_linux_gnu (λ h. ground arith)
        (λ h. ground arith) (λ h. ground arith),
    ends_with-append machine unknown_freebsd,
  )
  Asks-main w no_target = refl
  Asks-main w (unsupported target n1 n2 n3) = rw (
    Ends-not target apple_darwin n1,
    Ends-not target unknown_linux_gnu n2,
    Ends-not target unknown_freebsd n3,
  )

  -- Whether the library is found or not, the build script asks for `osxfuse` exactly for a target
  -- that ends with the name of OS X, for `fuse` exactly for one that ends with that of Linux or of
  -- FreeBSD, and panics without asking for any if there is no target and for every other target.
  pub main_iff :
      (target : Option (List ℕ)) (w : World) (r : World × Outcome (Unit {0}))
      → (main pkg_config target w ≡ r) ↔ Asks w target r
  main_iff target w r = (λ e. rw (← e) (main-Asks target w), Asks-main w)
