-- ===== src/Prelude/Bytes.antt =====
-- The comparison of byte strings.
use Prim.Native.Nat.{ℕ}
use mathlib.Core.Path.{◌≡◌, refl}
use mathlib.Core.Logic.{inl, inr}
use mathlib.Core.Bool.{Bool, true, false, ◌&&◌}
use mathlib.Core.List.{List, [], ◌∷◌}
use native.Mathlib.Omega.{arith}
use rust_fuse.Prelude.Tests.{◌==◌, Bool-cases}

-- The comparison of two byte strings.
abbrev pub same_bytes : List ℕ → List ℕ → Bool
same_bytes [] [] = true
same_bytes [] (b ∷ bs) = false
same_bytes (a ∷ as') [] = false
same_bytes (a ∷ as') (b ∷ bs) = a == b && same_bytes as' bs

pub same_bytes_refl : (bs : List ℕ) → same_bytes bs bs ≡ true
same_bytes_refl [] = refl
same_bytes_refl (b ∷ bs) = rw (same_bytes_refl bs) (ground arith)

pub same_bytes-eq : (bs cs : List ℕ) → same_bytes bs cs ≡ true → bs ≡ cs
same_bytes-eq [] [] e = refl
same_bytes-eq [] (c ∷ cs) e = cc
same_bytes-eq (b ∷ bs) [] e = cc
same_bytes-eq (b ∷ bs) (c ∷ cs) e = elim (Bool-cases (b == c)) [
  | inl same ↦ ground (arith, same_bytes-eq bs cs)
  | inr other ↦ absurd (ground arith)
]
