-- ===== src/Wire/Numbers.antt =====
-- Little-endian numbers of a given width.
use native.Mathlib.Nat.{pow-suc}
use rust_fuse.Prelude.{
  ℕ, zero, suc, ◌+◌, ◌*◌, ◌/◌, ◌%◌, ◌^◌, ◌<◌, ◌≡◌, refl, ap, List, [], ◌∷◌, length, take, All,
  arith,
}

unfoldable pub le : ℕ → ℕ → List ℕ
le zero v = []
le (suc width) v = v % 256 ∷ le width (v / 256)

unfoldable pub from_le : List ℕ → ℕ
from_le [] = 0
from_le (b ∷ bs) = b + 256 * from_le bs

pub length-le : (width v : ℕ) → length (le width v) ≡ width
unfolding le
length-le zero v = refl
length-le (suc width) v = ap suc (length-le width (v / 256))

pub le-bytes : (width v : ℕ) → All (λ b. b < 256) (le width v)
unfolding le
le-bytes zero v = tt
le-bytes (suc width) v = (omega arith, le-bytes width (v / 256))

pub from_le-le : (width v : ℕ) → v < 256 ^ width → from_le (le width v) ≡ v
unfolding le from_le
from_le-le zero v h = omega arith
from_le-le (suc width) v h =
    omega (arith, pow-suc 256 width, from_le-le width (v / 256) (omega (arith, pow-suc 256 width)))

pub from_le-lt : (bs : List ℕ) → All (λ b. b < 256) bs → from_le bs < 256 ^ length bs
unfolding from_le
from_le-lt [] h = omega arith
from_le-lt (b ∷ bs) h = omega (arith, pow-suc 256 (length bs), from_le-lt bs h.1)

pub le-from_le : (bs : List ℕ) → All (λ b. b < 256) bs → le (length bs) (from_le bs) ≡ bs
unfolding le from_le
le-from_le [] h = refl
le-from_le (b ∷ bs) h = ground (arith, le-from_le bs h.1)

pub from_le-take : (k : ℕ) (bs : List ℕ) → All (λ b. b < 256) bs → from_le (take k bs) < 256 ^ k
unfolding from_le
from_le-take zero bs h = omega arith
from_le-take (suc k) [] h = omega (arith, pow-suc 256 k, from_le-take k [] tt)
from_le-take (suc k) (b ∷ bs) h = omega (arith, pow-suc 256 k, from_le-take k bs h.1)
