-- ===== src/Wire.antt =====
-- Plain data as bytes: what `mem::transmute` in src/argument.rs and `as_bytes` in src/reply.rs do
-- with a `#[repr(C)]` structure, on a little-endian machine. A byte is a number below 256. An i32
-- or i64 stands as the number of its bit pattern.
pub mod Numbers
pub mod Exact
use Numbers.{le, from_le}
use rust_fuse.Prelude.{ℕ, ◌+◌, ◌<◌, ◌^◌, ◌≡◌, List, [], ◌∷◌, ◌++◌, length, take, drop}

abbrev pub IsByte : ℕ → Type 0
IsByte b = b < 256

abbrev pub IsU32 : ℕ → Type 0
IsU32 v = v < 2 ^ 32

abbrev pub IsU64 : ℕ → Type 0
IsU64 v = v < 2 ^ 64

-- The field of `width` bytes that stands `offset` bytes into a structure.
abbrev pub field_at : ℕ → ℕ → List ℕ → ℕ
unfolding from_le
field_at width offset bytes = from_le (take width (drop offset bytes))

abbrev pub u32_at : ℕ → List ℕ → ℕ
u32_at = field_at 4

abbrev pub u64_at : ℕ → List ℕ → ℕ
u64_at = field_at 8

-- A structure is its fields, each with its width, one after the other: none of the structures of
-- the protocol has padding that it does not name.
unfoldable pub fields : List (ℕ × ℕ) → List ℕ
unfolding le
fields [] = []
fields ((width, v) ∷ fs) = le width v ++ fields fs

-- A type that is copied to and from memory, with `mem::size_of`.
pub record Pod {ℓ} (A : Type ℓ) : Type ℓ where
  pub size_of : ℕ
  pub to_bytes : A → List ℕ
  pub of_bytes : List ℕ → A

-- What a client of such a type relies on.
pub record PodLaws {ℓ} {A : Type ℓ} (pod : Pod A) (IsValid : A → Type 0) : Type ℓ where
  pub length_lem : (a : A) → length (pod.to_bytes a) ≡ pod.size_of
  pub of-to : (a : A) → IsValid a → pod.of_bytes (pod.to_bytes a) ≡ a
