-- ===== src/Argument.antt =====
-- src/argument.rs: the iterator that takes typed arguments off a byte slice.
pub mod Laws
pub mod Exact
use mathlib.Core.Option
use rust_fuse.Prelude.{
  ℕ, ◌+◌, List, [], ◌∷◌, Option, none, some, length, take, drop, ◌==◌, leb, if◌then◌else◌,
}
use rust_fuse.Wire.{Pod}

-- A failed `assert!` or another panic, and a read behind the slice. The latter is undefined behaviour: there
-- is no assertion, and the program may go on with whatever it reads. The model stops at that point, and
-- no theorem says what follows it.
pub data Fault : Type 0 where
  panic out_of_bounds : Fault

pub data Outcome {ℓ} (A : Type ℓ) : Type ℓ where
  done : A → Outcome A
  fault : Fault → Outcome A

pub record ArgumentIterator : Type 0 where
  pub bytes : List ℕ  -- the field `data`
  pub pos : ℕ

-- A method that may move the iterator.
abbrev pub Fetch {ℓ} : Type ℓ → Type ℓ
Fetch A = ArgumentIterator → Outcome (A × ArgumentIterator)

infixl 5 ◌>>=◌
abbrev pub ◌>>=◌ {ℓ κ} : {A : Type ℓ} {B : Type κ} → Fetch A → (A → Fetch B) → Fetch B
◌>>=◌ m f it = elim (m it) [ done (a, it') ↦ f a it' | fault x ↦ fault x ]

abbrev pub pure {ℓ} : {A : Type ℓ} → A → Fetch A
pure a it = done (a, it)

abbrev pub new : List ℕ → ArgumentIterator
new bytes = record { bytes = bytes; pos = 0 }

abbrev pub remaining : ArgumentIterator → List ℕ
remaining it = drop it.pos it.bytes

abbrev pub advance : ArgumentIterator → ℕ → ArgumentIterator
advance it n = record it { pos = it.pos + n }

-- The reference is made before the assertion, and read after it.
unfoldable pub fetch {ℓ} : {A : Type ℓ} ⦃p : Pod A⦄ → Fetch A
fetch ⦃p⦄ it =
    let value = p.of_bytes (take p.size_of (remaining it)) in
    let it' = advance it p.size_of in
    if leb it'.pos (length it'.bytes) then done (value, it') else fault panic

-- `CStr::from_ptr(ptr).to_bytes()`: the bytes before the first zero. Without a zero in the slice
-- it goes on behind the slice, which is `none` here.
unfoldable pub c_string : List ℕ → Option (List ℕ)
c_string [] = none
c_string (b ∷ bs) = if b == 0 then some [] else Option.map (λ s. b ∷ s) (c_string bs)

unfoldable pub fetch_str : Fetch (List ℕ)
fetch_str it = elim (c_string (remaining it)) [
  | none ↦ fault out_of_bounds
  | some s ↦ done (s, advance it (length s + 1))
]

-- A path is the bytes of its name.
abbrev pub fetch_path : Fetch (List ℕ)
fetch_path = fetch_str

-- `&self.data[self.pos..]` panics behind the end.
unfoldable pub fetch_data : Fetch (List ℕ)
fetch_data it =
    if leb it.pos (length it.bytes)
    then done (remaining it, record it { pos = length it.bytes })
    else fault panic
