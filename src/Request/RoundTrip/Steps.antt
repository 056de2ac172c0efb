-- ===== src/Request/RoundTrip/Steps.antt =====
-- One fetch after another, on a request that was written as structures, names and data: what is
-- fetched, what remains, and that the iterator stays within the data.
use rust_fuse.Prelude.{
  ℕ, ◌+◌, ◌≡◌, arith, List, ◌∷◌, ◌++◌, length, ap, ◌∙◌, length-drop, length-append,
}
use rust_fuse.Wire.{Pod, PodLaws}
use rust_fuse.Argument.{ArgumentIterator, done, fetch, fetch_str, fetch_data, remaining, advance}
use rust_fuse.Argument.Laws.{
  IsWithin, IsName, fetch-to_bytes, fetch_str-append, fetch_data_lem, le-of_append,
}

pub arg_step {ℓ} :
    {A : Type ℓ} (p : Pod A) {IsValid : A → Type 0} (laws : PodLaws p IsValid)
    (it : ArgumentIterator) (a : A) (rest : List ℕ)
    → IsWithin it
    → IsValid a
    → remaining it ≡ p.to_bytes a ++ rest
    → (fetch ⦃p = p⦄ it ≡ done (a, advance it p.size_of))
      × (remaining (advance it p.size_of) ≡ rest)
      × IsWithin (advance it p.size_of)
arg_step p laws it a rest w v e =
    let (value, after) = fetch-to_bytes p laws it a rest w v e in
    (value, after, rw (laws.length_lem a) at (le-of_append it (p.to_bytes a) rest w e))

pub name_step :
    (it : ArgumentIterator) (name rest : List ℕ)
    → IsWithin it
    → IsName name
    → remaining it ≡ name ++ (0 ∷ rest)
    → (fetch_str it ≡ done (name, advance it (length name + 1)))
      × (remaining (advance it (length name + 1)) ≡ rest)
      × IsWithin (advance it (length name + 1))
name_step it name rest w v e =
    let (value, after) = fetch_str-append it name rest v e in
    (
      value,
      after,
      omega (arith, ap length e, length-drop it.pos it.bytes, length-append name (0 ∷ rest)),
    )

pub data_step :
    (it : ArgumentIterator) (bytes : List ℕ)
    → IsWithin it
    → remaining it ≡ bytes
    → fetch_data it ≡ done (bytes, record it { pos = length it.bytes })
data_step it bytes w e =
    fetch_data_lem it w ∙ ap (λ b. done (b, record it { pos = length it.bytes })) e
