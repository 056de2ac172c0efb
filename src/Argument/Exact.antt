-- ===== src/Argument/Exact.antt =====
-- What the iterator takes off the data, and the bytes that it takes.
use rust_fuse.Prelude.{
  suc, [], ◌∷◌, refl, ◌+◌, some, drop, ℕ, ◌≡◌, sym, arith, List, ◌++◌, length, take, All, All-take,
  All-drop, length-take, length-drop, take-append_drop, inl, inr, Option-cases, ◌↔◌, ap,
}
use rust_fuse.Wire.{Pod, IsByte, PodLaws}
use rust_fuse.Wire.Exact.{PodExact}
use rust_fuse.Argument.{ArgumentIterator, done, remaining, advance, fetch, c_string, fetch_str}
use rust_fuse.Argument.Laws.{
  remaining-advance, fetch_cases, IsName, IsWithin, fetch-to_bytes, fetch_str-append,
  c_string-IsName, c_string_cases,
}

module _ {ℓ} {A : Type ℓ} (p : Pod A) {IsValid : A → Type 0} where
  fetch-taken :
      (exact : PodExact p IsValid) (it : ArgumentIterator) {a : A} {it' : ArgumentIterator}
      → All IsByte it.bytes
      → fetch ⦃p = p⦄ it ≡ done (a, it')
      → IsValid a × (it' ≡ advance it p.size_of) × (remaining it ≡ p.to_bytes a ++ remaining it')
  fetch-taken exact it {a} {it'} h e = elim (fetch_cases p it) [
    | inr (_, f) ↦ cc
    | inl (l, f) ↦
        let part : List ℕ = take p.size_of (remaining it) in
        let part_h : All IsByte part =
          All-take IsByte p.size_of _ (All-drop IsByte it.pos it.bytes h) in
        let part_l : length part ≡ p.size_of =
          omega (arith, length-take p.size_of (remaining it), length-drop it.pos it.bytes) in
        let same_a : p.of_bytes part ≡ a = ground arith in
        let same_it : advance it p.size_of ≡ it' = ground arith in
        (
          rw (← same_a) (exact.of_bytes-IsValid part part_h part_l),
          sym same_it,
          rw (← same_a, ← same_it)
              (sym (
                rw (exact.to-of part part_h part_l, remaining-advance it p.size_of)
                  (take-append_drop p.size_of (remaining it)))),
        )
  ]

  -- For every structure whose bytes are exactly its fields, and over data of bytes that is not
  -- passed yet, `fetch` returns a value and a moved iterator exactly if the values of its fields
  -- fit, the iterator has moved by its size, and what remained is the bytes of the value with what
  -- still remains behind them.
  pub fetch_iff :
      (laws : PodLaws p IsValid) (exact : PodExact p IsValid) (it it' : ArgumentIterator) (a : A)
      → IsWithin it
      → All IsByte it.bytes
      → (fetch ⦃p = p⦄ it ≡ done (a, it')) ↔ (
          IsValid a × (it' ≡ advance it p.size_of) × (remaining it ≡ p.to_bytes a ++ remaining it'))
  fetch_iff laws exact it it' a w h = (
    fetch-taken exact it h,
    λ (v, moved, bytes). rw moved (fetch-to_bytes p laws it a (remaining it') w v bytes).0,
  )

c_string-split :
    (bs : List ℕ) {name : List ℕ}
    → c_string bs ≡ some name
    → bs ≡ name ++ (0 ∷ drop (length name + 1) bs)
c_string-split [] e = unfold c_string in cc
c_string-split (b ∷ bs) {name} e = elim (c_string_cases b bs name e) [
  | inl (z, n) ↦ rw (n, z) refl
  | inr (s, z, q, n) ↦
      let shift : suc (length s) + 1 ≡ suc (length s + 1) = omega arith in
      rw (n, shift) (ap (λ t. b ∷ t) (c_string-split bs q))
]

-- What `fetch_str` takes: a name, and a zero byte behind it.
abbrev pub TakesName : ArgumentIterator → List ℕ → ArgumentIterator → Type 0
TakesName it name it' =
    IsName name
    × (it' ≡ advance it (length name + 1))
    × (remaining it ≡ name ++ (0 ∷ remaining it'))

fetch_str-TakesName :
    (it : ArgumentIterator) {it' : ArgumentIterator} {name : List ℕ}
    → fetch_str it ≡ done (name, it')
    → TakesName it name it'
unfolding fetch_str
fetch_str-TakesName it {it'} {name} e = elim (Option-cases (c_string (remaining it))) [
  | inl n ↦ absurd (ground arith)
  | inr (s, q) ↦
      let same : s ≡ name = ground arith in
      let moved : advance it (length s + 1) ≡ it' = ground arith in
      rw (← same, ← moved)
        (
          c_string-IsName (remaining it) q,
          refl,
          rw (remaining-advance it (length s + 1)) (c_string-split (remaining it) q),
        )
]

-- `fetch_str` returns a name and a moved iterator exactly if the name holds no zero byte, the
-- iterator has moved by the length of the name and one more, and what remained is the name, a zero
-- byte and what still remains.
pub fetch_str_iff :
    (it it' : ArgumentIterator) (name : List ℕ)
    → (fetch_str it ≡ done (name, it')) ↔ TakesName it name it'
fetch_str_iff it it' name =
    (fetch_str-TakesName it, λ t. rw t.1 (fetch_str-append it name (remaining it') t.0 t.2).0)
