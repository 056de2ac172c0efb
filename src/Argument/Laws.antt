-- ===== src/Argument/Laws.antt =====
-- What the iterator returns, and where it stands afterwards.
use rust_fuse.Prelude.{
  ℕ, ◌+◌, ◌≤◌, ◌<◌, ◌≡◌, ◌≢◌, refl, sym, ap, ◌∙◌, ◌⊎◌, List, [], ◌∷◌, ◌++◌, none, some, arith,
  length, take, drop, All, leb, length-append, length-drop, take-append_length, drop-append_length,
  drop-drop, Bool-cases, Option-cases, inl, inr, leb→le, le→leb, ◌↔◌,
}
use rust_fuse.Prelude.{◌==◌}
use rust_fuse.Wire.{Pod, PodLaws}
use rust_fuse.Argument.{
  ArgumentIterator, panic, out_of_bounds, done, fault, remaining, advance, fetch, c_string,
  fetch_str, fetch_data,
}

-- The position never passes the end of the data.
abbrev pub IsWithin : ArgumentIterator → Type 0
IsWithin it = it.pos ≤ length it.bytes

pub remaining-advance :
    (it : ArgumentIterator) (n : ℕ) → remaining (advance it n) ≡ drop n (remaining it)
remaining-advance it n = sym (drop-drop n it.pos it.bytes)

pub le-of_append :
    (it : ArgumentIterator) (xs ys : List ℕ)
    → IsWithin it
    → remaining it ≡ xs ++ ys
    → it.pos + length xs ≤ length it.bytes
le-of_append it xs ys w e =
    omega (arith, ap length e, length-drop it.pos it.bytes, length-append xs ys)

-- A fetch succeeds exactly when the value lies within the data, and then steps over it.
pub fetch_cases {ℓ} :
    {A : Type ℓ} (p : Pod A) (it : ArgumentIterator)
    → ((it.pos + p.size_of ≤ length it.bytes)
        × (fetch ⦃p = p⦄ it
            ≡ done (p.of_bytes (take p.size_of (remaining it)), advance it p.size_of)))
      ⊎ ((length it.bytes < it.pos + p.size_of) × (fetch ⦃p = p⦄ it ≡ fault panic))
unfolding fetch
fetch_cases p it = elim (Bool-cases (leb (it.pos + p.size_of) (length it.bytes))) [
  | inl e ↦ inl (leb→le _ _ e, rw e)
  | inr e ↦ inr (ground arith, rw e)
]

module _ {ℓ} {A : Type ℓ} (p : Pod A) {IsValid : A → Type 0} (laws : PodLaws p IsValid) where
  -- If what remains starts with the bytes of a value that fits, `fetch` returns that value, and
  -- what follows it remains.
  pub fetch-to_bytes :
      (it : ArgumentIterator) (a : A) (rest : List ℕ)
      → IsWithin it
      → IsValid a
      → remaining it ≡ p.to_bytes a ++ rest
      → (fetch ⦃p = p⦄ it ≡ done (a, advance it p.size_of))
        × (remaining (advance it p.size_of) ≡ rest)
  unfolding fetch
  fetch-to_bytes it a rest w v e =
      let front : take p.size_of (remaining it) ≡ p.to_bytes a =
        rw (e, ← laws.length_lem a) (take-append_length (p.to_bytes a) rest) in
      let back : drop p.size_of (remaining it) ≡ rest =
        rw (e, ← laws.length_lem a) (drop-append_length (p.to_bytes a) rest) in
      let fits : it.pos + p.size_of ≤ length it.bytes =
        rw (laws.length_lem a) at (le-of_append it (p.to_bytes a) rest w e) in
      (rw (le→leb _ _ fits, front, laws.of-to a v), remaining-advance it p.size_of ∙ back)

-- A name holds no zero byte.
abbrev pub IsName : List ℕ → Type 0
IsName = All (λ b. b ≢ 0)

pub c_string-append : (name rest : List ℕ) → IsName name → c_string (name ++ (0 ∷ rest)) ≡ some name
unfolding c_string
c_string-append [] rest h = refl
c_string-append (b ∷ name) rest h = ground (arith, c_string-append name rest h.1)

-- A string that is found ends at a zero, or goes on behind a byte.
pub c_string_cases :
    (b : ℕ) (bs name : List ℕ)
    → c_string (b ∷ bs) ≡ some name
    → ((b ≡ 0) × (name ≡ [])) ⊎ ((s : List ℕ) × (b ≢ 0) × (c_string bs ≡ some s) × (name ≡ b ∷ s))
unfolding c_string
c_string_cases b bs name e = elim (Option-cases (c_string bs)) [
  | inl n ↦ ground arith
  | inr (s, q) ↦ elim (Bool-cases (b == 0)) [
    | inl z ↦ inl (ground arith)
    | inr z ↦ inr (s, ground arith, q, ground arith)
  ]
]

pub c_string-IsName : (bs : List ℕ) {name : List ℕ} → c_string bs ≡ some name → IsName name
c_string-IsName [] e = unfold c_string in cc
c_string-IsName (b ∷ bs) {name} e = elim (c_string_cases b bs name e) [
  | inl (z, n) ↦ rw n tt
  | inr (s, z, q, n) ↦ rw n (z, c_string-IsName bs q)
]

pub length-c_string :
    (bs : List ℕ) {name : List ℕ} → c_string bs ≡ some name → length name < length bs
length-c_string [] e = unfold c_string in cc
length-c_string (b ∷ bs) {name} e = elim (c_string_cases b bs name e) [
  | inl (z, n) ↦ rw n (omega arith)
  | inr (s, z, q, n) ↦ omega (arith, ap length n, length-c_string bs q)
]

c_string-eq_none_step :
    (b : ℕ) (bs : List ℕ)
    → ((c_string bs ≡ none) ↔ IsName bs)
    → (c_string (b ∷ bs) ≡ none) ↔ IsName (b ∷ bs)
unfolding c_string
c_string-eq_none_step b bs (there, back) = elim (Option-cases (c_string bs)) [
  | inl n ↦ (λ e. (ground arith, there n), λ h. ground arith)
  | inr (s, q) ↦ (λ e. ground arith, λ h. ground (arith, back h.1))
]

-- There is no string exactly where no byte is zero.
pub c_string-eq_none : (bs : List ℕ) → (c_string bs ≡ none) ↔ IsName bs
c_string-eq_none [] = (λ _. tt, λ _. unfold c_string in refl)
c_string-eq_none (b ∷ bs) = c_string-eq_none_step b bs (c_string-eq_none bs)

drop-append_suc : (name rest : List ℕ) → drop (length name + 1) (name ++ (0 ∷ rest)) ≡ rest
drop-append_suc name rest =
    sym (drop-drop 1 (length name) (name ++ (0 ∷ rest)))
    ∙ ap (drop 1) (drop-append_length name (0 ∷ rest))

-- If what remains starts with a name that holds no zero byte and with a zero byte behind it,
-- `fetch_str` returns the name, and what follows the zero remains.
pub fetch_str-append :
    (it : ArgumentIterator) (name rest : List ℕ)
    → IsName name
    → remaining it ≡ name ++ (0 ∷ rest)
    → (fetch_str it ≡ done (name, advance it (length name + 1)))
      × (remaining (advance it (length name + 1)) ≡ rest)
fetch_str-append it name rest h e =
    let string : c_string (remaining it) ≡ some name = rw e (c_string-append name rest h) in
    (
      unfold fetch_str in rw (string, fetch_str),
      remaining-advance it (length name + 1) ∙ rw e (drop-append_suc name rest),
    )

-- `fetch_str` reads behind the data if no zero byte remains in it, and only then.
pub fetch_str_out_of_bounds :
    (it : ArgumentIterator) → (fetch_str it ≡ fault out_of_bounds) ↔ IsName (remaining it)
unfolding fetch_str
fetch_str_out_of_bounds it = elim (Option-cases (c_string (remaining it))) [
  | inl n ↦ (λ _. (c_string-eq_none (remaining it)).0 n, λ _. rw (n, fetch_str))
  | inr (s, q) ↦ (λ e. ground arith, λ h. ground (arith, (c_string-eq_none (remaining it)).1 h))
]

-- `fetch_data` hands out all that remains.
pub fetch_data_lem :
    (it : ArgumentIterator)
    → IsWithin it
    → fetch_data it ≡ done (remaining it, record it { pos = length it.bytes })
unfolding fetch_data
fetch_data_lem it w = rw (le→leb _ _ w)
