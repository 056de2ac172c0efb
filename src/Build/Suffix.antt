-- ===== src/Build/Suffix.antt =====
-- `str::ends_with`, of src/build.rs, and what it says of the bytes.
use rust_fuse.Prelude.{
  ℕ, ◌-◌, ◌≡◌, ◌≢◌, refl, sym, ap, ◌∙◌, arith, List, [], ◌∷◌, ◌++◌, Bool, true, false, ◌&&◌, length,
  take, drop, leb, le→leb, same_bytes, same_bytes-eq, same_bytes_refl, Bool-cases, inl, inr,
  length-append, drop-append_length, take-append_drop,
}

unfoldable pub ends_with : List ℕ → List ℕ → Bool
ends_with text suffix =
    leb (length suffix) (length text) && same_bytes (drop (length text - length suffix) text) suffix

pub ends_with-append : (p s : List ℕ) → ends_with (p ++ s) s ≡ true
unfolding ends_with
ends_with-append p s =
    let at : length (p ++ s) - length s ≡ length p = omega (arith, length-append p s) in
    rw (
      le→leb (length s) (length (p ++ s)) (omega (arith, length-append p s)),
      at,
      drop-append_length p s,
      same_bytes_refl s,
    )

pub ends_with-prefix : (text s : List ℕ) → ends_with text s ≡ true → (p : List ℕ) × (text ≡ p ++ s)
unfolding ends_with
ends_with-prefix text s e =
    let n : ℕ = length text - length s in
    elim (Bool-cases (same_bytes (drop n text) s)) [
      | inl same ↦ (
        take n text,
        sym (take-append_drop n text) ∙ ap (λ t. take n text ++ t) (same_bytes-eq _ _ same),
      )
      | inr other ↦ absurd (ground arith)
    ]

abbrev last : List ℕ → ℕ
last [] = 0
last (b ∷ []) = b
last (b ∷ c ∷ bs) = last (c ∷ bs)

last-append : (p s : List ℕ) → s ≢ [] → last (p ++ s) ≡ last s
last-append [] s h = refl
last-append (a ∷ []) [] h = absurd (h refl)
last-append (a ∷ []) (b ∷ s) h = refl
last-append (a ∷ c ∷ p) s h = last-append (c ∷ p) s h

-- A text that ends with one suffix does not end with another whose last byte differs.
pub ends_with-append_other :
    (p s t : List ℕ) → s ≢ [] → t ≢ [] → last s ≢ last t → ends_with (p ++ s) t ≡ false
ends_with-append_other p s t hs ht ne = elim (Bool-cases (ends_with (p ++ s) t)) [
  | inr e ↦ e
  | inl e ↦
      let (q, eq) = ends_with-prefix (p ++ s) t e in
      absurd (ne (sym (last-append p s hs) ∙ ap last eq ∙ last-append q t ht))
]
