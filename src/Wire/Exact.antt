-- ===== src/Wire/Exact.antt =====
-- Structures without padding that is not named: the bytes that are read as a value, and the bytes of
-- that value.
use rust_fuse.Prelude.{
  All-append, ℕ, ◌+◌, ◌^◌, ◌≤◌, ◌<◌, ◌≡◌, sym, ap, ◌∙◌, arith, List, [], ◌∷◌, ◌++◌, length, take,
  drop, All, All-take, All-drop, drop-length, length-take, length-drop, drop-drop, take-append_drop,
}
use rust_fuse.Wire.{Pod, IsByte, field_at, fields}
use rust_fuse.Wire.Numbers.{le-bytes, le, from_le, from_le-take, le-from_le}

abbrev pub sum : List ℕ → ℕ
sum [] = 0
sum (n ∷ ns) = n + sum ns

-- The fields of these widths that stand in the bytes, the first at an offset.
unfoldable pub cut : ℕ → List ℕ → List ℕ → List (ℕ × ℕ)
unfolding from_le
cut offset [] bytes = []
cut offset (width ∷ widths) bytes =
    (width, field_at width offset bytes) ∷ cut (offset + width) widths bytes

le-field_at :
    (width offset : ℕ) (bytes : List ℕ)
    → All IsByte bytes
    → offset + width ≤ length bytes
    → le width (field_at width offset bytes) ≡ take width (drop offset bytes)
unfolding field_at from_le
le-field_at width offset bytes h l =
    let part : List ℕ = take width (drop offset bytes) in
    let whole : length part ≡ width =
      omega (arith, length-take width (drop offset bytes), length-drop offset bytes) in
    ap (λ n. le n (from_le part)) (sym whole)
    ∙ le-from_le part (All-take IsByte width _ (All-drop IsByte offset bytes h))

pub field_at-lt :
    (width offset : ℕ) (bytes : List ℕ)
    → All IsByte bytes
    → field_at width offset bytes < 256 ^ width
unfolding field_at from_le
field_at-lt width offset bytes h =
    from_le-take width (drop offset bytes) (All-drop IsByte offset bytes h)

pub fields-cut :
    (offset : ℕ) (widths bytes : List ℕ)
    → All IsByte bytes
    → length bytes ≡ offset + sum widths
    → fields (cut offset widths bytes) ≡ drop offset bytes
unfolding fields cut
fields-cut offset [] bytes h l =
    let all : offset ≡ length bytes = omega arith in
    sym (ap (λ n. drop n bytes) all ∙ drop-length bytes)
fields-cut offset (width ∷ widths) bytes h l =
    ap (λ front. front ++ fields (cut (offset + width) widths bytes))
      (le-field_at width offset bytes h (omega arith))
    ∙ ap (λ back. take width (drop offset bytes) ++ back)
        (fields-cut (offset + width) widths bytes h (omega arith)
          ∙ sym (drop-drop width offset bytes))
    ∙ take-append_drop width (drop offset bytes)

pub fields-IsByte : (fs : List (ℕ × ℕ)) → All IsByte (fields fs)
unfolding fields
fields-IsByte [] = tt
fields-IsByte ((width, v) ∷ fs) =
    All-append IsByte (le width v) (fields fs) (le-bytes width v) (fields-IsByte fs)

-- What the bytes of such a type say.
pub record PodExact {ℓ} {A : Type ℓ} (pod : Pod A) (IsValid : A → Type 0) : Type ℓ where
  pub of_bytes-IsValid :
      (bytes : List ℕ)
      → All IsByte bytes
      → length bytes ≡ pod.size_of
      → IsValid (pod.of_bytes bytes)
  pub to-of :
      (bytes : List ℕ)
      → All IsByte bytes
      → length bytes ≡ pod.size_of
      → pod.to_bytes (pod.of_bytes bytes) ≡ bytes
  pub to_bytes-IsByte : (a : A) → All IsByte (pod.to_bytes a)
  pub IsValid_prop : (a : A) → IsProp (IsValid a)
