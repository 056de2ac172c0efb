-- ===== src/Abi/Exact/Control.antt =====
-- The structures of Control.antt, and the bytes that they are read from.
use rust_fuse.Prelude.{[], ◌∷◌, All-drop, length-drop, drop-drop, drop, arith}
use rust_fuse.Wire.{fields, IsByte}
use rust_fuse.Wire.Exact.{fields-IsByte, PodExact, cut, fields-cut, field_at-lt}
use native.Mathlib.Bridge.{le_prop}
use rust_fuse.Abi.Control.{
  in_header_pod, init_in_pod, interrupt_in_pod, forget_in_pod, bmap_in_pod, lk_in_pod, lk_in_layout,
  file_lock_pod, in_header_layout, init_in_layout, interrupt_in_layout, forget_in_layout,
  bmap_in_layout, file_lock_layout,
}
use rust_fuse.Abi.RoundTrip.Control.{
  IsFuseInHeader, IsFuseInitIn, IsFuseInterruptIn, IsFuseForgetIn, IsFuseBmapIn, IsFuseLkIn,
  IsFuseFileLock,
}

pub in_header_pod_exact : PodExact in_header_pod IsFuseInHeader
unfolding fields cut
in_header_pod_exact = record {
  of_bytes-IsValid = λ b h l. (
    field_at-lt 4 0 b h,
    field_at-lt 4 4 b h,
    field_at-lt 8 8 b h,
    field_at-lt 8 16 b h,
    field_at-lt 4 24 b h,
    field_at-lt 4 28 b h,
    field_at-lt 4 32 b h,
    field_at-lt 4 36 b h,
  );
  to-of = fields-cut 0 (4 ∷ 4 ∷ 8 ∷ 8 ∷ 4 ∷ 4 ∷ 4 ∷ 4 ∷ []);
  to_bytes-IsByte = λ a. fields-IsByte (in_header_layout a);
  IsValid_prop = λ a. hlevel le_prop;
}

pub init_in_pod_exact : PodExact init_in_pod IsFuseInitIn
unfolding fields cut
init_in_pod_exact = record {
  of_bytes-IsValid = λ b h l.
      (field_at-lt 4 0 b h, field_at-lt 4 4 b h, field_at-lt 4 8 b h, field_at-lt 4 12 b h);
  to-of = fields-cut 0 (4 ∷ 4 ∷ 4 ∷ 4 ∷ []);
  to_bytes-IsByte = λ a. fields-IsByte (init_in_layout a);
  IsValid_prop = λ a. hlevel le_prop;
}

pub interrupt_in_pod_exact : PodExact interrupt_in_pod IsFuseInterruptIn
unfolding fields cut
interrupt_in_pod_exact = record {
  of_bytes-IsValid = λ b h l. field_at-lt 8 0 b h;
  to-of = fields-cut 0 (8 ∷ []);
  to_bytes-IsByte = λ a. fields-IsByte (interrupt_in_layout a);
  IsValid_prop = λ a. hlevel le_prop;
}

pub forget_in_pod_exact : PodExact forget_in_pod IsFuseForgetIn
unfolding fields cut
forget_in_pod_exact = record {
  of_bytes-IsValid = λ b h l. field_at-lt 8 0 b h;
  to-of = fields-cut 0 (8 ∷ []);
  to_bytes-IsByte = λ a. fields-IsByte (forget_in_layout a);
  IsValid_prop = λ a. hlevel le_prop;
}

pub bmap_in_pod_exact : PodExact bmap_in_pod IsFuseBmapIn
unfolding fields cut
bmap_in_pod_exact = record {
  of_bytes-IsValid = λ b h l. (field_at-lt 8 0 b h, field_at-lt 4 8 b h, field_at-lt 4 12 b h);
  to-of = fields-cut 0 (8 ∷ 4 ∷ 4 ∷ []);
  to_bytes-IsByte = λ a. fields-IsByte (bmap_in_layout a);
  IsValid_prop = λ a. hlevel le_prop;
}

pub file_lock_pod_exact : PodExact file_lock_pod IsFuseFileLock
unfolding fields cut
file_lock_pod_exact = record {
  of_bytes-IsValid = λ b h l.
      (field_at-lt 8 0 b h, field_at-lt 8 8 b h, field_at-lt 4 16 b h, field_at-lt 4 20 b h);
  to-of = fields-cut 0 (8 ∷ 8 ∷ 4 ∷ 4 ∷ []);
  to_bytes-IsByte = λ a. fields-IsByte (file_lock_layout a);
  IsValid_prop = λ a. hlevel le_prop;
}

pub lk_in_pod_exact : PodExact lk_in_pod IsFuseLkIn
unfolding fields cut
lk_in_pod_exact = record {
  of_bytes-IsValid = λ b h l. (
    field_at-lt 8 0 b h,
    field_at-lt 8 8 b h,
    file_lock_pod_exact.of_bytes-IsValid (drop 16 b) (All-drop IsByte 16 b h)
        (omega (arith, length-drop 16 b)),
  );
  to-of = λ b h l.
      rw (drop-drop 8 16 b, drop-drop 16 16 b, drop-drop 20 16 b)
        (fields-cut 0 (8 ∷ 8 ∷ 8 ∷ 8 ∷ 4 ∷ 4 ∷ []) b h l);
  to_bytes-IsByte = λ a. fields-IsByte (lk_in_layout a);
  IsValid_prop = λ a. hlevel le_prop;
}
