-- ===== src/Abi/Exact/OsxNames.antt =====
-- The structures of OsxNames.antt, and the bytes that they are read from.
use rust_fuse.Prelude.{[], ◌∷◌}
use rust_fuse.Wire.{fields}
use rust_fuse.Wire.Exact.{fields-IsByte, PodExact, cut, fields-cut, field_at-lt}
use native.Mathlib.Bridge.{le_prop}
use rust_fuse.Abi.OsxNames.{
  setattr_in_osx_pod, setxattr_in_osx_pod, getxattr_in_osx_pod, exchange_in_pod,
  setattr_in_osx_layout, setxattr_in_osx_layout, getxattr_in_osx_layout, exchange_in_layout,
}
use rust_fuse.Abi.RoundTrip.OsxNames.{
  IsFuseSetattrInOsx, IsFuseSetxattrInOsx, IsFuseGetxattrInOsx, IsFuseExchangeIn,
}

pub setattr_in_osx_pod_exact : PodExact setattr_in_osx_pod IsFuseSetattrInOsx
unfolding fields cut
setattr_in_osx_pod_exact = record {
  of_bytes-IsValid = λ b h l. (
    field_at-lt 4 0 b h,
    field_at-lt 4 4 b h,
    field_at-lt 8 8 b h,
    field_at-lt 8 16 b h,
    field_at-lt 8 24 b h,
    field_at-lt 8 32 b h,
    field_at-lt 8 40 b h,
    field_at-lt 8 48 b h,
    field_at-lt 4 56 b h,
    field_at-lt 4 60 b h,
    field_at-lt 4 64 b h,
    field_at-lt 4 68 b h,
    field_at-lt 4 72 b h,
    field_at-lt 4 76 b h,
    field_at-lt 4 80 b h,
    field_at-lt 4 84 b h,
    field_at-lt 8 88 b h,
    field_at-lt 8 96 b h,
    field_at-lt 8 104 b h,
    field_at-lt 4 112 b h,
    field_at-lt 4 116 b h,
    field_at-lt 4 120 b h,
    field_at-lt 4 124 b h,
  );
  to-of = fields-cut 0 (
      4 ∷ 4 ∷ 8 ∷ 8 ∷ 8 ∷ 8 ∷ 8 ∷ 8 ∷ 4 ∷ 4 ∷ 4 ∷ 4 ∷ 4 ∷ 4 ∷ 4 ∷ 4 ∷ 8 ∷ 8 ∷ 8 ∷ 4 ∷ 4 ∷ 4 ∷ 4
      ∷ []);
  to_bytes-IsByte = λ a. fields-IsByte (setattr_in_osx_layout a);
  IsValid_prop = λ a. hlevel le_prop;
}

pub setxattr_in_osx_pod_exact : PodExact setxattr_in_osx_pod IsFuseSetxattrInOsx
unfolding fields cut
setxattr_in_osx_pod_exact = record {
  of_bytes-IsValid = λ b h l.
      (field_at-lt 4 0 b h, field_at-lt 4 4 b h, field_at-lt 4 8 b h, field_at-lt 4 12 b h);
  to-of = fields-cut 0 (4 ∷ 4 ∷ 4 ∷ 4 ∷ []);
  to_bytes-IsByte = λ a. fields-IsByte (setxattr_in_osx_layout a);
  IsValid_prop = λ a. hlevel le_prop;
}

pub getxattr_in_osx_pod_exact : PodExact getxattr_in_osx_pod IsFuseGetxattrInOsx
unfolding fields cut
getxattr_in_osx_pod_exact = record {
  of_bytes-IsValid = λ b h l.
      (field_at-lt 4 0 b h, field_at-lt 4 4 b h, field_at-lt 4 8 b h, field_at-lt 4 12 b h);
  to-of = fields-cut 0 (4 ∷ 4 ∷ 4 ∷ 4 ∷ []);
  to_bytes-IsByte = λ a. fields-IsByte (getxattr_in_osx_layout a);
  IsValid_prop = λ a. hlevel le_prop;
}

pub exchange_in_pod_exact : PodExact exchange_in_pod IsFuseExchangeIn
unfolding fields cut
exchange_in_pod_exact = record {
  of_bytes-IsValid = λ b h l. (field_at-lt 8 0 b h, field_at-lt 8 8 b h, field_at-lt 8 16 b h);
  to-of = fields-cut 0 (8 ∷ 8 ∷ 8 ∷ []);
  to_bytes-IsByte = λ a. fields-IsByte (exchange_in_layout a);
  IsValid_prop = λ a. hlevel le_prop;
}
