-- ===== src/Abi/Exact/Names.antt =====
-- The structures of Names.antt, and the bytes that they are read from.
use rust_fuse.Prelude.{[], ◌∷◌}
use rust_fuse.Wire.{fields}
use rust_fuse.Wire.Exact.{fields-IsByte, PodExact, cut, fields-cut, field_at-lt}
use native.Mathlib.Bridge.{le_prop}
use rust_fuse.Abi.Names.{
  setattr_in_pod, mknod_in_pod, mkdir_in_pod, rename_in_pod, link_in_pod, setxattr_in_pod,
  getxattr_in_pod, access_in_pod, setattr_in_layout, mknod_in_layout, mkdir_in_layout,
  rename_in_layout, link_in_layout, setxattr_in_layout, getxattr_in_layout, access_in_layout,
}
use rust_fuse.Abi.RoundTrip.Names.{
  IsFuseSetattrIn, IsFuseMknodIn, IsFuseMkdirIn, IsFuseRenameIn, IsFuseLinkIn, IsFuseSetxattrIn,
  IsFuseGetxattrIn, IsFuseAccessIn,
}

pub setattr_in_pod_exact : PodExact setattr_in_pod IsFuseSetattrIn
unfolding fields cut
setattr_in_pod_exact = record {
  of_bytes-IsValid = λ b h l. (
    field_at-lt 4 0 b h,
    field_at-lt 4 4 b h,
    field_at-lt 8 8 b h,
    field_at-lt 8 16 b h,
    field_at-lt 8 24 b h,
    field_at-lt 8 32 b h,
    field_at-lt 8 40 b h,
    field_at-lt 8 48 b h,
    field_at-lt 4 56 b h,
    field_at-lt 4 60 b h,
    field_at-lt 4 64 b h,
    field_at-lt 4 68 b h,
    field_at-lt 4 72 b h,
    field_at-lt 4 76 b h,
    field_at-lt 4 80 b h,
    field_at-lt 4 84 b h,
  );
  to-of = fields-cut 0 (4 ∷ 4 ∷ 8 ∷ 8 ∷ 8 ∷ 8 ∷ 8 ∷ 8 ∷ 4 ∷ 4 ∷ 4 ∷ 4 ∷ 4 ∷ 4 ∷ 4 ∷ 4 ∷ []);
  to_bytes-IsByte = λ a. fields-IsByte (setattr_in_layout a);
  IsValid_prop = λ a. hlevel le_prop;
}

pub mknod_in_pod_exact : PodExact mknod_in_pod IsFuseMknodIn
unfolding fields cut
mknod_in_pod_exact = record {
  of_bytes-IsValid = λ b h l. (field_at-lt 4 0 b h, field_at-lt 4 4 b h);
  to-of = fields-cut 0 (4 ∷ 4 ∷ []);
  to_bytes-IsByte = λ a. fields-IsByte (mknod_in_layout a);
  IsValid_prop = λ a. hlevel le_prop;
}

pub mkdir_in_pod_exact : PodExact mkdir_in_pod IsFuseMkdirIn
unfolding fields cut
mkdir_in_pod_exact = record {
  of_bytes-IsValid = λ b h l. (field_at-lt 4 0 b h, field_at-lt 4 4 b h);
  to-of = fields-cut 0 (4 ∷ 4 ∷ []);
  to_bytes-IsByte = λ a. fields-IsByte (mkdir_in_layout a);
  IsValid_prop = λ a. hlevel le_prop;
}

pub rename_in_pod_exact : PodExact rename_in_pod IsFuseRenameIn
unfolding fields cut
rename_in_pod_exact = record {
  of_bytes-IsValid = λ b h l. field_at-lt 8 0 b h;
  to-of = fields-cut 0 (8 ∷ []);
  to_bytes-IsByte = λ a. fields-IsByte (rename_in_layout a);
  IsValid_prop = λ a. hlevel le_prop;
}

pub link_in_pod_exact : PodExact link_in_pod IsFuseLinkIn
unfolding fields cut
link_in_pod_exact = record {
  of_bytes-IsValid = λ b h l. field_at-lt 8 0 b h;
  to-of = fields-cut 0 (8 ∷ []);
  to_bytes-IsByte = λ a. fields-IsByte (link_in_layout a);
  IsValid_prop = λ a. hlevel le_prop;
}

pub setxattr_in_pod_exact : PodExact setxattr_in_pod IsFuseSetxattrIn
unfolding fields cut
setxattr_in_pod_exact = record {
  of_bytes-IsValid = λ b h l. (field_at-lt 4 0 b h, field_at-lt 4 4 b h);
  to-of = fields-cut 0 (4 ∷ 4 ∷ []);
  to_bytes-IsByte = λ a. fields-IsByte (setxattr_in_layout a);
  IsValid_prop = λ a. hlevel le_prop;
}

pub getxattr_in_pod_exact : PodExact getxattr_in_pod IsFuseGetxattrIn
unfolding fields cut
getxattr_in_pod_exact = record {
  of_bytes-IsValid = λ b h l. (field_at-lt 4 0 b h, field_at-lt 4 4 b h);
  to-of = fields-cut 0 (4 ∷ 4 ∷ []);
  to_bytes-IsByte = λ a. fields-IsByte (getxattr_in_layout a);
  IsValid_prop = λ a. hlevel le_prop;
}

pub access_in_pod_exact : PodExact access_in_pod IsFuseAccessIn
unfolding fields cut
access_in_pod_exact = record {
  of_bytes-IsValid = λ b h l. (field_at-lt 4 0 b h, field_at-lt 4 4 b h);
  to-of = fields-cut 0 (4 ∷ 4 ∷ []);
  to_bytes-IsByte = λ a. fields-IsByte (access_in_layout a);
  IsValid_prop = λ a. hlevel le_prop;
}
