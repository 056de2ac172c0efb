-- ===== src/Abi/Exact/Files.antt =====
-- The structures of Files.antt, and the bytes that they are read from.
use rust_fuse.Prelude.{[], ◌∷◌}
use rust_fuse.Wire.{fields}
use rust_fuse.Wire.Exact.{fields-IsByte, PodExact, cut, fields-cut, field_at-lt}
use native.Mathlib.Bridge.{le_prop}
use rust_fuse.Abi.Files.{
  open_in_pod, read_in_pod, write_in_pod, flush_in_pod, release_in_pod, fsync_in_pod,
  open_in_layout, read_in_layout, write_in_layout, flush_in_layout, release_in_layout,
  fsync_in_layout,
}
use rust_fuse.Abi.RoundTrip.Files.{
  IsFuseOpenIn, IsFuseReadIn, IsFuseWriteIn, IsFuseFlushIn, IsFuseReleaseIn, IsFuseFsyncIn,
}

pub open_in_pod_exact : PodExact open_in_pod IsFuseOpenIn
unfolding fields cut
open_in_pod_exact = record {
  of_bytes-IsValid = λ b h l. (field_at-lt 4 0 b h, field_at-lt 4 4 b h);
  to-of = fields-cut 0 (4 ∷ 4 ∷ []);
  to_bytes-IsByte = λ a. fields-IsByte (open_in_layout a);
  IsValid_prop = λ a. hlevel le_prop;
}

pub read_in_pod_exact : PodExact read_in_pod IsFuseReadIn
unfolding fields cut
read_in_pod_exact = record {
  of_bytes-IsValid = λ b h l.
      (field_at-lt 8 0 b h, field_at-lt 8 8 b h, field_at-lt 4 16 b h, field_at-lt 4 20 b h);
  to-of = fields-cut 0 (8 ∷ 8 ∷ 4 ∷ 4 ∷ []);
  to_bytes-IsByte = λ a. fields-IsByte (read_in_layout a);
  IsValid_prop = λ a. hlevel le_prop;
}

pub write_in_pod_exact : PodExact write_in_pod IsFuseWriteIn
unfolding fields cut
write_in_pod_exact = record {
  of_bytes-IsValid = λ b h l.
      (field_at-lt 8 0 b h, field_at-lt 8 8 b h, field_at-lt 4 16 b h, field_at-lt 4 20 b h);
  to-of = fields-cut 0 (8 ∷ 8 ∷ 4 ∷ 4 ∷ []);
  to_bytes-IsByte = λ a. fields-IsByte (write_in_layout a);
  IsValid_prop = λ a. hlevel le_prop;
}

pub flush_in_pod_exact : PodExact flush_in_pod IsFuseFlushIn
unfolding fields cut
flush_in_pod_exact = record {
  of_bytes-IsValid = λ b h l.
      (field_at-lt 8 0 b h, field_at-lt 4 8 b h, field_at-lt 4 12 b h, field_at-lt 8 16 b h);
  to-of = fields-cut 0 (8 ∷ 4 ∷ 4 ∷ 8 ∷ []);
  to_bytes-IsByte = λ a. fields-IsByte (flush_in_layout a);
  IsValid_prop = λ a. hlevel le_prop;
}

pub release_in_pod_exact : PodExact release_in_pod IsFuseReleaseIn
unfolding fields cut
release_in_pod_exact = record {
  of_bytes-IsValid = λ b h l.
      (field_at-lt 8 0 b h, field_at-lt 4 8 b h, field_at-lt 4 12 b h, field_at-lt 8 16 b h);
  to-of = fields-cut 0 (8 ∷ 4 ∷ 4 ∷ 8 ∷ []);
  to_bytes-IsByte = λ a. fields-IsByte (release_in_layout a);
  IsValid_prop = λ a. hlevel le_prop;
}

pub fsync_in_pod_exact : PodExact fsync_in_pod IsFuseFsyncIn
unfolding fields cut
fsync_in_pod_exact = record {
  of_bytes-IsValid = λ b h l. (field_at-lt 8 0 b h, field_at-lt 4 8 b h, field_at-lt 4 12 b h);
  to-of = fields-cut 0 (8 ∷ 4 ∷ 4 ∷ []);
  to_bytes-IsByte = λ a. fields-IsByte (fsync_in_layout a);
  IsValid_prop = λ a. hlevel le_prop;
}
