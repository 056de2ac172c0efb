-- ===== src/Abi/Replies.antt =====
-- Structures of src/fuse.rs: what a reply carries. A comment gives the type of the
-- source; an i32 or i64 is the number of its bit pattern. Fields for OS X only stand in
-- OsxNames.antt and OsxReplies.antt.
mod Attributes
mod Results
pub use Attributes.{
  FuseOutHeader, out_header_layout, out_header_of_bytes, out_header_pod, FuseInitOut,
  init_out_layout, init_out_of_bytes, init_out_pod, FuseAttr, attr_layout, attr_of_bytes, attr_pod,
  FuseEntryOut, entry_out_layout, entry_out_of_bytes, entry_out_pod, FuseAttrOut, attr_out_layout,
  attr_out_of_bytes, attr_out_pod,
}
pub use Results.{
  FuseOpenOut, open_out_layout, open_out_of_bytes, open_out_pod, FuseWriteOut, write_out_layout,
  write_out_of_bytes, write_out_pod, FuseGetxattrOut, getxattr_out_layout, getxattr_out_of_bytes,
  getxattr_out_pod, FuseKstatfs, kstatfs_layout, kstatfs_of_bytes, kstatfs_pod, FuseStatfsOut,
  statfs_out_layout, statfs_out_of_bytes, statfs_out_pod, FuseLkOut, lk_out_layout, lk_out_of_bytes,
  lk_out_pod, FuseBmapOut, bmap_out_layout, bmap_out_of_bytes, bmap_out_pod, FuseDirent,
  dirent_layout, dirent_of_bytes, dirent_pod,
}
