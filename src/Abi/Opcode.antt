-- ===== src/Abi/Opcode.antt =====
-- src/fuse.rs: the operation codes. A Boolean says whether the target is OS X, which has three more.
use mathlib.Core.Path.{subst, sym}
use rust_fuse.Prelude.{
  Bool, true, false, ◌↔◌, ℕ, ◌≡◌, refl, Option, none, some, ◌==◌, if◌then◌else◌, arith, inl, ◌⊎◌,
  inr,
}

pub data FuseOpcode : Type 0 where
  fuse_lookup fuse_forget fuse_getattr fuse_setattr fuse_readlink fuse_symlink fuse_mknod fuse_mkdir
        fuse_unlink fuse_rmdir fuse_rename fuse_link fuse_open fuse_read fuse_write fuse_statfs
        fuse_release fuse_fsync fuse_setxattr fuse_getxattr fuse_listxattr fuse_removexattr
        fuse_flush fuse_init fuse_opendir fuse_readdir fuse_releasedir fuse_fsyncdir fuse_getlk
        fuse_setlk fuse_setlkw fuse_access fuse_create fuse_interrupt fuse_bmap fuse_destroy
        fuse_setvolname fuse_getxtimes fuse_exchange :
      FuseOpcode

-- The discriminants of the enum.
unfoldable pub to_u32 : FuseOpcode → ℕ
to_u32 fuse_lookup = 1
to_u32 fuse_forget = 2
to_u32 fuse_getattr = 3
to_u32 fuse_setattr = 4
to_u32 fuse_readlink = 5
to_u32 fuse_symlink = 6
to_u32 fuse_mknod = 8
to_u32 fuse_mkdir = 9
to_u32 fuse_unlink = 10
to_u32 fuse_rmdir = 11
to_u32 fuse_rename = 12
to_u32 fuse_link = 13
to_u32 fuse_open = 14
to_u32 fuse_read = 15
to_u32 fuse_write = 16
to_u32 fuse_statfs = 17
to_u32 fuse_release = 18
to_u32 fuse_fsync = 20
to_u32 fuse_setxattr = 21
to_u32 fuse_getxattr = 22
to_u32 fuse_listxattr = 23
to_u32 fuse_removexattr = 24
to_u32 fuse_flush = 25
to_u32 fuse_init = 26
to_u32 fuse_opendir = 27
to_u32 fuse_readdir = 28
to_u32 fuse_releasedir = 29
to_u32 fuse_fsyncdir = 30
to_u32 fuse_getlk = 31
to_u32 fuse_setlk = 32
to_u32 fuse_setlkw = 33
to_u32 fuse_access = 34
to_u32 fuse_create = 35
to_u32 fuse_interrupt = 36
to_u32 fuse_bmap = 37
to_u32 fuse_destroy = 38
to_u32 fuse_setvolname = 61
to_u32 fuse_getxtimes = 62
to_u32 fuse_exchange = 63

-- The arms that are compiled on OS X only.
from_u32_osx : Bool → ℕ → Option FuseOpcode
from_u32_osx false n = none
from_u32_osx true n =
    if n == 61
    then some fuse_setvolname
    else if n == 62
    then some fuse_getxtimes
    else if n == 63
    then some fuse_exchange
    else none

-- The arms of the match from 21 on.
from_u32_upper : Bool → ℕ → Option FuseOpcode
unfolding from_u32_osx
from_u32_upper os_x n =
    if n == 21
    then some fuse_setxattr
    else if n == 22
    then some fuse_getxattr
    else if n == 23
    then some fuse_listxattr
    else if n == 24
    then some fuse_removexattr
    else if n == 25
    then some fuse_flush
    else if n == 26
    then some fuse_init
    else if n == 27
    then some fuse_opendir
    else if n == 28
    then some fuse_readdir
    else if n == 29
    then some fuse_releasedir
    else if n == 30
    then some fuse_fsyncdir
    else if n == 31
    then some fuse_getlk
    else if n == 32
    then some fuse_setlk
    else if n == 33
    then some fuse_setlkw
    else if n == 34
    then some fuse_access
    else if n == 35
    then some fuse_create
    else if n == 36
    then some fuse_interrupt
    else if n == 37
    then some fuse_bmap
    else if n == 38
    then some fuse_destroy
    else from_u32_osx os_x n

-- The arms of the match from 11 to 20.
from_u32_middle : Bool → ℕ → Option FuseOpcode
unfolding from_u32_upper
from_u32_middle os_x n =
    if n == 11
    then some fuse_rmdir
    else if n == 12
    then some fuse_rename
    else if n == 13
    then some fuse_link
    else if n == 14
    then some fuse_open
    else if n == 15
    then some fuse_read
    else if n == 16
    then some fuse_write
    else if n == 17
    then some fuse_statfs
    else if n == 18
    then some fuse_release
    else if n == 20
    then some fuse_fsync
    else from_u32_upper os_x n

unfoldable pub from_u32 : Bool → ℕ → Option FuseOpcode
unfolding from_u32_middle
from_u32 os_x n =
    if n == 1
    then some fuse_lookup
    else if n == 2
    then some fuse_forget
    else if n == 3
    then some fuse_getattr
    else if n == 4
    then some fuse_setattr
    else if n == 5
    then some fuse_readlink
    else if n == 6
    then some fuse_symlink
    else if n == 8
    then some fuse_mknod
    else if n == 9
    then some fuse_mkdir
    else if n == 10
    then some fuse_unlink
    else from_u32_middle os_x n

-- Whether a target has the operation code.
abbrev pub is_known : Bool → FuseOpcode → Bool
is_known os_x fuse_setvolname = os_x
is_known os_x fuse_getxtimes = os_x
is_known os_x fuse_exchange = os_x
is_known os_x _ = true

-- Every operation code is recognised as itself.
pub from_u32-to_u32 :
    (os_x : Bool) (op : FuseOpcode) → is_known os_x op ≡ true → from_u32 os_x (to_u32 op) ≡ some op
unfolding from_u32 from_u32_middle from_u32_upper from_u32_osx to_u32
from_u32-to_u32 false fuse_setvolname known = cc
from_u32-to_u32 false fuse_getxtimes known = cc
from_u32-to_u32 false fuse_exchange known = cc
from_u32-to_u32 true fuse_setvolname known = refl
from_u32-to_u32 true fuse_getxtimes known = refl
from_u32-to_u32 true fuse_exchange known = refl
from_u32-to_u32 os_x _ known = refl

-- What an arm of a match on a number returns: its own value at its number, or what is below it.
arm_cases {ℓ} :
    {A : Type ℓ} (n k : ℕ) (a b : A) (rest : Option A)
    → (if n == k then some a else rest) ≡ some b
    → ((k ≡ n) × (a ≡ b)) ⊎ (rest ≡ some b)
arm_cases n k a b rest h = ground arith

arm :
    (a : FuseOpcode) {n : ℕ} {op : FuseOpcode} {rest : Option FuseOpcode}
    → (rest ≡ some op → to_u32 op ≡ n)
    → (if n == to_u32 a then some a else rest) ≡ some op
    → to_u32 op ≡ n
arm a {n = n} {op = op} {rest = rest} below h = elim (arm_cases n (to_u32 a) a op rest h) [
  | inl found ↦ subst (λ x. to_u32 x ≡ n) found.1 found.0
  | inr other ↦ below other
]

from_u32_osx-eq_some :
    (os_x : Bool) (n : ℕ) {op : FuseOpcode} → from_u32_osx os_x n ≡ some op → to_u32 op ≡ n
unfolding from_u32_osx to_u32
from_u32_osx-eq_some false n h = absurd (ground arith)
from_u32_osx-eq_some true n h =
    arm fuse_setvolname (arm fuse_getxtimes (arm fuse_exchange (λ h. absurd (ground arith)))) h

from_u32_upper-eq_some :
    (os_x : Bool) (n : ℕ) {op : FuseOpcode} → from_u32_upper os_x n ≡ some op → to_u32 op ≡ n
unfolding from_u32_upper to_u32
from_u32_upper-eq_some os_x n = arm fuse_setxattr (
    arm fuse_getxattr (
      arm fuse_listxattr (
        arm fuse_removexattr (
          arm fuse_flush (
            arm fuse_init (
              arm fuse_opendir (
                arm fuse_readdir (
                  arm fuse_releasedir (
                    arm fuse_fsyncdir (
                      arm fuse_getlk (
                        arm fuse_setlk (
                          arm fuse_setlkw (
                            arm fuse_access (
                              arm fuse_create (
                                arm fuse_interrupt (
                                  arm fuse_bmap
                                    (arm fuse_destroy (from_u32_osx-eq_some os_x n))))))))))))))))))

from_u32_middle-eq_some :
    (os_x : Bool) (n : ℕ) {op : FuseOpcode} → from_u32_middle os_x n ≡ some op → to_u32 op ≡ n
unfolding from_u32_middle to_u32
from_u32_middle-eq_some os_x n = arm fuse_rmdir (
    arm fuse_rename (
      arm fuse_link (
        arm fuse_open (
          arm fuse_read (
            arm fuse_write (
              arm fuse_statfs
                (arm fuse_release (arm fuse_fsync (from_u32_upper-eq_some os_x n)))))))))

-- A number that is recognised as an operation code is the number of that code.
pub from_u32-eq_some :
    (os_x : Bool) (n : ℕ) {op : FuseOpcode} → from_u32 os_x n ≡ some op → to_u32 op ≡ n
unfolding from_u32 to_u32
from_u32-eq_some os_x n = arm fuse_lookup (
    arm fuse_forget (
      arm fuse_getattr (
        arm fuse_setattr (
          arm fuse_readlink (
            arm fuse_symlink (
              arm fuse_mknod
                (arm fuse_mkdir (arm fuse_unlink (from_u32_middle-eq_some os_x n)))))))))

-- A target recognises only the operations that it has.
from_u32-is_known :
    (os_x : Bool) (op : FuseOpcode) → from_u32 os_x (to_u32 op) ≡ some op → is_known os_x op ≡ true
unfolding from_u32 from_u32_middle from_u32_upper from_u32_osx to_u32
from_u32-is_known false fuse_setvolname h = absurd (ground arith)
from_u32-is_known false fuse_getxtimes h = absurd (ground arith)
from_u32-is_known false fuse_exchange h = absurd (ground arith)
from_u32-is_known true fuse_setvolname h = refl
from_u32-is_known true fuse_getxtimes h = refl
from_u32-is_known true fuse_exchange h = refl
from_u32-is_known os_x _ h = refl

-- A number is recognised as an operation code exactly if it is the number of that code and the
-- system has it: three of the codes are known on OS X only.
pub from_u32_iff :
    (os_x : Bool) (n : ℕ) (op : FuseOpcode)
    → (from_u32 os_x n ≡ some op) ↔ ((to_u32 op ≡ n) × (is_known os_x op ≡ true))
from_u32_iff os_x n op = (
  λ h.
      let code = from_u32-eq_some os_x n h in
      (code, from_u32-is_known os_x op (subst (λ (k : ℕ). from_u32 os_x k ≡ some op) (sym code) h)),
  λ h. subst (λ (k : ℕ). from_u32 os_x k ≡ some op) h.0 (from_u32-to_u32 os_x op h.1),
)
