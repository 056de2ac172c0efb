-- ===== src/Tests/Repository.antt =====
-- The tests that the repository holds, in src/reply.rs, src/argument.rs and src/channel.rs: what each
-- does, and what it asserts. Where a closure asserts what a reply calls it with, the assertion is that
-- this one packet is what the reply sends.
pub mod Data
mod Serialize
mod Replies
mod Attributes
mod Directory
mod Arguments
use rust_fuse.Prelude.{◌≡◌}

-- One `assert_eq!`. Assertions of one test that stand together are one of tuples.
pub record Assertion {ℓ} (A : Type ℓ) : Type ℓ where
  pub actual : A
  pub expected : A

abbrev pub Passes {ℓ} : {A : Type ℓ} → Assertion A → Type ℓ
Passes a = a.actual ≡ a.expected
