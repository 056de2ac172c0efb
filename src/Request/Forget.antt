-- ===== src/Request/Forget.antt =====
-- FORGET is the only operation that makes no reply object.
use rust_fuse.Prelude.{ℕ, ◌≡◌, refl, arith}
use rust_fuse.Abi.Opcode
use rust_fuse.Abi.Opcode.{FuseOpcode}
use rust_fuse.Abi.Control.{FuseInHeader}
use rust_fuse.Argument.{ArgumentIterator, Outcome, done, fault, panic, fetch, fetch_str, fetch_data}
use rust_fuse.Platform.{Platform}
use rust_fuse.Request.Decode.{
  changes_of, Arm, Operation, forgets, initializes, destroys, operates, arm,
}

-- An arm that fetches arguments, run on a request.
abbrev pub run_arm : Arm → FuseInHeader → ArgumentIterator → Outcome (Operation × ArgumentIterator)
run_arm initializes h it = fault panic
run_arm destroys h it = fault panic
run_arm (operates decode) h it = decode h it

pub arm-forgets :
    (platform : Platform) (op : FuseOpcode) (h : FuseInHeader) (it : ArgumentIterator)
    {ino nlookup : ℕ} {it' : ArgumentIterator}
    → run_arm (arm platform op) h it ≡ done (forgets ino nlookup, it')
    → op ≡ Opcode.fuse_forget
unfolding arm
arm-forgets platform Opcode.fuse_forget h it e = refl
arm-forgets platform _ h it e = unfold fetch fetch_str fetch_data changes_of in ground arith
