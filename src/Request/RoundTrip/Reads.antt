-- ===== src/Request/RoundTrip/Reads.antt =====
-- The statement: an arm, run on the bytes of an operation, fetches exactly that operation.
use rust_fuse.Prelude.{◌≡◌}
use rust_fuse.Abi.Control.{FuseInHeader}
use rust_fuse.Argument
use rust_fuse.Argument.{ArgumentIterator, done}
use rust_fuse.Platform.{Platform}
use rust_fuse.Request.Decode.{Operation, arm}
use rust_fuse.Request.Forget.{run_arm}
use rust_fuse.Request.Encode.{encode, opcode_of, node_of}

abbrev pub Reads : Platform → FuseInHeader → Operation → Type 0
Reads platform h op =
    (it : ArgumentIterator) × (run_arm (arm platform (opcode_of op))
        (record h { nodeid = node_of op }) (Argument.new (encode platform.os_x op))
      ≡ done (op, it))
