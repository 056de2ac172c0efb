-- ===== src/Request/Serve.antt =====
-- From the kernel's bytes to the method call.
use rust_fuse.Prelude.{Bool, refl, ◌≡◌, true, false, some, not, if_cases, not-eq_true}
use rust_fuse.Abi.Opcode.{to_u32, from_u32, from_u32-to_u32}
use rust_fuse.Abi.Control.{FuseInHeader}
use rust_fuse.Argument
use rust_fuse.Argument.{ArgumentIterator, done}
use rust_fuse.Platform.{Platform, IsPosix}
use rust_fuse.Reply.Raw.{ChannelSender}
use rust_fuse.Filesystem.Trait.{Filesystem, Request}
use rust_fuse.Session.State.{Session}
use rust_fuse.Request.Decode.{Arm, Operation, initializes, destroys, operates, arm}
use rust_fuse.Request.Dispatch.{Effect, dispatch_arm, dispatch, perform}
use rust_fuse.Filesystem.Calls.{Call}
use rust_fuse.Request.Decode.{calls}
use rust_fuse.Abi.Opcode.{is_known}
use rust_fuse.Request.Encode.Valid.{IsOperation}
use rust_fuse.Request.Encode.{encode, opcode_of, node_of}
use rust_fuse.Request.Forget.{run_arm}
use rust_fuse.Request.RoundTrip.Every.{arm-encode}

-- The request by which the kernel asks for an operation.
abbrev pub request_for : Bool → ChannelSender → FuseInHeader → Operation → Request
request_for os_x ch h op = record {
  ch = ch;
  header = record h { nodeid = node_of op; opcode = to_u32 (opcode_of op) };
  payload = encode os_x op;
}

module _ (platform : Platform) {fs : Filesystem} (req : Request) (se : Session fs) where
  dispatch_arm_performs :
      (a : Arm) {op : Operation} {it : ArgumentIterator}
      → run_arm a req.header (Argument.new req.payload) ≡ done (op, it)
      → se.initialized ≡ true
      → se.destroyed ≡ false
      → dispatch_arm platform req se a ≡ perform platform req se op
  unfolding dispatch_arm
  dispatch_arm_performs initializes e on off = cc
  dispatch_arm_performs destroys e on off = cc
  dispatch_arm_performs (operates decode) {op} e on off =
      if_cases {A = Effect fs} (λ x. x ≡ perform platform req se op) (not se.initialized)
        (λ h. cc (not-eq_true se.initialized h))
        (λ _.
          if_cases {A = Effect fs} (λ x. x ≡ perform platform req se op) se.destroyed (λ h. cc)
            (λ _. rw e))

-- The operations that the kernel asks for on a target have an operation code there.
opcode_of-is_known :
    (os_x : Bool) (op : Operation) → IsOperation os_x op → is_known os_x (opcode_of op) ≡ true
opcode_of-is_known true (calls (Call.setvolname name)) v = refl
opcode_of-is_known false (calls (Call.setvolname name)) v = absurd v
opcode_of-is_known true (calls (Call.exchange parent name newparent newname options)) v = refl
opcode_of-is_known false (calls (Call.exchange parent name newparent newname options)) v = absurd v
opcode_of-is_known true (calls (Call.getxtimes ino)) v = refl
opcode_of-is_known false (calls (Call.getxtimes ino)) v = absurd v
opcode_of-is_known os_x (calls (Call.setlk ino args true)) v = refl
opcode_of-is_known os_x (calls (Call.setlk ino args false)) v = refl
opcode_of-is_known os_x (calls _) v = refl
opcode_of-is_known os_x _ v = refl

-- If errors, memory and `Timespec::new` are as documented, then in a session that is initialized
-- and not destroyed, the kernel's request for an operation that its system has, whose values fit
-- their fields, whose times have less than a second of nanoseconds and whose names hold no zero
-- byte is carried out as exactly that operation.
pub dispatch-request_for :
    (platform : Platform) {fs : Filesystem} (se : Session fs) (ch : ChannelSender)
    (h : FuseInHeader) (op : Operation)
    → IsPosix platform
    → IsOperation platform.os_x op
    → se.initialized ≡ true
    → se.destroyed ≡ false
    → dispatch platform (request_for platform.os_x ch h op) se
      ≡ perform platform (request_for platform.os_x ch h op) se op
unfolding dispatch
dispatch-request_for platform se ch h op posix v on off =
    let known : from_u32 platform.os_x (to_u32 (opcode_of op)) ≡ some (opcode_of op) =
      from_u32-to_u32 platform.os_x (opcode_of op) (opcode_of-is_known platform.os_x op v) in
    let (it, e) = arm-encode platform posix (record h { opcode = to_u32 (opcode_of op) }) op v in
    rw (known, dispatch)
      (dispatch_arm_performs platform (request_for platform.os_x ch h op) se
        (arm platform (opcode_of op)) e on off)
