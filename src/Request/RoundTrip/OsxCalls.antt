-- ===== src/Request/RoundTrip/OsxCalls.antt =====
-- The operations that only OS X has.
use rust_fuse.Prelude.{ℕ, ◌+◌, refl, List, [], ◌∷◌, ◌++◌, Bool, true, false, length}
use Prim.Native.Nat.{zero-le}
use rust_fuse.Abi.Control.{FuseInHeader}
use rust_fuse.Abi.OsxNames.{exchange_in_pod}
use rust_fuse.Abi.RoundTrip.OsxNames.{exchange_in_pod_laws, IsFuseExchangeIn}
use rust_fuse.Request.Decode.{calls, arm}
use rust_fuse.Request.Encode.{encode}
use rust_fuse.Argument
use rust_fuse.Argument.{
  ArgumentIterator, done, advance, remaining, fetch, fetch_str, fetch_data, ◌>>=◌,
}
use rust_fuse.Argument.Laws.{IsName}
use rust_fuse.Platform.{Platform}
use rust_fuse.Request.Forget.{run_arm}
use rust_fuse.Filesystem.Calls.{Call}
use rust_fuse.Request.Encode.Valid.{IsOperation}
use rust_fuse.Request.RoundTrip.Steps.{arg_step, name_step}
use rust_fuse.Request.RoundTrip.Reads.{Reads}

module _ (platform : Platform) (h : FuseInHeader) where
  setvolname_lem :
      (os_x : Bool) (name : List ℕ) → IsOperation os_x (calls (Call.setvolname name)) → IsName name
  setvolname_lem true name v = v
  setvolname_lem false name v = absurd v

  pub setvolname_read :
      (name : List ℕ)
      → IsOperation platform.os_x (calls (Call.setvolname name))
      → Reads platform h (calls (Call.setvolname name))
  unfolding arm encode
  setvolname_read name v =
      let it0 : ArgumentIterator =
        Argument.new (encode platform.os_x (calls (Call.setvolname name))) in
      let s1 = name_step it0 name [] zero-le (setvolname_lem platform.os_x name v) refl in
      (advance it0 (length name + 1), rw (s1.0, run_arm, ◌>>=◌))

  exchange_lem :
      (os_x : Bool) (parent : ℕ) (name : List ℕ) (newparent : ℕ) (newname : List ℕ) (options : ℕ)
      → IsOperation os_x (calls (Call.exchange parent name newparent newname options))
      → IsFuseExchangeIn (record { olddir = parent; newdir = newparent; options = options })
        × IsName name
        × IsName newname
  exchange_lem true parent name newparent newname options v = v
  exchange_lem false parent name newparent newname options v = absurd v

  pub exchange_read :
      (parent : ℕ) (name : List ℕ) (newparent : ℕ) (newname : List ℕ) (options : ℕ)
      → IsOperation platform.os_x (calls (Call.exchange parent name newparent newname options))
      → Reads platform h (calls (Call.exchange parent name newparent newname options))
  unfolding arm encode
  exchange_read parent name newparent newname options v' =
      let v = exchange_lem platform.os_x parent name newparent newname options v' in
      let it0 : ArgumentIterator =
        Argument.new
          (encode platform.os_x (calls (Call.exchange parent name newparent newname options))) in
      let s1 =
        arg_step exchange_in_pod exchange_in_pod_laws it0
          (record { olddir = parent; newdir = newparent; options = options })
          (name ++ (0 ∷ (newname ++ (0 ∷ [])))) zero-le v.0 refl in
      let it1 : ArgumentIterator = advance it0 24 in
      let s2 = name_step it1 name (newname ++ (0 ∷ [])) s1.2 v.1 s1.1 in
      let it2 : ArgumentIterator = advance it1 (length name + 1) in
      let s3 = name_step it2 newname [] s2.2 v.2 s2.1 in
      (advance it2 (length newname + 1), rw (s1.0, s2.0, s3.0, run_arm, ◌>>=◌))

  pub getxtimes_read :
      (ino : ℕ)
      → IsOperation platform.os_x (calls (Call.getxtimes ino))
      → Reads platform h (calls (Call.getxtimes ino))
  unfolding arm encode
  getxtimes_read ino v = (_, refl)
