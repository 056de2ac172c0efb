-- ===== src/Tests/Parsing.antt =====
-- Requests as bytes.
use rust_fuse.Prelude.{ℕ, List, All, ◌↔◌, ◌≡◌, arith, [], ◌∷◌, ◌++◌, some, ◌↔◌, true}
use rust_fuse.Abi.Opcode
use rust_fuse.Abi.Opcode.{from_u32, to_u32, from_u32_iff, is_known}
use rust_fuse.Abi.Control.{in_header_pod, init_in_pod}
use rust_fuse.Argument
use rust_fuse.Argument.{
  ArgumentIterator, Outcome, done, fault, out_of_bounds, advance, remaining, fetch, fetch_str,
}
use rust_fuse.Argument.Exact.{TakesName, fetch_str_iff, fetch_iff}
use rust_fuse.Request.Exact.{Holds, new_iff}
use rust_fuse.Wire.{IsByte, fields}
use rust_fuse.Wire.Numbers.{le}
use rust_fuse.Filesystem.Trait.{Request}
use rust_fuse.Abi.RoundTrip.Control.{IsFuseInitIn, init_in_pod_laws}
use rust_fuse.Abi.Exact.Control.{init_in_pod_exact}
use rust_fuse.Argument.Laws.{IsName, fetch_str_out_of_bounds}
use rust_fuse.Request.Parse
use rust_fuse.Request.Short.{split_request, new-split_request}
use rust_fuse.Tests.Data.{test_sender, header_for, init_args, hello}

new-split_request_example :
    Parse.new test_sender (1 ∷ 2 ∷ 3 ∷ []) ≡ done (split_request test_sender (1 ∷ 2 ∷ 3 ∷ []))
new-split_request_example = new-split_request test_sender (1 ∷ 2 ∷ 3 ∷ [])

-- A LOOKUP of "hello".
abbrev lookup_bytes : List ℕ
lookup_bytes = in_header_pod.to_bytes (header_for 1 46) ++ (hello ++ (0 ∷ []))

abbrev lookup_request : Request
lookup_request = record { ch = test_sender; header = header_for 1 46; payload = hello ++ (0 ∷ []) }

lookup_bytes-IsByte : All IsByte lookup_bytes
unfolding fields le
lookup_bytes-IsByte = omega arith

new_iff_example :
    (Parse.new test_sender lookup_bytes ≡ done (some lookup_request))
    ↔ Holds test_sender lookup_bytes lookup_request
new_iff_example = new_iff test_sender lookup_bytes lookup_request lookup_bytes-IsByte

-- A name, its zero byte, and one byte more.
abbrev name_and_more : ArgumentIterator
name_and_more = Argument.new (hello ++ (0 ∷ 9 ∷ []))

fetch_str_iff_example :
    (fetch_str name_and_more ≡ done (hello, record { bytes = hello ++ (0 ∷ 9 ∷ []); pos = 6 }))
    ↔ TakesName name_and_more hello (record { bytes = hello ++ (0 ∷ 9 ∷ []); pos = 6 })
fetch_str_iff_example =
    fetch_str_iff name_and_more (record { bytes = hello ++ (0 ∷ 9 ∷ []); pos = 6 }) hello

-- A name without its zero byte.
fetch_str_out_of_bounds_example :
    (fetch_str (Argument.new hello) ≡ fault out_of_bounds) ↔ IsName hello
fetch_str_out_of_bounds_example = fetch_str_out_of_bounds (Argument.new hello)

abbrev init_arguments : ArgumentIterator
init_arguments = Argument.new (init_in_pod.to_bytes init_args)

init_arguments-IsByte : All IsByte init_arguments.bytes
unfolding fields le
init_arguments-IsByte = omega arith

fetch_iff_example : (fetch init_arguments ≡ done (init_args, advance init_arguments 16)) ↔ (
    IsFuseInitIn init_args
    × (advance init_arguments 16 ≡ advance init_arguments init_in_pod.size_of)
    × (remaining init_arguments
        ≡ init_in_pod.to_bytes init_args ++ remaining (advance init_arguments 16)))
fetch_iff_example =
    fetch_iff init_in_pod init_in_pod_laws init_in_pod_exact init_arguments
      (advance init_arguments 16) init_args (omega arith) init_arguments-IsByte

from_u32_iff_example :
    (from_u32 true 61 ≡ some Opcode.fuse_setvolname)
    ↔ ((to_u32 Opcode.fuse_setvolname ≡ 61) × (is_known true Opcode.fuse_setvolname ≡ true))
from_u32_iff_example = from_u32_iff true 61 Opcode.fuse_setvolname
