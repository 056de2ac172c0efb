-- ===== src/Tests/Repository/Serialize.antt =====
-- The tests of src/reply.rs that serialize a value.
use rust_fuse.Prelude.{refl, ℕ, List, [], ◌∷◌}
use rust_fuse.Wire.{fields}
use rust_fuse.Wire.Numbers.{le}
use rust_fuse.Reply.Raw.{as_bytes}
use rust_fuse.Tests.Repository.{Assertion, Passes}
use rust_fuse.Tests.Repository.Data.{
  some_data, data_pod, two_data_pod, unit_pod, array_pod, TestData,
}

abbrev serialize_empty_test : Assertion (List (List ℕ))
serialize_empty_test = record { actual = as_bytes ⦃p = unit_pod⦄ tt; expected = [] }

abbrev serialize_slice_test : Assertion (List (List ℕ))
serialize_slice_test = record {
  actual = as_bytes ⦃p = array_pod⦄ (0x12 ∷ 0x34 ∷ 0x56 ∷ 0x78 ∷ []);
  expected = (0x12 ∷ 0x34 ∷ 0x56 ∷ 0x78 ∷ []) ∷ [];
}

abbrev serialize_struct_test : Assertion (List (List ℕ))
serialize_struct_test = record {
  actual = as_bytes some_data;
  expected = (0x12 ∷ 0x34 ∷ 0x78 ∷ 0x56 ∷ []) ∷ [];
}

abbrev serialize_tuple_test : Assertion (List (List ℕ))
serialize_tuple_test = record {
  actual =
      as_bytes {A = TestData × TestData} (some_data, record { a = 0x9a; b = 0xbc; c = 0xdef0 });
  expected = (0x12 ∷ 0x34 ∷ 0x78 ∷ 0x56 ∷ 0x9a ∷ 0xbc ∷ 0xf0 ∷ 0xde ∷ []) ∷ [];
}

-- They pass.
serialized_bytes :
    Passes serialize_empty_test
    × Passes serialize_slice_test
    × Passes serialize_struct_test
    × Passes serialize_tuple_test
unfolding as_bytes fields le
serialized_bytes = (refl, refl, refl, refl)
