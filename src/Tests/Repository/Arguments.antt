-- ===== src/Tests/Repository/Arguments.antt =====
-- The tests of src/argument.rs and of src/channel.rs.
use rust_fuse.Prelude.{ℕ, refl, List, [], ◌∷◌}
use rust_fuse.Wire.{Pod, fields, field_at}
use rust_fuse.Wire.Numbers.{le, from_le}
use rust_fuse.Argument
use rust_fuse.Argument.{
  ArgumentIterator, Outcome, done, fault, Fetch, ◌>>=◌, pure, c_string, fetch, fetch_str,
  fetch_path, fetch_data,
}
use rust_fuse.Channel.{FuseArgs, fuse_args_of, option_strings, to_cstring, program_name}
use rust_fuse.Tests.Repository.{Assertion, Passes}

-- "foo", "bar" and "baz", each with its zero byte.
abbrev test_data : List ℕ
test_data = 0x66 ∷ 0x6f ∷ 0x6f ∷ 0 ∷ 0x62 ∷ 0x61 ∷ 0x72 ∷ 0 ∷ 0x62 ∷ 0x61 ∷ 0x7a ∷ 0 ∷ []

abbrev foo : List ℕ
foo = 0x66 ∷ 0x6f ∷ 0x6f ∷ []

abbrev bar : List ℕ
bar = 0x62 ∷ 0x61 ∷ 0x72 ∷ []

pub record TestArgument : Type 0 where
  pub p1 : ℕ  -- u8
  pub p2 : ℕ  -- u8
  pub p3 : ℕ  -- u16

instance abbrev argument_pod : Pod TestArgument
unfolding fields
argument_pod = record {
  size_of = 4;
  to_bytes = λ a. fields ((1, a.p1) ∷ (1, a.p2) ∷ (2, a.p3) ∷ []);
  of_bytes =
      λ bytes. record { p1 = field_at 1 0 bytes; p2 = field_at 1 1 bytes; p3 = field_at 2 2 bytes };
}

-- What a test fetches from the data.
abbrev fetched : {A : Type 0} → Fetch A → Outcome A
fetched m = elim (m (Argument.new test_data)) [ done (a, _) ↦ done a | fault x ↦ fault x ]

abbrev generic_argument_test : Assertion (Outcome (TestArgument × TestArgument))
unfolding fetch
generic_argument_test = record {
  actual = fetched (do a ← fetch; b ← fetch; pure (a, b));
  expected =
      done (
        record { p1 = 0x66; p2 = 0x6f; p3 = 0x006f },
        record { p1 = 0x62; p2 = 0x61; p3 = 0x0072 },
      );
}

abbrev string_argument_test : Assertion (Outcome (List ℕ × List ℕ))
string_argument_test = record {
  actual = fetched (do a ← fetch_str; b ← fetch_str; pure (a, b));
  expected = done (foo, bar);
}

abbrev path_argument_test : Assertion (Outcome (List ℕ × List ℕ))
path_argument_test = record {
  actual = fetched (do a ← fetch_path; b ← fetch_path; pure (a, b));
  expected = done (foo, bar);
}

abbrev remaining_data_argument_test : Assertion (Outcome (List ℕ))
remaining_data_argument_test = record {
  actual = fetched (do a ← fetch_str; b ← fetch_str; rest ← fetch_data; pure rest);
  expected = done (0x62 ∷ 0x61 ∷ 0x7a ∷ 0 ∷ []);
}

abbrev mixed_arguments_test : Assertion (Outcome (TestArgument × List ℕ × List ℕ))
mixed_arguments_test = record {
  actual = fetched (do a ← fetch; b ← fetch_str; rest ← fetch_data; pure (a, b, rest));
  expected = done (record { p1 = 0x66; p2 = 0x6f; p3 = 0x006f }, bar, 0x62 ∷ 0x61 ∷ 0x7a ∷ 0 ∷ []);
}

abbrev fuse_args_test : Assertion (Outcome FuseArgs)
fuse_args_test = record {
  actual = fuse_args_of (foo ∷ bar ∷ []);
  expected = done (record { argc = 3; argv = program_name ∷ foo ∷ bar ∷ []; allocated = 0 });
}

-- They pass.
fetched_arguments :
    Passes generic_argument_test
    × Passes string_argument_test
    × Passes path_argument_test
    × Passes remaining_data_argument_test
    × Passes mixed_arguments_test
    × Passes fuse_args_test
unfolding fetch fetch_str fetch_data c_string from_le fields le fuse_args_of option_strings
    to_cstring
fetched_arguments = (refl, refl, refl, refl, refl, refl)
