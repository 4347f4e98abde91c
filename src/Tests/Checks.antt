-- ===== src/Tests/Checks.antt =====
-- The readback check and the hosts of addresses.
use epics_mcp_server.Prelude.{ℕ, ◌≡◌, refl, true, none, some, [], ◌∷◌, map}
use epics_mcp_server.Prelude.Int.{pos}
use epics_mcp_server.Prelude.Texts.{codes}
use epics_mcp_server.Values.{Reading, int, str}
use epics_mcp_server.Readback.{verify_readback, enum_labels}
use epics_mcp_server.Readback.Verdict.{Incomparable, verify_readback_unverified_iff}
use epics_mcp_server.Address.{isdigit}
use epics_mcp_server.Names.{record_name, device_name}
use epics_mcp_server.Tests.Fixtures.{platform, whole_numbers, after}

-- An mbbi-like record whose value is the second of two labels.
abbrev switch : Reading ℕ
switch = record {
  value = int (pos 1);
  control = none;
  choices = some (map str ("off" ∷ "on" ∷ []));
  note = none;
}

not_a_number : Incomparable whole_numbers "fast" after 0 after.value
unfolding enum_labels
not_a_number = (refl, λ labels h. cc)

unverified_example : (verify_readback whole_numbers "fast" after 0).verified ≡ none
unverified_example = (verify_readback_unverified_iff whole_numbers "fast" after 0).1 not_a_number

port_digits : isdigit platform (codes "5064") ≡ true
unfolding isdigit
port_digits = refl

record_of_field : record_name (codes "A:B-SP.EGU") ≡ codes "A:B-SP"
unfolding record_name
record_of_field = refl

device_of_property : device_name (codes "A:B:C") ≡ codes "A:B"
unfolding device_name
device_of_property = refl
