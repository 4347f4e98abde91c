-- ===== src/Tests/Named.antt =====
-- Runs of the client of the Naming Service.
use epics_mcp_server.Prelude.{ℕ, ◌≡◌, refl, true, false, Option, none, some, [], ◌∷◌}
use epics_mcp_server.Prelude.Int.{pos}
use epics_mcp_server.Prelude.Texts.{codes}
use epics_mcp_server.Throttle.{start}
use epics_mcp_server.Json.{Json, text, object, no_fields, field}
use epics_mcp_server.Transport.{ended, Answer, responded}
use epics_mcp_server.Naming.{
  naming_swagger_title, NamingClient, new_client, Call, found, response_error, not_registered,
  is_active, validate_name,
}
use epics_mcp_server.Naming.Backed.{started, called}
use epics_mcp_server.Naming.Verdict.{IsVerdict, validate_name-IsVerdict}

abbrev reply : ℕ → Option Json → Answer
reply status j = responded (record {
  status_code = status;
  is_redirect = false;
  json = j;
  body = ended;
  content_length = none;
  content_disposition = none;
  content_type = none;
})

abbrev swagger : Answer
swagger = reply 200 (
    some (
      object (
        field (codes "info") (object (field (codes "title") (text naming_swagger_title) no_fields))
          no_fields)))

abbrev known_call : Call
known_call = record {
  name = codes "D";
  now = 5;
  answer = reply 200 (some (object (field (codes "status") (text (codes "ACTIVE")) no_fields)));
  probe_now = 6;
  swagger = reply 404 none;
}

abbrev missing_call : Call
missing_call = record {
  name = codes "E";
  now = 7;
  answer = reply 204 none;
  probe_now = 8;
  swagger = swagger;
}

-- A host without the path answers 404, and has no such contract.
abbrev foreign_call : Call
foreign_call = record {
  name = codes "E";
  now = 7;
  answer = reply 404 none;
  probe_now = 8;
  swagger = reply 404 none;
}

abbrev client : NamingClient
client = new_client (start (pos 0))

known_runs :
    (validate_name known_call client).0
    ≡ found (record { registered = true; status = codes "ACTIVE"; message = is_active })
unfolding validate_name start
known_runs = refl

cached_runs :
    (validate_name (record foreign_call { name = codes "D" }) (validate_name known_call client).1).0
    ≡ found (record { registered = true; status = codes "ACTIVE"; message = is_active })
unfolding validate_name start
cached_runs = refl

missing_runs : (validate_name missing_call client).0 ≡ found not_registered
unfolding validate_name start
missing_runs = refl

foreign_runs : (validate_name foreign_call client).0 ≡ response_error
unfolding validate_name start
foreign_runs = refl

IsVerdict-example : IsVerdict missing_call (known_call ∷ []) (validate_name known_call client).1
IsVerdict-example =
    validate_name-IsVerdict (called known_call (started (start (pos 0)))) missing_call
