-- ===== src/Tests/Logbook.antt =====
-- Runs of the logbook's operations, with a server that knows one entry.
use epics_mcp_server.Prelude.{
  ◌≤◌, String, ◌≡◌, refl, ◌↔◌, true, false, none, some, List, [], ◌∷◌, ◌++◌, map, ◌==◌, length,
}
use epics_mcp_server.Prelude.Int.{pos}
use epics_mcp_server.Prelude.Texts.{Text, codes, text_eq}
use epics_mcp_server.Errors.{ok}
use epics_mcp_server.Faults.{Attempt, returned}
use epics_mcp_server.Urls.{strip}
use epics_mcp_server.Paths.{
  FileSystem, is_blank, exists_as, file, resolve_user_path, resolve_new_file_path,
}
use epics_mcp_server.Paths.Boundary.{
  IsWithin, IsNewFile, resolve_user_path_iff, resolve_new_file_path-IsNewFile,
}
use epics_mcp_server.Attach.{Disk, Spec, path, AttachmentUpload, read_uploads}
use epics_mcp_server.Attach.Budget.{read_uploads_iff, read_whole, total_size}
use epics_mcp_server.Json.{
  Json, text, integer, items, object, Items, no_items, item, Fields, no_fields, field,
}
use epics_mcp_server.Entry.{
  Strings, names, unroundtrippable_attachment_filenames, expand_log_entry, AttachmentMeta,
  attachment_round_trip,
}
use epics_mcp_server.Entry.RoundTrip.{Resubmits, attachment_round_trip_iff}
use epics_mcp_server.LogClient.{
  Server, Endpoint, log_entry, logbook_names, tag_names, level_names, Edit, update_request,
  confirmed,
}
use epics_mcp_server.LogListing.{SearchPage, search_page, raw_entry_of, named_list, level_list}
use epics_mcp_server.LogListing.Page.{IsResponse, search_page-IsResponse}
use epics_mcp_server.LogWrites.{Env, World, write_entry}
use epics_mcp_server.LogWrites.Operations.{
  query_olog_update, update_run, read_entry, reject_unknown_level,
}
use epics_mcp_server.LogWrites.Updates.{Updates}
use epics_mcp_server.LogWrites.Reports.{IsReport, query_olog_update-IsReport}
use epics_mcp_server.Olog.{check_write_env_and_url, check_write_preconditions, check_write_allowed}
use epics_mcp_server.Tests.Fixtures.{local_urls, olog_gate}

-- Every path is absolute; there is one directory, `/w`, and one file in it.
abbrev files : FileSystem
files = record {
  FilePath = Text;
  path_of = λ s. s;
  resolve = λ s. s;
  is_dir = λ s. text_eq s (codes "/w");
  is_file = λ s. text_eq s (codes "/w/a");
  is_symlink = λ s. false;
  is_relative_to = λ s root. true;
  name = λ s. codes "a";
  parent_text = λ s. codes "/w";
  join = λ p n. p ++ codes "/" ++ n;
  space = λ c. c == 32;
  pathsep = 58;
}

abbrev disk : Disk files
disk = record {
  size = λ p. some 3;
  content = λ p. some (1 ∷ 2 ∷ 3 ∷ []);
  mime = λ n. none;
  decode = λ s. none;
}

abbrev strings : Strings
strings = record { repr = λ j. codes "?"; lower = λ s. s }

abbrev named_item : String → Items → Items
named_item name rest = item (object (field (codes "name") (text (codes name)) no_fields)) rest

abbrev attachment : Fields
attachment =
    field (codes "id") (text (codes "u1"))
      (field (codes "filename") (text (codes "u1_a")) no_fields)

abbrev entry : Fields
entry = field (codes "id") (integer (pos 7)) (
    field (codes "title") (text (codes "Trip")) (
      field (codes "logbooks") (items (named_item "ops" no_items))
        (field (codes "attachments") (items (item (object attachment) no_items)) no_fields)))

-- An entry with the same file twice.
abbrev twice : Fields
twice =
    field (codes "attachments")
      (items (item (object attachment) (item (object attachment) no_items))) no_fields

abbrev answer : Endpoint → Attempt Json
answer (log_entry id) = returned (object entry)
answer logbook_names = returned (items (named_item "ops" (named_item "test" no_items)))
answer tag_names = returned (items no_items)
answer level_names = returned (items (named_item "Info" no_items))

abbrev server : Server
server = record { read = answer; write = λ q. returned (object entry) }

abbrev env : Env
env = record {
  urls = local_urls;
  py = strings;
  fs = files;
  disk = disk;
  ids = λ k. codes "u";
  roots_text = [];
  server = server;
  int_of = λ s. some (pos 7);
  isdigit = λ s. true;
  isascii = λ s. true;
  owner = codes "svc";
}

abbrev world : World
world = record { gate = olog_gate; reads = []; sent = [] }

-- A move of the entry to another logbook.
abbrev edit : Edit
edit = record {
  title = none;
  description = some (codes "Repaired");
  level = some (codes "Info");
  logbooks = some (codes "test" ∷ []);
  tags = none;
}

abbrev seven : Text
seven = codes "7"

update_example :
    IsReport env 5 "update_log_entry"
      (Updates env 5 "update_log_entry" (strip env.urls.platform.space seven) edit)
      world
      (query_olog_update env 5 seven edit world)
update_example = query_olog_update-IsReport env 5 seven edit world

abbrev attached_paths : List Text
attached_paths = codes "/w/a" ∷ []

abbrev carried : List AttachmentMeta
carried =
    record { id = codes "u1"; filename = codes "u1_a"; file_metadata_description = codes "file" }
    ∷ []

round_trip_example :
    (attachment_round_trip strings entry ≡ (carried, [])) ↔ Resubmits strings entry carried
round_trip_example = attachment_round_trip_iff strings entry carried

abbrev specs : List (Spec files)
specs =
    record {
      id = codes "u";
      filename = codes "u_a";
      content_type = none;
      source = path (codes "/w/a");
    }
    ∷ []

abbrev uploads : List AttachmentUpload
uploads =
    record { id = codes "u"; filename = codes "u_a"; content = 1 ∷ 2 ∷ 3 ∷ []; content_type = none }
    ∷ []

uploads_example :
    (read_uploads files disk specs 3 ≡ returned uploads)
    ↔ ((read_whole files disk specs ≡ returned uploads) × (total_size uploads ≤ 3))
uploads_example = read_uploads_iff files disk specs 3 uploads

within_example : (resolve_user_path files (codes "/w") (codes "/w/a") file ≡ ok (codes "/w/a")) ↔ (
    (is_blank files (codes "/w/a") ≡ false)
    × (codes "/w/a" ≡ codes "/w/a")
    × (exists_as files file (codes "/w/a") ≡ true)
    × IsWithin files (codes "/w") (codes "/w/a"))
within_example = resolve_user_path_iff files (codes "/w") (codes "/w/a") file (codes "/w/a")

resolves_new : resolve_new_file_path files [] (codes "/w/a") ≡ ok (codes "/w/a")
unfolding resolve_new_file_path resolve_user_path
resolves_new = refl

IsNewFile-example : IsNewFile files [] (codes "/w/a") (codes "/w/a")
IsNewFile-example =
    resolve_new_file_path-IsNewFile files [] (codes "/w/a") (codes "/w/a") resolves_new

abbrev answered : Json
answered = items (item (object entry) no_items)

abbrev page : SearchPage
page = record {
  entries = map (expand_log_entry strings) (entry ∷ []);
  capped = false;
  total_matches = none;
}

page_read : search_page strings 5 answered ≡ returned page
unfolding search_page
page_read = refl

IsResponse-example : IsResponse strings 5 answered
IsResponse-example = search_page-IsResponse strings 5 answered

-- The move sends one request and leaves one audit line.
update_sends : length (query_olog_update env 5 seven edit world).1.sent ≡ 1
unfolding query_olog_update update_run check_write_env_and_url read_entry raw_entry_of
    unroundtrippable_attachment_filenames check_write_preconditions names named_list
    reject_unknown_level level_list check_write_allowed write_entry update_request confirmed
update_sends = refl
