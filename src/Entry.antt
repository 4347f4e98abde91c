-- ===== src/Entry.antt =====
-- services/olog_client.py: the log entry that a client reads, the attachments that an update of it has
-- to name again, and what a write puts into its request.
pub mod RoundTrip
use epics_mcp_server.Prelude.{◌<◌, Option, none, some, List, [], ◌∷◌, if◌then◌else◌}
use epics_mcp_server.Prelude.Texts.{Text, codes, is_empty, text_eq, member, starts_with}
use epics_mcp_server.Prelude.Sorted.{sorted_set}
use epics_mcp_server.Faults.{
  Fault, olog_response, olog_unsafe, Attempt, raised, returned, ◌>>=◌, ◌>>◌, raise_if,
}
use epics_mcp_server.Attach.{AttachmentUpload}
use epics_mcp_server.Json.{
  Json, null, text, items, object, Items, no_items, item, Fields, no_fields, field, get, has_key,
  put, is_null, as_text, truthy, str_of, count_items, texts, as_object,
}

-- What Python does with texts: `str` of a value that is no text, and `str.lower`.
pub record Strings : Type 0 where
  pub repr : Json → Text
  pub lower : Text → Text

pub record AttachmentMeta : Type 0 where
  pub id : Text
  pub filename : Text
  pub file_metadata_description : Text

-- What the loop of `attachment_round_trip` makes of one attachment.
pub data Verdict : Type 0 where
  offends : Text → Verdict
  survives : AttachmentMeta → Verdict

abbrev or_file : Json → Json
or_file value = if truthy value then value else text (codes "file")

module _ (py : Strings) where
  abbrev pub meta_of : Text → Fields → AttachmentMeta
  meta_of filename fs = record {
    id = str_of py.repr (get (codes "id") fs);
    filename = filename;
    file_metadata_description = str_of py.repr (or_file (get (codes "fileMetadataDescription") fs));
  }

  abbrev pub judge_named : List Text → Fields → Option Text → Verdict
  judge_named seen fs (some []) = offends (codes "<no filename>")
  judge_named seen fs (some (c ∷ name)) =
      if is_null (get (codes "id") fs)
      then offends (c ∷ name)
      else if member (py.lower (c ∷ name)) seen
      then offends (c ∷ name)
      else survives (meta_of (c ∷ name) fs)
  judge_named seen fs none = offends (codes "<no filename>")

  abbrev pub judge_fields : List Text → Option Fields → Verdict
  judge_fields seen none = offends (codes "<unreadable attachment>")
  judge_fields seen (some fs) = judge_named seen fs (as_text (get (codes "filename") fs))

  unfoldable pub judge : List Text → Json → Verdict
  unfolding get member
  judge seen j = judge_fields seen (as_object j)

  abbrev pub seen_after : List Text → Verdict → List Text
  seen_after seen (offends name) = seen
  seen_after seen (survives m) = py.lower m.filename ∷ seen

abbrev pub add_verdict : Verdict → List AttachmentMeta × List Text → List AttachmentMeta × List Text
add_verdict (offends name) (meta, offenders) = (meta, name ∷ offenders)
add_verdict (survives m) (meta, offenders) = (m ∷ meta, offenders)

module _ (py : Strings) where
  -- The loop, from the keys that it has seen.
  unfoldable pub walk : List Text → Items → List AttachmentMeta × List Text
  unfolding judge
  walk seen no_items = ([], [])
  walk seen (item j js) = let v = judge py seen j in add_verdict v (walk (seen_after py seen v) js)

  abbrev pub round_trip_of : Json → List AttachmentMeta × List Text
  round_trip_of null = ([], [])
  round_trip_of (items js) = let (meta, offenders) = walk [] js in (meta, sorted_set offenders)
  round_trip_of _ = ([], codes "<unreadable attachment list>" ∷ [])

  unfoldable pub attachment_round_trip : Fields → List AttachmentMeta × List Text
  unfolding get walk sorted_set
  attachment_round_trip raw = round_trip_of (get (codes "attachments") raw)

  unfoldable pub unroundtrippable_attachment_filenames : Fields → List Text
  unfolding attachment_round_trip
  unroundtrippable_attachment_filenames raw = (attachment_round_trip raw).1

-- `_require_entry`
unfoldable pub require_entry : Json → Attempt Fields
unfolding get
require_entry (object fs) =
    if is_null (get (codes "id") fs) then raised (olog_response none) else returned fs
require_entry _ = raised (olog_response none)

module _ (py : Strings) where
  abbrev add_name : Json → List Text → List Text
  add_name (object fs) names =
      if has_key (codes "name") fs then str_of py.repr (get (codes "name") fs) ∷ names else names
  add_name _ names = names

  item_names : Items → List Text
  unfolding get has_key
  item_names no_items = []
  item_names (item j js) = add_name j (item_names js)

  -- `_names`
  unfoldable pub names : Json → List Text
  unfolding item_names
  names (items js) = item_names js
  names _ = []

  -- `_derive_shape` of a copy of the entry, which is `_expand_log_entry`
  unfoldable pub expand_log_entry : Fields → Fields
  unfolding get put names
  expand_log_entry entry =
      put (codes "attachment_count") (count_items (get (codes "attachments") entry)) (
        put (codes "tags") (items (texts (names (get (codes "tags") entry))))
          (put (codes "logbooks") (items (texts (names (get (codes "logbooks") entry)))) entry))
