-- ===== src/LogClient.antt =====
-- services/olog_client.py: the requests of the client of the electronic logbook and what it reads from
-- the answers. The transport is the parameter `Server`.
pub mod Overlay
use epics_mcp_server.Prelude.{
  ℕ, ◌+◌, ◌-◌, Bool, true, false, not, Option, none, some, List, [], ◌∷◌, ◌++◌, if◌then◌else◌,
}
use epics_mcp_server.Prelude.Int.{ℤ, pos, negsuc}
use epics_mcp_server.Prelude.Texts.{Text, codes, is_empty, text_eq, member, starts_with}
use epics_mcp_server.Faults.{
  Fault, internal, olog_response, olog_unsafe, Attempt, raised, returned, ◌>>=◌, ◌>>◌, raise_if,
}
use epics_mcp_server.Attach.{AttachmentUpload, take}
use epics_mcp_server.Json.{
  Json, null, text, items, object, boolean, integer, Items, no_items, item, Fields, field,
  no_fields, get, as_text, as_object, texts,
}
use epics_mcp_server.Entry.{
  Strings, AttachmentMeta, attachment_round_trip, require_entry, expand_log_entry,
}

abbrev is_given {ℓ} : {A : Type ℓ} → Option A → Bool
is_given none = false
is_given (some a) = true

abbrev pub or_else {ℓ} : {A : Type ℓ} → Option A → A → A
or_else none a = a
or_else (some b) a = b

abbrev pub no_texts : List Text → Bool
no_texts [] = true
no_texts (t ∷ ts) = false

-- A part of a request that carries a file: its name, bytes and type.
pub record FilePart : Type 0 where
  pub filename : Text
  pub content : List ℕ
  pub content_type : Text

-- `_attachment_meta_description`
unfoldable pub attachment_meta_description : Option Text → Text
unfolding starts_with
attachment_meta_description content_type =
    if starts_with (or_else content_type []) (codes "image") then codes "image" else codes "file"

abbrev or_octets : Text → Text
or_octets [] = codes "application/octet-stream"
or_octets (c ∷ s) = c ∷ s

-- The two lists of `_attachment_parts`
unfoldable pub new_meta : List AttachmentUpload → List AttachmentMeta
unfolding attachment_meta_description
new_meta [] = []
new_meta (u ∷ us) =
    record {
      id = u.id;
      filename = u.filename;
      file_metadata_description = attachment_meta_description u.content_type;
    }
    ∷ new_meta us

unfoldable pub file_parts : List AttachmentUpload → List FilePart
file_parts [] = []
file_parts (u ∷ us) =
    record {
      filename = u.filename;
      content = u.content;
      content_type = or_octets (or_else u.content_type []);
    }
    ∷ file_parts us

-- The body of a create; a level or tags that are not sent are `none`.
pub record CreateBody : Type 0 where
  pub title : Text
  pub logbooks : List Text
  pub description : Text
  pub level : Option Text
  pub tags : Option (List Text)

-- The whole entry that an update submits.
pub record LogJson : Type 0 where
  pub id : Json
  pub title : Json
  pub description : Json
  pub source : Json
  pub level : Json
  pub logbooks : Json
  pub tags : Json
  pub properties : Json
  pub attachments : List AttachmentMeta

-- The requests that write, each with the reply's target or the parts it carries.
pub data Request : Type 0 where
  put_logs : CreateBody → (in_reply_to : Option Text) → Request
  put_multipart :
      CreateBody → (in_reply_to : Option Text) → List AttachmentMeta → List FilePart → Request
  post_multipart : LogJson → List FilePart → Request

-- The requests that read.
pub data Endpoint : Type 0 where
  log_entry : Text → Endpoint
  logbook_names tag_names level_names : Endpoint

pub record Server : Type 0 where
  pub read : Endpoint → Attempt Json
  pub write : Request → Attempt Json

abbrev sent_tags : Option (List Text) → Option (List Text)
sent_tags none = none
sent_tags (some []) = none
sent_tags (some (t ∷ ts)) = some (t ∷ ts)

abbrev create_body : Text → List Text → Option Text → Option Text → Option (List Text) → CreateBody
create_body title logbooks description level tags = record {
  title = title;
  logbooks = logbooks;
  description = or_else description [];
  level = level;
  tags = sent_tags tags;
}

abbrev create_with : CreateBody → Option Text → List AttachmentUpload → Request
create_with body in_reply_to [] = put_logs body in_reply_to
create_with body in_reply_to (u ∷ us) =
    put_multipart body in_reply_to (new_meta (u ∷ us)) (file_parts (u ∷ us))

-- The request of `create_log_entry`; no attachments are an empty list, or none.
unfoldable pub create_request :
    Text
    → List Text
    → Option Text
    → Option Text
    → Option (List Text)
    → Option Text
    → List AttachmentUpload
    → Request
unfolding new_meta file_parts
create_request title logbooks description level tags in_reply_to uploads =
    create_with (create_body title logbooks description level tags) in_reply_to uploads

abbrev some_offender : List Text → Bool
some_offender offenders = not (no_texts offenders)

abbrev text_or_empty : Json → Text
text_or_empty value = or_else (as_text value) []

abbrev marked_source : Json → Text → Json
marked_source source [] = source
marked_source source (c ∷ markup) = text (text_or_empty source ++ c ∷ markup)

abbrev parsed : Option ℤ → Attempt Json
parsed none = raised internal
parsed (some n) = returned (integer n)

abbrev attached : Fields → Json → Json → List AttachmentMeta → LogJson
attached raw id source attachments = record {
  id = id;
  title = get (codes "title") raw;
  description = get (codes "description") raw;
  source = source;
  level = get (codes "level") raw;
  logbooks = get (codes "logbooks") raw;
  tags = get (codes "tags") raw;
  properties = get (codes "properties") raw;
  attachments = attachments;
}

-- The fields that an edit names.
pub record Edit : Type 0 where
  pub title : Option Text
  pub description : Option Text
  pub level : Option Text
  pub logbooks : Option (List Text)
  pub tags : Option (List Text)

abbrev pub overlay : Option Text → Json → Json
overlay none kept = kept
overlay (some s) kept = text s

abbrev named : List Text → Items
named [] = no_items
named (n ∷ ns) = item (object (field (codes "name") (text n) no_fields)) (named ns)

abbrev pub overlay_names : Option (List Text) → Json → Json
overlay_names none kept = kept
overlay_names (some ns) kept = items (named ns)

abbrev edited : Fields → Edit → List AttachmentMeta → LogJson
edited raw edit attachments = record {
  id = get (codes "id") raw;
  title = overlay edit.title (get (codes "title") raw);
  description = text (or_else edit.description (text_or_empty (get (codes "description") raw)));
  source = overlay edit.description (get (codes "source") raw);
  level = overlay edit.level (get (codes "level") raw);
  logbooks = overlay_names edit.logbooks (get (codes "logbooks") raw);
  tags = overlay_names edit.tags (get (codes "tags") raw);
  properties = get (codes "properties") raw;
  attachments = attachments;
}

-- `int(log_id)` is a parameter; `none` where it raises.
module _ (py : Strings) (int_of : Text → Option ℤ) where
  -- The request of `add_attachment`
  unfoldable pub add_request : Text → Fields → List AttachmentUpload → Text → Attempt Request
  unfolding attachment_round_trip new_meta file_parts get
  add_request log_id raw uploads inline_markup = do
    let (existing, offenders) = attachment_round_trip py raw
    raise_if (some_offender offenders) olog_unsafe
    id ← parsed (int_of log_id)
    let source = marked_source (get (codes "source") raw) inline_markup
    returned (
        post_multipart (attached raw id source (existing ++ new_meta uploads)) (file_parts uploads))

module _ (py : Strings) where
  -- The request of `update_log_entry`
  unfoldable pub update_request : Fields → Edit → Attempt Request
  unfolding attachment_round_trip get
  update_request raw edit = do
    let (existing, offenders) = attachment_round_trip py raw
    raise_if (some_offender offenders) olog_unsafe
    returned (post_multipart (edited raw edit existing) [])

  -- What a write makes of the answer; an error of the transport keeps its class and its status.
  unfoldable pub confirmed : Attempt Json → Attempt Fields
  unfolding require_entry expand_log_entry
  confirmed answer = do
    payload ← answer
    entry ← require_entry payload
    returned (expand_log_entry py entry)
