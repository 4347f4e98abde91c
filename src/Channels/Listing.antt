-- ===== src/Channels/Listing.antt =====
-- services/channelfinder_client.py: what the client makes of the answers of ChannelFinder. `fetch` is
-- the request, `space` white space, `repr` `str` of a value that is no text, and `int_of` Python's `int`
-- of a text.
use epics_mcp_server.Prelude.{ℕ, Bool, Option, none, some, List, [], ◌∷◌, if◌then◌else◌}
use epics_mcp_server.Prelude.Int.{ℤ}
use epics_mcp_server.Prelude.Texts.{Text, codes, is_empty, member, split}
use epics_mcp_server.Prelude.Sorted.{text_lt}
use epics_mcp_server.Urls.{strip}
use epics_mcp_server.Json.{
  Json, null, integer, text, items, Items, no_items, item, Fields, no_fields, get, has_key, put,
  as_text, as_object, str_of,
}
use epics_mcp_server.Transport.{Outcome, returned, resp_exc, ◌>>=◌}
use epics_mcp_server.Redact.{project_allowlist}
use epics_mcp_server.Channels.{Params, Filters, build_query_params}

-- The tokens of a setting that are not blank
unfoldable pub stripped_tokens : (ℕ → Bool) → List Text → List Text
unfolding strip
stripped_tokens space [] = []
stripped_tokens space (t ∷ ts) =
    let rest = stripped_tokens space ts in
    if is_empty (strip space t) then rest else strip space t ∷ rest

-- `_resolve_allowlist`
unfoldable pub resolve_allowlist : (ℕ → Bool) → Option Text → List Text → List Text
unfolding stripped_tokens split
resolve_allowlist space none default = default
resolve_allowlist space (some value) default = stripped_tokens space (split b',' value)

abbrev pub safe_owner_accounts : List Text
safe_owner_accounts = codes "recceiver" ∷ []

abbrev pub safe_property_names : List Text
safe_property_names =
    codes "iocName" ∷ codes "hostName" ∷ codes "iocid" ∷ codes "pvStatus" ∷ codes "time" ∷ []

-- `sorted`
unfoldable pub insert : Text → List Text → List Text
unfolding text_lt
insert x [] = x ∷ []
insert x (t ∷ ts) = let later = insert x ts in if text_lt t x then t ∷ later else x ∷ t ∷ ts

unfoldable pub sorted : List Text → List Text
unfolding insert
sorted [] = []
sorted (t ∷ ts) = insert t (sorted ts)

abbrev pub field_of : Text → Option Fields → Json
field_of key none = null
field_of key (some fs) = get key fs

abbrev name_or_error : Option Text → Outcome Text
name_or_error none = resp_exc none
name_or_error (some name) = returned name

unfoldable pub names_each : Items → Outcome (List Text)
unfolding get
names_each no_items = returned []
names_each (item j js) = do
  name ← name_or_error (as_text (field_of (codes "name") (as_object j)))
  rest ← names_each js
  returned (name ∷ rest)

-- `_named_list`
unfoldable pub named_list : Json → Outcome (List Text)
unfolding names_each
named_list (items js) = names_each js
named_list _ = resp_exc none

-- A property that has a name, not empty, and a text
abbrev pub put_property : Option Text → Option Text → Fields → Fields
put_property (some (c ∷ s)) (some value) props = put (c ∷ s) (text value) props
put_property _ _ props = props

unfoldable pub properties_of : Items → Fields → Fields
unfolding get put
properties_of no_items props = props
properties_of (item j js) props = properties_of js (
    put_property (as_text (field_of (codes "name") (as_object j)))
      (as_text (field_of (codes "value") (as_object j))) props)

abbrev pub raw_properties : Json → Fields
raw_properties (items js) = properties_of js no_fields
raw_properties _ = no_fields

abbrev add_tag : Option Text → List Text → List Text
add_tag (some (c ∷ s)) tags = (c ∷ s) ∷ tags
add_tag _ tags = tags

unfoldable pub tags_of : Items → List Text
unfolding get
tags_of no_items = []
tags_of (item j js) = add_tag (as_text (field_of (codes "name") (as_object j))) (tags_of js)

abbrev raw_tags : Json → List Text
raw_tags (items js) = tags_of js
raw_tags _ = []

pub record ChannelInfo : Type 0 where
  pub name : Text
  pub owner : Text
  pub ioc_name : Option Text
  pub host_name : Option Text
  pub properties : Fields
  pub tags : List Text

pub data Request : Type 0 where
  channels count : Params → Request
  properties tags : Request

abbrev pub not_empty : Option Text → Outcome Text
not_empty (some (c ∷ s)) = returned (c ∷ s)
not_empty _ = resp_exc none

module _ (repr : Json → Text) (owners allowed : List Text) where
  abbrev pub raw_owner : Fields → Text
  raw_owner channel =
      if has_key (codes "owner") channel then str_of repr (get (codes "owner") channel) else []

  abbrev pub safe_owner : Text → Text
  safe_owner owner = if member owner owners then owner else []

  abbrev pub safe_properties : Fields → Fields
  safe_properties channel =
      project_allowlist allowed (raw_properties (get (codes "properties") channel))

  abbrev pub info : Fields → Text → ChannelInfo
  info channel name =
      let props = safe_properties channel in
      record {
        name = name;
        owner = safe_owner (raw_owner channel);
        ioc_name = as_text (get (codes "iocName") props);
        host_name = as_text (get (codes "hostName") props);
        properties = props;
        tags = sorted (raw_tags (get (codes "tags") channel));
      }

  -- `_project`
  unfoldable pub project : Fields → Outcome ChannelInfo
  unfolding get has_key member project_allowlist properties_of tags_of sorted
  project channel = do
    name ← not_empty (as_text (get (codes "name") channel))
    returned (info channel name)

  abbrev pub project_object : Option Fields → Outcome ChannelInfo
  project_object none = resp_exc none
  project_object (some channel) = project channel

  unfoldable pub project_each : Items → Outcome (List ChannelInfo)
  unfolding project
  project_each no_items = returned []
  project_each (item j js) = do
    first ← project_object (as_object j)
    rest ← project_each js
    returned (first ∷ rest)

  abbrev pub channels_of : Json → Outcome (List ChannelInfo)
  channels_of (items js) = project_each js
  channels_of _ = resp_exc none

  module _ (space : ℕ → Bool) (fetch : Request → Outcome Json) where
    -- `size` is the text of `max_results`.
    unfoldable pub find_channels : Text → Text → Filters → Outcome (List ChannelInfo)
    unfolding build_query_params project_each
    find_channels name_pattern size f = do
      params ← build_query_params space allowed name_pattern (some size) f
      payload ← fetch (channels params)
      channels_of payload

abbrev int_or_error : Option ℤ → Outcome ℤ
int_or_error none = resp_exc none
int_or_error (some n) = returned n

abbrev count_of : (Text → Option ℤ) → Json → Outcome ℤ
count_of int_of (integer n) = returned n
count_of int_of (text s) = int_or_error (int_of s)
count_of int_of _ = resp_exc none

unfoldable pub only : List Text → List Text → List Text
unfolding member
only allowed [] = []
only allowed (n ∷ ns) = let rest = only allowed ns in if member n allowed then n ∷ rest else rest

module _ (space : ℕ → Bool) (allowed : List Text) (fetch : Request → Outcome Json) where
  unfoldable pub count_channels : (Text → Option ℤ) → Text → Filters → Outcome ℤ
  unfolding build_query_params
  count_channels int_of name_pattern f = do
    params ← build_query_params space allowed name_pattern none f
    payload ← fetch (count params)
    count_of int_of payload

  unfoldable pub list_properties : Outcome (List Text)
  unfolding named_list only sorted
  list_properties = do
    payload ← fetch properties
    names ← named_list payload
    returned (sorted (only allowed names))

  unfoldable pub list_tags : Outcome (List Text)
  unfolding named_list sorted
  list_tags = do payload ← fetch tags; names ← named_list payload; returned (sorted names)
