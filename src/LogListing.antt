-- ===== src/LogListing.antt =====
-- services/olog_client.py: the answers to the reading requests of the electronic logbook, and the
-- filters that are refused before a request is sent.
pub mod Page
use epics_mcp_server.Prelude.{
  ℕ, suc, ◌+◌, Bool, true, false, ◌||◌, Option, none, some, List, [], ◌∷◌, map, ltb, ◌==◌,
  if◌then◌else◌,
}
use epics_mcp_server.Prelude.Int.{ℤ, pos, negsuc}
use epics_mcp_server.Prelude.Texts.{Text, codes, is_empty, member}
use epics_mcp_server.Urls.{strip}
use epics_mcp_server.Faults.{
  Fault, internal, olog_response, Attempt, raised, returned, ◌>>=◌, ◌>>◌, raise_if,
}
use epics_mcp_server.Attach.{take}
use epics_mcp_server.Json.{
  Json, null, text, items, object, boolean, integer, Items, no_items, item, Fields, get, as_text,
  as_object, as_boolean, real,
}
use epics_mcp_server.Entry.{Strings, require_entry, expand_log_entry}

abbrev unreadable {ℓ} : {A : Type ℓ} → Attempt A
unreadable = raised (olog_response none)

abbrev or_unreadable {ℓ} : {A : Type ℓ} → Option A → Attempt A
or_unreadable none = unreadable
or_unreadable (some a) = returned a

abbrev some_entry : Attempt Fields → Attempt (Option Fields)
some_entry (raised f) = raised f
some_entry (returned entry) = returned (some entry)

-- The answer to `get_raw_entry`; `none` for an entry that does not exist.
unfoldable pub raw_entry_of : Attempt Json → Attempt (Option Fields)
unfolding require_entry
raw_entry_of (raised (olog_response (some status))) =
    if status == 404 then returned none else raised (olog_response (some status))
raw_entry_of (raised fault) = raised fault
raw_entry_of (returned payload) = some_entry (require_entry payload)

abbrev name_of : Option Fields → Option Text
name_of none = none
name_of (some fs) = as_text (get (codes "name") fs)

name_each : Items → Attempt (List Text)
unfolding get
name_each no_items = returned []
name_each (item j js) = do
  name ← or_unreadable (name_of (as_object j))
  names ← name_each js
  returned (name ∷ names)

-- `_named_list`
unfoldable pub named_list : Json → Attempt (List Text)
unfolding name_each
named_list (items js) = name_each js
named_list _ = unreadable

-- The default level, with the note where there is none.
pub data DefaultLevel : Type 0 where
  the_default : Text → DefaultLevel
  unreadable_flag no_default : DefaultLevel
  several_defaults : List Text → DefaultLevel

abbrev flag_of : Option Fields → Option Bool
flag_of none = none
flag_of (some fs) = as_boolean (get (codes "defaultLevel") fs)

abbrev add_flagged : Text → Option Bool → Option (List Text) → Option (List Text)
add_flagged name none rest = none
add_flagged name (some b) none = none
add_flagged name (some false) (some names) = some names
add_flagged name (some true) (some names) = some (name ∷ names)

-- The names that are flagged; `none` where a flag is not readable.
unfoldable pub flagged : List Text → Items → Option (List Text)
unfolding get
flagged (name ∷ names) (item j js) = add_flagged name (flag_of (as_object j)) (flagged names js)
flagged _ _ = some []

abbrev pub default_of : Option (List Text) → DefaultLevel
default_of none = unreadable_flag
default_of (some []) = no_default
default_of (some (name ∷ [])) = the_default name
default_of (some (name ∷ other ∷ names)) = several_defaults (name ∷ other ∷ names)

abbrev pub as_items : Json → Items
as_items (items js) = js
as_items _ = no_items

-- `_level_list`
unfoldable pub level_list : Json → Attempt (List Text × DefaultLevel)
unfolding named_list flagged
level_list payload = do
  names ← named_list payload
  returned (names, default_of (flagged names (as_items payload)))

abbrev items_or_unreadable : Json → Attempt Items
items_or_unreadable (items js) = returned js
items_or_unreadable _ = unreadable

-- `_entries_of`
unfoldable pub entries_of : Json → Attempt Items
unfolding get
entries_of (items js) = returned js
entries_of (object fs) = items_or_unreadable (get (codes "logs") fs)
entries_of _ = unreadable

abbrev count_of : Json → Attempt (Option ℤ)
count_of null = returned none
count_of (integer n) = returned (some n)
count_of _ = unreadable

-- `_hit_count`
unfoldable pub hit_count : Json → Attempt (Option ℤ)
unfolding get
hit_count (object fs) = count_of (get (codes "hitCount") fs)
hit_count _ = returned none

require_each : Items → Attempt (List Fields)
unfolding require_entry
require_each no_items = returned []
require_each (item j js) = do
  entry ← require_entry j
  entries ← require_each js
  returned (entry ∷ entries)

abbrev pub item_length : Items → ℕ
item_length no_items = 0
item_length (item j js) = suc (item_length js)

pub record SearchPage : Type 0 where
  pub entries : List Fields
  pub capped : Bool
  pub total_matches : Option ℤ

-- What `search_logbook` makes of the answer to a request for one entry more than `size`
unfoldable pub search_page : Strings → ℕ → Json → Attempt SearchPage
unfolding entries_of hit_count require_each expand_log_entry
search_page py size payload = do
  found ← entries_of payload
  total ← hit_count payload
  records ← require_each found
  returned (record {
    entries = map (expand_log_entry py) (take size records);
    capped = ltb size (item_length found);
    total_matches = total;
  })

abbrev level_separator : ℕ → Bool
level_separator c = (c == b'|') || ((c == b',') || (c == b';'))

abbrev title_separator : (space : ℕ → Bool) → ℕ → Bool
title_separator space c = level_separator c || (space c || (c == b'+'))

abbrev java_space : ℕ → Bool
java_space c = ltb c 33

abbrev cons_part : ℕ → List Text → List Text
cons_part c [] = (c ∷ []) ∷ []
cons_part c (p ∷ ps) = (c ∷ p) ∷ ps

-- `re.split` by a class of separators
unfoldable pub split_class : (ℕ → Bool) → Text → List Text
split_class sep [] = [] ∷ []
split_class sep (c ∷ s) =
    let parts = split_class sep s in if sep c then [] ∷ parts else cons_part c parts

abbrev keep_filled : Text → List Text → List Text
keep_filled [] parts = parts
keep_filled (c ∷ s) parts = (c ∷ s) ∷ parts

unfoldable pub filled_parts : List Text → List Text
unfolding strip
filled_parts [] = []
filled_parts (p ∷ ps) = keep_filled (strip java_space p) (filled_parts ps)

unfoldable pub split_level_values : Text → List Text
unfolding split_class filled_parts
split_level_values value = filled_parts (split_class level_separator value)

abbrev pub some_text : List Text → Bool
some_text [] = false
some_text (t ∷ ts) = true

-- `_reject_blank_filter`, whether it lets a filter pass; `space` is `\s` of a character.
unfoldable pub passes_filter : (space : ℕ → Bool) → (is_title : Bool) → Option Text → Bool
unfolding split_class filled_parts
passes_filter space is_title none = true
passes_filter space true (some value) =
    some_text (filled_parts (split_class (title_separator space) value))
passes_filter space false (some value) =
    some_text (filled_parts (split_class level_separator value))
