-- ===== src/Tests/Registry.antt =====
-- Runs of the client of ChannelFinder.
use epics_mcp_server.Prelude.{ℕ, ◌≡◌, refl, Bool, none, some, [], ◌∷◌, ◌==◌}
use epics_mcp_server.Prelude.Texts.{Text, codes}
use epics_mcp_server.Json.{Json, text, items, object, no_items, item, Fields, no_fields, field}
use epics_mcp_server.Transport.{Outcome, returned, resp_exc}
use epics_mcp_server.Channels.{Filters}
use epics_mcp_server.Channels.Listing.{
  ChannelInfo, Request, channels, properties, safe_owner_accounts, safe_property_names,
  find_channels, list_properties,
}
use epics_mcp_server.Channels.Redacted.{IsListing, find_channels-IsListing}

abbrev space : ℕ → Bool
space c = c == 32

abbrev repr : Json → Text
repr j = codes "None"

abbrev no_filters : Filters
no_filters = record {
  has_properties = [];
  lacks_properties = [];
  not_property_values = [];
  has_tags = [];
  lacks_tags = [];
}

abbrev property : Text → Text → Json
property name value =
    object (field (codes "name") (text name) (field (codes "value") (text value) no_fields))

-- The channel of a person, with a property that is not allowed
abbrev channel : Fields
channel = field (codes "name") (text (codes "A:B")) (
    field (codes "owner") (text (codes "ann")) (
      field (codes "properties")
        (items (
          item (property (codes "iocName") (codes "ioc1"))
            (item (property (codes "ENGINEER") (codes "ann")) no_items)))
        no_fields))

abbrev fetch : Request → Outcome Json
fetch (channels params) = returned (items (item (object channel) no_items))
fetch properties = returned (
    items (
      item (property (codes "time") [])
        (item (property (codes "ENGINEER") []) (item (property (codes "iocid") []) no_items))))
fetch _ = resp_exc none

abbrev shown : ChannelInfo
shown = record {
  name = codes "A:B";
  owner = [];
  ioc_name = some (codes "ioc1");
  host_name = none;
  properties = field (codes "iocName") (text (codes "ioc1")) no_fields;
  tags = [];
}

find_runs :
    find_channels repr safe_owner_accounts safe_property_names space fetch
      (codes "A*")
      (codes "9")
      no_filters
    ≡ returned (shown ∷ [])
unfolding find_channels
find_runs = refl

list_runs :
    list_properties space safe_property_names fetch ≡ returned (codes "iocid" ∷ codes "time" ∷ [])
unfolding list_properties
list_runs = refl

IsListing-example :
    IsListing repr safe_owner_accounts safe_property_names space fetch
      (codes "A*")
      (codes "9")
      no_filters
IsListing-example =
    find_channels-IsListing repr safe_owner_accounts safe_property_names space fetch (codes "A*")
      (codes "9") no_filters
