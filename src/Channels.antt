-- ===== src/Channels.antt =====
-- services/channelfinder_client.py: the queries of the client of ChannelFinder. White space is the
-- parameter `space`, and the filters that the site allows are `allowed`.
pub mod Keys
pub mod Query
pub mod Listing
pub mod Properties
pub mod Redacted
use epics_mcp_server.Prelude.{
  ℕ, ◌+◌, ◌*◌, Bool, true, false, not, ◌||◌, Option, none, some, List, [], ◌∷◌, ◌++◌, ◌==◌,
  if◌then◌else◌, any,
}
use epics_mcp_server.Prelude.Texts.{Text, codes, is_empty, text_eq, starts_with, member, contains}
use epics_mcp_server.Urls.{strip}
use epics_mcp_server.Transport.{Outcome, returned, value_error, ◌>>=◌, ◌>>◌}

abbrev pub Params : Type 0
Params = List (Text × Text)

-- `params[key] = value`
unfoldable pub put : Text → Text → Params → Params
unfolding text_eq
put key value [] = (key, value) ∷ []
put key value ((k, v) ∷ ps) =
    let rest = put key value ps in if text_eq k key then (k, value) ∷ ps else (k, v) ∷ rest

-- `s.endswith("!")`
unfoldable pub ends_negated : Text → Bool
ends_negated [] = false
ends_negated (c ∷ []) = c == b'!'
ends_negated (c ∷ d ∷ s) = ends_negated (d ∷ s)

abbrev pub negated : Text → Text
negated name = name ++ b'!' ∷ []

abbrev pub invalid_if : Bool → Outcome (Unit {0})
invalid_if false = returned tt
invalid_if true = value_error

-- `"|".join(tags)`
unfoldable pub joined : List Text → Text
joined [] = []
joined (t ∷ []) = t
joined (t ∷ u ∷ ts) = t ++ b'|' ∷ joined (u ∷ ts)

abbrev pub no_tags : List Text → Bool
no_tags [] = true
no_tags (t ∷ ts) = false

abbrev pub any_common : List Text → List Text → Bool
any_common [] us = false
any_common (t ∷ ts) us = member t us || any_common ts us

-- The filters of a query; an argument that is not given is empty.
pub record Filters : Type 0 where
  pub has_properties : List (Text × Text)
  pub lacks_properties : List Text
  pub not_property_values : List (Text × Text)
  pub has_tags : List Text
  pub lacks_tags : List Text

-- The parameters so far, and the names that they claim.
pub record Building : Type 0 where
  pub params : Params
  pub claimed : List Text

-- `params[key] = value`, for a name that is claimed
abbrev pub filed : Text → Text → Text → Building → Building
filed key value clean b = record { params = put key value b.params; claimed = clean ∷ b.claimed }

abbrev pub has_separator : Text → Bool
has_separator value = any (λ c. c == b'|' || (c == b',' || c == b';')) value

abbrev pub put_tags : Text → List Text → Params → Params
put_tags key [] params = params
put_tags key (t ∷ ts) params = put key (joined (t ∷ ts)) params

-- The parameters that every query has; a count has no size.
abbrev pub base_params : Text → Option Text → Params
base_params pattern_text none = (codes "~name", pattern_text) ∷ []
base_params pattern_text (some size) = (codes "~name", pattern_text) ∷ (codes "~size", size) ∷ []

module _ (space : ℕ → Bool) where
  abbrev pub is_blank : Text → Bool
  is_blank s = is_empty (strip space s)

  -- `_validate_filter_name`
  unfoldable pub validate_filter_name : Text → Outcome Text
  unfolding ends_negated starts_with strip
  validate_filter_name name = do
    let clean = strip space name
    invalid_if (is_empty clean)
    invalid_if (starts_with clean (codes "~"))
    invalid_if (ends_negated clean)
    returned clean

  unfoldable pub validate_each : List Text → Outcome (List Text)
  unfolding validate_filter_name
  validate_each [] = returned []
  validate_each (t ∷ ts) = do
    clean ← validate_filter_name t
    rest ← validate_each ts
    returned (clean ∷ rest)

  module _ (allowed : List Text) where
    -- `_claim_property`
    unfoldable pub claim_property : Text → List Text → Outcome Text
    unfolding validate_filter_name member
    claim_property name claimed = do
      clean ← validate_filter_name name
      invalid_if (not (member clean allowed))
      invalid_if (member clean claimed)
      returned clean

    unfoldable pub add_has : List (Text × Text) → Building → Outcome Building
    unfolding claim_property put
    add_has [] b = returned b
    add_has ((name, value) ∷ filters) b = do
      clean ← claim_property name b.claimed
      invalid_if (is_blank value)
      add_has filters (filed clean value clean b)

    unfoldable pub add_lacks : List Text → Building → Outcome Building
    unfolding claim_property put
    add_lacks [] b = returned b
    add_lacks (name ∷ names) b = do
      clean ← claim_property name b.claimed
      add_lacks names (filed (negated clean) (codes "*") clean b)

    unfoldable pub add_not : List (Text × Text) → Building → Outcome Building
    unfolding claim_property put
    add_not [] b = returned b
    add_not ((name, value) ∷ filters) b = do
      clean ← claim_property name b.claimed
      invalid_if (is_blank value)
      invalid_if (has_separator value)
      add_not filters (filed (negated clean) value clean b)

    -- `_build_query_params`; `size` is the text of `max_results`, if it is included.
    unfoldable pub build_query_params : Text → Option Text → Filters → Outcome Params
    unfolding add_has add_lacks add_not validate_each put joined
    build_query_params pattern_text size f = do
      has ←
          add_has f.has_properties (record { params = base_params pattern_text size; claimed = [] })
      lacks ← add_lacks f.lacks_properties has
      built ← add_not f.not_property_values lacks
      has_tags ← validate_each f.has_tags
      lacks_tags ← validate_each f.lacks_tags
      invalid_if (any_common has_tags lacks_tags)
      returned (put_tags (codes "~tag!") lacks_tags (put_tags (codes "~tag") has_tags built.params))
