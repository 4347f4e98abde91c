-- ===== src/Channels/Properties.antt =====
-- Where the properties of a channel come from.

use epics_mcp_server.Prelude.{◌≡◌, refl, ◌⊎◌, inl, inr, Option, none, some, [], ◌∷◌}
use epics_mcp_server.Prelude.Texts.{Text, codes}
use epics_mcp_server.Json.{
  Json, null, boolean, integer, real, text, items, object, Items, no_items, item, Fields, get,
  as_object, as_text_iff, as_object_iff, as_text, no_fields,
}
use epics_mcp_server.Redact.{Every, Every-put}
use epics_mcp_server.Channels.Listing.{properties_of, put_property, raw_properties, field_of}

-- A property of the record, with its name and its value
abbrev pub HasProperty : Text → Text → Items → Type 0
HasProperty k v no_items = ⊥
HasProperty k v (item j js) =
    ((fs : Fields) × (j ≡ object fs)
      × (get (codes "name") fs ≡ text k)
      × (get (codes "value") fs ≡ text v))
    ⊎ HasProperty k v js

-- The record has the property in its list of properties.
abbrev pub Carries : Fields → Text → Text → Type 0
Carries channel k v =
    (js : Items) × (get (codes "properties") channel ≡ items js) × HasProperty k v js

-- Every entry is a text for which the relation holds.
abbrev Texts : (Text → Text → Type 0) → Fields → Type 0
Texts P = Every (λ k j. (v : Text) × (j ≡ text v) × P k v)

put_property-Every :
    (P : Text → Text → Type 0) (name value : Option Text) (props : Fields)
    → ((k v : Text) → name ≡ some k → value ≡ some v → P k v)
    → Texts P props
    → Texts P (put_property name value props)
put_property-Every P (some (c ∷ s)) (some v) props new h =
    Every-put _ (c ∷ s) (text v) props (v, refl, new (c ∷ s) v refl refl) h
put_property-Every P (some (c ∷ s)) none props new h = h
put_property-Every P (some []) value props new h = h
put_property-Every P none value props new h = h

item-Every :
    (P : Text → Text → Type 0) (o : Option Fields) (props : Fields)
    → ((fs : Fields) (k v : Text)
        → o ≡ some fs
        → get (codes "name") fs ≡ text k
        → get (codes "value") fs ≡ text v
        → P k v)
    → Texts P props
    → Texts P (
        put_property
          (as_text (field_of (codes "name") o))
          (as_text (field_of (codes "value") o))
          props)
item-Every P none props new h = h
item-Every P (some fs) props new h =
    put_property-Every P _ _ props
      (λ k v e f. new fs k v refl ((as_text_iff _ k).0 e) ((as_text_iff _ v).0 f)) h

properties_of-Every :
    (P : Text → Text → Type 0) (js : Items) (props : Fields)
    → ((k v : Text) → HasProperty k v js → P k v)
    → Texts P props
    → Texts P (properties_of js props)
unfolding properties_of
properties_of-Every P no_items props new h = h
properties_of-Every P (item j js) props new h =
    properties_of-Every P js _ (λ k v p. new k v (inr p))
      (item-Every P (as_object j) props
        (λ fs k v e f g. new k v (inl (fs, (as_object_iff j fs).0 e, f, g))) h)

pub raw_properties-Every :
    (P : Text → Text → Type 0) (j : Json)
    → ((js : Items) (k v : Text) → j ≡ items js → HasProperty k v js → P k v)
    → Texts P (raw_properties j)
raw_properties-Every P (items js) new =
    properties_of-Every P js no_fields (λ k v p. new js k v refl p) tt
raw_properties-Every P null new = tt
raw_properties-Every P (boolean b) new = tt
raw_properties-Every P (integer n) new = tt
raw_properties-Every P (real s b) new = tt
raw_properties-Every P (text s) new = tt
raw_properties-Every P (object fs) new = tt
