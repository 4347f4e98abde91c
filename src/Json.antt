-- ===== src/Json.antt =====
-- Values of the JSON payloads that the service clients read and write.
use epics_mcp_server.Prelude.{
  ℕ, zero, suc, ◌≡◌, refl, ◌↔◌, Bool, true, false, not, ◌||◌, Option, none, some, List, [], ◌∷◌,
  if◌then◌else◌,
}
use epics_mcp_server.Prelude.Int.{ℤ, pos, negsuc}
use epics_mcp_server.Prelude.Texts.{Text, is_empty, text_eq}

-- A value that `json.loads` returns, or that the code builds; `real` is a float, by what `str` and
-- `bool` make of it.
mutual
  pub data Json : Type 0 where
    null : Json
    boolean : Bool → Json
    integer : ℤ → Json
    real : Text → Bool → Json
    text : Text → Json
    items : Items → Json
    object : Fields → Json

  pub data Items : Type 0 where
    no_items : Items
    item : Json → Items → Items

  pub data Fields : Type 0 where
    no_fields : Fields
    field : Text → Json → Fields → Fields

-- `fields.get(key)`; `None` is also what a missing key gives.
unfoldable pub get : Text → Fields → Json
unfolding text_eq
get key no_fields = null
get key (field k v fs) = let rest = get key fs in if text_eq k key then v else rest

-- `key in fields`
unfoldable pub has_key : Text → Fields → Bool
unfolding text_eq
has_key key no_fields = false
has_key key (field k v fs) = text_eq k key || has_key key fs

-- `fields[key] = value`
unfoldable pub put : Text → Json → Fields → Fields
unfolding text_eq
put key value no_fields = field key value no_fields
put key value (field k v fs) =
    let rest = put key value fs in if text_eq k key then field k value fs else field k v rest

abbrev pub is_null : Json → Bool
is_null null = true
is_null _ = false

-- The text of a `str`.
abbrev pub as_text : Json → Option Text
as_text (text s) = some s
as_text _ = none

-- A `bool`.
abbrev pub as_boolean : Json → Option Bool
as_boolean (boolean b) = some b
as_boolean _ = none

-- The fields of a `dict`.
abbrev pub as_object : Json → Option Fields
as_object (object fs) = some fs
as_object _ = none

-- `bool(value)`
abbrev pub truthy : Json → Bool
truthy null = false
truthy (boolean b) = b
truthy (integer (pos zero)) = false
truthy (integer (pos (suc n))) = true
truthy (integer (negsuc n)) = true
truthy (real s b) = b
truthy (text s) = not (is_empty s)
truthy (items no_items) = false
truthy (items (item j js)) = true
truthy (object no_fields) = false
truthy (object (field k v fs)) = true

-- `str(value)`; `repr` is `str` of a value that is no text.
abbrev pub str_of : (repr : Json → Text) → Json → Text
str_of repr (text s) = s
str_of repr value = repr value

abbrev item_count : Items → ℕ
item_count no_items = 0
item_count (item j js) = suc (item_count js)

-- `len(value) if isinstance(value, list) else 0`
abbrev pub count_items : Json → Json
count_items (items js) = integer (pos (item_count js))
count_items _ = integer (pos 0)

abbrev pub texts : List Text → Items
texts [] = no_items
texts (s ∷ ss) = item (text s) (texts ss)

pub is_null_iff : (j : Json) → (is_null j ≡ true) ↔ (j ≡ null)
is_null_iff null = (λ h. refl, λ h. refl)
is_null_iff (boolean b) = (λ h. cc, λ h. cc)
is_null_iff (integer n) = (λ h. cc, λ h. cc)
is_null_iff (real s b) = (λ h. cc, λ h. cc)
is_null_iff (text s) = (λ h. cc, λ h. cc)
is_null_iff (items js) = (λ h. cc, λ h. cc)
is_null_iff (object fs) = (λ h. cc, λ h. cc)

pub as_text_iff : (j : Json) (s : Text) → (as_text j ≡ some s) ↔ (j ≡ text s)
as_text_iff null s = (λ h. cc, λ h. cc)
as_text_iff (boolean b) s = (λ h. cc, λ h. cc)
as_text_iff (integer n) s = (λ h. cc, λ h. cc)
as_text_iff (real t b) s = (λ h. cc, λ h. cc)
as_text_iff (text t) s = (λ h. cc, λ h. cc)
as_text_iff (items js) s = (λ h. cc, λ h. cc)
as_text_iff (object fs) s = (λ h. cc, λ h. cc)

pub as_object_iff : (j : Json) (fs : Fields) → (as_object j ≡ some fs) ↔ (j ≡ object fs)
as_object_iff null fs = (λ h. cc, λ h. cc)
as_object_iff (boolean b) fs = (λ h. cc, λ h. cc)
as_object_iff (integer n) fs = (λ h. cc, λ h. cc)
as_object_iff (real t b) fs = (λ h. cc, λ h. cc)
as_object_iff (text t) fs = (λ h. cc, λ h. cc)
as_object_iff (items js) fs = (λ h. cc, λ h. cc)
as_object_iff (object gs) fs = (λ h. cc, λ h. cc)
