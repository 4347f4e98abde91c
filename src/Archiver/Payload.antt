-- ===== src/Archiver/Payload.antt =====
-- The shape of the payload of a history.
use mathlib.Core.Path.{subst}
use epics_mcp_server.Prelude.{◌≡◌, refl, sym, ap, ◌∙◌, ◌↔◌, Option, none, some, List, arith}
use epics_mcp_server.Prelude.Texts.{codes}
use epics_mcp_server.Json.{
  Json, null, boolean, integer, real, text, items, object, Items, no_items, item, Fields, get,
}
use epics_mcp_server.Archiver.{list_of}
use epics_mcp_server.Archiver.Samples.{block_of, points_of}

-- The payload is a list that starts with an object, whose `data` is a list of these points.
abbrev pub HasData : Json → List Json → Type 0
HasData j points =
    (block : Fields) × (js ps : Items) × (j ≡ items (item (object block) js))
    × (get (codes "data") block ≡ items ps)
    × (list_of ps ≡ points)

abbrev pub data_of : Option Fields → Option (List Json)
data_of none = none
data_of (some block) = points_of (get (codes "data") block)

items_inj : {js ks : Items} → items js ≡ items ks → js ≡ ks
items_inj h = cc

pub some_inj : {a b : List Json} → some a ≡ some b → a ≡ b
some_inj h = cc

points_of_iff :
    (j : Json) (points : List Json)
    → (points_of j ≡ some points) ↔ ((ps : Items) × (j ≡ items ps) × (list_of ps ≡ points))
points_of_iff (items ps) points =
    (λ h. (ps, refl, some_inj h), λ h. let (qs, e, f) = h in ap some (ap list_of (items_inj e) ∙ f))
points_of_iff null points = (λ h. cc, λ h. let (qs, e, f) = h in cc)
points_of_iff (boolean b) points = (λ h. cc, λ h. let (qs, e, f) = h in cc)
points_of_iff (integer n) points = (λ h. cc, λ h. let (qs, e, f) = h in cc)
points_of_iff (real s b) points = (λ h. cc, λ h. let (qs, e, f) = h in cc)
points_of_iff (text s) points = (λ h. cc, λ h. let (qs, e, f) = h in cc)
points_of_iff (object fs) points = (λ h. cc, λ h. let (qs, e, f) = h in cc)

block_of_iff :
    (j : Json) (block : Fields)
    → (block_of j ≡ some block) ↔ ((js : Items) × (j ≡ items (item (object block) js)))
block_of_iff (items (item (object fs) js)) block =
    (λ h. (js, ground (arith, h)), λ h. let (ks, e) = h in ground (arith, e))
block_of_iff (items no_items) block = (λ h. cc, λ h. let (ks, e) = h in cc)
block_of_iff (items (item null js)) block = (λ h. cc, λ h. let (ks, e) = h in cc)
block_of_iff (items (item (boolean b) js)) block = (λ h. cc, λ h. let (ks, e) = h in cc)
block_of_iff (items (item (integer n) js)) block = (λ h. cc, λ h. let (ks, e) = h in cc)
block_of_iff (items (item (real s b) js)) block = (λ h. cc, λ h. let (ks, e) = h in cc)
block_of_iff (items (item (text s) js)) block = (λ h. cc, λ h. let (ks, e) = h in cc)
block_of_iff (items (item (items ks) js)) block = (λ h. cc, λ h. let (ls, e) = h in cc)
block_of_iff null block = (λ h. cc, λ h. let (ks, e) = h in cc)
block_of_iff (boolean b) block = (λ h. cc, λ h. let (ks, e) = h in cc)
block_of_iff (integer n) block = (λ h. cc, λ h. let (ks, e) = h in cc)
block_of_iff (real s b) block = (λ h. cc, λ h. let (ks, e) = h in cc)
block_of_iff (text s) block = (λ h. cc, λ h. let (ks, e) = h in cc)
block_of_iff (object fs) block = (λ h. cc, λ h. let (ks, e) = h in cc)

block_inj : {a b : Fields} → some a ≡ some b → a ≡ b
block_inj h = cc

pub data_iff :
    (j : Json) (points : List Json) → (data_of (block_of j) ≡ some points) ↔ HasData j points
data_iff j points = by_block_of (block_of j) refl
  where
    by_block_of :
        (o : Option Fields) → block_of j ≡ o → (data_of o ≡ some points) ↔ HasData j points
    by_block_of none e =
        (λ h. cc, λ h. let (b, js, ps, f, g, k) = h in cc (e, (block_of_iff j b).1 (js, f)))
    by_block_of (some block) e =
        let p = points_of_iff (get (codes "data") block) points in
        let (js, f) = (block_of_iff j block).0 e in
        (
          λ h. let (ps, g, k) = p.0 h in (block, js, ps, f, g, k),
          λ h.
              let (b, ks, ps, f', g, k) = h in
              let same = block_inj (sym e ∙ (block_of_iff j b).1 (ks, f')) in
              p.1 (ps, subst (λ x. get (codes "data") x ≡ items ps) (sym same) g, k),
        )
