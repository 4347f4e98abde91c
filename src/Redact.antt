-- ===== src/Redact.antt =====
-- services/redact.py: the projection of a record on the fields that are allowed.
use mathlib.Core.Path.{subst}
use epics_mcp_server.Prelude.{sym, inl, inr, List, if◌then◌else◌, Bool-cases}
use epics_mcp_server.Prelude.Texts.{Text, text_eq, text_eq_iff, Among, member, member_iff}
use epics_mcp_server.Json.{Json, Fields, no_fields, field, put}

-- `project_allowlist`
unfoldable pub project_allowlist : List Text → Fields → Fields
unfolding member
project_allowlist allowed no_fields = no_fields
project_allowlist allowed (field k v fs) =
    let rest = project_allowlist allowed fs in if member k allowed then field k v rest else rest

abbrev pub Every : (Text → Json → Type 0) → Fields → Type 0
Every P no_fields = Unit {0}
Every P (field k v fs) = P k v × Every P fs

-- Every field of a projection is one of the record, of an allowed key.
pub Every-project_allowlist :
    (P : Text → Json → Type 0) (allowed : List Text) (fs : Fields)
    → Every P fs
    → Every (λ k v. Among k allowed × P k v) (project_allowlist allowed fs)
unfolding project_allowlist
Every-project_allowlist P allowed no_fields h = tt
Every-project_allowlist P allowed (field k v fs) h =
    let rest = Every-project_allowlist P allowed fs h.1 in
    elim (Bool-cases (member k allowed)) [
      | inl e ↦ rw e (((member_iff k allowed).0 e, h.0), rest)
      | inr e ↦ rw e rest
    ]

pub Every-put :
    (P : Text → Json → Type 0) (key : Text) (value : Json) (fs : Fields)
    → P key value
    → Every P fs
    → Every P (put key value fs)
unfolding put
Every-put P key value no_fields p h = (p, tt)
Every-put P key value (field k v fs) p h = elim (Bool-cases (text_eq k key)) [
  | inl e ↦ rw e (subst (λ x. P x value) (sym ((text_eq_iff k key).0 e)) p, h.1)
  | inr e ↦ rw e (h.0, Every-put P key value fs p h.1)
]
