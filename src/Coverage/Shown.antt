-- ===== src/Coverage/Shown.antt =====
-- Which records the rows of the displays are of.
use mathlib.Core.Path.{subst}
use epics_mcp_server.Prelude.{
  ◌≡◌, refl, sym, ◌∙◌, ◌↔◌, ◌⊎◌, inl, inr, true, false, not, ◌&&◌, List, [], ◌∷◌, arith, Bool-cases,
}
use epics_mcp_server.Prelude.Texts.{Text, Among, starts_with, is_empty, text_eq, text_eq_iff}
use epics_mcp_server.Names.{record_name}
use epics_mcp_server.Coverage.{add_row}
use epics_mcp_server.Coverage.{IndexRow, add_rows, names_of}

-- A row of the index is of that record, and in the scope, if there is one.
abbrev pub InScope : Text → Text → Type 0
InScope scope pv = (scope ≡ []) ⊎ (starts_with pv scope ≡ true)

abbrev pub ShownBy : Text → List IndexRow → Text → Type 0
ShownBy scope [] pv = ⊥
ShownBy scope (row ∷ index) pv =
    ((record_name row.pv ≡ pv) × InScope scope pv) ⊎ ShownBy scope index pv

add_row-names :
    (row : IndexRow) (rows : List IndexRow) (pv : Text)
    → Among pv (names_of (add_row row rows)) ↔ ((row.pv ≡ pv) ⊎ Among pv (names_of rows))
unfolding add_row
add_row-names row [] pv = ground arith
add_row-names row (r ∷ rows) pv =
    let ih = add_row-names row rows pv in
    elim (Bool-cases (text_eq r.pv row.pv)) [
      | inl e ↦
          let same = (text_eq_iff r.pv row.pv).0 e in
          rw e (λ h. inr h, λ h. elim h [ inl f ↦ inl (same ∙ f) | inr k ↦ k ])
      | inr e ↦ rw e (ground (arith, ih))
    ]

scope_test_iff :
    (scope name : Text)
    → (not (is_empty scope) && not (starts_with name scope) ≡ false) ↔ InScope scope name
scope_test_iff [] name = (λ h. inl refl, λ h. refl)
scope_test_iff (c ∷ scope) name = elim (Bool-cases (starts_with name (c ∷ scope))) [
  | inl e ↦ rw e (λ h. inr refl, λ h. refl)
  | inr e ↦ rw e (λ h. cc, λ h. elim h [ inl f ↦ cc | inr f ↦ cc ])
]

abbrev recorded : IndexRow → IndexRow
recorded row = record { pv = record_name row.pv; displays = row.displays; roles = row.roles }

-- The rows that are kept are those of the records that the index shows.
pub add_rows-names :
    (scope : Text) (rows index : List IndexRow) (pv : Text)
    → Among pv (names_of (add_rows scope rows index))
      ↔ (Among pv (names_of rows) ⊎ ShownBy scope index pv)
unfolding add_rows
add_rows-names scope rows [] pv = (λ h. inl h, λ h. elim h [ inl k ↦ k | inr k ↦ absurd k ])
add_rows-names scope rows (row ∷ index) pv =
    let name = record_name row.pv in
    let added = recorded row in
    let scoped = scope_test_iff scope name in
    elim (Bool-cases (not (is_empty scope) && not (starts_with name scope))) [
      | inl e ↦
          let ih = add_rows-names scope rows index pv in
          rw e (
            λ h. elim (ih.0 h) [ inl k ↦ inl k | inr k ↦ inr (inr k) ],
            λ h. elim h [
              | inl k ↦ ih.1 (inl k)
              | inr m ↦ elim m [
                | inl n ↦ cc (e, scoped.1 (subst (InScope scope) (sym n.0) n.1))
                | inr k ↦ ih.1 (inr k)
              ]
            ],
          )
      | inr e ↦
          let ih = add_rows-names scope (add_row added rows) index pv in
          let one = add_row-names added rows pv in
          rw e (
            λ h. elim (ih.0 h) [
              | inl k ↦ elim (one.0 k) [
                | inl f ↦ inr (inl (f, subst (InScope scope) f (scoped.0 e)))
                | inr n ↦ inl n
              ]
              | inr k ↦ inr (inr k)
            ],
            λ h. elim h [
              | inl k ↦ ih.1 (inl (one.1 (inr k)))
              | inr m ↦ elim m [ inl n ↦ ih.1 (inl (one.1 (inl n.0))) | inr k ↦ ih.1 (inr k) ]
            ],
          )
    ]
