-- ===== src/Alarms/Configured.antt =====
-- When a PV is said to have an alarm, and when it is said to have none.
use epics_mcp_server.Prelude.{
  ◌≡◌, refl, ap, ◌∙◌, ◌≢◌, ◌↔◌, ◌⊎◌, inl, inr, Bool, true, false, Option, none, some, List, [], ◌∷◌,
  ◌++◌, Bool-cases, iff_trans,
}
use mathlib.Core.Path.{subst}
use epics_mcp_server.Prelude.Texts.{Text, text_eq, text_eq_iff}
use epics_mcp_server.Json.{Json, Fields}
use epics_mcp_server.Transport.{Outcome, returned}
use epics_mcp_server.Transport.Steps.{returned_iff, bind_iff}
use epics_mcp_server.Alarms.{
  Request, config_search, AlarmRecord, require_alarm_records, leaf_of, find_leaf, tree_answers,
  tree_query, project_alarm_config, on_miss, answer_of, is_alarm_configured,
}

-- A record of the PV stands among the records.
abbrev pub Holds : Text → List AlarmRecord → Type 0
Holds pv [] = ⊥
Holds pv (r ∷ rs) = (leaf_of r ≡ pv) ⊎ Holds pv rs

found_iff :
    (pv : Text) (rs : List AlarmRecord)
    → ((fs : Fields) × (find_leaf pv rs ≡ some fs)) ↔ Holds pv rs
unfolding find_leaf
found_iff pv [] = (λ h. let (fs, e) = h in cc, λ h. absurd h)
found_iff pv (r ∷ rs) =
    let ih = found_iff pv rs in
    let t = text_eq_iff (leaf_of r) pv in
    elim (Bool-cases (text_eq (leaf_of r) pv)) [
      | inl e ↦ rw e (λ h. inl (t.0 e), λ h. (r.fields, refl))
      | inr e ↦ rw e (λ h. inr (ih.0 h), λ h. elim h [ inl f ↦ cc (t.1 f, e) | inr s ↦ ih.1 s ])
    ]

module _ (fetch : Request → Outcome Json) (pv config_name : Text) where
  -- The answer to the query for the PV is readable, and holds these records.
  abbrev pub Listed : List AlarmRecord → Type 0
  Listed rs =
      (payload : Json) × (fetch (config_search (tree_query config_name ++ pv)) ≡ returned payload)
      × (require_alarm_records payload ≡ returned rs)

  -- The tree was asked for, and did answer, or not.
  abbrev pub Tree : Bool → Type 0
  Tree answers =
      (payload : Json) × (fetch (config_search (tree_query config_name)) ≡ returned payload)
      × (tree_answers payload ≡ answers)

  -- What a verdict rests on, over the records of the PV's query.
  abbrev pub Verdict : Option Bool → List AlarmRecord → Type 0
  Verdict (some true) rs = Holds pv rs
  Verdict (some false) rs = (Holds pv rs → ⊥) × Tree true
  Verdict none rs = (Holds pv rs → ⊥) × Tree false

  abbrev Answers : Option Fields → Option Bool → Type 0
  Answers found v = (detail : Fields) × (answer_of fetch config_name found ≡ returned (v, detail))

  missing : (rs : List AlarmRecord) → find_leaf pv rs ≡ none → Holds pv rs → ⊥
  missing rs e h = let (fs, f) = (found_iff pv rs).1 h in cc

  -- A miss asks the tree.
  miss_iff : (v : Option Bool) → Answers none v ↔ ((b : Bool) × Tree b × ((on_miss fetch b).0 ≡ v))
  miss_iff v = (
    λ h.
        let (d, e) = h in
        let (tree, f, k) = (bind_iff _ _ _).0 e in
        (tree_answers tree, (tree, f, refl), ap (λ x. x.0) (returned_iff.0 k)),
    λ h.
        let (b, t, e) = h in
        let (tree, f, g) = t in
        (
          (on_miss fetch b).1,
          (bind_iff _ _ _).1 (
            tree,
            f,
            returned_iff.1 (ap (on_miss fetch) g ∙ ap (λ x. (x, (on_miss fetch b).1)) e),
          ),
        ),
  )

  on_miss-ne : (b : Bool) → (on_miss fetch b).0 ≢ some true
  on_miss-ne true h = cc
  on_miss-ne false h = cc

  on_miss-true : (b : Bool) → (on_miss fetch b).0 ≡ some false → b ≡ true
  on_miss-true true h = refl
  on_miss-true false h = cc

  on_miss-false : (b : Bool) → (on_miss fetch b).0 ≡ none → b ≡ false
  on_miss-false true h = cc
  on_miss-false false h = refl

  missed :
      (rs : List AlarmRecord)
      → (Holds pv rs → ⊥)
      → (v : Option Bool) → ((b : Bool) × Tree b × ((on_miss fetch b).0 ≡ v)) ↔ Verdict v rs
  missed rs n (some true) = (λ h. absurd (on_miss-ne h.0 h.2), λ h. absurd (n h))
  missed rs n (some false) =
      (λ h. (n, subst Tree (on_miss-true h.0 h.2) h.1), λ h. (true, h.1, refl))
  missed rs n none = (λ h. (n, subst Tree (on_miss-false h.0 h.2) h.1), λ h. (false, h.1, refl))

  answer_iff :
      (rs : List AlarmRecord) (found : Option Fields)
      → find_leaf pv rs ≡ found
      → (v : Option Bool) → Answers found v ↔ Verdict v rs
  answer_iff rs (some fs) e (some true) =
      (λ h. (found_iff pv rs).0 (fs, e), λ h. (project_alarm_config fs, refl))
  answer_iff rs (some fs) e (some false) =
      (λ h. let (d, k) = h in cc, λ h. absurd (h.0 ((found_iff pv rs).0 (fs, e))))
  answer_iff rs (some fs) e none =
      (λ h. let (d, k) = h in cc, λ h. absurd (h.0 ((found_iff pv rs).0 (fs, e))))
  answer_iff rs none e v = iff_trans (miss_iff v) (missed rs (missing rs e) v)

  -- The PV has an alarm exactly if the answer to its query is readable and holds a record with that leaf;
  -- it has none exactly if that answer is readable and holds no such record, and the tree was asked for
  -- and has a readable record; and it is unknown exactly if that answer is readable and holds no such
  -- record, and the tree was asked for and has no readable record.
  pub is_alarm_configured_iff :
      (v : Option Bool)
      → ((detail : Fields) × (is_alarm_configured fetch pv config_name ≡ returned (v, detail)))
        ↔ ((rs : List AlarmRecord) × Listed rs × Verdict v rs)
  unfolding is_alarm_configured
  is_alarm_configured_iff v = (
    λ h.
        let (d, e) = h in
        let (payload, f, k) = (bind_iff _ _ _).0 e in
        let (rs, g, m) = (bind_iff _ _ _).0 k in
        (rs, (payload, f, g), (answer_iff rs (find_leaf pv rs) refl v).0 (d, m)),
    λ h.
        let (rs, l, w) = h in
        let (payload, f, g) = l in
        let (d, m) = (answer_iff rs (find_leaf pv rs) refl v).1 w in
        (d, (bind_iff _ _ _).1 (payload, f, (bind_iff _ _ _).1 (rs, g, m))),
  )
