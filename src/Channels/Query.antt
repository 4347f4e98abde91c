-- ===== src/Channels/Query.antt =====
-- The parameters of a query against the filters that were asked for.
use epics_mcp_server.Prelude.{
  ℕ, ◌≡◌, refl, sym, ap, ◌∙◌, ◌≢◌, inl, inr, Bool, true, false, not, Option, none, some, List, [],
  ◌∷◌, ◌++◌, map, arith, All,
}
use mathlib.Core.Path.{subst, ap₂}
use mathlib.Core.List.{append_assoc, append-nil}
use epics_mcp_server.Prelude.Texts.{Text, codes, is_empty, starts_with, member, member_iff, Among}
use epics_mcp_server.Urls.{strip}
use epics_mcp_server.Transport.Steps.{returned_iff, bind_iff}
use epics_mcp_server.Transport.{returned}
use epics_mcp_server.Channels.Keys.{
  Absent, put_fresh, All-append, All-map, IsName, Key, IsHeld, filed_has, filed-negated,
  reserved_ne_tag,
}
use epics_mcp_server.Channels.{
  Params, ends_negated, negated, invalid_if, joined, any_common, Filters, Building, filed,
  has_separator, put_tags, base_params, is_blank, validate_filter_name, validate_each,
  claim_property, add_has, add_lacks, add_not, build_query_params,
}

abbrev pub said_tags : Text → List Text → Params
said_tags key [] = []
said_tags key (t ∷ ts) = (key, joined (t ∷ ts)) ∷ []

put_tags_fresh :
    (key : Text) (ts : List Text) (ps : Params)
    → Absent key ps
    → put_tags key ts ps ≡ ps ++ said_tags key ts
put_tags_fresh key [] ps a = sym (append-nil ps)
put_tags_fresh key (t ∷ ts) ps a = put_fresh key (joined (t ∷ ts)) ps a

said_tags-Absent : (ts : List Text) → Absent (codes "~tag!") (said_tags (codes "~tag") ts)
said_tags-Absent [] = tt
said_tags-Absent (t ∷ ts) = ((λ e. cc), tt)

put_tags_lem :
    (b : Building) (hs ls : List Text)
    → IsHeld b
    → put_tags (codes "~tag!") ls (put_tags (codes "~tag") hs b.params)
      ≡ b.params ++ (said_tags (codes "~tag") hs ++ said_tags (codes "~tag!") ls)
put_tags_lem b hs ls h =
    let absent =
      All-map (λ (k, v). Key b.claimed k) (λ (k, v). k ≢ codes "~tag") b.params
        (λ (k, v) e. (reserved_ne_tag b.claimed k e).0) h in
    let absent' =
      All-map (λ (k, v). Key b.claimed k) (λ (k, v). k ≢ codes "~tag!") b.params
        (λ (k, v) e. (reserved_ne_tag b.claimed k e).1) h in
    ap (put_tags (codes "~tag!") ls) (put_tags_fresh (codes "~tag") hs b.params absent)
    ∙ put_tags_fresh (codes "~tag!") ls (b.params ++ said_tags (codes "~tag") hs) (
        All-append (λ (k, v). k ≢ codes "~tag!") b.params (said_tags (codes "~tag") hs) absent'
          (said_tags-Absent hs))
    ∙ append_assoc b.params (said_tags (codes "~tag") hs) (said_tags (codes "~tag!") ls)

chained :
    (p0 p1 p2 p3 h l n t : Params)
    → p1 ≡ p0 ++ h
    → p2 ≡ p1 ++ l
    → p3 ≡ p2 ++ n
    → p3 ++ t ≡ p0 ++ (h ++ (l ++ (n ++ t)))
chained p0 p1 p2 p3 h l n t e1 e2 e3 = rw (e3, e2, e1) (simp append_assoc)

valid : (b : Bool) → invalid_if b ≡ returned tt → b ≡ false
valid true h = cc
valid false h = refl

module _ (space : ℕ → Bool) where
  validate_lem :
      (name clean : Text)
      → validate_filter_name space name ≡ returned clean
      → (clean ≡ strip space name) × IsName clean
  unfolding validate_filter_name
  validate_lem name clean h =
      let c = strip space name in
      let (u1, e1, k1) = (bind_iff (invalid_if (is_empty c)) _ clean).0 h in
      let (u2, e2, k2) = (bind_iff (invalid_if (starts_with c (codes "~"))) _ clean).0 k1 in
      let (u3, e3, k3) = (bind_iff (invalid_if (ends_negated c)) _ clean).0 k2 in
      let e : c ≡ clean = (returned_iff.0 k3) in
      (
        sym e,
        subst IsName e (record {
          filled = valid (is_empty c) e1;
          free = valid (starts_with c (codes "~")) e2;
          positive = valid (ends_negated c) e3;
        }),
      )

  validate_each_lem :
      (ts cs : List Text) → validate_each space ts ≡ returned cs → cs ≡ map (strip space) ts
  unfolding validate_each
  validate_each_lem [] cs h = sym (returned_iff.0 h)
  validate_each_lem (t ∷ ts) cs h =
      let (c, e1, k1) = (bind_iff (validate_filter_name space t) _ cs).0 h in
      let (rest, e2, k2) = (bind_iff (validate_each space ts) _ cs).0 k1 in
      sym (returned_iff.0 k2)
      ∙ ap₂ (λ (x : Text) (xs : List Text). x ∷ xs) (validate_lem t c e1).0
          (validate_each_lem ts rest e2)

  module _ (allowed : List Text) where
    -- A name that the site allows to filter on, as it is sent.
    pub record IsAllowed (name : Text) : Type 0 where
      pub named : IsName (strip space name)
      pub listed : Among (strip space name) allowed

    claim_lem :
        (name : Text) (claimed : List Text) (clean : Text)
        → claim_property space allowed name claimed ≡ returned clean
        → (clean ≡ strip space name) × IsName clean × IsAllowed name × (Among clean claimed → ⊥)
    unfolding claim_property
    claim_lem name claimed clean h =
        let (c, e0, k0) = (bind_iff (validate_filter_name space name) _ clean).0 h in
        let (u1, e1, k1) = (bind_iff (invalid_if (not (member c allowed))) _ clean).0 k0 in
        let (u2, e2, k2) = (bind_iff (invalid_if (member c claimed)) _ clean).0 k1 in
        let e : c ≡ clean = returned_iff.0 k2 in
        let (s, n) = validate_lem name c e0 in
        let m = member_iff c allowed in
        let old = member_iff c claimed in
        let is_in = valid (not (member c allowed)) e1 in
        let is_new = valid (member c claimed) e2 in
        (
          sym e ∙ s,
          subst IsName e n,
          record {
            named = subst IsName s n;
            listed = subst (λ x. Among x allowed) s (m.0 (ground arith));
          },
          subst (λ x. Among x claimed → ⊥) e (λ a. cc (old.1 a, is_new)),
        )

    -- The names and the parameters that a phase adds.
    record Extends (b : Building) (said : Params) (names : List Text) (b' : Building) : Type 0 where
      params : b'.params ≡ b.params ++ said
      held : IsHeld b'
      permitted : All IsAllowed names

    Extends-later :
        (b mid b' : Building) (p : Text × Text) (said : Params) (name : Text) (names : List Text)
        → mid.params ≡ b.params ++ p ∷ []
        → IsAllowed name
        → Extends mid said names b'
        → Extends b (p ∷ said) (name ∷ names) b'
    Extends-later b mid b' p said name names e a x = record {
      params = x.params ∙ ap (λ (ps : Params). ps ++ said) e ∙ append_assoc b.params (p ∷ []) said;
      held = x.held;
      permitted = (a, x.permitted);
    }

    abbrev pub said_has : List (Text × Text) → Params
    said_has [] = []
    said_has ((name, value) ∷ filters) = (strip space name, value) ∷ said_has filters

    abbrev pub said_lacks : List Text → Params
    said_lacks [] = []
    said_lacks (name ∷ names) = (negated (strip space name), codes "*") ∷ said_lacks names

    abbrev pub said_not : List (Text × Text) → Params
    said_not [] = []
    said_not ((name, value) ∷ filters) = (negated (strip space name), value) ∷ said_not filters

    abbrev pub names_of : List (Text × Text) → List Text
    names_of = map (λ (n, v). n)

    Extends-nothing : (b b' : Building) → IsHeld b → returned b ≡ returned b' → Extends b [] [] b'
    Extends-nothing b b' h e =
        subst (Extends b [] []) (returned_iff.0 e)
          (record { params = sym (append-nil b.params); held = h; permitted = tt })

    add_has-Extends :
        (filters : List (Text × Text)) (b b' : Building)
        → IsHeld b
        → add_has space allowed filters b ≡ returned b'
        → Extends b (said_has filters) (names_of filters) b'
    unfolding add_has
    add_has-Extends [] b b' h e = Extends-nothing b b' h e
    add_has-Extends ((name, value) ∷ filters) b b' h e =
        let (c, e1, k1) = (bind_iff (claim_property space allowed name b.claimed) _ b').0 e in
        let (u, e2, k2) = (bind_iff (invalid_if (is_blank space value)) _ b').0 k1 in
        let (s, n, a, new) = claim_lem name b.claimed c e1 in
        let (p, held) = filed_has b c value n new h in
        Extends-later b (filed c value c b) b' (strip space name, value) (said_has filters) name
          (names_of filters)
          (subst (λ x. (filed c value c b).params ≡ b.params ++ (x, value) ∷ []) s p) a
          (add_has-Extends filters (filed c value c b) b' held k2)

    add_lacks-Extends :
        (names : List Text) (b b' : Building)
        → IsHeld b
        → add_lacks space allowed names b ≡ returned b'
        → Extends b (said_lacks names) names b'
    unfolding add_lacks
    add_lacks-Extends [] b b' h e = Extends-nothing b b' h e
    add_lacks-Extends (name ∷ names) b b' h e =
        let (c, e1, k1) = (bind_iff (claim_property space allowed name b.claimed) _ b').0 e in
        let (s, n, a, new) = claim_lem name b.claimed c e1 in
        let (p, held) = filed-negated b c (codes "*") n new h in
        let next = filed (negated c) (codes "*") c b in
        Extends-later b next b' (negated (strip space name), codes "*") (said_lacks names) name
          names (subst (λ x. next.params ≡ b.params ++ (negated x, codes "*") ∷ []) s p) a
          (add_lacks-Extends names next b' held k1)

    add_not-Extends :
        (filters : List (Text × Text)) (b b' : Building)
        → IsHeld b
        → add_not space allowed filters b ≡ returned b'
        → Extends b (said_not filters) (names_of filters) b'
    unfolding add_not
    add_not-Extends [] b b' h e = Extends-nothing b b' h e
    add_not-Extends ((name, value) ∷ filters) b b' h e =
        let (c, e1, k1) = (bind_iff (claim_property space allowed name b.claimed) _ b').0 e in
        let (u, e2, k2) = (bind_iff (invalid_if (is_blank space value)) _ b').0 k1 in
        let (u', e3, k3) = (bind_iff (invalid_if (has_separator value)) _ b').0 k2 in
        let (s, n, a, new) = claim_lem name b.claimed c e1 in
        let (p, held) = filed-negated b c value n new h in
        let next = filed (negated c) value c b in
        Extends-later b next b' (negated (strip space name), value) (said_not filters) name
          (names_of filters) (subst (λ x. next.params ≡ b.params ++ (negated x, value) ∷ []) s p) a
          (add_not-Extends filters next b' held k3)

    base-IsHeld :
        (pattern_text : Text) (size : Option Text)
        → IsHeld (record { params = base_params pattern_text size; claimed = [] })
    base-IsHeld pattern_text none = (inl refl, tt)
    base-IsHeld pattern_text (some size) = (inl refl, (inr (inl refl), tt))

    -- A query says each filter once, behind the parameters of every query and in the order of the
    -- arguments, and filters on allowed names only.
    pub record IsQuery (pattern_text : Text) (size : Option Text) (f : Filters) (params : Params)
        : Type 0 where
      pub sent :
          params
          ≡ base_params pattern_text size
            ++ (said_has f.has_properties
                ++ (said_lacks f.lacks_properties
                    ++ (said_not f.not_property_values
                        ++ (said_tags (codes "~tag") (map (strip space) f.has_tags)
                            ++ said_tags (codes "~tag!") (map (strip space) f.lacks_tags)))))
      pub has_allowed : All IsAllowed (names_of f.has_properties)
      pub lacks_allowed : All IsAllowed f.lacks_properties
      pub not_allowed : All IsAllowed (names_of f.not_property_values)

    pub build_query_params-IsQuery :
        (pattern_text : Text) (size : Option Text) (f : Filters) (params : Params)
        → build_query_params space allowed pattern_text size f ≡ returned params
        → IsQuery pattern_text size f params
    unfolding build_query_params
    build_query_params-IsQuery pattern_text size f params h =
        let b0 : Building = record { params = base_params pattern_text size; claimed = [] } in
        let (b1, e1, k1) = (bind_iff (add_has space allowed f.has_properties b0) _ params).0 h in
        let (b2, e2, k2) =
          (bind_iff (add_lacks space allowed f.lacks_properties b1) _ params).0 k1 in
        let (b3, e3, k3) =
          (bind_iff (add_not space allowed f.not_property_values b2) _ params).0 k2 in
        let (hs, e4, k4) = (bind_iff (validate_each space f.has_tags) _ params).0 k3 in
        let (ls, e5, k5) = (bind_iff (validate_each space f.lacks_tags) _ params).0 k4 in
        let (u, e6, k6) = (bind_iff (invalid_if (any_common hs ls)) _ params).0 k5 in
        let x1 = add_has-Extends f.has_properties b0 b1 (base-IsHeld pattern_text size) e1 in
        let x2 = add_lacks-Extends f.lacks_properties b1 b2 x1.held e2 in
        let x3 = add_not-Extends f.not_property_values b2 b3 x2.held e3 in
        let t =
          put_tags_lem b3 (map (strip space) f.has_tags) (map (strip space) f.lacks_tags) x3.held in
        let eh = validate_each_lem f.has_tags hs e4 in
        let el = validate_each_lem f.lacks_tags ls e5 in
        record {
          sent =
              sym (returned_iff.0 k6)
              ∙ ap₂
                  (λ (x y : List Text).
                    put_tags (codes "~tag!") y (put_tags (codes "~tag") x b3.params))
                  eh el
              ∙ t
              ∙ chained b0.params b1.params b2.params b3.params _ _ _ _ x1.params x2.params
                  x3.params;
          has_allowed = x1.permitted;
          lacks_allowed = x2.permitted;
          not_allowed = x3.permitted;
        }
