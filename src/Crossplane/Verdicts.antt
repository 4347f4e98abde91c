-- ===== src/Crossplane/Verdicts.antt =====
-- When a record is reported as broken, or as unregistered.
use mathlib.Core.Path.{subst}
use epics_mcp_server.Coverage.Gaps.{registered_injective}
use epics_mcp_server.Prelude.{
  ◌≡◌, refl, sym, ap, ◌∙◌, ◌≢◌, ◌↔◌, ◌⊎◌, inl, inr, Bool, true, false, Option, none, some, List, [],
  ◌∷◌, map, arith, Bool-cases, iff_trans,
}
use epics_mcp_server.Prelude.Texts.{Text, is_empty, starts_with, member, member_iff, Among}
use epics_mcp_server.Prelude.Sorted.{Among-sorted_set}
use epics_mcp_server.Names.{record_name}
use epics_mcp_server.Coverage.{Registry, disabled, capped, failed, registered}
use epics_mcp_server.Crossplane.{
  JoinPv, ca, pva, resolved, IocDb, bucket, is_linked, is_write, pvs_of, minus, meet, text_of,
  no_texts, proves_absence, broken_records, asked, unregistered_records,
}
use epics_mcp_server.Crossplane.Report.{
  Inputs, crossplane_check, linked_row, linked_records, linked_write_records, written_row,
  broken_of, unregistered_of,
}

-- One of the rows has the property.
abbrev pub Some : (JoinPv → Type 0) → List JoinPv → Type 0
Some P [] = ⊥
Some P (jp ∷ rows) = P jp ⊎ Some P rows

-- A channel that is resolved to a PV under the IOC's prefix.
abbrev pub IsLink : Option Text → JoinPv → Type 0
IsLink prefix jp =
    ((jp.protocol ≡ ca) ⊎ (jp.protocol ≡ pva))
    × (jp.resolution ≡ resolved)
    × (text_of prefix ≢ [])
    × (starts_with jp.pv (text_of prefix) ≡ true)

Among-swap : (x y : Text) (xs : List Text) → y ≡ x → Among y xs ↔ Among x xs
Among-swap x y xs e = rw e (λ h. h, λ h. h)

Among-minus :
    (x : Text) (xs ys : List Text) → Among x (minus xs ys) ↔ (Among x ys × (Among x xs → ⊥))
unfolding minus
Among-minus x xs [] = ground arith
Among-minus x xs (y ∷ ys) = elim (Bool-cases (member y xs)) [
  | inl e ↦ rw e (ground (arith, e, member_iff y xs, Among-swap x y xs, Among-minus x xs ys))
  | inr e ↦ rw e (ground (arith, e, member_iff y xs, Among-swap x y xs, Among-minus x xs ys))
]

Among-meet : (x : Text) (xs ys : List Text) → Among x (meet xs ys) ↔ (Among x ys × Among x xs)
unfolding meet
Among-meet x xs [] = ground arith
Among-meet x xs (y ∷ ys) = elim (Bool-cases (member y xs)) [
  | inl e ↦ rw e (ground (arith, e, member_iff y xs, Among-swap x y xs, Among-meet x xs ys))
  | inr e ↦ rw e (ground (arith, e, member_iff y xs, Among-swap x y xs, Among-meet x xs ys))
]

is_empty_iff : (s : Text) → (is_empty s ≡ true) ↔ (s ≡ [])
is_empty_iff [] = ground arith
is_empty_iff (c ∷ s) = ground arith

linked_iff :
    (prefix : Option Text) (jp : JoinPv) → (is_linked (bucket prefix jp) ≡ true) ↔ IsLink prefix jp
unfolding bucket
linked_iff prefix jp = ground (arith, is_empty_iff (text_of prefix))

Among-pvs_of :
    (test : JoinPv → Bool) (f : Text → Text) (x : Text) (rows : List JoinPv)
    → Among x (map f (pvs_of test rows)) ↔ Some (λ jp. (test jp ≡ true) × (f jp.pv ≡ x)) rows
unfolding pvs_of
Among-pvs_of test f x [] = ground arith
Among-pvs_of test f x (jp ∷ rows) = ground (arith, Among-pvs_of test f x rows)

Some-iff :
    (P Q : JoinPv → Type 0)
    → ((jp : JoinPv) → P jp ↔ Q jp)
    → (rows : List JoinPv) → Some P rows ↔ Some Q rows
Some-iff P Q same [] = (λ h. h, λ h. h)
Some-iff P Q same (jp ∷ rows) =
    let ih = Some-iff P Q same rows in
    (
      λ h. elim h [ inl a ↦ inl ((same jp).0 a) | inr b ↦ inr (ih.0 b) ],
      λ h. elim h [ inl a ↦ inl ((same jp).1 a) | inr b ↦ inr (ih.1 b) ],
    )

no_texts_iff : (ts : List Text) → (no_texts ts ≡ true) ↔ (ts ≡ [])
no_texts_iff [] = ground arith
no_texts_iff (t ∷ ts) = ground arith

-- A display shows a channel of the record, under the IOC's prefix.
abbrev pub Shows : Option Text → List JoinPv → Text → Type 0
Shows prefix rows r = Some (λ jp. IsLink prefix jp × (record_name jp.pv ≡ r)) rows

-- A display writes to one.
abbrev pub Writes : Option Text → List JoinPv → Text → Type 0
Writes prefix rows r =
    Some (λ jp. (IsLink prefix jp × (is_write jp.role ≡ true)) × (record_name jp.pv ≡ r)) rows

-- The database is there, all of it, with every name resolved, and lacks the record.
abbrev pub ProvesMissing : Option IocDb → Bool → Text → Type 0
ProvesMissing ioc_db complete r =
    (db : IocDb) × (ioc_db ≡ some db)
    × (complete ≡ true)
    × (db.resolved ≢ [])
    × (db.unresolved ≡ [])
    × (Among r db.resolved → ⊥)

-- ChannelFinder was asked, has answered in full, and does not list the record.
abbrev pub NotListed : Option Text → Registry → Text → Type 0
NotListed prefix registry r =
    (text_of prefix ≢ [])
    × ((names : List Text) × (registry ≡ registered names) × (Among r names → ⊥))

proves_absence_iff :
    (db : IocDb) (complete : Bool)
    → (proves_absence db complete ≡ true)
      ↔ ((complete ≡ true) × (db.resolved ≢ []) × (db.unresolved ≡ []))
proves_absence_iff db complete =
    ground (arith, no_texts_iff db.resolved, no_texts_iff db.unresolved)

pub same_db : {a b : IocDb} → some a ≡ some b → a ≡ b
same_db h = cc

no_db : {b : IocDb} → ◌≡◌ {A = Option IocDb} none (some b) → ⊥
no_db h = cc

broken_records_iff :
    (ioc_db : Option IocDb) (complete : Bool) (records : List Text) (r : Text)
    → Among r (broken_records ioc_db complete records)
      ↔ (ProvesMissing ioc_db complete r × Among r records)
unfolding broken_records
broken_records_iff none complete records r =
    (λ h. absurd h, λ (missing, m). absurd (no_db missing.1))
broken_records_iff (some db) complete records r =
    let m = Among-minus r db.resolved records in
    let p = proves_absence_iff db complete in
    elim (Bool-cases (proves_absence db complete)) [
      | inl e ↦
          let (c, f, u) = p.0 e in
          rw e (
            λ h. let (a, n) = m.0 h in ((db, refl, c, f, u, n), a),
            λ ((d, k, c', f', u', n), a).
                m.1 (a, λ x. n (subst (λ (b : IocDb). Among r b.resolved) (same_db k) x)),
          )
      | inr e ↦ rw e (λ h. absurd h, λ ((d, k, c', f', u', n), a). absurd (unproved e d k c' f' u'))
    ]
  where
    unproved :
        proves_absence db complete ≡ false
        → (d : IocDb) → some db ≡ some d
        → complete ≡ true
        → d.resolved ≢ []
        → d.unresolved ≡ []
        → ⊥
    unproved e d k c f u =
        let t = (proves_absence_iff d complete).1 (c, f, u) in
        let z = sym e ∙ ap (λ (b : IocDb). proves_absence b complete) (same_db k) ∙ t in cc

not_registered : {names : List Text} → disabled ≡ registered names → ⊥
not_registered h = cc

unregistered_iff :
    (registry : Registry) (records : List Text) (r : Text)
    → Among r (unregistered_records registry records) ↔ (
        ((names : List Text) × (registry ≡ registered names) × (Among r names → ⊥))
        × Among r records)
unfolding unregistered_records
unregistered_iff disabled records r = (λ h. absurd h, λ ((names, e, n), a). cc)
unregistered_iff capped records r = (λ h. absurd h, λ ((names, e, n), a). cc)
unregistered_iff failed records r = (λ h. absurd h, λ ((names, e, n), a). cc)
unregistered_iff (registered listed) records r =
    let m = Among-minus r listed records in
    (
      λ h. let (a, n) = m.0 h in ((listed, refl, n), a),
      λ ((names, e, n), a).
          m.1 (a, λ x. n (subst (λ l. Among r l) (registered_injective listed names e) x)),
    )

unregistered_records_iff :
    (prefix : Option Text) (registry : Registry) (records : List Text) (r : Text)
    → Among r (unregistered_records (asked prefix registry) records)
      ↔ (NotListed prefix registry r × Among r records)
unregistered_records_iff prefix registry records r =
    let filled = is_empty_iff (text_of prefix) in
    elim (Bool-cases (is_empty (text_of prefix))) [
      | inl e ↦ rw e (
        λ h. absurd (not_registered ((unregistered_iff disabled records r).0 h).0.1),
        λ (listed, a). absurd (listed.0 (filled.0 e)),
      )
      | inr e ↦
          let m = unregistered_iff registry records r in
          rw e (
            λ h. let (n, a) = m.0 h in ((λ k. let t = sym e ∙ filled.1 k in cc, n), a),
            λ ((f, n), a). m.1 (n, a),
          )
    ]

module _ (input : Inputs) (rows : List JoinPv) where
  linked_records_iff : (r : Text) → Among r (linked_records input rows) ↔ Shows input.prefix rows r
  unfolding linked_records
  linked_records_iff r =
      iff_trans (Among-sorted_set r (map record_name (pvs_of (linked_row input rows) rows))) (
        iff_trans (Among-pvs_of (linked_row input rows) record_name r rows)
          (Some-iff _ _ (λ jp. ground (arith, linked_iff input.prefix jp)) rows))

  linked_write_records_iff :
      (r : Text) → Among r (linked_write_records input rows) ↔ Writes input.prefix rows r
  unfolding linked_write_records
  linked_write_records_iff r =
      iff_trans (Among-pvs_of (written_row input rows) record_name r rows)
        (Some-iff _ _ (λ jp. ground (arith, linked_iff input.prefix jp)) rows)

  -- A record is reported as broken exactly if the database proves that it is missing and a display
  -- shows it: the database is given, complete, with names, all of them resolved, and without the
  -- record.
  pub broken_iff :
      (r : Text)
      → Among r (crossplane_check input rows).broken
        ↔ (ProvesMissing input.ioc_db input.ioc_db_complete r × Shows input.prefix rows r)
  unfolding crossplane_check broken_of
  broken_iff r =
      let a = Among-sorted_set r (broken_of input rows) in
      let b = broken_records_iff input.ioc_db input.ioc_db_complete (linked_records input rows) r in
      let c = linked_records_iff r in
      (λ h. let (p, m) = b.0 (a.0 h) in (p, c.0 m), λ (p, m). a.1 (b.1 (p, c.1 m)))

  -- A record is reported as not registered exactly if ChannelFinder has answered in full about a
  -- prefix without listing it, and a display shows it.
  pub cf_unregistered_iff :
      (r : Text)
      → Among r (crossplane_check input rows).cf_unregistered
        ↔ (NotListed input.prefix input.channelfinder r × Shows input.prefix rows r)
  unfolding crossplane_check unregistered_of
  cf_unregistered_iff r =
      let a = Among-sorted_set r (unregistered_of input rows) in
      let b =
        unregistered_records_iff input.prefix input.channelfinder (linked_records input rows) r in
      let c = linked_records_iff r in
      (λ h. let (p, m) = b.0 (a.0 h) in (p, c.0 m), λ (p, m). a.1 (b.1 (p, c.1 m)))

  -- A record is reported as a broken target of writes exactly if it is reported as broken and a display
  -- writes to it.
  pub broken_write_iff :
      (r : Text)
      → Among r (crossplane_check input rows).broken_write
        ↔ (Among r (crossplane_check input rows).broken × Writes input.prefix rows r)
  unfolding crossplane_check
  broken_write_iff r =
      let s = Among-sorted_set r (broken_of input rows) in
      let a = Among-sorted_set r (meet (linked_write_records input rows) (broken_of input rows)) in
      let b = Among-meet r (linked_write_records input rows) (broken_of input rows) in
      let c = linked_write_records_iff r in
      (λ h. let (x, y) = b.0 (a.0 h) in (s.1 x, c.0 y), λ (x, y). a.1 (b.1 (s.0 x, c.1 y)))
