-- ===== src/Entry/RoundTrip.antt =====
-- When the attachments of an entry survive being named again.
use epics_mcp_server.Prelude.{
  ◌≡◌, refl, ◌≢◌, ◌↔◌, ◌⊎◌, inl, inr, Option, none, some, List, [], ◌∷◌, arith, Option-cases,
}
use epics_mcp_server.Prelude.Texts.{Text, codes, member_iff, Among}
use epics_mcp_server.Prelude.Sorted.{sorted_set, Among-sorted_set}
use epics_mcp_server.Json.{
  Json, null, boolean, integer, real, text, items, object, Items, no_items, item, Fields, get,
  is_null_iff, as_text_iff, as_object, as_object_iff,
}
use epics_mcp_server.Entry.{
  Strings, AttachmentMeta, Verdict, offends, survives, meta_of, judge_named, judge_fields, judge,
  seen_after, add_verdict, walk, attachment_round_trip, round_trip_of, as_text,
}

module _ (py : Strings) where
  abbrev pub key : AttachmentMeta → Text
  key m = py.lower m.filename

  -- The metadata names one readable attachment: with its name, its id and its description.
  abbrev pub Carries : Json → AttachmentMeta → Type 0
  Carries j m =
      (fs : Fields) × (j ≡ object fs)
      × (get (codes "filename") fs ≡ text m.filename)
      × (m.filename ≢ [])
      × (get (codes "id") fs ≢ null)
      × (m ≡ meta_of py m.filename fs)

  -- Each attachment, in order, is named by one metadata entry.
  abbrev pub CarriesEach : Items → List AttachmentMeta → Type 0
  CarriesEach no_items [] = Unit {0}
  CarriesEach (item j js) (m ∷ ms) = Carries j m × CarriesEach js ms
  CarriesEach _ _ = ⊥

  -- No two names agree up to case, and none agrees with one of the given keys.
  abbrev pub Apart : List Text → List AttachmentMeta → Type 0
  Apart seen [] = Unit {0}
  Apart seen (m ∷ ms) = (Among (key m) seen → ⊥) × Apart (key m ∷ seen) ms

  judge_named_iff :
      (seen : List Text) (fs : Fields) (name : Option Text) (m : AttachmentMeta)
      → (judge_named py seen fs name ≡ survives m) ↔ (
          ((name ≡ some m.filename)
            × (m.filename ≢ [])
            × (get (codes "id") fs ≢ null)
            × (m ≡ meta_of py m.filename fs))
          × (Among (key m) seen → ⊥))
  judge_named_iff seen fs none m = (λ h. cc, λ h. cc)
  judge_named_iff seen fs (some []) m = (λ h. cc, λ h. ground arith)
  judge_named_iff seen fs (some (c ∷ s)) m =
      ground (arith, is_null_iff (get (codes "id") fs), member_iff (py.lower (c ∷ s)) seen)

  judge_iff :
      (seen : List Text) (j : Json) (m : AttachmentMeta)
      → (judge py seen j ≡ survives m) ↔ (Carries j m × (Among (key m) seen → ⊥))
  unfolding judge
  judge_iff seen j m = (
    λ h. elim (Option-cases (as_object j)) [
      | inl e ↦ absurd (unreadable e h)
      | inr (fs, e) ↦
          let named = judge_named_iff seen fs (as_text (get (codes "filename") fs)) m in
          let ((name, filled, id, made), far) = named.0 (rw e at h) in
          ((fs, (as_object_iff j fs).0 e, (as_text_iff _ _).0 name, filled, id, made), far)
    ],
    λ ((fs, k, name, filled, id, made), far).
        rw ((as_object_iff j fs).1 k)
          ((judge_named_iff seen fs _ m).1 (((as_text_iff _ _).1 name, filled, id, made), far)),
  )
    where
      unreadable : as_object j ≡ none → judge_fields py seen (as_object j) ≡ survives m → ⊥
      unreadable e h = let k = (rw e at h) in cc

  -- Every attachment is carried, under names that are apart, exactly if the walk finds no offender.
  pub walk_iff :
      (seen : List Text) (js : Items) (meta : List AttachmentMeta)
      → (walk py seen js ≡ (meta, [])) ↔ (CarriesEach js meta × Apart seen meta)
  unfolding walk
  walk_iff seen no_items [] = ground arith
  walk_iff seen no_items (m ∷ ms) = ground arith
  walk_iff seen (item j js) ms =
      by_verdict (judge py seen j) (λ m. judge_iff seen j m) (λ m. walk_iff (key m ∷ seen) js) ms
    where
      by_verdict :
          (v : Verdict)
          → ((m : AttachmentMeta) → (v ≡ survives m) ↔ (Carries j m × (Among (key m) seen → ⊥)))
          → ((m : AttachmentMeta) (ms : List AttachmentMeta)
              → (walk py (key m ∷ seen) js ≡ (ms, []))
                ↔ (CarriesEach js ms × Apart (key m ∷ seen) ms))
          → (ms : List AttachmentMeta)
          → (add_verdict v (walk py (seen_after py seen v) js) ≡ (ms, []))
            ↔ (CarriesEach (item j js) ms × Apart seen ms)
      by_verdict (offends name) judged ih [] = ground arith
      by_verdict (offends name) judged ih (m ∷ ms) = ground (arith, judged m)
      by_verdict (survives k) judged ih [] = ground arith
      by_verdict (survives k) judged ih (m ∷ ms) = ground (arith, judged m, judged k, ih k ms)

  sorted_set_empty : (ts : List Text) → (sorted_set ts ≡ []) ↔ (ts ≡ [])
  unfolding sorted_set
  sorted_set_empty [] = (λ h. refl, λ h. refl)
  sorted_set_empty (t ∷ ts) =
      (λ h. absurd (rw h at (Among-sorted_set t (t ∷ ts)).1 (inl refl)), λ h. cc)

  unreadable_list :
      (j : Json) (meta : List AttachmentMeta)
      → j ≢ null
      → ((js : Items) → j ≢ items js)
      → (◌≡◌ {A = List AttachmentMeta × List Text}
          ([], codes "<unreadable attachment list>" ∷ [])
          (meta, []))
        ↔ (((j ≡ null) × (meta ≡ []))
            ⊎ ((js : Items) × (j ≡ items js) × CarriesEach js meta × Apart [] meta))
  unreadable_list j meta no_null never = (
    λ h. ground arith,
    λ h. elim h [
      | inl (k, rest) ↦ absurd (no_null k)
      | inr (js, k, each, apart) ↦ absurd (never js k)
    ],
  )

  -- Either there are no attachments and none is named, or all of them are, under names that are apart.
  abbrev pub Resubmits : Fields → List AttachmentMeta → Type 0
  Resubmits raw meta =
      ((get (codes "attachments") raw ≡ null) × (meta ≡ []))
      ⊎ ((js : Items) × (get (codes "attachments") raw ≡ items js)
          × CarriesEach js meta
          × Apart [] meta)

  -- No offender is reported exactly if the entry has no attachments, and none is named, or all of them
  -- are carried, in order, under names that are apart.
  pub attachment_round_trip_iff :
      (raw : Fields) (meta : List AttachmentMeta)
      → (attachment_round_trip py raw ≡ (meta, [])) ↔ Resubmits raw meta
  unfolding attachment_round_trip
  attachment_round_trip_iff raw meta = by_value (get (codes "attachments") raw)
    where
      by_value :
          (j : Json)
          → (round_trip_of py j ≡ (meta, [])) ↔ (
              ((j ≡ null) × (meta ≡ []))
              ⊎ ((js : Items) × (j ≡ items js) × CarriesEach js meta × Apart [] meta))
      by_value null = (
        λ h. inl (refl, ground arith),
        λ h. elim h [ inl k ↦ ground arith | inr (js, k, each, apart) ↦ absurd (not_items k) ],
      )
        where
          not_items : {js : Items} → null ≡ items js → ⊥
          not_items h = cc
      by_value (boolean b) = unreadable_list _ _ (λ h. cc) (λ js h. cc)
      by_value (integer n) = unreadable_list _ _ (λ h. cc) (λ js h. cc)
      by_value (real s b) = unreadable_list _ _ (λ h. cc) (λ js h. cc)
      by_value (text s) = unreadable_list _ _ (λ h. cc) (λ js h. cc)
      by_value (object fs) = unreadable_list _ _ (λ h. cc) (λ js h. cc)
      by_value (items js) = (
        λ h.
            let (each, apart) = (walk_iff [] js meta).0 (no_offenders (walk py [] js) h) in
            inr (js, refl, each, apart),
        λ h. elim h [
          | inl (k, rest) ↦ absurd (not_null k)
          | inr (js', k, each, apart) ↦
              cleaned (walk py [] js) ((walk_iff [] js meta).1 (rw (same_items k) each, apart))
        ],
      )
        where
          same_items : {a b : Items} → items a ≡ items b → a ≡ b
          same_items h = cc

          cleaned :
              (w : List AttachmentMeta × List Text)
              → w ≡ (meta, [])
              → ◌≡◌ {A = List AttachmentMeta × List Text} (w.0, sorted_set w.1) (meta, [])
          cleaned (m, o) h = ground (arith, sorted_set_empty o)

          not_null : items js ≡ null → ⊥
          not_null h = cc

          no_offenders :
              (w : List AttachmentMeta × List Text)
              → ◌≡◌ {A = List AttachmentMeta × List Text} (w.0, sorted_set w.1) (meta, [])
              → w ≡ (meta, [])
          no_offenders (m, o) h = ground (arith, sorted_set_empty o)
