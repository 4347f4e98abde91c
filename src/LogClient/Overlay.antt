-- ===== src/LogClient/Overlay.antt =====
-- What an update of an entry submits: the entry itself but for the fields that are edited.
use epics_mcp_server.Prelude.{
  ◌≡◌, refl, ap, ◌∙◌, ◌≢◌, ◌↔◌, true, Option, none, some, List, [], ◌∷◌, ◌++◌, arith,
}
use epics_mcp_server.Prelude.Int.{ℤ}
use epics_mcp_server.Prelude.Texts.{Text, codes}
use epics_mcp_server.Faults.{olog_unsafe, raised, returned, ◌>>=◌, ◌>>◌, raise_if}
use epics_mcp_server.Attach.{AttachmentUpload}
use epics_mcp_server.Json.{
  Json, null, boolean, real, object, text, items, Fields, get, integer, as_text, as_text_iff,
}
use epics_mcp_server.Entry.{Strings, AttachmentMeta, attachment_round_trip}
use epics_mcp_server.Entry.RoundTrip.{Resubmits, attachment_round_trip_iff}
use epics_mcp_server.LogClient.{
  or_else, Request, post_multipart, LogJson, Edit, update_request, add_request, edited, named,
  new_meta, file_parts, no_texts, marked_source, attached, parsed, some_offender,
}

-- A field is as the edit says, or else as it was.
abbrev pub FollowsText : Option Text → Json → Json → Type 0
FollowsText given kept value =
    ((s : Text) → given ≡ some s → value ≡ text s) × (given ≡ none → value ≡ kept)

abbrev pub FollowsNames : Option (List Text) → Json → Json → Type 0
FollowsNames given kept value =
    ((ns : List Text) → given ≡ some ns → value ≡ items (named ns)) × (given ≡ none → value ≡ kept)

module _ (py : Strings) (raw : Fields) where
  -- The submitted entry: nothing that the edit does not name is lost, and every attachment is named.
  pub record IsOverlaid (edit : Edit) (j : LogJson) : Type 0 where
    pub same_id : j.id ≡ get (codes "id") raw
    pub title : FollowsText edit.title (get (codes "title") raw) j.title
    pub level : FollowsText edit.level (get (codes "level") raw) j.level
    pub source : FollowsText edit.description (get (codes "source") raw) j.source
    pub description : (s : Text) → edit.description ≡ some s → j.description ≡ text s
    pub kept_description :
        edit.description ≡ none
        → (s : Text) → get (codes "description") raw ≡ text s
        → j.description ≡ text s
    pub no_description :
        edit.description ≡ none
        → ((s : Text) → get (codes "description") raw ≢ text s)
        → j.description ≡ text []
    pub logbooks : FollowsNames edit.logbooks (get (codes "logbooks") raw) j.logbooks
    pub tags : FollowsNames edit.tags (get (codes "tags") raw) j.tags
    pub same_properties : j.properties ≡ get (codes "properties") raw
    pub attachments : Resubmits py raw j.attachments

  no_texts_iff : (ts : List Text) → (no_texts ts ≡ true) ↔ (ts ≡ [])
  no_texts_iff [] = (λ h. refl, λ h. refl)
  no_texts_iff (t ∷ ts) = (λ h. cc, λ h. cc)

  no_text : (j : Json) → ((s : Text) → j ≢ text s) → or_else (as_text j) [] ≡ []
  no_text (text s) n = absurd (n s refl)
  no_text null n = refl
  no_text (boolean b) n = refl
  no_text (integer i) n = refl
  no_text (real s b) n = refl
  no_text (items js) n = refl
  no_text (object fs) n = refl

  edited-IsOverlaid :
      (edit : Edit) (meta : List AttachmentMeta)
      → Resubmits py raw meta
      → IsOverlaid edit (edited raw edit meta)
  edited-IsOverlaid edit meta h = record {
    same_id = refl;
    title = ground arith;
    level = ground arith;
    source = ground arith;
    description = ground arith;
    kept_description = λ e s f. ap text (
        ap (λ o. or_else o (or_else (as_text (get (codes "description") raw)) [])) e
        ∙ ap (λ o. or_else o []) ((as_text_iff _ s).1 f));
    no_description = λ e n. ap text (
        ap (λ o. or_else o (or_else (as_text (get (codes "description") raw)) [])) e
        ∙ no_text (get (codes "description") raw) n);
    logbooks = ground arith;
    tags = ground arith;
    same_properties = refl;
    attachments = h;
  }

  -- An update that is not refused submits the entry with the edit overlaid.
  pub update_request-IsOverlaid :
      (edit : Edit) (q : Request)
      → update_request py raw edit ≡ returned q
      → (j : LogJson) × (q ≡ post_multipart j []) × IsOverlaid edit j
  unfolding update_request
  update_request-IsOverlaid edit q h =
      by_round_trip (attachment_round_trip py raw)
        (λ meta. (attachment_round_trip_iff py raw meta).0) h
    where
      by_round_trip :
          (w : List AttachmentMeta × List Text)
          → ((meta : List AttachmentMeta) → w ≡ (meta, []) → Resubmits py raw meta)
          → (raise_if (some_offender w.1) olog_unsafe
              >> returned (post_multipart (edited raw edit w.0) []))
            ≡ returned q
          → (j : LogJson) × (q ≡ post_multipart j []) × IsOverlaid edit j
      by_round_trip (meta, []) carried h =
          (edited raw edit meta, ground arith, edited-IsOverlaid edit meta (carried meta refl))
      by_round_trip (meta, t ∷ ts) carried h = cc

  -- An update is refused as unsafe exactly if no metadata carries all the attachments.
  pub update_refused_iff :
      (edit : Edit)
      → (update_request py raw edit ≡ raised olog_unsafe)
        ↔ ((meta : List AttachmentMeta) → Resubmits py raw meta → ⊥)
  unfolding update_request
  update_refused_iff edit =
      by_round_trip (attachment_round_trip py raw) (attachment_round_trip_iff py raw)
    where
      by_round_trip :
          (w : List AttachmentMeta × List Text)
          → ((meta : List AttachmentMeta) → (w ≡ (meta, [])) ↔ Resubmits py raw meta)
          → ((raise_if (some_offender w.1) olog_unsafe
                >> returned (post_multipart (edited raw edit w.0) []))
              ≡ raised olog_unsafe)
            ↔ ((meta : List AttachmentMeta) → Resubmits py raw meta → ⊥)
      by_round_trip (meta, []) carried = (λ h. cc, λ h. absurd (h meta ((carried meta).0 refl)))
      by_round_trip (meta, t ∷ ts) carried = (λ h m k. offended ((carried m).1 k), λ h. refl)
        where
          offended :
              {m : List AttachmentMeta}
              → ◌≡◌ {A = List AttachmentMeta × List Text} (meta, t ∷ ts) (m, [])
              → ⊥
          offended h = cc

  -- An entry that files are added to: every field as it was, the attachments and the new ones, and the
  -- markup behind the source.
  pub record IsAdditive (j : LogJson) (uploads : List AttachmentUpload) (markup : Text)
      : Type 0 where
    pub same_title : j.title ≡ get (codes "title") raw
    pub same_description : j.description ≡ get (codes "description") raw
    pub source : j.source ≡ marked_source (get (codes "source") raw) markup
    pub same_level : j.level ≡ get (codes "level") raw
    pub same_logbooks : j.logbooks ≡ get (codes "logbooks") raw
    pub same_tags : j.tags ≡ get (codes "tags") raw
    pub same_properties : j.properties ≡ get (codes "properties") raw
    pub existing : List AttachmentMeta
    pub carried : Resubmits py raw existing
    pub attachments : j.attachments ≡ existing ++ new_meta uploads

  -- Adding files submits the entry with them behind its attachments, and a part for each.
  pub add_request-IsAdditive :
      (int_of : Text → Option ℤ) (log_id : Text) (uploads : List AttachmentUpload) (markup : Text)
      (q : Request)
      → add_request py int_of log_id raw uploads markup ≡ returned q
      → (j : LogJson) × (q ≡ post_multipart j (file_parts uploads)) × IsAdditive j uploads markup
  unfolding add_request
  add_request-IsAdditive int_of log_id uploads markup q h =
      by_round_trip (attachment_round_trip py raw)
        (λ meta. (attachment_round_trip_iff py raw meta).0) (int_of log_id) h
    where
      by_round_trip :
          (w : List AttachmentMeta × List Text)
          → ((meta : List AttachmentMeta) → w ≡ (meta, []) → Resubmits py raw meta)
          → (n : Option ℤ)
          → (raise_if (some_offender w.1) olog_unsafe
              >> (parsed n >>= λ id. returned (
                  post_multipart
                    (attached raw id
                      (marked_source (get (codes "source") raw) markup)
                      (w.0 ++ new_meta uploads))
                    (file_parts uploads))))
            ≡ returned q
          → (j : LogJson) × (q ≡ post_multipart j (file_parts uploads))
            × IsAdditive j uploads markup
      by_round_trip (meta, []) carried none h = cc
      by_round_trip (meta, []) carried (some n) h = (
        attached raw (integer n) (marked_source (get (codes "source") raw) markup)
            (meta ++ new_meta uploads),
        ground arith,
        record {
          same_title = refl;
          same_description = refl;
          source = refl;
          same_level = refl;
          same_logbooks = refl;
          same_tags = refl;
          same_properties = refl;
          existing = meta;
          carried = carried meta refl;
          attachments = refl;
        },
      )
      by_round_trip (meta, t ∷ ts) carried n h = cc
