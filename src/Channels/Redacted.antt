-- ===== src/Channels/Redacted.antt =====
-- When a query for channels answers, and what a channel of the answer shows.
use mathlib.Core.Path.{subst}
use epics_mcp_server.Prelude.{
  ℕ, ◌≡◌, refl, sym, ap, ◌∙◌, ◌≢◌, ◌↔◌, ◌⊎◌, inl, inr, Bool, Option, none, some, List, [], ◌∷◌,
  Bool-cases,
}
use epics_mcp_server.Prelude.Texts.{Text, codes, Among, member, member_iff}
use epics_mcp_server.Json.{
  Json, null, boolean, integer, real, text, items, object, Items, no_items, item, Fields, get,
  as_object, as_text_iff, as_object_iff, as_text,
}
use epics_mcp_server.Transport.{Outcome, returned}
use epics_mcp_server.Transport.Steps.{returned_iff, bind_iff}
use epics_mcp_server.Redact.{Every, Every-project_allowlist}
use epics_mcp_server.Channels.{Params, Filters, build_query_params}
use epics_mcp_server.Channels.Listing.{
  ChannelInfo, Request, channels, not_empty, raw_owner, info, project, project_object, project_each,
  channels_of, find_channels,
}
use epics_mcp_server.Channels.Properties.{Carries, raw_properties-Every}

-- A record with a name
abbrev pub HasName : Json → Type 0
HasName j =
    (channel : Fields) × (name : Text) × (j ≡ object channel)
    × (get (codes "name") channel ≡ text name)
    × (name ≢ [])

abbrev pub AllNamed : Items → Type 0
AllNamed no_items = Unit {0}
AllNamed (item j js) = HasName j × AllNamed js

some_inj : {a b : Text} → some a ≡ some b → a ≡ b
some_inj h = cc

not_empty_iff :
    (o : Option Text) (name : Text)
    → (not_empty o ≡ returned name) ↔ ((o ≡ some name) × (name ≢ []))
not_empty_iff none name = (λ h. cc, λ h. cc)
not_empty_iff (some []) name = (λ h. cc, λ h. absurd (h.1 (sym (some_inj h.0))))
not_empty_iff (some (c ∷ s)) name =
    (λ h. (ap some (returned_iff.0 h), λ n. cc), λ h. ap returned (some_inj h.0))

module _ (repr : Json → Text) (owners allowed : List Text) where
  -- What a channel shows of its record: the name, an owner only if it is allowed, and properties of the
  -- record that are allowed, of which those of the IOC and of the host are also shown on their own.
  pub record IsShown (channel : Fields) (i : ChannelInfo) : Type 0 where
    pub name : get (codes "name") channel ≡ text i.name
    pub named : i.name ≢ []
    pub owner :
        (i.owner ≡ []) ⊎ (Among i.owner owners × (i.owner ≡ raw_owner repr owners allowed channel))
    pub properties :
        Every
          (λ k j. Among k allowed × ((v : Text) × (j ≡ text v) × Carries channel k v))
          i.properties
    pub ioc_name : i.ioc_name ≡ as_text (get (codes "iocName") i.properties)
    pub host_name : i.host_name ≡ as_text (get (codes "hostName") i.properties)

  abbrev pub Shown : Items → List ChannelInfo → Type 0
  Shown no_items [] = Unit {0}
  Shown (item j js) (i ∷ is) =
      ((channel : Fields) × (j ≡ object channel) × IsShown channel i) × Shown js is
  Shown _ _ = ⊥

  info-IsShown :
      (channel : Fields) (n : Text)
      → get (codes "name") channel ≡ text n
      → n ≢ []
      → IsShown channel (info repr owners allowed channel n)
  info-IsShown channel n e m =
      let o = raw_owner repr owners allowed channel in
      record {
        name = e;
        named = m;
        owner = elim (Bool-cases (member o owners)) [
          | inl f ↦ rw f (inr ((member_iff o owners).0 f, refl))
          | inr f ↦ rw f (inl refl)
        ];
        properties =
            Every-project_allowlist _ allowed _
              (raw_properties-Every (Carries channel) _ (λ js k v f p. (js, f, p)));
        ioc_name = refl;
        host_name = refl;
      }

  project_returned :
      (channel : Fields) (i : ChannelInfo)
      → project repr owners allowed channel ≡ returned i
      → IsShown channel i
  unfolding project
  project_returned channel i h =
      let (n, e, k) = (bind_iff _ _ _).0 h in
      let (f, m) = (not_empty_iff _ n).0 e in
      subst (IsShown channel) (returned_iff.0 k) (info-IsShown channel n ((as_text_iff _ n).0 f) m)

  project_object_returned :
      (j : Json) (i : ChannelInfo) (o : Option Fields)
      → as_object j ≡ o
      → project_object repr owners allowed o ≡ returned i
      → (channel : Fields) × (j ≡ object channel) × IsShown channel i
  project_object_returned j i none e h = cc
  project_object_returned j i (some channel) e h =
      (channel, (as_object_iff j channel).0 e, project_returned channel i h)

  project_each_returned :
      (js : Items) (is : List ChannelInfo)
      → project_each repr owners allowed js ≡ returned is
      → Shown js is
  unfolding project_each
  project_each_returned no_items [] h = tt
  project_each_returned no_items (i ∷ is) h = cc
  project_each_returned (item j js) is h =
      let (i, e, k) = (bind_iff _ _ _).0 h in
      let (rest, f, m) = (bind_iff _ _ _).0 k in
      subst (Shown (item j js)) {x = i ∷ rest} (returned_iff.0 m)
        (project_object_returned j i (as_object j) refl e, project_each_returned js rest f)

  project_each_named :
      (js : Items)
      → AllNamed js
      → (is : List ChannelInfo) × (project_each repr owners allowed js ≡ returned is)
  unfolding project_each project
  project_each_named no_items n = ([], refl)
  project_each_named (item j js) n =
      let (channel, name, e, f, m) = n.0 in
      let (rest, g) = project_each_named js n.1 in
      let named =
        (bind_iff _ (λ x. returned (info repr owners allowed channel x))
            (info repr owners allowed channel name)).1
          (name, (not_empty_iff _ name).1 ((as_text_iff _ name).1 f, m), refl) in
      let i = info repr owners allowed channel name in
      (
        i ∷ rest,
        (bind_iff _ _ _).1 (
          i,
          ap (λ o. project_object repr owners allowed o) ((as_object_iff j channel).1 e) ∙ named,
          (bind_iff _ _ _).1 (rest, g, refl),
        ),
      )

  Shown-AllNamed : (js : Items) (is : List ChannelInfo) → Shown js is → AllNamed js
  Shown-AllNamed no_items [] h = tt
  Shown-AllNamed no_items (i ∷ is) h = absurd h
  Shown-AllNamed (item j js) [] h = absurd h
  Shown-AllNamed (item j js) (i ∷ is) h =
      let (channel, e, shown) = h.0 in
      ((channel, i.name, e, shown.name, shown.named), Shown-AllNamed js is h.1)

  channels_of_returned :
      (payload : Json) (is : List ChannelInfo)
      → channels_of repr owners allowed payload ≡ returned is
      → (js : Items) × (payload ≡ items js) × Shown js is
  channels_of_returned (items js) is h = (js, refl, project_each_returned js is h)
  channels_of_returned null is h = cc
  channels_of_returned (boolean b) is h = cc
  channels_of_returned (integer n) is h = cc
  channels_of_returned (real s b) is h = cc
  channels_of_returned (text s) is h = cc
  channels_of_returned (object fs) is h = cc

  module _ (space : ℕ → Bool) (fetch : Request → Outcome Json) (name_pattern size : Text)
      (f : Filters) where
    -- The query is built, and answered with a list.
    abbrev pub Answered : Items → Type 0
    Answered js =
        (params : Params) × (build_query_params space allowed name_pattern (some size) f
          ≡ returned params)
        × (fetch (channels params) ≡ returned (items js))

    abbrev pub Finds : List ChannelInfo → Type 0
    Finds is = find_channels repr owners allowed space fetch name_pattern size f ≡ returned is

    pub record IsListing : Type 0 where
      pub answers :
          ((is : List ChannelInfo) × Finds is) ↔ ((js : Items) × Answered js × AllNamed js)
      pub shows : (is : List ChannelInfo) → Finds is → (js : Items) × Answered js × Shown js is

    found : (is : List ChannelInfo) → Finds is → (js : Items) × Answered js × Shown js is
    unfolding find_channels
    found is h =
        let (params, e, k) = (bind_iff _ _ _).0 h in
        let (payload, g, m) = (bind_iff _ _ _).0 k in
        let (js, n, shown) = channels_of_returned payload is m in
        (js, (params, e, g ∙ ap returned n), shown)

    -- A query for channels answers exactly if it is built, and the answer to it is a list of records
    -- that all have a name, not empty. Then each record is shown, in its place, by its name, with its
    -- owner only if the owner is allowed, and with properties that the record has and that are allowed;
    -- the names of the IOC and of the host are those of the properties that are shown.
    pub find_channels-IsListing : IsListing
    unfolding find_channels
    find_channels-IsListing = record {
      answers = (
        λ h. let (js, a, shown) = found h.0 h.1 in (js, a, Shown-AllNamed js h.0 shown),
        λ h.
            let (js, a, named) = h in
            let (params, e, g) = a in
            let (is, k) = project_each_named js named in
            (is, (bind_iff _ _ _).1 (params, e, (bind_iff _ _ _).1 (items js, g, k))),
      );
      shows = found;
    }
