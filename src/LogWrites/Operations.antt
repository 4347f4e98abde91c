-- ===== src/LogWrites/Operations.antt =====
-- services/checkers_olog.py: the three operations, from the call to the report.
use epics_mcp_server.Prelude.{
  ℕ, String, Bool, true, false, not, ◌&&◌, Option, none, some, List, [], ◌∷◌, ◌++◌, if◌then◌else◌,
  length, all,
}
use epics_mcp_server.Prelude.Texts.{Text, codes, is_empty, member}
use epics_mcp_server.Prelude.Sorted.{sorted_set}
use epics_mcp_server.Errors.{epics, epics_connection, error_code}
use epics_mcp_server.Urls.{strip}
use epics_mcp_server.Faults.{
  epics_fault, internal, olog_connection, token, fault_code, Attempt, raised, returned,
}
use epics_mcp_server.Olog.{
  check_write_env_and_url, check_write_preconditions, check_write_allowed, audit_write,
  audit_write_failed,
}
use epics_mcp_server.Attach.{AttachmentPlan, AttachmentUpload, plan_attachments, read_uploads}
use epics_mcp_server.Json.{Json, Fields, get, has_key, as_text, truthy, str_of}
use epics_mcp_server.Entry.{Strings, names, unroundtrippable_attachment_filenames}
use epics_mcp_server.LogClient.{
  Endpoint, log_entry, logbook_names, tag_names, level_names, Edit, or_else, no_texts,
  create_request, add_request, update_request,
}
use epics_mcp_server.LogListing.{named_list, level_list, raw_entry_of}
use epics_mcp_server.LogWrites.{
  Env, World, Action, ◌>>=◌, ◌>>◌, from, refuse_when, check, ask, answer_of, disabled, write_entry,
  Report, crashed, refused, reported,
}

abbrev is_given {ℓ} : {A : Type ℓ} → Option A → Bool
is_given none = false
is_given (some a) = true

-- The id of an entry, as an audit line shows it
abbrev id_of : Strings → Text → Fields → Text
id_of py default entry =
    if has_key (codes "id") entry then str_of py.repr (get (codes "id") entry) else default

abbrev uploaded_of : List AttachmentUpload → List (Text × Text)
uploaded_of [] = []
uploaded_of (u ∷ us) = (u.id, u.filename) ∷ uploaded_of us

-- A result: the entry as the server confirmed it, the uploads, and whether it carries a warning.
pub record Written : Type 0 where
  pub entry : Fields
  pub attachments_uploaded : List (Text × Text)
  pub warned : Bool

abbrev pub described : Option Text → Text → Option Text
described description [] = description
described description (c ∷ markup) = some (or_else description [] ++ c ∷ markup)

abbrev pub or_not_found : Attempt (Option Fields) → Attempt Fields
or_not_found (raised f) = raised f
or_not_found (returned none) = raised (epics_fault (epics "OLOG_HTTP_404"))
or_not_found (returned (some raw)) = returned raw

abbrev pub no_embed : Option Text → Bool
no_embed none = true
no_embed (some s) = is_empty s

abbrev pub blank_title : (ℕ → Bool) → Option Text → Bool
blank_title space none = false
blank_title space (some s) = is_empty (strip space s)

abbrev pub nothing_edited : Edit → Bool
nothing_edited edit =
    not (is_given edit.title)
    && (not (is_given edit.description)
        && (not (is_given edit.level)
            && (not (is_given edit.logbooks) && not (is_given edit.tags))))

-- `x or ""`, as a text
abbrev title_text : Strings → Json → Text
title_text py title = if truthy title then str_of py.repr title else []

abbrev edited_title_len : Strings → Option Text → Json → ℕ
edited_title_len py none title = length (title_text py title)
edited_title_len py (some t) title = length t

abbrev or_level : Option Text → Option Text → Option Text
or_level none kept = kept
or_level (some l) kept = some l

module _ (env : Env) where
  abbrev space : ℕ → Bool
  space = env.urls.platform.space

  -- `_reject_unknown_level`
  unfoldable pub reject_unknown_level : Option Text → Action (Unit {0})
  reject_unknown_level none = from (returned tt)
  reject_unknown_level (some level) = do
    refuse_when (is_empty (strip space level))
    payload ← ask env.server level_names
    (known, default) ← from (level_list payload)
    refuse_when (not (member level known))

  -- A name list that is written, against the one that the server knows.
  abbrev pub known_names : Endpoint → Option (List Text) → Action (Unit {0})
  known_names endpoint none = from (returned tt)
  known_names endpoint (some given) = do
    payload ← ask env.server endpoint
    known ← from (named_list payload)
    refuse_when (not (all (λ l. member l known) given))

  -- `client.get_raw_entry`, and the refusal of an entry that does not exist
  unfoldable pub read_entry : Text → Action Fields
  read_entry log_id = do
    found ← answer_of env.server (log_entry log_id)
    from (or_not_found (raw_entry_of found))

  module _ (now : ℕ) (caller : String) where
    abbrev pub check_early : Action (Unit {0})
    check_early = check (λ g. check_write_env_and_url env.urls g caller)

    abbrev pub check_logbooks_early : List Text → Action (Unit {0})
    check_logbooks_early logbooks =
        check (λ g. check_write_preconditions env.urls g logbooks caller)

    abbrev pub check_all : List Text → ℕ → Action (Unit {0})
    check_all logbooks bytes = check (λ g. check_write_allowed env.urls g logbooks caller bytes now)

    abbrev pub read_planned : AttachmentPlan env.fs → Action (List AttachmentUpload)
    read_planned plan w =
        from (read_uploads env.fs env.disk plan.specs w.gate.config.olog_attach_max_bytes) w

    -- `_run` of `query_olog_create`
    unfoldable pub create_run :
        Text
        → List Text
        → Option Text
        → Option Text
        → Option (List Text)
        → Option Text
        → List Text
        → Option Text
        → Action Written
    create_run title logbooks description level tags in_reply_to attachments embed = do
      check_logbooks_early logbooks
      reject_unknown_level level
      plan ← from (plan_attachments env.fs env.disk env.ids env.roots_text 0 attachments embed)
      check_all logbooks plan.total_bytes
      uploads ← read_planned plan
      entry ←
          write_entry env.py env.server
            (returned (
              create_request title logbooks (described description plan.inline_markup) level tags
                in_reply_to uploads))
            (λ code g.
              audit_write_failed g logbooks level (length title) code in_reply_to caller none)
            (λ entry g.
              audit_write g (id_of env.py [] entry) logbooks level (length title) env.owner
                in_reply_to caller (length plan.specs) plan.total_bytes)
      from (
          returned
            (record { entry = entry; attachments_uploaded = uploaded_of uploads; warned = false }))

    -- `_run` of `query_olog_add_attachment`
    unfoldable pub add_run : Text → List Text → Option Text → Action Written
    add_run log_id attachments embed = do
      check_early
      raw ← read_entry log_id
      let logbooks = names env.py (get (codes "logbooks") raw)
      let level = as_text (get (codes "level") raw)
      let title_len = length (title_text env.py (get (codes "title") raw))
      check_logbooks_early logbooks
      plan ← from (plan_attachments env.fs env.disk env.ids env.roots_text 0 attachments embed)
      check_all logbooks plan.total_bytes
      uploads ← read_planned plan
      entry ←
          write_entry env.py env.server
            (add_request env.py env.int_of log_id raw uploads plan.inline_markup)
            (λ code g. audit_write_failed g logbooks level title_len code none caller (some log_id))
            (λ entry g.
              audit_write g (id_of env.py log_id entry) logbooks level title_len env.owner none
                caller (length plan.specs) plan.total_bytes)
      from (
          returned
            (record { entry = entry; attachments_uploaded = uploaded_of uploads; warned = false }))

    abbrev pub effective_logbooks : Edit → List Text → List Text
    effective_logbooks edit current = or_else edit.logbooks current

    abbrev loses_source : Edit → Fields → Bool
    loses_source edit raw =
        not (is_given edit.description) && not (is_given (as_text (get (codes "source") raw)))

    -- `_run` of `query_olog_update`
    unfoldable pub update_run : Text → Edit → Action Written
    update_run log_id edit = do
      check_early
      raw ← read_entry log_id
      refuse_when (not (no_texts (unroundtrippable_attachment_filenames env.py raw)))
      let current = names env.py (get (codes "logbooks") raw)
      let effective = effective_logbooks edit current
      refuse_when (no_texts effective)
      let logbooks = sorted_set (current ++ effective)
      let level = or_level edit.level (as_text (get (codes "level") raw))
      let title_len = edited_title_len env.py edit.title (get (codes "title") raw)
      check_logbooks_early logbooks
      known_names logbook_names edit.logbooks
      known_names tag_names edit.tags
      reject_unknown_level edit.level
      check_all logbooks 0
      entry ←
          write_entry env.py env.server (update_request env.py raw edit)
            (λ code g. audit_write_failed g logbooks level title_len code none caller (some log_id))
            (λ entry g.
              audit_write g (id_of env.py log_id entry) logbooks level title_len env.owner none
                caller 0 0)
      from (
          returned
            (record { entry = entry; attachments_uploaded = []; warned = loses_source edit raw }))

-- The two `except` clauses around a `_run`: what the caller is told.
abbrev pub report : Attempt Written × World → Report Written × World
report (raised internal, w) = (crashed, w)
report (raised olog_connection, w) = (refused (token (error_code epics_connection)), w)
report (raised fault, w) = (refused (fault_code fault), w)
report (returned written, w) = (reported written, w)

abbrev pub create_caller : Option Text → String
create_caller none = "create_log_entry"
create_caller (some s) = "reply_to_log"

abbrev pub invalid : World → Report Written × World
invalid w = (refused (token "INVALID_INPUT"), w)

module _ (env : Env) (now : ℕ) where
  unfoldable pub query_olog_create :
      Text
      → List Text
      → Option Text
      → Option Text
      → Option (List Text)
      → Option Text
      → List Text
      → Option Text
      → World
      → Report Written × World
  query_olog_create title logbooks description level tags in_reply_to attachments embed w =
      if is_empty w.gate.config.olog_url
      then (disabled, w)
      else report (
          create_run env now (create_caller in_reply_to) title logbooks description level tags
            in_reply_to attachments embed w)

  unfoldable pub query_olog_add_attachment :
      Text → List Text → Option Text → World → Report Written × World
  query_olog_add_attachment log_id attachments embed w =
      if is_empty w.gate.config.olog_url
      then (disabled, w)
      else if no_texts attachments && no_embed embed
      then invalid w
      else if not (env.isdigit (strip env.urls.platform.space log_id))
      then invalid w
      else report (add_run env now "add_log_attachment" log_id attachments embed w)

  unfoldable pub query_olog_update : Text → Edit → World → Report Written × World
  query_olog_update log_id edit w =
      let stripped_id = strip env.urls.platform.space log_id in
      if is_empty w.gate.config.olog_url
      then (disabled, w)
      else if nothing_edited edit
      then invalid w
      else if not (env.isascii stripped_id && env.isdigit stripped_id)
      then invalid w
      else if blank_title env.urls.platform.space edit.title
      then invalid w
      else report (update_run env now "update_log_entry" stripped_id edit w)
