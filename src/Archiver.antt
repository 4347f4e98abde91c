-- ===== src/Archiver.antt =====
-- services/archiver_client.py: what the client of the Archiver makes of the answers of the appliance.
-- `fetch` is `_get`, Python's `int` is the parameter `int_of` of Archiver/Samples.
pub mod Samples
pub mod Payload
pub mod History
pub mod Status
use epics_mcp_server.Prelude.{
  ℕ, zero, suc, Bool, false, Option, none, some, List, [], ◌∷◌, ltb, if◌then◌else◌, length,
}
use epics_mcp_server.Prelude.Int.{ℤ, pos, negsuc}
use epics_mcp_server.Prelude.Texts.{Text, codes, is_empty, text_eq}
use epics_mcp_server.Attach.{take}
use epics_mcp_server.Json.{
  Json, null, text, items, object, boolean, integer, real, Items, no_items, item, Fields, no_fields,
  field, get, has_key, put,
}
use epics_mcp_server.TimeWindow.{TimeLib, normalize_archiver_time}
use epics_mcp_server.Transport.{
  RequestException, Outcome, returned, conn_exc, resp_exc, throttled, value_error, ◌>>=◌, ◌>>◌,
  is_http_404,
}

pub data Request : Type 0 where
  pv_status type_info : Text → Request
  appliance_info : Request
  all_pvs : (limit : ℤ) → (pattern_text : Option Text) → Request
  appliance_pvs : (limit : ℤ) → Request
  history : Text → (from_time : Text) → (to_time : Text) → Request

abbrev unreadable {ℓ} : {A : Type ℓ} → Outcome A
unreadable = resp_exc none

abbrev pub list_of : Items → List Json
list_of no_items = []
list_of (item j js) = j ∷ list_of js

-- A text that is not empty.
abbrev pub filled_text : Json → Option Text
filled_text (text []) = none
filled_text (text (c ∷ s)) = some (c ∷ s)
filled_text _ = none

abbrev anchored : Text → Fields → Outcome Fields
anchored key fs = elim (filled_text (get key fs)) [ none ↦ unreadable | some s ↦ returned fs ]

abbrev first_status : Json → Outcome Fields
first_status (object fs) = anchored (codes "status") fs
first_status _ = unreadable

-- The check of `get_pv_status`
unfoldable pub require_status : Json → Outcome Fields
unfolding get
require_status (items (item j js)) = first_status j
require_status _ = unreadable

-- The fields of a record that are surfaced, under their names.
unfoldable pub project : List (Text × Text) → Fields → Fields → Fields
unfolding get has_key put
project [] record_fields result = result
project ((source_key, out_key) ∷ table) record_fields result = project table record_fields (
    if has_key source_key record_fields
    then put out_key (get source_key record_fields) result
    else result)

abbrev archive_status_fields : List (Text × Text)
archive_status_fields =
    (codes "connectionState", codes "connection_state")
    ∷ (codes "lastEvent", codes "last_event")
    ∷ (codes "isMonitored", codes "is_monitored")
    ∷ (codes "samplingPeriod", codes "sampling_period")
    ∷ (codes "appliance", codes "appliance")
    ∷ (codes "connectionLossRegainCount", codes "connection_loss_regain_count")
    ∷ (codes "connectionFirstEstablished", codes "connection_first_established")
    ∷ (codes "connectionLastRestablished", codes "connection_last_restablished")
    ∷ []

abbrev pub type_info_fields : List (Text × Text)
type_info_fields =
    (codes "DBRType", codes "dbr_type")
    ∷ (codes "samplingMethod", codes "sampling_method")
    ∷ (codes "samplingPeriod", codes "sampling_period")
    ∷ (codes "computedEventRate", codes "event_rate")
    ∷ (codes "computedStorageRate", codes "storage_rate")
    ∷ (codes "computedBytesPerEvent", codes "bytes_per_event")
    ∷ (codes "elementCount", codes "element_count")
    ∷ (codes "archiveFields", codes "archive_fields")
    ∷ (codes "dataStores", codes "data_stores")
    ∷ (codes "hostName", codes "host_name")
    ∷ (codes "creationTime", codes "creation_time")
    ∷ (codes "applianceIdentity", codes "appliance")
    ∷ (codes "paused", codes "paused")
    ∷ (codes "upperAlarmLimit", codes "upper_alarm_limit")
    ∷ (codes "upperWarningLimit", codes "upper_warning_limit")
    ∷ (codes "lowerWarningLimit", codes "lower_warning_limit")
    ∷ (codes "lowerAlarmLimit", codes "lower_alarm_limit")
    ∷ (codes "upperDisplayLimit", codes "upper_display_limit")
    ∷ (codes "lowerDisplayLimit", codes "lower_display_limit")
    ∷ (codes "upperCtrlLimit", codes "upper_ctrl_limit")
    ∷ (codes "lowerCtrlLimit", codes "lower_ctrl_limit")
    ∷ (codes "precision", codes "precision")
    ∷ (codes "units", codes "units")
    ∷ (codes "controllingPV", codes "controlling_pv")
    ∷ (codes "policyName", codes "policy_name")
    ∷ (codes "modificationTime", codes "modification_time")
    ∷ []

abbrev appliance_info_fields : List (Text × Text)
appliance_info_fields =
    (codes "identity", codes "identity")
    ∷ (codes "mgmtURL", codes "mgmt_url")
    ∷ (codes "engineURL", codes "engine_url")
    ∷ (codes "retrievalURL", codes "retrieval_url")
    ∷ (codes "etlURL", codes "etl_url")
    ∷ (codes "dataRetrievalURL", codes "data_retrieval_url")
    ∷ (codes "clusterInetPort", codes "cluster_inet_port")
    ∷ (codes "version", codes "version")
    ∷ []

abbrev is_archiving : Json → Bool
is_archiving (text s) = text_eq s (codes "Being archived")
is_archiving _ = false

-- The answer to a type-info request: no record, or its fields.
pub data TypeInfo : Type 0 where
  not_found : TypeInfo
  found : Fields → TypeInfo

abbrev named_record : Json → Outcome Fields
named_record (object fs) = anchored (codes "pvName") fs
named_record _ = unreadable

-- `_require_type_info_record`
unfoldable pub require_type_info_record : Json → Outcome Fields
unfolding get
require_type_info_record (items (item j no_items)) = named_record j
require_type_info_record j = named_record j

-- `_require_appliance_record`
unfoldable pub require_appliance_record : Json → Outcome Fields
unfolding get
require_appliance_record (object fs) = anchored (codes "identity") fs
require_appliance_record _ = unreadable

abbrev names_each : List Json → Outcome (List Text)
names_each [] = returned []
names_each (text s ∷ js) = do rest ← names_each js; returned (s ∷ rest)
names_each (_ ∷ js) = unreadable

-- `max(limit, 1)`
abbrev pub at_least_one : ℤ → ℕ
at_least_one (pos zero) = 1
at_least_one (pos (suc n)) = suc n
at_least_one (negsuc n) = 1

abbrev one_more : ℤ → ℤ
one_more (pos n) = pos (suc n)
one_more (negsuc zero) = pos 0
one_more (negsuc (suc n)) = negsuc n

abbrev name_items : Json → Outcome (List Json)
name_items (items js) = returned (list_of js)
name_items _ = unreadable

-- `_coerce_pv_names`: the names, and whether there are more.
unfoldable pub coerce_pv_names : Json → ℤ → Outcome (List Text × Bool)
coerce_pv_names data_ limit = do
  js ← name_items data_
  names ← names_each js
  returned (take (at_least_one limit) names, ltb (at_least_one limit) (length names))

abbrev pub type_info_of : Outcome Json → Outcome TypeInfo
type_info_of (returned payload) = do
  record_fields ← require_type_info_record payload
  returned (found (project type_info_fields record_fields no_fields))
type_info_of (resp_exc e) =
    if is_http_404 {A = Json} (resp_exc e) then returned not_found else resp_exc e
type_info_of (conn_exc e) = conn_exc e
type_info_of throttled = throttled
type_info_of value_error = value_error

abbrev given_pattern : Option Text → Option Text
given_pattern none = none
given_pattern (some p) = if is_empty p then none else some p

module _ (fetch : Request → Outcome Json) where
  unfoldable pub get_pv_status : Text → Outcome Fields
  unfolding require_status
  get_pv_status pv = do payload ← fetch (pv_status pv); require_status payload

  -- Whether the PV is being archived, and its status.
  unfoldable pub is_archived : Text → Outcome (Bool × Json)
  unfolding get_pv_status text_eq
  is_archived pv = do
    record_fields ← get_pv_status pv
    let status = get (codes "status") record_fields
    returned (is_archiving status, status)

  unfoldable pub get_archive_status : Text → Outcome Fields
  unfolding get_pv_status project text_eq
  get_archive_status pv = do
    record_fields ← get_pv_status pv
    let status = get (codes "status") record_fields
    returned (
        project archive_status_fields record_fields (
          field (codes "archived") (boolean (is_archiving status))
            (field (codes "status") status no_fields)))

  unfoldable pub get_pv_type_info : Text → Outcome TypeInfo
  unfolding require_type_info_record project is_http_404
  get_pv_type_info pv = type_info_of (fetch (type_info pv))

  unfoldable pub get_appliance_info : Outcome Fields
  unfolding require_appliance_record project
  get_appliance_info = do
    payload ← fetch appliance_info
    record_fields ← require_appliance_record payload
    returned (project appliance_info_fields record_fields no_fields)

  unfoldable pub get_all_pvs : Option Text → ℤ → Outcome (List Text × Bool)
  unfolding coerce_pv_names
  get_all_pvs pattern_text limit = do
    payload ← fetch (all_pvs (one_more limit) (given_pattern pattern_text))
    coerce_pv_names payload limit

  unfoldable pub get_pvs_for_this_appliance : ℤ → Outcome (List Text × Bool)
  unfolding coerce_pv_names
  get_pvs_for_this_appliance limit = do
    payload ← fetch (appliance_pvs (one_more limit))
    coerce_pv_names payload limit
