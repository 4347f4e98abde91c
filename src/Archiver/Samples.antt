-- ===== src/Archiver/Samples.antt =====
-- services/archiver_client.py: `get_pv_history` and `_readable_sample`. Python's `int` is the parameter
-- `int_of`, and `lib` reads the times.
use epics_mcp_server.Prelude.{
  ℕ, Bool, false, ◌&&◌, Option, none, some, List, [], ◌∷◌, ltb, if◌then◌else◌, length,
}
use epics_mcp_server.Prelude.Int.{ℤ, pos}
use epics_mcp_server.Prelude.Texts.{Text, codes}
use epics_mcp_server.Attach.{take}
use epics_mcp_server.Json.{Json, items, object, item, Fields, no_fields, get, has_key}
use epics_mcp_server.TimeWindow.{TimeLib, normalize_archiver_time}
use epics_mcp_server.Transport.{Outcome, returned, value_error, ◌>>=◌}
use epics_mcp_server.Archiver.{Request, history, list_of, at_least_one}

-- `int(value)`: a number, a TypeError or ValueError, or an OverflowError.
pub data Converted : Type 0 where
  number : ℤ → Converted
  unconvertible overflow : Converted

pub record Sample : Type 0 where
  pub secs : ℤ
  pub nanos : ℤ
  pub val : Json
  pub severity : ℤ
  pub status : ℤ

-- What `_readable_sample` does with a point; an OverflowError leaves it.
pub data Reading : Type 0 where
  readable : Sample → Reading
  unreadable overflowed : Reading

abbrev then_int : Converted → (ℤ → Reading) → Reading
then_int (number n) rest = rest n
then_int unconvertible rest = unreadable
then_int overflow rest = overflowed

-- Why a history is withheld.
pub data Reason : Type 0 where
  unexpected_payload unexpected_sample_shape : Reason

pub data HistoryStatus : Type 0 where
  some_samples no_samples : HistoryStatus
  withheld : Reason → HistoryStatus

-- `some_samples` is "ok", `no_samples` is "empty".
pub record HistoryResult : Type 0 where
  pub samples : List Sample
  pub capped : Bool
  pub meta : Fields
  pub status : HistoryStatus

pub data HistoryOutcome : Type 0 where
  answered : HistoryResult → HistoryOutcome
  overflow_error : HistoryOutcome

-- `_withheld_history`
abbrev pub withheld_history : Fields → Reason → Bool → HistoryOutcome
withheld_history meta reason capped =
    answered (record { samples = []; capped = capped; meta = meta; status = withheld reason })

abbrev pub meta_of : Json → Fields
meta_of (object fs) = fs
meta_of _ = no_fields

-- The object that stands first in a list.
abbrev pub block_of : Json → Option Fields
block_of (items (item (object block) js)) = some block
block_of _ = none

abbrev pub points_of : Json → Option (List Json)
points_of (items js) = some (list_of js)
points_of _ = none

-- What the loop over the points has collected when it ends.
pub data Collected : Type 0 where
  collected : List Sample → Collected
  one_unreadable one_overflowed : Collected

abbrev pub add_sample : Reading → Collected → Collected
add_sample (readable s) (collected ss) = collected (s ∷ ss)
add_sample (readable s) one_unreadable = one_unreadable
add_sample (readable s) one_overflowed = one_overflowed
add_sample unreadable rest = one_unreadable
add_sample overflowed rest = one_overflowed

abbrev pub or_invalid : Option Text → Outcome Text
or_invalid none = value_error
or_invalid (some s) = returned s

module _ (int_of : Json → Converted) where
  -- `int(point.get(key, 0))`
  abbrev field_int : Text → Fields → Converted
  field_int key point = if has_key key point then int_of (get key point) else number (pos 0)

  abbrev sample_of : Fields → Reading
  sample_of point = then_int (int_of (get (codes "secs") point)) (λ secs.
      then_int (field_int (codes "nanos") point) (λ nanos.
        then_int (field_int (codes "severity") point) (λ severity.
          then_int (field_int (codes "status") point) (λ status. readable (record {
            secs = secs;
            nanos = nanos;
            val = get (codes "val") point;
            severity = severity;
            status = status;
          })))))

  -- `_readable_sample`
  unfoldable pub readable_sample : Json → Reading
  unfolding get has_key
  readable_sample (object point) =
      if has_key (codes "secs") point && has_key (codes "val") point
      then sample_of point
      else unreadable
  readable_sample _ = unreadable

  unfoldable pub collect_samples : List Json → Collected
  unfolding readable_sample
  collect_samples [] = collected []
  collect_samples (point ∷ points) = add_sample (readable_sample point) (collect_samples points)

  abbrev pub by_collected : Fields → Bool → Collected → HistoryOutcome
  by_collected meta capped (collected ss) =
      answered (record { samples = ss; capped = capped; meta = meta; status = some_samples })
  by_collected meta capped one_unreadable = withheld_history meta unexpected_sample_shape capped
  by_collected meta capped one_overflowed = overflow_error

  abbrev pub by_points : ℕ → Fields → Option (List Json) → HistoryOutcome
  by_points most meta none = withheld_history meta unexpected_payload false
  by_points most meta (some []) =
      answered (record { samples = []; capped = false; meta = meta; status = no_samples })
  by_points most meta (some (p ∷ ps)) =
      by_collected meta (ltb most (length (p ∷ ps))) (collect_samples (take most (p ∷ ps)))

  abbrev pub by_block : ℕ → Option Fields → HistoryOutcome
  by_block most none = withheld_history no_fields unexpected_payload false
  by_block most (some block) =
      by_points most (meta_of (get (codes "meta") block)) (points_of (get (codes "data") block))

  -- What is made of the answer to a request for a history
  unfoldable pub history_of : ℕ → Json → HistoryOutcome
  unfolding collect_samples get
  history_of most payload = by_block most (block_of payload)

  unfoldable pub get_pv_history :
      TimeLib → (Request → Outcome Json) → Text → Text → Text → ℤ → Outcome HistoryOutcome
  unfolding history_of normalize_archiver_time
  get_pv_history lib fetch pv start end max_points = do
    from_time ← or_invalid (normalize_archiver_time lib start)
    to_time ← or_invalid (normalize_archiver_time lib end)
    payload ← fetch (history pv from_time to_time)
    returned (history_of (at_least_one max_points) payload)
