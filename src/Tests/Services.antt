-- ===== src/Tests/Services.antt =====
-- Runs of the PV client, the transport and the client of ChannelFinder.
use epics_mcp_server.Prelude.{
  ℕ, zero, suc, ◌+◌, ◌≤◌, ◌≡◌, refl, ◌↔◌, Bool, true, false, none, some, List, [], ◌∷◌, ◌==◌,
  if◌then◌else◌, length,
}
use epics_mcp_server.Prelude.Int.{pos}
use epics_mcp_server.Prelude.Texts.{Text, codes}
use epics_mcp_server.Errors.{ok}
use epics_mcp_server.Throttle.{start, check}
use epics_mcp_server.Json.{null}
use epics_mcp_server.PvClient.{
  Provider, Formatting, formatted, crashed, answer, timed_out, done, BatchResult, BatchError,
  pv_get_batch,
}
use epics_mcp_server.PvClient.Batch.{IsBatch, pv_get_batch-IsBatch}
use epics_mcp_server.PvClient.Monitor.{
  Delivery, value, notice, disconnected, Subscription, opened, MonitorConfig, MonitorOutcome,
  pv_monitor, run, started,
}
use epics_mcp_server.PvClient.Run.{values, IsHonest, pv_monitor-IsHonest, run_stops_iff}
use epics_mcp_server.Transport.{
  Response, responded, ended, chunk, Headers, Download, rest_get_bytes, returned, json_of,
}
use epics_mcp_server.Transport.Capped.{IsDownload, rest_get_bytes_iff}
use epics_mcp_server.Transport.Contract.{IsReported, json_of-IsReported}
use epics_mcp_server.Transport.Sessions.{Call, shared_sessions}
use epics_mcp_server.Transport.Cache.{AllServed, shared_sessions-AllServed}
use epics_mcp_server.Channels.{Params, Filters, build_query_params}
use epics_mcp_server.Channels.Query.{IsQuery, build_query_params-IsQuery}

abbrev deliveries : List (Delivery ℕ)
deliveries = notice disconnected ∷ value 1 ∷ value 2 ∷ value 3 ∷ []

abbrev bounds : MonitorConfig
bounds = record { max_monitor_duration = 60; max_monitor_events = 2 }

-- A number is formatted as itself, and 0 as nothing.
abbrev formatting : Text → ℕ → Formatting ℕ
formatting name zero = crashed (codes "zero")
formatting name (suc n) = formatted (suc n)

abbrev subscribe : Text → ℕ → Subscription ℕ
subscribe name duration = opened deliveries

IsHonest-example :
    (o : MonitorOutcome ℕ) × (pv_monitor
        (λ s. s)
        bounds
        formatting
        subscribe
        (codes "A")
        none
        (some 5)
      ≡ done o)
    × IsHonest (formatting (codes "A")) 2 deliveries o
IsHonest-example =
    pv_monitor-IsHonest (λ s. s) bounds formatting subscribe (codes "A") none (some 5) deliveries
      refl

stops_example :
    ((run (formatting (codes "A")) 1 started deliveries).stopped ≡ true)
    ↔ (1 + 2 ≤ length (values deliveries))
stops_example = run_stops_iff (formatting (codes "A")) 1 deliveries

-- A provider whose batch fails, so that each PV is read on its own.
abbrev provider : Provider ℕ ℕ
provider = record {
  get = λ name. if length name == 1 then answer 7 else timed_out;
  get_all = λ names. timed_out;
  format = formatting;
  lower = λ s. s;
}

abbrev envelope : BatchResult ℕ
envelope = record { results = (codes "A", 7) ∷ []; errors = (codes "BB", BatchError.timeout) ∷ [] }

abbrev names : List Text
names = codes "A" ∷ codes "BB" ∷ []

batch_runs : pv_get_batch provider 5 names ≡ done envelope
unfolding pv_get_batch
batch_runs = refl

IsBatch-example : IsBatch provider 5 names
IsBatch-example = pv_get_batch-IsBatch provider 5 names

abbrev response : Response
response = record {
  status_code = 200;
  is_redirect = false;
  json = some null;
  body = chunk (codes "ab") (chunk (codes "c") ended);
  content_length = some (codes "3");
  content_disposition = none;
  content_type = none;
}

abbrev headers : Headers
headers = record { isdigit = λ s. true; int_of = λ s. some 3; get_filename = λ s. none }

abbrev download : Download
download = record { content = codes "abc"; filename = none; content_type = none }

download_example :
    ((rest_get_bytes headers (start (pos 0)) 0 false (some 3) (responded response)).0
      ≡ returned download)
    ↔ (((check (start (pos 0)) 0).0 ≡ ok tt)
        × ((r : Response) × (responded response ≡ responded r)
            × IsDownload headers false 3 r download))
download_example =
    rest_get_bytes_iff headers false 3 (start (pos 0)) 0 (responded response) download

download_runs :
    (rest_get_bytes headers (start (pos 0)) 0 false (some 3) (responded response)).0
    ≡ returned download
unfolding rest_get_bytes start
download_runs = refl

reported_example :
    IsReported false
      (responded (record response { status_code = 404 }))
      (json_of false (responded (record response { status_code = 404 })))
      404
reported_example = json_of-IsReported false (responded (record response { status_code = 404 })) 404

-- The same call under two configurations.
abbrev call : Call
call = record {
  config = record { ca_bundle = none; tls_verify = true };
  accept = codes "application/json";
  auth_header = none;
  verify = none;
  retries = 3;
  backoff_factor = 500;
}

abbrev calls : List Call
calls = call ∷ record call { config = record { ca_bundle = none; tls_verify = false } } ∷ call ∷ []

AllServed-example : AllServed true calls (shared_sessions true [] calls)
AllServed-example = shared_sessions-AllServed true calls

abbrev is_space : ℕ → Bool
is_space c = c == 32

abbrev allowed : List Text
allowed = codes "iocName" ∷ codes "hostName" ∷ []

abbrev filters : Filters
filters = record {
  has_properties = (codes " iocName", codes "IOC1") ∷ [];
  lacks_properties = codes "hostName" ∷ [];
  not_property_values = [];
  has_tags = codes "a" ∷ codes "b" ∷ [];
  lacks_tags = [];
}

abbrev params : Params
params =
    (codes "~name", codes "*")
    ∷ (codes "iocName", codes "IOC1")
    ∷ (codes "hostName!", codes "*")
    ∷ (codes "~tag", codes "a|b")
    ∷ []

query_runs : build_query_params is_space allowed (codes "*") none filters ≡ returned params
unfolding build_query_params
query_runs = refl

IsQuery-example : IsQuery is_space allowed (codes "*") none filters params
IsQuery-example =
    build_query_params-IsQuery is_space allowed (codes "*") none filters params query_runs
