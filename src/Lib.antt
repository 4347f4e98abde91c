-- ===== src/Lib.antt =====
-- EPICS MCP server: its gates of writes, its checks of what is written, and its pure decisions.
--
-- The server lets an agent read and write PVs (process variables) of EPICS and entries of the Olog
-- logbook. A write of a PV (`_set_pv_value`) asks the gate (`SafetyLayer`), which checks the switch,
-- the name pattern and the rate, and which a write-enabled process only has if its search reach is
-- loopback. The tool then reads the old value, checks the new one against the record's drive limits,
-- puts it between an ATTEMPT line and a terminal line of the audit log, and verifies what it reads
-- back. A write to the logbook (`query_olog_create`, `query_olog_add_attachment`,
-- `query_olog_update`) reads the entry that it changes, plans the files that it uploads, asks
-- `OlogWriteGate`, reads the files, sends one request of `OlogClient` and audits its end. All REST
-- reads pass `ReadThrottle`. `diagnose` explains why a PV is disconnected, `audit_coverage` finds PVs
-- without display, archive or alarm, and `crossplane_check` compares the PVs of displays with those
-- that an IOC loads, which e3_db.py reads from its st.cmd and its databases, whose macros it expands.
--
-- The files and the code they model:
--   Window            the limiter that three classes hold a copy of (src/epics_mcp/safety.py:
--                     `_purge_old`, the section under `_rate_lock`); Window/History and Window/Limit
--                     compare it with a limiter that remembers every admission
--   Safety            src/epics_mcp/safety.py, `SafetyLayer`: `__init__` is `construct`, each
--                     `audit_*` method has its name; Safety/Gate one call, Safety/Session many
--   Address           src/epics_mcp/epics_address.py; Address/Host tokens, Address/Reach the check
--   Errors            src/epics_mcp/errors.py, the classes and their codes
--   Values            the objects that a PV read carries, and the parameter `Floats`
--   Bounds            src/epics_mcp/bounds.py
--   Readback          src/epics_mcp/readback.py
--   Write             src/epics_mcp/tools/write.py, `_set_pv_value`; Write/Trace the order of its
--                     steps, Write/Outcome its lines and when it puts
--   Urls              src/epics_mcp/services/_http.py, `url_host`, `is_loopback_url`, `is_https_url`
--   Olog              src/epics_mcp/olog_safety.py, `OlogWriteGate`; Olog/Gate one call, Olog/Granted
--                     what a granted one leaves
--   Faults            what a call of the logbook's service may raise, and `_olog_error_code` of
--                     src/epics_mcp/services/checkers_olog.py
--   Paths             src/epics_mcp/paths.py; Paths/Boundary where a path lies
--   Attach            src/epics_mcp/services/olog_attachments.py, planning and reading of uploads;
--                     Attach/Budget the reading against one without a budget
--   Json              the payloads of the services
--   Entry             src/epics_mcp/services/olog_client.py, the entry and its attachments;
--                     Entry/RoundTrip when they survive an update
--   LogClient         the same file, the requests that write; LogClient/Overlay what they submit
--   LogListing        the same file, the answers that are read; LogListing/Page a page of a search
--   TimeWindow        src/epics_mcp/services/_time_window.py, olog_time.py, alarm_time.py and
--                     archiver_time.py beside it, and `_add_window` of olog_client.py;
--                     TimeWindow/Digits numbers of a fixed width, TimeWindow/Order the order of the
--                     times that are sent
--   LogWrites         src/epics_mcp/services/checkers_olog.py, the state and the steps of the three
--                     writes; LogWrites/Operations the writes (`_run` of each is `create_run`,
--                     `add_run`, `update_run`), LogWrites/Protocol what one may have done by its end,
--                     LogWrites/Quiet the steps before the gate's token, LogWrites/Settle those behind
--                     it, LogWrites/Ends and LogWrites/Updates the ends, LogWrites/Reports the reports
--   Throttle          src/epics_mcp/services/_http.py, `ReadThrottle`
--   Macro             src/epics_mcp/services/e3_db.py, comments and macro references
--   IocDb             the same file, the reading of an st.cmd; IocDb/Pvs the PV names of its
--                     databases, IocDb/Complete when they are complete, IocDb/Prefix the vote on the
--                     prefix
--   Crossplane        src/epics_mcp/services/crossplane.py, the sets of `crossplane_check`;
--                     Crossplane/Report its report and notes, Crossplane/Verdicts its two verdicts
--   Names             `_record_name` of src/epics_mcp/services/crossplane.py and `_device_name` of
--                     src/epics_mcp/services/diagnose.py; Names/Record what is cut off
--   Diagnose          src/epics_mcp/services/diagnose.py; Diagnose/Gather the planes,
--                     Diagnose/Run the whole, Diagnose/Cause the decision tree, Diagnose/Report what
--                     a report rests on
--   Coverage          src/epics_mcp/services/coverage.py, `audit_coverage`; Coverage/Shown the
--                     records of the displays, Coverage/Gaps the PVs it calls critical,
--                     Coverage/Sets its three sets
--   PvClient          src/epics_mcp/services/epics_client.py, reads, writes and batches;
--                     PvClient/Accounts and PvClient/Batch what a batch accounts for,
--                     PvClient/Monitor `pv_monitor` and `_ChannelNotices`, PvClient/Run its outcome
--                     against what was delivered
--   Transport         src/epics_mcp/services/_http.py, the requests and their errors;
--                     Transport/Steps inversion of a call, Transport/Capped the capped download,
--                     Transport/Contract what the errors tell, Transport/Sessions the sessions,
--                     Transport/Cache what they are, cached or not
--   Channels          src/epics_mcp/services/channelfinder_client.py, `_build_query_params`;
--                     Channels/Keys its keys, Channels/Query what it says, Channels/Listing what is
--                     made of the answers, Channels/Properties and Channels/Redacted what a channel
--                     shows
--   Archiver          src/epics_mcp/services/archiver_client.py; Archiver/Samples `get_pv_history`,
--                     Archiver/Payload and Archiver/History what it says of its payload,
--                     Archiver/Status when there is no configuration
--   Redact            src/epics_mcp/services/redact.py
--   Alarms            src/epics_mcp/services/alarm_client.py; Alarms/Configured when a PV is said to
--                     have an alarm
--   Naming            src/epics_mcp/services/naming_client.py and naming_identity.py;
--                     Naming/Identity what the probe proves, Naming/Backed what the state rests on,
--                     Naming/Verdict the answers
--   Prelude, Tests    shared names and lemmas; runs at concrete inputs
--
-- State is passed explicitly: a method takes the object's state and returns the state behind it. A
-- call of a gate is one step, as the code takes its token under a lock. The clock's reading is an
-- argument in whole microseconds; the theorems on many calls assume that it does not run back, as
-- `time.monotonic` promises. A logbook write is one run over the gate and the requests made so far,
-- which no other run interrupts. Errors are values. The text of a message or note is a constructor with
-- the values that the text shows. Sets are lists of which only membership is read.
--
-- Parameters stand for other code: Python's regular expressions (`Regex`, `Patterns`), floats
-- (`Floats`), ipaddress and the Unicode tables (`Platform`), urllib3 (`UrlLib`), changes of case
-- (`Cases`, `Strings`), pathlib and the file system (`FileSystem`, `Disk`, `ModuleRoot`), datetime
-- and the patterns of relative times (`TimeLib`), the opening of the audit file, the environment,
-- and the answers of the network and of the services (`Network`, `Services`, `Server`, `Provider`
-- of p4p, the answers of `requests`), the headers of a response (`Headers`) and Python's `int` of a
-- JSON value.
--
-- Nothing runs on fuel that could run out: every loop is a structural recursion. The expansion of
-- names in names carries the source's own bound of 32, and `substitute` its own bound of 10 passes.
-- A scan that jumps over a reference counts the characters to skip.
--
-- Not modelled: the retries of the REST sessions, which `requests` makes, and the closing of
-- responses; p4p and the formatting of its values; the probes of connectivity of the clients; the
-- reading queries of the logbook and the parameters of its search, downloads, the rendering of
-- reports, the notes of the coverage audit, the doctor, the checkers of the configured clients, the
-- lookup of devices and of moderate PVs, the registration of the tools, the command lines, and all
-- log texts.
pub mod Prelude
pub mod Window
pub mod Address
pub mod Errors
pub mod Values
pub mod Safety
pub mod Bounds
pub mod Readback
pub mod Write
pub mod Macro
pub mod Urls
pub mod Olog
pub mod Throttle
pub mod Names
pub mod Diagnose
pub mod Coverage
pub mod IocDb
pub mod Crossplane
pub mod TimeWindow
pub mod Paths
pub mod PvClient
pub mod Transport
pub mod Channels
pub mod Archiver
pub mod Redact
pub mod Alarms
pub mod Naming
pub mod Faults
pub mod Attach
pub mod Json
pub mod Entry
pub mod LogClient
pub mod LogListing
pub mod LogWrites
pub mod Tests
