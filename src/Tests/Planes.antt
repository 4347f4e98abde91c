-- ===== src/Tests/Planes.antt =====
-- Runs of the cross-plane report and of the reading of an IOC's databases.
use epics_mcp_server.Prelude.{◌≡◌, refl, ◌↔◌, true, none, some, List, [], ◌∷◌, ◌==◌}
use epics_mcp_server.Prelude.Texts.{codes, Among}
use epics_mcp_server.Coverage.{registered}
use epics_mcp_server.Crossplane.{JoinPv, resolved, write, ca, IocDb}
use epics_mcp_server.Crossplane.Report.{Inputs, crossplane_check}
use epics_mcp_server.Crossplane.Verdicts.{ProvesMissing, Shows, broken_iff}
use epics_mcp_server.IocDb.{Patterns, StCmdInfo, parse_st_cmd}
use epics_mcp_server.IocDb.Pvs.{ModuleRoot}

-- A display writes to a record that the database lacks.
abbrev row : JoinPv
row = record {
  display = codes "main.bob";
  pv = codes "A:x";
  resolution = resolved;
  role = write;
  protocol = ca;
}

abbrev rows : List JoinPv
rows = row ∷ []

abbrev db : IocDb
db = record { resolved = codes "A:y" ∷ []; unresolved = [] }

abbrev inputs : Inputs
inputs = record {
  prefix = some (codes "A:");
  device_name = some (codes "A");
  naming = none;
  ioc_db = some db;
  ioc_db_complete = true;
  channelfinder = registered (codes "A:y" ∷ []);
  cf_requested = true;
  context_capped = [];
  glob_capped_count = 0;
}

broken_example :
    Among (codes "A:x") (crossplane_check inputs rows).broken
    ↔ (ProvesMissing (some db) true (codes "A:x") × Shows (some (codes "A:")) rows (codes "A:x"))
broken_example = broken_iff inputs rows (codes "A:x")

-- A text of one line, with one load of one record.
abbrev patterns : Patterns
patterns = record {
  splitlines = λ s. s ∷ [];
  space = λ c. c == 32;
  requires = λ s. [];
  env_sets = λ s. [];
  load_calls = λ s.
      record { command = codes "dbLoadRecords"; target = codes "y.db"; raw_macros = codes "P=A:" }
      ∷ [];
  record_names = λ s. s ∷ [];
  alias_pairs = λ s. [];
}

abbrev root : ModuleRoot
root = record {
  module_dir = λ m. m;
  file_name = λ f. f;
  direct = λ t. some t;
  files = [];
  content = λ f. some (codes "$(P)y");
}

abbrev info : StCmdInfo
info = parse_st_cmd patterns (codes "x")

prefix_found : (parse_st_cmd patterns (codes "x")).prefix ≡ some (codes "A:")
unfolding parse_st_cmd
prefix_found = refl
