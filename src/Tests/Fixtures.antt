-- ===== src/Tests/Fixtures.antt =====
-- Concrete libraries, configurations and answers.
use epics_mcp_server.Prelude.{
  ℕ, String, true, false, ◌&&◌, Option, none, some, [], ◌∷◌, ltb, leb, ◌==◌, str_eq, if◌then◌else◌,
}
use epics_mcp_server.Prelude.Int.{ℤ, pos, negsuc}
use epics_mcp_server.Prelude.Texts.{Text, codes, text_eq}
use epics_mcp_server.Address.{Platform, Environ}
use epics_mcp_server.Values.{Floats, nothing, int, Control, Reading}
use epics_mcp_server.Safety.{Regex, SafetyLayer}
use epics_mcp_server.Urls.{UrlLib}
use epics_mcp_server.Olog.{OlogWriteGate}
use epics_mcp_server.Write.{Network, returned}

abbrev pub platform : Platform
platform = record {
  digit = λ c. leb b'0' c && leb c b'9';
  space = λ c. c == b' ';
  ip_loopback = λ t. if text_eq t (codes "127.0.0.1") then some true else none;
}

abbrev isolated_value : String → Option Text
isolated_value var =
    if str_eq var "EPICS_PVA_AUTO_ADDR_LIST"
    then some (codes "NO")
    else if str_eq var "EPICS_CA_AUTO_ADDR_LIST"
    then some (codes "no")
    else if str_eq var "EPICS_PVA_ADDR_LIST"
    then some (codes "127.0.0.1:5075 localhost")
    else none

abbrev pub isolated : Environ
isolated = isolated_value

abbrev parsed : String → Option ℕ
parsed s = if str_eq s "5" then some 5 else if str_eq s "50" then some 50 else none

abbrev of_int : ℤ → ℕ
of_int (pos n) = n
of_int (negsuc n) = 0

abbrev pub whole_numbers : Floats
whole_numbers = record {
  Float = ℕ;
  parse = parsed;
  of_int = of_int;
  zero_float = 0;
  one_float = 1;
  isfinite = λ x. true;
  le = leb;
  lt = ltb;
  isclose = λ a b rel_tol abs_tol. a == b;
  text_of = λ n. "[]";
}

-- A pattern matches the one name that it spells.
abbrev pub literal : Regex
literal = record { Pattern = String; compile = λ s. some s; fullmatch = str_eq }

abbrev pub settings : epics_mcp_server.Safety.Config
settings = record {
  allow_pv_write = true;
  pv_write_pattern = "IOC:m1";
  write_rate_limit = pos 2;
  audit_log_file = "";
}

abbrev pub gate : SafetyLayer literal ℕ
gate = record { config = settings; pattern = some "IOC:m1"; limit = 2; timestamps = []; audit = [] }

-- A record with the drive limits 0 and 10.
abbrev pub drive : Control ℕ
drive = record { limit_low = int (pos 0); limit_high = int (pos 10); min_step = nothing }

abbrev pub before : Reading ℕ
before = record { value = int (pos 3); control = some drive; choices = none; note = none }

abbrev pub after : Reading ℕ
after = record { value = int (pos 5); control = some drive; choices = none; note = none }

abbrev pub network : Network ℕ
network = record { pre_read = returned before; put = returned tt; readback = returned after }

-- Every URL is one of the host `localhost`.
abbrev pub local_urls : UrlLib
local_urls = record {
  parse_url =
      λ url. some (record { scheme = some (codes "http"); host = some (codes "localhost") });
  lower = λ s. s;
  platform = platform;
}

abbrev pub olog_settings : epics_mcp_server.Olog.Config
olog_settings = record {
  allow_olog_write = true;
  olog_url = codes "http://localhost:8181/Olog";
  olog_write_allow_remote = false;
  olog_write_logbooks = codes "ops, test";
  olog_write_url_allowlist = [];
  olog_write_rate_limit = pos 1;
  olog_attach_max_bytes = 100;
  audit_log_file = "";
}

abbrev pub olog_gate : OlogWriteGate
olog_gate = record {
  config = olog_settings;
  allowed_logbooks = codes "ops" ∷ codes "test" ∷ [];
  allowed_urls = [];
  limit = 1;
  timestamps = [];
  audit = [];
}
