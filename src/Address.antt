-- ===== src/Address.antt =====
-- epics_address.py: the search reach of an EPICS client, from its environment variables.
-- The standard library's `ipaddress` and Unicode tables are the parameter `Platform`.
pub mod Host
pub mod Reach
use epics_mcp_server.Prelude.{
  ℕ, ◌+◌, String, Bool, true, false, not, ◌&&◌, ◌||◌, Option, none, some, List, [], ◌∷◌, ◌++◌, map,
  ◌==◌, if◌then◌else◌, all,
}
use epics_mcp_server.Prelude.Texts.{Text, codes, is_empty, text_eq, contains, count_char, partition}

pub record Platform : Type 0 where
  -- Does the character have Unicode's digit property, as `str.isdigit` tests it?
  pub digit : ℕ → Bool
  -- Is the character white space to `str.split`?
  pub space : ℕ → Bool
  -- `ip_address(host).is_loopback`; `none` for the ValueError of a text that is no IP literal.
  pub ip_loopback : Text → Option Bool

pub data Provider : Type 0 where
  pva ca : Provider

-- `value.upper() == "NO"`: only the letters n and o have N and O as their upper case.
upper_is_no : Text → Bool
upper_is_no (a ∷ b ∷ []) = (a == b'n' || a == b'N') && (b == b'o' || b == b'O')
upper_is_no _ = false

unfoldable pub auto_addr_search_disabled : Provider → Text → Bool
unfolding contains text_eq upper_is_no
auto_addr_search_disabled ca value = contains (codes "no") value || contains (codes "NO") value
auto_addr_search_disabled pva value = text_eq value (codes "0") || upper_is_no value

-- `s.isdigit()`: not empty, and every character is a digit.
unfoldable pub isdigit : Platform → Text → Bool
isdigit p s = not (is_empty s) && all p.digit s

abbrev pub host_part : Text → Option (Text × Text) → Text
host_part token none = token
host_part token (some (host, rest)) = host

abbrev pub ported : Platform → Text → Option (Text × Text) → Text
ported p token none = token
ported p token (some (host, port)) = if isdigit p port then host else token

-- A token that begins with a bracket is cut at the first closing one; the index that `find` gives
-- is never 0, since the token begins with `[`.
unfoldable pub split_host : Platform → Text → Text
unfolding count_char partition isdigit
split_host p [] = []
split_host p (c ∷ s) =
    if c == b'['
    then host_part (c ∷ s) (partition b']' s)
    else if count_char b':' (c ∷ s) == 1
    then ported p (c ∷ s) (partition b':' (c ∷ s))
    else c ∷ s

abbrev emit : Text → List Text → List Text
emit [] rest = rest
emit (c ∷ w) rest = (c ∷ w) ∷ rest

words_from : Platform → Text → Text → List Text
words_from p cur [] = emit cur []
words_from p cur (c ∷ s) =
    let closed = words_from p [] s in
    let longer = words_from p (cur ++ c ∷ []) s in if p.space c then emit cur closed else longer

-- `s.split()`
unfoldable pub words : Platform → Text → List Text
unfolding words_from
words p s = words_from p [] s

unfoldable pub parse_address_list : Platform → Text → List Text
unfolding split_host words
parse_address_list p value = map (split_host p) (words p value)

abbrev pub or_false : Option Bool → Bool
or_false none = false
or_false (some b) = b

unfoldable pub is_loopback_host : Platform → Text → Bool
unfolding text_eq
is_loopback_host p host =
    if text_eq host (codes "localhost") then true else or_false (p.ip_loopback host)

-- `os.environ`, or the mapping that is injected in its place.
abbrev pub Environ : Type 0
Environ = String → Option Text

-- `environ.get(var) or ""`
abbrev pub value_of : Environ → String → Text
value_of env var = elim (env var) [ none ↦ [] | some v ↦ v ]

abbrev pub auto_var : Provider → String
auto_var pva = "EPICS_PVA_AUTO_ADDR_LIST"
auto_var ca = "EPICS_CA_AUTO_ADDR_LIST"

abbrev pub addr_list_var : Provider → String
addr_list_var pva = "EPICS_PVA_ADDR_LIST"
addr_list_var ca = "EPICS_CA_ADDR_LIST"

abbrev pub name_servers_var : Provider → String
name_servers_var pva = "EPICS_PVA_NAME_SERVERS"
name_servers_var ca = "EPICS_CA_NAME_SERVERS"

-- The facts that the two messages state.
pub data Violation : Type 0 where
  broadcast : String → Text → Provider → Violation
  not_loopback : String → Text → Text → Violation

unfoldable pub token_violations : Platform → String → List Text → List Violation
unfolding split_host is_loopback_host
token_violations p var [] = []
token_violations p var (token ∷ tokens) =
    let rest = token_violations p var tokens in
    let host = split_host p token in
    if is_loopback_host p host then rest else not_loopback var token host ∷ rest

unfoldable pub list_violations : Platform → Environ → String → List Violation
unfolding words token_violations
list_violations p env var = token_violations p var (words p (value_of env var))

unfoldable pub provider_violations : Platform → Environ → Provider → List Violation
unfolding auto_addr_search_disabled list_violations
provider_violations p env provider =
    let value = value_of env (auto_var provider) in
    (if auto_addr_search_disabled provider value
      then []
      else broadcast (auto_var provider) value provider ∷ [])
    ++ (list_violations p env (addr_list_var provider)
        ++ list_violations p env (name_servers_var provider))

unfoldable pub write_reach_violations : Platform → Environ → List Violation
unfolding provider_violations
write_reach_violations p env = provider_violations p env pva ++ provider_violations p env ca
