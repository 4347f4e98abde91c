-- ===== src/IocDb.antt =====
-- services/e3_db.py: what an st.cmd loads, and the PV names of the databases that it loads. The
-- regular expressions and the file system are the parameters `Patterns` and `ModuleRoot`.
pub mod Pvs
pub mod Complete
pub mod Prefix
use epics_mcp_server.Prelude.{
  ℕ, suc, ◌+◌, Bool, true, false, not, ◌&&◌, ◌||◌, Option, none, some, List, [], ◌∷◌, ◌++◌, map,
  ltb, ◌==◌, if◌then◌else◌,
}
use epics_mcp_server.Prelude.Texts.{Text, codes, is_empty, text_eq, partition, split}
use epics_mcp_server.Urls.{strip}
use epics_mcp_server.Macro.{Macros, substitute, strip_line_comment, has_macro_ref}

-- One call that `_LOAD_RE` finds: the command, the file and the macros.
pub record LoadCall : Type 0 where
  pub command : Text
  pub target : Text
  pub raw_macros : Text

pub record Patterns : Type 0 where
  -- `str.splitlines` and `str.isspace` of a character
  pub splitlines : Text → List Text
  pub space : ℕ → Bool
  -- `_REQUIRE_RE`, `_ENV_RE` and `_LOAD_RE`
  pub requires : Text → List Text
  pub env_sets : Text → List (Text × Text)
  pub load_calls : Text → List LoadCall
  -- `_RECORD_RE` and `_ALIAS_RE`
  pub record_names : Text → List Text
  pub alias_pairs : Text → List (Text × Text)

-- `Load`
pub record Load : Type 0 where
  pub command : Text
  pub target : Text
  pub macros : Macros

-- `StCmdInfo`
pub record StCmdInfo : Type 0 where
  pub requires : List Text
  pub env : Macros
  pub loads : List Load
  pub prefix : Option Text

abbrev no_macros : Macros
no_macros name = none

-- `macros[name] = value`
unfoldable pub define : Text → Text → Macros → Macros
unfolding text_eq
define name value macros key = if text_eq name key then some value else macros key

-- `{**base, **over}`
abbrev pub override : Macros → Macros → Macros
override base over key = or_base (over key) (base key)
  where
    or_base : Option Text → Option Text → Option Text
    or_base none b = b
    or_base (some v) b = some v

join_lines : List Text → Text
join_lines [] = []
join_lines (l ∷ []) = l
join_lines (l ∷ m ∷ ls) = l ++ 10 ∷ join_lines (m ∷ ls)

-- `_strip_comment_lines`
unfoldable pub strip_comment_lines : (Text → List Text) → Text → Text
unfolding join_lines strip_line_comment
strip_comment_lines splitlines text = join_lines (map strip_line_comment (splitlines text))

abbrev assign : (ℕ → Bool) → Option (Text × Text) → Macros → Macros
assign space none macros = macros
assign space (some (name, value)) macros = define (strip space name) (strip space value) macros

define_parts : (ℕ → Bool) → List Text → Macros → Macros
unfolding partition define strip
define_parts space [] macros = macros
define_parts space (part ∷ parts) macros =
    define_parts space parts (assign space (partition b'=' part) macros)

-- `_parse_macro_string`
unfoldable pub parse_macro_string : (ℕ → Bool) → Text → Macros
unfolding define_parts split
parse_macro_string space macros = define_parts space (split b',' macros) no_macros

-- The `epicsEnvSet` calls, in their order: each value sees those before it.
unfoldable pub env_of : List (Text × Text) → Macros → Macros
unfolding define substitute
env_of [] env = env
env_of ((name, value) ∷ sets) env = env_of sets (define name (substitute value env) env)

abbrev pub mapped : (Text → Text) → Macros → Macros
mapped f macros key = on_value (macros key)
  where
    on_value : Option Text → Option Text
    on_value none = none
    on_value (some v) = some (f v)

unfoldable pub load_of : (ℕ → Bool) → Macros → LoadCall → Load
unfolding parse_macro_string substitute
load_of space env call = record {
  command = call.command;
  target = call.target;
  macros = mapped (λ v. substitute v env) (parse_macro_string space call.raw_macros);
}

abbrev votes : Option Text → Text → Bool
votes none command = false
votes (some p) command =
    not (is_empty p) && (not (has_macro_ref p) && not (text_eq command (codes "dbLoadTemplate")))

abbrev or_empty : Option Text → Text
or_empty none = []
or_empty (some s) = s

-- The values of `P` that count for the prefix, one for each load.
unfoldable pub prefix_votes : List Load → List Text
unfolding has_macro_ref text_eq
prefix_votes [] = []
prefix_votes (load ∷ loads) =
    let rest = prefix_votes loads in
    let p = load.macros (codes "P") in if votes p load.command then or_empty p ∷ rest else rest

unfoldable pub count_votes : Text → List Text → ℕ
unfolding text_eq
count_votes p [] = 0
count_votes p (q ∷ qs) = let n = count_votes p qs in if text_eq q p then suc n else n

-- `_neg_key(a) < _neg_key(b)`
unfoldable pub neg_key_lt : Text → Text → Bool
neg_key_lt _ [] = false
neg_key_lt [] (y ∷ ys) = true
neg_key_lt (x ∷ xs) (y ∷ ys) = ltb y x || (x == y && neg_key_lt xs ys)

abbrev pub beats : List Text → Text → Text → Bool
beats all_votes p q =
    let n = count_votes p all_votes in
    let m = count_votes q all_votes in ltb m n || (n == m && neg_key_lt q p)

abbrev pub winner : List Text → Text → Option Text → Text
winner all_votes p none = p
winner all_votes p (some q) = if beats all_votes q p then q else p

-- `max(prefixes.items(), …)`, of the votes that are left
unfoldable pub dominant : List Text → List Text → Option Text
unfolding count_votes neg_key_lt
dominant all_votes [] = none
dominant all_votes (p ∷ ps) = some (winner all_votes p (dominant all_votes ps))

unfoldable pub parse_st_cmd : Patterns → Text → StCmdInfo
unfolding strip_comment_lines env_of load_of prefix_votes dominant
parse_st_cmd re text =
    let stripped = strip_comment_lines re.splitlines text in
    let env = env_of (re.env_sets stripped) no_macros in
    let loads = map (load_of re.space env) (re.load_calls stripped) in
    record {
      requires = re.requires stripped;
      env = env;
      loads = loads;
      prefix = dominant (prefix_votes loads) (prefix_votes loads);
    }
