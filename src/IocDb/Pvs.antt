-- ===== src/IocDb/Pvs.antt =====
-- services/e3_db.py: `ioc_db_pvs` and `load_ioc_db`, the PV names of an IOC's databases.
use epics_mcp_server.Prelude.{
  Bool, not, ◌&&◌, ◌||◌, Option, none, some, List, [], ◌∷◌, ◌++◌, map, if◌then◌else◌, any,
}
use epics_mcp_server.Prelude.Texts.{Text, codes, is_empty, text_eq}
use epics_mcp_server.Prelude.Sorted.{sorted_set}
use epics_mcp_server.Macro.{Macros, substitute, has_macro_ref}
use epics_mcp_server.Crossplane.{sorted, no_texts}
use epics_mcp_server.IocDb.{Patterns, Load, StCmdInfo, define, override, strip_comment_lines}

-- The directory that holds the modules; a file is its resolved path.
pub record ModuleRoot : Type 0 where
  -- `str(root / module)`, and `Path(target).name`
  pub module_dir : Text → Text
  pub file_name : Text → Text
  -- the resolved path of `target`, or of `root / target`, if that is a file
  pub direct : Text → Option Text
  -- the resolved paths of the files that `os.walk` finds below the root, up to the depth of 8
  pub files : List Text
  -- the text of a file; `none` for an OSError or a UnicodeDecodeError
  pub content : Text → Option Text

abbrev alias_name : Text × Text → Text
alias_name (first, second) = if is_empty second then first else second

-- The resolved names, and those that still hold a macro.
pub record PvNames : Type 0 where
  pub resolved : List Text
  pub unresolved : List Text

abbrev add_name : Text → PvNames → PvNames
add_name name names =
    if has_macro_ref name
    then record names { unresolved = name ∷ names.unresolved }
    else record names { resolved = name ∷ names.resolved }

sort_names : Macros → List Text → PvNames
unfolding substitute has_macro_ref
sort_names macros [] = record { resolved = []; unresolved = [] }
sort_names macros (raw ∷ raws) = add_name (substitute raw macros) (sort_names macros raws)

-- `ioc_db_pvs`
unfoldable pub ioc_db_pvs : Patterns → Text → Macros → PvNames
unfolding sort_names strip_comment_lines
ioc_db_pvs re db_text macros =
    let stripped = strip_comment_lines re.splitlines db_text in
    sort_names macros (re.record_names stripped ++ map alias_name (re.alias_pairs stripped))

-- `s.endswith(p)`
unfoldable pub ends_with : Text → Text → Bool
unfolding text_eq
ends_with [] p = text_eq [] p
ends_with (c ∷ s) p = text_eq (c ∷ s) p || ends_with s p

abbrev pub is_db_load : Load → Bool
is_db_load load =
    text_eq load.command (codes "dbLoadRecords") && ends_with load.target (codes ".db")

abbrev pub is_unsupported : Load → Bool
is_unsupported load =
    text_eq load.command (codes "iocshLoad") || text_eq load.command (codes "dbLoadTemplate")

-- What one load comes to.
pub data Outcome : Type 0 where
  missing ambiguous : Outcome
  loaded : PvNames → Outcome

module _ (re : Patterns) (root : ModuleRoot) where
  dir_env : List Text → Macros → Macros
  unfolding define
  dir_env [] env = env
  dir_env (module_name ∷ names) env =
      dir_env names (define (module_name ++ codes "_DIR") (root.module_dir module_name) env)

  -- `base_env`
  unfoldable pub base_env : StCmdInfo → Macros
  unfolding dir_env
  base_env info = dir_env info.requires info.env

  named_files : Text → List Text → List Text
  unfolding text_eq
  named_files name [] = []
  named_files name (f ∷ fs) =
      let rest = named_files name fs in if text_eq (root.file_name f) name then f ∷ rest else rest

  abbrev or_search : Option Text → Text → List Text
  or_search none target = sorted_set (named_files (root.file_name target) root.files)
  or_search (some file) target = file ∷ []

  -- `_locate_db`
  unfoldable pub locate_db : Text → List Text
  unfolding named_files sorted_set
  locate_db target = or_search (root.direct target) target

  abbrev read_names : Macros → Option Text → Outcome
  read_names macros none = missing
  read_names macros (some text) = loaded (ioc_db_pvs re text macros)

  abbrev only_match : Macros → List Text → Outcome
  only_match macros [] = missing
  only_match macros (file ∷ []) = read_names macros (root.content file)
  only_match macros (file ∷ other ∷ files) = ambiguous

  -- The body of the loop, for a load of a database.
  unfoldable pub load_outcome : Macros → Load → Outcome
  unfolding substitute has_macro_ref locate_db ioc_db_pvs
  load_outcome env load =
      let target = substitute load.target env in
      if has_macro_ref target
      then missing
      else only_match (override env load.macros) (locate_db target)

-- The sets and lists that the loop fills.
pub record Collected : Type 0 where
  pub resolved : List Text
  pub unresolved : List Text
  pub missing : List Text
  pub ambiguous : List Text

abbrev pub nothing_collected : Collected
nothing_collected = record { resolved = []; unresolved = []; missing = []; ambiguous = [] }

abbrev pub collect : Text → Outcome → Collected → Collected
collect target missing rest = record rest { missing = target ∷ rest.missing }
collect target ambiguous rest = record rest { ambiguous = target ∷ rest.ambiguous }
collect target (loaded names) rest = record {
  resolved = names.resolved ++ rest.resolved;
  unresolved = names.unresolved ++ rest.unresolved;
  missing = rest.missing;
  ambiguous = rest.ambiguous;
}

pub record IocDbResult : Type 0 where
  pub resolved : List Text
  pub unresolved : List Text
  pub complete : Bool
  pub missing : List Text
  pub ambiguous : List Text
  pub unsupported_load : Bool

module _ (re : Patterns) (root : ModuleRoot) where
  unfoldable pub collect_loads : Macros → List Load → Collected
  unfolding load_outcome text_eq ends_with
  collect_loads env [] = nothing_collected
  collect_loads env (load ∷ loads) =
      let rest = collect_loads env loads in
      if is_db_load load then collect load.target (load_outcome re root env load) rest else rest

  unfoldable pub load_ioc_db : StCmdInfo → IocDbResult
  unfolding base_env collect_loads sorted text_eq
  load_ioc_db info =
      let found = collect_loads (base_env re root info) info.loads in
      let unsupported = any is_unsupported info.loads in
      record {
        resolved = found.resolved;
        unresolved = found.unresolved;
        complete =
            not (no_texts found.resolved)
            && (no_texts found.missing
                && (no_texts found.ambiguous && (no_texts found.unresolved && not unsupported)));
        missing = sorted found.missing;
        ambiguous = sorted found.ambiguous;
        unsupported_load = unsupported;
      }
