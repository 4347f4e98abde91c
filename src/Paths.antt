-- ===== src/Paths.antt =====
-- paths.py: paths that a caller names, and the boundary of the allowed roots. Python's `pathlib`
-- and the file system are the parameter `FileSystem`.
pub mod Boundary
use epics_mcp_server.Prelude.{
  ℕ, Bool, true, false, not, ◌&&◌, ◌||◌, List, [], ◌∷◌, if◌then◌else◌, any,
}
use epics_mcp_server.Prelude.Texts.{Text, codes, is_empty, text_eq, split}
use epics_mcp_server.Errors.{EpicsError, epics, Result, ok, err, ◌>>=◌, ◌>>◌, refuse_if}
use epics_mcp_server.Urls.{strip}

pub record FileSystem : Type 1 where
  pub FilePath : Type 0
  -- `Path(raw)`
  pub path_of : Text → FilePath
  -- `path.resolve()`
  pub resolve : FilePath → FilePath
  pub is_dir : FilePath → Bool
  pub is_file : FilePath → Bool
  pub is_symlink : FilePath → Bool
  pub is_relative_to : FilePath → FilePath → Bool
  -- `path.name`, and `str(path.parent)`
  pub name : FilePath → Text
  pub parent_text : FilePath → Text
  -- `path / name`
  pub join : FilePath → Text → FilePath
  -- `str.isspace` of a character, and `os.pathsep`
  pub space : ℕ → Bool
  pub pathsep : ℕ

pub data Kind : Type 0 where
  dir file : Kind

module _ (fs : FileSystem) where
  -- `not s.strip()`
  abbrev pub is_blank : Text → Bool
  is_blank s = is_empty (strip fs.space s)

  resolve_parts : List Text → List fs.FilePath
  unfolding strip
  resolve_parts [] = []
  resolve_parts (part ∷ parts) =
      let rest = resolve_parts parts in
      if is_blank part then rest else fs.resolve (fs.path_of part) ∷ rest

  -- `_allowed_roots` of the configured text
  unfoldable pub allowed_roots : Text → List fs.FilePath
  unfolding split resolve_parts strip
  allowed_roots raw = if is_blank raw then [] else resolve_parts (split fs.pathsep raw)

  abbrev pub no_roots : List fs.FilePath → Bool
  no_roots [] = true
  no_roots (r ∷ rs) = false

  abbrev pub exists_as : Kind → fs.FilePath → Bool
  exists_as dir path = fs.is_dir path
  exists_as file path = fs.is_file path

  unfoldable pub resolve_user_path : Text → Text → Kind → Result fs.FilePath
  unfolding allowed_roots strip
  resolve_user_path roots_text raw kind = do
    refuse_if (is_blank raw) (epics "INVALID_INPUT")
    let resolved = fs.resolve (fs.path_of raw)
    refuse_if (not (exists_as kind resolved)) (epics "INVALID_INPUT")
    let roots = allowed_roots roots_text
    refuse_if (not (no_roots roots) && not (any (λ r. fs.is_relative_to resolved r) roots))
        (epics "PATH_OUTSIDE_WORKSPACE")
    ok resolved

  -- A name that is no plain file name.
  unfoldable pub is_not_plain : Text → Bool
  unfolding text_eq
  is_not_plain name =
      text_eq name (codes "") || (text_eq name (codes ".") || text_eq name (codes ".."))

  unfoldable pub resolve_new_file_path : Text → Text → Result fs.FilePath
  unfolding resolve_user_path is_not_plain strip
  resolve_new_file_path roots_text raw = do
    refuse_if (is_blank raw) (epics "INVALID_INPUT")
    let candidate = fs.path_of raw
    let name = fs.name candidate
    refuse_if (is_not_plain name) (epics "INVALID_INPUT")
    parent ← resolve_user_path roots_text (fs.parent_text candidate) dir
    let target = fs.join parent name
    refuse_if (fs.is_symlink target) (epics "INVALID_INPUT")
    ok target
