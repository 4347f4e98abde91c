-- ===== src/Paths/Boundary.antt =====
-- Where a path that is handed out lies.
use epics_mcp_server.Prelude.{
  ◌≡◌, refl, sym, ap, ◌∙◌, ◌↔◌, ◌⊎◌, Bool, true, false, List, [], ◌∷◌, arith, any,
}
use epics_mcp_server.Prelude.Texts.{Text}
use mathlib.Core.Path.{subst}
use epics_mcp_server.Errors.{EpicsError, Result, ok, err, refuse_if, ◌>>=◌, ◌>>◌}
use epics_mcp_server.Paths.{
  FileSystem, Kind, dir, is_blank, exists_as, allowed_roots, resolve_user_path, is_not_plain,
  resolve_new_file_path, no_roots,
}

module _ (fs : FileSystem) (roots_text : Text) where
  -- There is no boundary, or the path lies below one of its roots.
  abbrev pub IsWithin : fs.FilePath → Type 0
  IsWithin p =
      (allowed_roots fs roots_text ≡ [])
      ⊎ (any (λ r. fs.is_relative_to p r) (allowed_roots fs roots_text) ≡ true)

  no_roots_iff : (rs : List fs.FilePath) → (no_roots fs rs ≡ true) ↔ (rs ≡ [])
  no_roots_iff [] = ground arith
  no_roots_iff (r ∷ rs) = ground arith

  abbrev resolved : Text → fs.FilePath
  resolved raw = fs.resolve (fs.path_of raw)

  resolved_ok :
      (raw : Text) (kind : Kind) (p : fs.FilePath)
      → resolve_user_path fs roots_text raw kind ≡ ok p
      → (resolved raw ≡ p)
        × (is_blank fs raw ≡ false)
        × (exists_as fs kind (resolved raw) ≡ true)
        × IsWithin (resolved raw)
  unfolding resolve_user_path
  resolved_ok raw kind p h = ground (arith, no_roots_iff (allowed_roots fs roots_text))

  resolves :
      (raw : Text) (kind : Kind)
      → is_blank fs raw ≡ false
      → exists_as fs kind (resolved raw) ≡ true
      → IsWithin (resolved raw)
      → resolve_user_path fs roots_text raw kind ≡ ok (resolved raw)
  unfolding resolve_user_path
  resolves raw kind b e w = ground (arith, no_roots_iff (allowed_roots fs roots_text))

  -- A path is handed out exactly if the text is not blank and its canonical path is of the kind that
  -- is asked for and lies within the boundary; it is that canonical path.
  pub resolve_user_path_iff :
      (raw : Text) (kind : Kind) (p : fs.FilePath)
      → (resolve_user_path fs roots_text raw kind ≡ ok p) ↔ (
          (is_blank fs raw ≡ false)
          × (fs.resolve (fs.path_of raw) ≡ p)
          × (exists_as fs kind p ≡ true)
          × IsWithin p)
  resolve_user_path_iff raw kind p = (
    λ h.
        let (same, b, e, w) = resolved_ok raw kind p h in
        (b, same, subst (λ q. exists_as fs kind q ≡ true) same e, subst (λ q. IsWithin q) same w),
    λ (b, same, e, w).
        resolves raw kind b (subst (λ q. exists_as fs kind q ≡ true) (sym same) e)
          (subst (λ q. IsWithin q) (sym same) w)
        ∙ ap ok same,
  )

  -- What a path for a new file is made of.
  pub record IsNewFile (raw : Text) (target : fs.FilePath) : Type 0 where
    pub parent : fs.FilePath
    pub below : target ≡ fs.join parent (fs.name (fs.path_of raw))
    pub plain : is_not_plain fs (fs.name (fs.path_of raw)) ≡ false
    pub is_dir : fs.is_dir parent ≡ true
    pub within : IsWithin parent
    pub no_link : fs.is_symlink target ≡ false

  new_file_steps :
      (blank special : Bool) (found : Result fs.FilePath) (link : fs.FilePath → Bool)
      (below : fs.FilePath → fs.FilePath) (e e' e'' : EpicsError) (target : fs.FilePath)
      → (refuse_if blank e
          >> (refuse_if special e'
              >> (found >>= λ parent. refuse_if (link parent) e'' >> ok (below parent))))
        ≡ ok target
      → (parent : fs.FilePath) × (found ≡ ok parent)
        × (target ≡ below parent)
        × (special ≡ false)
        × (link parent ≡ false)
  new_file_steps true special found link below e e' e'' target h = cc
  new_file_steps false true found link below e e' e'' target h = cc
  new_file_steps false false (err d) link below e e' e'' target h = cc
  new_file_steps false false (ok parent) link below e e' e'' target h =
      (parent, refl, ground arith, refl, ground arith)

  -- A path that is handed out for a new file joins a plain name to an existing directory within the
  -- boundary, and is no symbolic link.
  pub resolve_new_file_path-IsNewFile :
      (raw : Text) (target : fs.FilePath)
      → resolve_new_file_path fs roots_text raw ≡ ok target
      → IsNewFile raw target
  unfolding resolve_new_file_path
  resolve_new_file_path-IsNewFile raw target h =
      let name = fs.name (fs.path_of raw) in
      let (parent, found, below, plain, no_link) =
        new_file_steps (is_blank fs raw) (is_not_plain fs name)
          (resolve_user_path fs roots_text (fs.parent_text (fs.path_of raw)) dir)
          (λ p. fs.is_symlink (fs.join p name)) (λ p. fs.join p name) _ _ _ target h in
      let (filled, same, e, w) = (resolve_user_path_iff _ dir parent).0 found in
      record {
        parent = parent;
        below = below;
        plain = plain;
        is_dir = e;
        within = w;
        no_link = ap fs.is_symlink below ∙ no_link;
      }
