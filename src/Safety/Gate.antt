-- ===== src/Safety/Gate.antt =====
-- The construction of the gate and one call of it.
use epics_mcp_server.Prelude.{
  ℕ, ◌<◌, String, ◌≡◌, refl, sym, ◌≢◌, ◌↔◌, ◌⊎◌, inl, inr, Bool, true, false, Option, none, some,
  List, [], ◌∷◌, ◌++◌, arith, eq_iff, str_eq, Bool-cases, length,
}
use epics_mcp_server.Errors.{EpicsError, error_code, ok, err, ◌>>=◌, >>=-eq-ok}
use epics_mcp_server.Window.{purge_old, push}
use epics_mcp_server.Address.{Platform, Environ, pva, ca, Violation, write_reach_violations}
use epics_mcp_server.Address.Reach.{IsIsolated, write_reach_violations_iff}
use epics_mcp_server.Safety.{
  Regex, Config, deny, SafetyLayer, construct, matches, check_write_allowed, no_violations,
  compile_pattern, is_none, compiled, construct_with,
}

-- A gate that lets writes through has a pattern, compiled from a text that is not empty, and was
-- built in a process whose search reach is isolated.
pub record IsGuarded (R : Regex) (F : Type 0) (platform : Platform) (env : Environ)
    (s : SafetyLayer R F) : Type 0 where
  pub named : s.config.pv_write_pattern ≢ ""
  pub compiled :
      (pattern : R.Pattern) × (R.compile s.config.pv_write_pattern ≡ some pattern)
      × (s.pattern ≡ some pattern)
  pub isolated_pva : IsIsolated platform env pva
  pub isolated_ca : IsIsolated platform env ca

no_violations_lem : (vs : List Violation) → no_violations vs ≡ true → vs ≡ []
no_violations_lem [] h = refl
no_violations_lem (v ∷ vs) h = cc

ok_injective {ℓ} : {A : Type ℓ} {a b : A} → ok a ≡ ok b → a ≡ b
ok_injective h = cc

none-ne-some {ℓ} : {A : Type ℓ} {a : A} → none ≡ some a → ⊥
none-ne-some h = cc

compiled_option :
    (R : Regex) (o : Option R.Pattern) (q : R.Pattern)
    → compiled R o ≡ ok (some q)
    → (pattern : R.Pattern) × (o ≡ some pattern) × (some q ≡ some pattern)
compiled_option R none q h = cc
compiled_option R (some r) q h = (r, refl, sym (ok_injective h))

compiled_of_some :
    (R : Regex) (config : Config) (p : Option R.Pattern)
    → compile_pattern R config ≡ ok p
    → is_none p ≡ false
    → (pattern : R.Pattern) × (R.compile config.pv_write_pattern ≡ some pattern)
      × (p ≡ some pattern)
unfolding compile_pattern
compiled_of_some R config none h k = cc
compiled_of_some R config (some q) h k = elim (Bool-cases (str_eq config.pv_write_pattern "")) [
  | inl e ↦ absurd (none-ne-some (ok_injective (rw e at h)))
  | inr e ↦ compiled_option R (R.compile config.pv_write_pattern) q (rw e at h)
]

module _ (R : Regex) (F : Type 0) (config : Config) (opens : String → Bool) (platform : Platform)
    (env : Environ) where
  constructed_isolated :
      (s : SafetyLayer R F)
      → construct R F config opens platform env ≡ ok s
      → s.config.allow_pv_write ≡ true
      → write_reach_violations platform env ≡ []
  unfolding construct
  constructed_isolated s h on =
      no_violations_lem (write_reach_violations platform env) (ground arith)

  constructed_named :
      (s : SafetyLayer R F)
      → construct R F config opens platform env ≡ ok s
      → s.config.allow_pv_write ≡ true
      → s.config.pv_write_pattern ≢ ""
  unfolding construct
  constructed_named s h on = ground (arith, eq_iff config.pv_write_pattern "")

  constructed_config :
      (s : SafetyLayer R F) → construct R F config opens platform env ≡ ok s → s.config ≡ config
  unfolding construct
  constructed_config s h = ground arith

  constructed_binds :
      (s : SafetyLayer R F)
      → construct R F config opens platform env ≡ ok s
      → (compile_pattern R config >>= construct_with R F config opens platform env) ≡ ok s
  unfolding construct
  constructed_binds s h = h

  constructed_with :
      (s : SafetyLayer R F) (p : Option R.Pattern)
      → construct_with R F config opens platform env p ≡ ok s
      → s.config.allow_pv_write ≡ true
      → (p ≡ s.pattern) × (is_none p ≡ false)
  unfolding construct_with
  constructed_with s p h on = ground arith

  constructed_pattern :
      (s : SafetyLayer R F)
      → construct R F config opens platform env ≡ ok s
      → s.config.allow_pv_write ≡ true
      → (compile_pattern R config ≡ ok s.pattern) × (is_none s.pattern ≡ false)
  constructed_pattern s h on =
      let (p, c, k) =
        >>=-eq-ok (compile_pattern R config) (construct_with R F config opens platform env)
          (constructed_binds s h) in
      let (same, kept) = constructed_with s p k on in rw (← same) (c, kept)

  constructed_compiled :
      (s : SafetyLayer R F)
      → construct R F config opens platform env ≡ ok s
      → s.config.allow_pv_write ≡ true
      → (pattern : R.Pattern) × (R.compile s.config.pv_write_pattern ≡ some pattern)
        × (s.pattern ≡ some pattern)
  constructed_compiled s h on =
      let (c, k) = constructed_pattern s h on in
      rw (constructed_config s h) (compiled_of_some R config s.pattern c k)

  -- A gate that is constructed with writes on is guarded: its pattern is not empty and compiles,
  -- and the environment lets no search of either provider leave the loopback hosts.
  pub construct-IsGuarded :
      (s : SafetyLayer R F)
      → construct R F config opens platform env ≡ ok s
      → s.config.allow_pv_write ≡ true
      → IsGuarded R F platform env s
  construct-IsGuarded s h on =
      let reach = (write_reach_violations_iff platform env).0 (constructed_isolated s h on) in
      record {
        named = constructed_named s h on;
        compiled = constructed_compiled s h on;
        isolated_pva = reach.0;
        isolated_ca = reach.1;
      }

module _ {R : Regex} {F : Type 0} where
  -- A write is granted exactly if writes are on, the whole name matches the pattern, and fewer
  -- tokens than the limit are left after the purge.
  pub check_write_allowed_iff :
      (s : SafetyLayer R F) (pv : String) (now : ℕ)
      → ((check_write_allowed s pv now).0 ≡ ok tt) ↔ (
          (s.config.allow_pv_write ≡ true)
          × (matches R s.pattern pv ≡ true)
          × (length (purge_old now s.timestamps) < s.limit))
  unfolding check_write_allowed
  check_write_allowed_iff s pv now = ground arith

  -- What a refusal leaves: one DENY line with the code of the error, the same configuration, and
  -- the tokens as they were or purged, never a new one.
  pub record IsDenied (s s' : SafetyLayer R F) (pv : String) (now : ℕ) (e : EpicsError)
      : Type 0 where
    pub line : s'.audit ≡ s.audit ++ deny pv (error_code e) ∷ []
    pub same_config : s'.config ≡ s.config
    pub tokens : (s'.timestamps ≡ s.timestamps) ⊎ (s'.timestamps ≡ purge_old now s.timestamps)

  -- A refused write leaves one DENY line with its error's code and takes no token.
  pub check_write_allowed-IsDenied :
      (s : SafetyLayer R F) (pv : String) (now : ℕ) (e : EpicsError)
      → (check_write_allowed s pv now).0 ≡ err e
      → IsDenied s (check_write_allowed s pv now).1 pv now e
  unfolding check_write_allowed
  check_write_allowed-IsDenied s pv now e h = record {
    line = ground arith;
    same_config = ground arith;
    tokens = ground arith;
  }

  -- A granted write adds one token for its instant and no audit line.
  pub check_write_allowed-granted :
      (s : SafetyLayer R F) (pv : String) (now : ℕ)
      → (check_write_allowed s pv now).0 ≡ ok tt
      → (check_write_allowed s pv now).1
        ≡ record s { timestamps = push s.limit (purge_old now s.timestamps) now }
  unfolding check_write_allowed
  check_write_allowed-granted s pv now h = ground arith
