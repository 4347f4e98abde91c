-- ===== src/Address/Reach.antt =====
-- When the reach check finds nothing.
use epics_mcp_server.Prelude.{
  String, ◌≡◌, refl, sym, ◌↔◌, ◌⊎◌, inl, inr, true, false, some, List, [], ◌∷◌, ◌++◌, arith,
  if◌then◌else◌, Bool-cases, All,
}
use epics_mcp_server.Prelude.Texts.{Text, codes, text_eq_iff}
use mathlib.Core.List.{nil≢cons}
use epics_mcp_server.Address.{
  Platform, Provider, pva, ca, auto_addr_search_disabled, split_host, words, is_loopback_host,
  Environ, value_of, auto_var, addr_list_var, name_servers_var, token_violations, list_violations,
  provider_violations, write_reach_violations, Bool, Violation,
}

-- A host that is loopback by its spelling: `localhost`, or a literal of the loopback range.
abbrev pub IsLoopback : Platform → Text → Type 0
IsLoopback p host = (host ≡ codes "localhost") ⊎ (p.ip_loopback host ≡ some true)

is_loopback_host_sound :
    (p : Platform) (host : Text) → is_loopback_host p host ≡ true → IsLoopback p host
unfolding is_loopback_host
is_loopback_host_sound p host h = ground (arith, text_eq_iff host (codes "localhost"))

is_loopback_host_complete :
    (p : Platform) (host : Text) → IsLoopback p host → is_loopback_host p host ≡ true
unfolding is_loopback_host
is_loopback_host_complete p host (inl e) = ground (arith, text_eq_iff host (codes "localhost"))
is_loopback_host_complete p host (inr e) = ground (arith, text_eq_iff host (codes "localhost"))

-- Every way for a search of one provider to leave the host is closed.
pub record IsIsolated (p : Platform) (env : Environ) (provider : Provider) : Type 0 where
  pub no_broadcast : auto_addr_search_disabled provider (value_of env (auto_var provider)) ≡ true
  pub addresses :
      All (λ t. IsLoopback p (split_host p t)) (words p (value_of env (addr_list_var provider)))
  pub servers :
      All (λ t. IsLoopback p (split_host p t)) (words p (value_of env (name_servers_var provider)))

token_violations_sound :
    (p : Platform) (var : String) (ts : List Text)
    → token_violations p var ts ≡ []
    → All (λ t. IsLoopback p (split_host p t)) ts
unfolding token_violations
token_violations_sound p var [] h = tt
token_violations_sound p var (t ∷ ts) h = elim (Bool-cases (is_loopback_host p (split_host p t))) [
  | inl e ↦
      (is_loopback_host_sound p (split_host p t) e, token_violations_sound p var ts (rw e at h))
  | inr e ↦ absurd (nil≢cons (sym (rw e at h)))
]

token_violations_complete :
    (p : Platform) (var : String) (ts : List Text)
    → All (λ t. IsLoopback p (split_host p t)) ts
    → token_violations p var ts ≡ []
unfolding token_violations
token_violations_complete p var [] h = refl
token_violations_complete p var (t ∷ ts) (h, hs) =
    rw (is_loopback_host_complete p (split_host p t) h) (token_violations_complete p var ts hs)

append-eq-nil {ℓ} : {A : Type ℓ} (xs ys : List A) → xs ++ ys ≡ [] → (xs ≡ []) × (ys ≡ [])
append-eq-nil [] ys h = (refl, h)
append-eq-nil (x ∷ xs) ys h = absurd (nil≢cons (sym h))

no_broadcast_sound : (b : Bool) (v : Violation) → (if b then [] else v ∷ []) ≡ [] → b ≡ true
no_broadcast_sound true v h = refl
no_broadcast_sound false v h = absurd (nil≢cons (sym h))

provider_violations_sound :
    (p : Platform) (env : Environ) (provider : Provider)
    → provider_violations p env provider ≡ []
    → IsIsolated p env provider
unfolding provider_violations list_violations
provider_violations_sound p env provider h =
    let (auto, lists) = append-eq-nil _ _ h in
    let (addrs, names) = append-eq-nil _ _ lists in
    record {
      no_broadcast =
          no_broadcast_sound (auto_addr_search_disabled provider (value_of env (auto_var provider)))
            _ auto;
      addresses = token_violations_sound p (addr_list_var provider) _ addrs;
      servers = token_violations_sound p (name_servers_var provider) _ names;
    }

provider_violations_complete :
    (p : Platform) (env : Environ) (provider : Provider)
    → IsIsolated p env provider
    → provider_violations p env provider ≡ []
unfolding provider_violations list_violations
provider_violations_complete p env provider h =
    rw (h.no_broadcast, token_violations_complete p (addr_list_var provider) _ h.addresses)
      (token_violations_complete p (name_servers_var provider) _ h.servers)

-- The reach check finds nothing exactly if, for both providers, the broadcast search is switched
-- off and every address and name server is loopback by its spelling.
pub write_reach_violations_iff :
    (p : Platform) (env : Environ)
    → (write_reach_violations p env ≡ []) ↔ (IsIsolated p env pva × IsIsolated p env ca)
unfolding write_reach_violations
write_reach_violations_iff p env = (
  λ h.
      let (a, b) = append-eq-nil _ _ h in
      (provider_violations_sound p env pva a, provider_violations_sound p env ca b),
  λ (a, b). rw (provider_violations_complete p env pva a) (provider_violations_complete p env ca b),
)
