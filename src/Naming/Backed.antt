-- ===== src/Naming/Backed.antt =====
-- What the answers of the client rest on, over all the calls so far.
use epics_mcp_server.Prelude.{
  ◌≡◌, refl, sym, ap, ◌∙◌, ◌⊎◌, inl, inr, false, Option, none, some, List, [], ◌∷◌, ◌==◌,
  if◌then◌else◌, ==_iff, Bool-cases,
}
use mathlib.Core.Path.{subst}
use epics_mcp_server.Prelude.Texts.{Text, text_eq, text_eq_iff}
use epics_mcp_server.Errors.{Result, ok, err}
use epics_mcp_server.Throttle.{ReadThrottle, check}
use epics_mcp_server.Json.{object, Fields}
use epics_mcp_server.Transport.{Response, Answer, responded, failed, is_error_status}
use epics_mcp_server.Naming.{
  IdentityVerdict, verified, unverified, probe_failed, NamingClient, new_client, Call, Naming,
  found, not_found, response_error, limited, cached, identity_after, denied_by,
  not_found_if_verified, keep_record, of_answer, admitted, or_ask, get_device_name, validate_name,
  fields_of,
}
use epics_mcp_server.Naming.Identity.{Proves, probe_naming_identity_verified, fields_of-some}

abbrev pub Occurs : (Call → Type 0) → List Call → Type 0
Occurs P [] = ⊥
Occurs P (c ∷ cs) = P c ⊎ Occurs P cs

-- The call was answered with that record.
abbrev pub IsRecord : Call → Fields → Type 0
IsRecord c fs =
    (r : Response) × (c.answer ≡ responded r)
    × (is_error_status r.status_code ≡ false)
    × (r.json ≡ some (object fs))

abbrev pub Recorded : Text → Fields → Call → Type 0
Recorded name fs c = (c.name ≡ name) × IsRecord c fs

some_inj {ℓ} : {A : Type ℓ} {a b : A} → some a ≡ some b → a ≡ b
some_inj h = cc

-- An answer with 204 or 404
abbrev pub DeniedBy : Answer → Type 0
DeniedBy a = (r : Response) × (a ≡ responded r) × ((r.status_code ≡ 204) ⊎ (r.status_code ≡ 404))

abbrev pub Denied : Call → Type 0
Denied c = DeniedBy c.answer

abbrev pub Identified : Call → Type 0
Identified c = Proves c.swagger

-- The client behind some calls, the last call first.
pub data Reached : List Call → NamingClient → Type 0 where
  started : (t : ReadThrottle) → Reached [] (new_client t)
  called :
      {cs : List Call} {s : NamingClient} (c : Call)
      → Reached cs s
      → Reached (c ∷ cs) (validate_name c s).1

pub record IsBacked (cs : List Call) (s : NamingClient) : Type 0 where
  names : (n : Text) (fs : Fields) → cached n s.names_cache ≡ some fs → Occurs (Recorded n fs) cs
  identity : s.identity ≡ some verified → Occurs Identified cs

-- What a lookup rests on.
abbrev pub Rests : Call → List Call → Naming Fields → Type 0
Rests c cs (found fs) = Occurs (Recorded c.name fs) (c ∷ cs)
Rests c cs not_found = Denied c × Occurs Identified (c ∷ cs)
Rests c cs response_error = Unit {0}
Rests c cs limited = Unit {0}

abbrev pub Good : Call → List Call → Naming Fields × NamingClient → Type 0
Good c cs o = IsBacked (c ∷ cs) o.1 × Rests c cs o.0

module _ (c : Call) (cs : List Call) where
  later : (s : NamingClient) → IsBacked cs s → IsBacked (c ∷ cs) s
  later s b = record { names = λ n fs e. inr (b.names n fs e); identity = λ e. inr (b.identity e) }

  throttled_too :
      (s : NamingClient) (t : ReadThrottle)
      → IsBacked cs s
      → IsBacked cs (record s { throttle = t })
  throttled_too s t b = record { names = b.names; identity = b.identity }

  identity_after-IsBacked :
      (s : NamingClient) (i : Option IdentityVerdict)
      → IsBacked (c ∷ cs) s
      → IsBacked (c ∷ cs) (identity_after i c s)
  identity_after-IsBacked s (some v) b = b
  identity_after-IsBacked s none b = record {
    names = b.names;
    identity =
        λ e. inl (probe_naming_identity_verified s.throttle c.probe_now c.swagger (some_inj e));
  }

  denied_by-Rests :
      (i : Option IdentityVerdict)
      → Denied c
      → (i ≡ some verified → Occurs Identified (c ∷ cs))
      → Rests c cs (denied_by i)
  denied_by-Rests none d k = tt
  denied_by-Rests (some verified) d k = (d, k refl)
  denied_by-Rests (some unverified) d k = tt
  denied_by-Rests (some probe_failed) d k = tt

  not_found-Good :
      (s : NamingClient) → Denied c → IsBacked (c ∷ cs) s → Good c cs (not_found_if_verified c s)
  unfolding not_found_if_verified
  not_found-Good s d b =
      let after = identity_after-IsBacked s s.identity b in
      (after, denied_by-Rests (identity_after s.identity c s).identity d after.identity)

  kept :
      (s : NamingClient) (fs : Fields)
      → Recorded c.name fs c
      → IsBacked (c ∷ cs) s
      → (n : Text) (gs : Fields) → cached n ((c.name, fs) ∷ s.names_cache) ≡ some gs
      → Occurs (Recorded n gs) (c ∷ cs)
  unfolding cached
  kept s fs k b n gs e = elim (Bool-cases (text_eq c.name n)) [
    | inl t ↦
        let same = sym (ap (λ b. if b then some fs else cached n s.names_cache) t) ∙ e in
        inl ((text_eq_iff c.name n).0 t, subst (IsRecord c) (some_inj same) k.1)
    | inr t ↦ b.names n gs (sym (ap (λ b. if b then some fs else cached n s.names_cache) t) ∙ e)
  ]

  keep_record-Good :
      (s : NamingClient) (o : Option Fields)
      → ((fs : Fields) → o ≡ some fs → Recorded c.name fs c)
      → IsBacked (c ∷ cs) s
      → Good c cs (keep_record c o s)
  keep_record-Good s none k b = (b, tt)
  keep_record-Good s (some fs) k b =
      let recorded = k fs refl in
      (record { names = kept s fs recorded b; identity = b.identity }, inl recorded)

  of_answer-Good :
      (s : NamingClient) (a : Answer)
      → c.answer ≡ a
      → IsBacked (c ∷ cs) s
      → Good c cs (of_answer c a s)
  of_answer-Good s (failed e) h b = (b, tt)
  of_answer-Good s (responded r) h b = elim (Bool-cases (is_error_status r.status_code)) [
    | inl e ↦ elim (Bool-cases (r.status_code == 404)) [
      | inl f ↦ rw (e, f) (not_found-Good s (r, h, inr ((==_iff r.status_code 404).0 f)) b)
      | inr f ↦ rw (e, f) (b, tt)
    ]
    | inr e ↦ elim (Bool-cases (r.status_code == 204)) [
      | inl f ↦ rw (e, f) (not_found-Good s (r, h, inl ((==_iff r.status_code 204).0 f)) b)
      | inr f ↦
          rw (e, f)
            (keep_record-Good s (fields_of r.json)
              (λ fs g. (refl, (r, h, e, fields_of-some r.json fs g))) b)
    ]
  ]

  admitted-Good :
      (s : NamingClient) (x : Result (Unit {0})) → IsBacked (c ∷ cs) s → Good c cs (admitted c x s)
  admitted-Good s (err e) b = (b, tt)
  admitted-Good s (ok u) b = of_answer-Good s c.answer refl b

  or_ask-Good :
      (s : NamingClient) (o : Option Fields)
      → cached c.name s.names_cache ≡ o
      → IsBacked cs s
      → Good c cs (or_ask o c s)
  or_ask-Good s (some fs) e b = (later s b, inr (b.names c.name fs e))
  or_ask-Good s none e b =
      let checked = check s.throttle c.now in
      let s2 = record s { throttle = checked.1 } in
      admitted-Good s2 checked.0 (later s2 (throttled_too s checked.1 b))

  pub get_device_name-Good : (s : NamingClient) → IsBacked cs s → Good c cs (get_device_name c s)
  unfolding get_device_name
  get_device_name-Good s b = or_ask-Good s (cached c.name s.names_cache) refl b

pub Reached-IsBacked : {cs : List Call} {s : NamingClient} → Reached cs s → IsBacked cs s
unfolding validate_name cached
Reached-IsBacked (started t) = record { names = λ n fs e. cc; identity = λ e. cc }
Reached-IsBacked (called {cs} {s} c r) = (get_device_name-Good c cs s (Reached-IsBacked r)).0
