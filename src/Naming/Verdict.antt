-- ===== src/Naming/Verdict.antt =====
-- When a name is answered as registered, and when as not.
use epics_mcp_server.Prelude.{
  ◌≡◌, refl, sym, ap, ◌∙◌, ◌≢◌, ◌↔◌, ◌⊎◌, inl, inr, true, Option, none, some, List, [], ◌∷◌, ◌==◌,
  ==_iff, Bool-cases, iff_trans,
}
use mathlib.Core.Path.{subst}
use epics_mcp_server.Prelude.Texts.{Text, codes, text_eq_iff}
use epics_mcp_server.Errors.{Result, ok, err}
use epics_mcp_server.Throttle.{check}
use epics_mcp_server.Json.{text, Fields, get, as_text, as_text_iff}
use epics_mcp_server.Transport.{Response, Answer, responded, failed, is_error_status}
use epics_mcp_server.Naming.{
  IdentityVerdict, verified, unverified, probe_failed, NamingClient, Call, Naming, found, not_found,
  response_error, limited, cached, identity_after, denied_by, not_found_if_verified, keep_record,
  of_answer, admitted, or_ask, get_device_name, NameStatus, status_of, not_registered, validated,
  validate_name,
}
use epics_mcp_server.Naming.Backed.{
  Occurs, Recorded, DeniedBy, Denied, Identified, Reached, Rests, get_device_name-Good,
  Reached-IsBacked,
}

-- The name has no record.
abbrev pub Missing : Call → List Call → NameStatus → Type 0
Missing c cs v = (v ≡ not_registered) × Denied c × Occurs Identified (c ∷ cs)

-- The status is that of a record of the name.
abbrev pub Known : Call → List Call → NameStatus → Type 0
Known c cs v =
    (fs : Fields) × Occurs (Recorded c.name fs) (c ∷ cs)
    × (get (codes "status") fs ≡ text v.status)
    × (v.status ≢ [])
    × ((v.registered ≡ true) ↔ (v.status ≡ codes "ACTIVE"))

found_inj : {a b : NameStatus} → found a ≡ found b → a ≡ b
found_inj h = cc

status_of-Known :
    (c : Call) (cs : List Call) (fs : Fields) (v : NameStatus)
    → Occurs (Recorded c.name fs) (c ∷ cs)
    → (o : Option Text) → as_text (get (codes "status") fs) ≡ o
    → status_of o ≡ found v
    → Known c cs v
status_of-Known c cs fs v k none e h = cc
status_of-Known c cs fs v k (some []) e h = cc
status_of-Known c cs fs v k (some (d ∷ ds)) e h =
    subst (Known c cs) (found_inj h)
      (fs, k, (as_text_iff _ _).0 e, λ n. cc, text_eq_iff (d ∷ ds) (codes "ACTIVE"))

validated-IsAnswer :
    (c : Call) (cs : List Call) (o : Naming Fields) (v : NameStatus)
    → Rests c cs o
    → validated o ≡ found v
    → Missing c cs v ⊎ Known c cs v
validated-IsAnswer c cs (found fs) v k h = inr (status_of-Known c cs fs v k _ refl h)
validated-IsAnswer c cs not_found v k h = inl (sym (found_inj h), k.0, k.1)
validated-IsAnswer c cs response_error v k h = cc
validated-IsAnswer c cs limited v k h = cc

not_registered-ne : (c : Call) (cs : List Call) → Known c cs not_registered → ⊥
not_registered-ne c cs k = let (fs, a, b, d, e) = k in d refl

denied_by_iff : (i : Option IdentityVerdict) → (denied_by i ≡ not_found) ↔ (i ≡ some verified)
denied_by_iff none = (λ h. cc, λ h. cc)
denied_by_iff (some verified) = (λ h. refl, λ h. refl)
denied_by_iff (some unverified) = (λ h. cc, λ h. cc)
denied_by_iff (some probe_failed) = (λ h. cc, λ h. cc)

not_found_iff :
    (c : Call) (s : NamingClient) (a : Answer)
    → DeniedBy a
    → ((not_found_if_verified c s).0 ≡ not_found)
      ↔ (DeniedBy a × ((not_found_if_verified c s).1.identity ≡ some verified))
unfolding not_found_if_verified
not_found_iff c s a d =
    let v = denied_by_iff (identity_after s.identity c s).identity in
    (λ h. (d, v.0 h), λ h. v.1 h.1)

other_iff :
    (a : Answer) (o : Naming Fields) (P : Type 0)
    → (DeniedBy a → ⊥)
    → o ≢ not_found
    → (o ≡ not_found) ↔ (DeniedBy a × P)
other_iff a o P n m = (λ h. absurd (m h), λ h. absurd (n h.0))

responded_inj : {r q : Response} → responded r ≡ responded q → r ≡ q
responded_inj h = cc

not_denied : (r : Response) → r.status_code ≢ 204 → r.status_code ≢ 404 → DeniedBy (responded r) → ⊥
not_denied r m n d =
    let (q, e, f) = d in
    let same = ap (λ (x : Response). x.status_code) (responded_inj e) in
    elim f [ inl k ↦ m (same ∙ k) | inr k ↦ n (same ∙ k) ]

keep_record-ne :
    (c : Call) (o : Option Fields) (s : NamingClient) → (keep_record c o s).0 ≢ not_found
keep_record-ne c none s h = cc
keep_record-ne c (some fs) s h = cc

of_answer_iff :
    (c : Call) (s : NamingClient) (a : Answer)
    → ((of_answer c a s).0 ≡ not_found)
      ↔ (DeniedBy a × ((of_answer c a s).1.identity ≡ some verified))
of_answer_iff c s (failed e) = other_iff _ _ _ (λ d. let (q, f, g) = d in cc) (λ h. cc)
of_answer_iff c s (responded r) = elim (Bool-cases (is_error_status r.status_code)) [
  | inl e ↦ elim (Bool-cases (r.status_code == 404)) [
    | inl f ↦
        rw (e, f) (not_found_iff c s (responded r) (r, refl, inr ((==_iff r.status_code 404).0 f)))
    | inr f ↦
        rw (e, f)
          (other_iff _ _ _
            (not_denied r (λ k. cc (ap is_error_status k, e))
              (λ k. cc ((==_iff r.status_code 404).1 k, f)))
            (λ h. cc))
  ]
  | inr e ↦ elim (Bool-cases (r.status_code == 204)) [
    | inl f ↦
        rw (e, f) (not_found_iff c s (responded r) (r, refl, inl ((==_iff r.status_code 204).0 f)))
    | inr f ↦
        rw (e, f)
          (other_iff _ _ _
            (not_denied r (λ k. cc ((==_iff r.status_code 204).1 k, f))
              (λ k. cc (ap is_error_status k, e)))
            (keep_record-ne c _ s))
  ]
]

-- The lookup was made, and denied, and the host is known to be the Naming Service behind the call.
abbrev pub IsDenied : Call → NamingClient → NamingClient → Type 0
IsDenied c s after =
    (cached c.name s.names_cache ≡ none)
    × ((check s.throttle c.now).0 ≡ ok tt)
    × Denied c
    × (after.identity ≡ some verified)

admitted_iff :
    (c : Call) (s : NamingClient) (x : Result (Unit {0}))
    → ((admitted c x s).0 ≡ not_found)
      ↔ ((x ≡ ok tt) × Denied c × ((admitted c x s).1.identity ≡ some verified))
admitted_iff c s (err e) = (λ h. cc, λ h. let (f, d, i) = h in cc)
admitted_iff c s (ok tt) =
    let o = of_answer_iff c s c.answer in
    (λ h. let (d, i) = o.0 h in (refl, d, i), λ h. let (f, d, i) = h in o.1 (d, i))

or_ask_iff :
    (c : Call) (s : NamingClient) (o : Option Fields)
    → cached c.name s.names_cache ≡ o
    → ((or_ask o c s).0 ≡ not_found) ↔ IsDenied c s (or_ask o c s).1
or_ask_iff c s (some fs) e = (λ h. cc, λ h. let (f, g, d, i) = h in cc)
or_ask_iff c s none e =
    let checked = check s.throttle c.now in
    let o = admitted_iff c (record s { throttle = checked.1 }) checked.0 in
    (λ h. let (f, d, i) = o.0 h in (e, f, d, i), λ h. let (f, g, d, i) = h in o.1 (g, d, i))

-- The verdict of a call behind the calls so far.
pub record IsVerdict (c : Call) (cs : List Call) (s : NamingClient) : Type 0 where
  pub missing : ((validate_name c s).0 ≡ found not_registered) ↔ IsDenied c s (validate_name c s).1
  pub backed : (v : NameStatus) → (validate_name c s).0 ≡ found v → Missing c cs v ⊎ Known c cs v

validated_iff :
    (c : Call) (cs : List Call) (o : Naming Fields)
    → Rests c cs o
    → (validated o ≡ found not_registered) ↔ (o ≡ not_found)
validated_iff c cs (found fs) k = (
  λ h. absurd (not_registered-ne c cs (status_of-Known c cs fs not_registered k _ refl h)),
  λ h. cc,
)
validated_iff c cs not_found k = (λ h. refl, λ h. refl)
validated_iff c cs response_error k = (λ h. cc, λ h. cc)
validated_iff c cs limited k = (λ h. cc, λ h. cc)

-- A name is answered as not registered, without a status, exactly if it is not cached, the throttle
-- admits the lookup, the lookup was answered with 204 or 404, and the identity of the host is verified
-- behind the call; and then some call so far had the contract of the Naming Service from the host. Every
-- other status is the text, not empty, of a record that this call or an earlier one for that name was
-- answered with, and the name is registered exactly if it is ACTIVE.
pub validate_name-IsVerdict :
    {cs : List Call} {s : NamingClient} → Reached cs s → (c : Call) → IsVerdict c cs s
unfolding validate_name get_device_name
validate_name-IsVerdict {cs} {s} r c =
    let rests = (get_device_name-Good c cs s (Reached-IsBacked r)).1 in
    record {
      missing =
          iff_trans (validated_iff c cs (get_device_name c s).0 rests)
            (or_ask_iff c s (cached c.name s.names_cache) refl);
      backed = λ v h. validated-IsAnswer c cs (get_device_name c s).0 v rests h;
    }
