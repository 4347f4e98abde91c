-- ===== src/Diagnose/Report.antt =====
-- What a whole diagnosis says, in terms of the services' answers.
use epics_mcp_server.Prelude.{
  String, ◌≡◌, refl, sym, ap, ◌∙◌, ◌≢◌, ◌↔◌, Bool, true, false, Option, none, some, List, [], ◌∷◌,
  arith, All,
}
use epics_mcp_server.Prelude.Texts.{Text, text_eq_iff}
use epics_mcp_server.Names.{record_name, device_name}
use epics_mcp_server.Diagnose.{connected, disconnected, healthy, name_typo, unregistered, Cases}
use epics_mcp_server.Diagnose.Cause.{IsUnlisted, IsNamed, derive_cause_iff}
use epics_mcp_server.Diagnose.Run.{diagnose}
use epics_mcp_server.Diagnose.Gather.{
  Probe, reading, epics_failure, internal_failure, Outcome, raised, answered, Answer, off, on,
  ChannelRow, Channels, Services, Requested, exact_row, channelfinder_of, live_of, state_from_live,
  gather_channelfinder, gather_naming, gather, from_row, naming_of,
}

-- No row bears the name.
abbrev pub NoRow : Text → List ChannelRow → Type 0
NoRow name = All (λ row. row.name ≢ name)

exact_row-none :
    (name : Text) (rows : List ChannelRow) → exact_row name rows ≡ none → NoRow name rows
unfolding exact_row
exact_row-none name [] h = tt
exact_row-none name (row ∷ rows) h =
    ground (arith, text_eq_iff row.name name, exact_row-none name rows)

module _ (name : Text) where
  unlisted_row :
      (capped : Bool) (o : Option ChannelRow)
      → (from_row capped o).registered ≡ some false
      → (o ≡ none) × ((from_row capped o).capped ≡ capped)
  unlisted_row capped none h = (refl, refl)
  unlisted_row capped (some row) h = cc

  unlisted_answer :
      (o : Outcome (Answer Channels))
      → (channelfinder_of name o).consulted ≡ true
      → (channelfinder_of name o).registered ≡ some false
      → (channelfinder_of name o).capped ≡ false
      → (channels : Channels) × (o ≡ answered (on channels))
        × NoRow name channels.rows
        × (channels.capped ≡ false)
  unfolding channelfinder_of
  unlisted_answer (raised text) h k l = cc
  unlisted_answer (answered (off text)) h k l = cc
  unlisted_answer (answered (on channels)) h k l =
      let (none_, same) = unlisted_row channels.capped (exact_row name channels.rows) k in
      (channels, refl, exact_row-none name channels.rows none_, sym same ∙ l)

disconnected_probe :
    {V : Type 0} (p : Probe V)
    → state_from_live (live_of p) ≡ disconnected
    → (code : String) × (text : String) × (p ≡ epics_failure code text)
unfolding state_from_live live_of
disconnected_probe (reading value severity) h = cc
disconnected_probe (epics_failure code text) h = (code, text, refl)
disconnected_probe (internal_failure text) h = cc

connected_probe :
    {V : Type 0} (p : Probe V)
    → (state_from_live (live_of p) ≡ connected)
      ↔ ((value : Option V) × (severity : Option String) × (p ≡ reading value severity))
unfolding state_from_live live_of
connected_probe (reading value severity) = (λ h. (value, severity, refl), λ h. refl)
connected_probe (epics_failure code text) = (λ h. cc, λ (v, w, h). cc)
connected_probe (internal_failure text) = (λ h. cc, λ (v, w, h). cc)

named_answer :
    (active : Bool) (o : Outcome (Unit {0})) (q : Outcome (Bool × String))
    → (naming_of o q).consulted ≡ true
    → (naming_of o q).registered ≡ some active
    → (status : String) × (o ≡ answered tt) × (q ≡ answered (active, status))
named_answer active (raised text) q h k = cc
named_answer active (answered u) (raised text) h k = cc
named_answer active (answered u) (answered (registered, status)) h k =
    (status, refl, ap (λ (b : Bool). answered (b, status)) cc)

module _ {V : Type 0} (s : Services V) (asked : Requested) (pv : Text) where
  asked_channelfinder :
      (gather_channelfinder s asked pv).consulted ≡ true
      → gather_channelfinder s asked pv
        ≡ channelfinder_of (record_name pv) (s.query_channels (record_name pv))
  unfolding gather_channelfinder
  asked_channelfinder h = ground arith

  asked_naming :
      (gather_naming s asked pv).consulted ≡ true
      → gather_naming s asked pv ≡ naming_of s.check_connectivity (s.validate_name (device_name pv))
  unfolding gather_naming
  asked_naming h = ground arith

  unlisted :
      IsUnlisted (gather s asked pv)
      → (channels : Channels) × (s.query_channels (record_name pv) ≡ answered (on channels))
        × NoRow (record_name pv) channels.rows
        × (channels.capped ≡ false)
  unfolding gather
  unlisted (h, k, l) =
      let same = asked_channelfinder h in
      unlisted_answer (record_name pv) (s.query_channels (record_name pv)) (rw (← same) h)
        (rw (← same) k) (rw (← same) l)

  validated :
      (active : Bool)
      → IsNamed (gather s asked pv) active
      → (status : String) × (s.check_connectivity ≡ answered tt)
        × (s.validate_name (device_name pv) ≡ answered (active, status))
  unfolding gather
  validated active (h, k) =
      let same = asked_naming h in
      named_answer active s.check_connectivity (s.validate_name (device_name pv)) (rw (← same) h)
        (rw (← same) k)

  failed_probe :
      state_from_live (gather s asked pv).live ≡ disconnected
      → (code : String) × (text : String) × (s.pv_get pv ≡ epics_failure code text)
  unfolding gather
  failed_probe h = disconnected_probe (s.pv_get pv) h

  live_connected :
      state_from_live (gather s asked pv).live ≡ connected
      → state_from_live (live_of (s.pv_get pv)) ≡ connected
  unfolding gather
  live_connected h = h

  connected_live :
      state_from_live (live_of (s.pv_get pv)) ≡ connected
      → state_from_live (gather s asked pv).live ≡ connected
  unfolding gather
  connected_live h = h

  -- The evidence behind a verdict that the PV is not served: the read failed with an `EpicsError`,
  -- ChannelFinder gave a complete answer with no row of exactly the record's name, and the Naming
  -- Service was reached and said whether the device is active.
  pub record IsUnserved (active : Bool) : Type 0 where
    pub failed : (code : String) × (text : String) × (s.pv_get pv ≡ epics_failure code text)
    pub unlisted :
        (channels : Channels) × (s.query_channels (record_name pv) ≡ answered (on channels))
        × NoRow (record_name pv) channels.rows
        × (channels.capped ≡ false)
    pub validated :
        (status : String) × (s.check_connectivity ≡ answered tt)
        × (s.validate_name (device_name pv) ≡ answered (active, status))

  unserved :
      (active : Bool)
      → (state_from_live (gather s asked pv).live ≡ disconnected)
        × IsUnlisted (gather s asked pv)
        × IsNamed (gather s asked pv) active
      → IsUnserved active
  unserved active (d, u, n) = record {
    failed = failed_probe d;
    unlisted = unlisted u;
    validated = validated active n;
  }

  -- A service that is switched off, not asked or raises is never taken for a no: a diagnosis of
  -- `name_typo` rests on actual answers of the probe, of ChannelFinder and of the Naming Service,
  -- the last saying that the device is not active, and one of `unregistered` on the same with the
  -- device active.
  pub diagnose-IsUnserved :
      (c : Cases)
      → ((diagnose c s asked pv).likely_cause ≡ name_typo → IsUnserved false)
        × ((diagnose c s asked pv).likely_cause ≡ unregistered → IsUnserved true)
  unfolding diagnose
  diagnose-IsUnserved c =
      let (_, _, u, t) =
        derive_cause_iff c (state_from_live (gather s asked pv).live) (gather s asked pv) in
      (λ h. unserved false (t.0 h), λ h. unserved true (u.0 h))

  -- The live read alone decides whether the PV is healthy: exactly when it returned a reading.
  pub diagnose_healthy_iff :
      (c : Cases)
      → ((diagnose c s asked pv).likely_cause ≡ healthy)
        ↔ ((value : Option V) × (severity : Option String) × (s.pv_get pv ≡ reading value severity))
  unfolding diagnose
  diagnose_healthy_iff c =
      let ev = gather s asked pv in
      let (h, _, _, _) = derive_cause_iff c (state_from_live ev.live) ev in
      let (a, b) = connected_probe (s.pv_get pv) in
      (λ k. a (live_connected (h.0 k)), λ k. h.1 (connected_live (b k)))
