-- ===== src/Diagnose/Cause.antt =====
-- When the decision tree gives each cause.
use epics_mcp_server.Prelude.{
  ◌≡◌, refl, ◌≢◌, ◌↔◌, ◌⊎◌, Bool, true, false, Option, none, some, arith, eq_iff,
}
use epics_mcp_server.Diagnose.{
  State, connected, disconnected, unknown, healthy, ioc_down, name_typo, unregistered,
  indeterminate, Cases, DiagnoseEvidence, Corroboration, status_is_down, down_by_status,
  derive_registered, derive_missing, derive_disconnected, derive_connected, derive_cause,
  text_or_empty, is_true, is_false,
}

is_true_iff : (o : Option Bool) → (is_true o ≡ true) ↔ (o ≡ some true)
is_true_iff none = ground arith
is_true_iff (some true) = ground arith
is_true_iff (some false) = ground arith

is_false_iff : (o : Option Bool) → (is_false o ≡ true) ↔ (o ≡ some false)
is_false_iff none = ground arith
is_false_iff (some true) = ground arith
is_false_iff (some false) = ground arith

module _ {V : Type 0} where
  -- ChannelFinder lists the PV.
  abbrev pub IsListed : DiagnoseEvidence V → Type 0
  IsListed ev = (ev.channelfinder.consulted ≡ true) × (ev.channelfinder.registered ≡ some true)

  -- A complete answer of ChannelFinder does not list the PV.
  abbrev pub IsUnlisted : DiagnoseEvidence V → Type 0
  IsUnlisted ev =
      (ev.channelfinder.consulted ≡ true)
      × (ev.channelfinder.registered ≡ some false)
      × (ev.channelfinder.capped ≡ false)

  -- The Naming Service has answered whether the device is registered.
  abbrev pub IsNamed : DiagnoseEvidence V → Bool → Type 0
  IsNamed ev active = (ev.naming.consulted ≡ true) × (ev.naming.registered ≡ some active)

module _ {V : Type 0} (c : Cases) where
  registered_cause :
      (ev : DiagnoseEvidence V)
      → (((derive_registered c ev).likely_cause ≡ ioc_down)
          ↔ ((status_is_down c ev ≡ true) ⊎ (text_or_empty ev.live.error_code ≡ "PV_NOT_FOUND")))
        × (((derive_registered c ev).likely_cause ≡ ioc_down)
            ⊎ ((derive_registered c ev).likely_cause ≡ indeterminate))
  unfolding derive_registered down_by_status
  registered_cause ev = ground (arith, eq_iff (text_or_empty ev.live.error_code) "PV_NOT_FOUND")

  missing_cause :
      (ev : DiagnoseEvidence V)
      → (((derive_missing c ev).likely_cause ≡ unregistered) ↔ IsNamed ev true)
        × (((derive_missing c ev).likely_cause ≡ name_typo) ↔ IsNamed ev false)
        × ((derive_missing c ev).likely_cause ≢ ioc_down)
        × ((derive_missing c ev).likely_cause ≢ healthy)
  unfolding derive_missing
  missing_cause ev =
      ground (arith, is_true_iff ev.naming.registered, is_false_iff ev.naming.registered)

  disconnected_cause :
      (ev : DiagnoseEvidence V)
      → let cause = (derive_disconnected c ev).likely_cause in
        ((cause ≡ ioc_down) ↔ (
          IsListed ev
          × ((status_is_down c ev ≡ true) ⊎ (text_or_empty ev.live.error_code ≡ "PV_NOT_FOUND"))))
        × ((cause ≡ unregistered) ↔ (IsUnlisted ev × IsNamed ev true))
        × ((cause ≡ name_typo) ↔ (IsUnlisted ev × IsNamed ev false))
        × (cause ≢ healthy)
  unfolding derive_disconnected
  disconnected_cause ev = ground (
    arith,
    is_true_iff ev.channelfinder.registered,
    is_false_iff ev.channelfinder.registered,
    registered_cause ev,
    missing_cause ev,
  )

  -- The decision table of the causes. `healthy` is given exactly for a connected PV. `ioc_down` is given
  -- exactly for a disconnected one that ChannelFinder lists, with a status that is down, or where the
  -- error code of the live read is PV_NOT_FOUND. `unregistered` and `name_typo` are given exactly for a
  -- disconnected one that a complete answer of ChannelFinder does not list, and that the Naming Service
  -- says is active, or is not.
  pub derive_cause_iff :
      (state : State) (ev : DiagnoseEvidence V)
      → let cause = (derive_cause c state ev).likely_cause in
        ((cause ≡ healthy) ↔ (state ≡ connected))
        × ((cause ≡ ioc_down) ↔ (
            (state ≡ disconnected)
            × IsListed ev
            × ((status_is_down c ev ≡ true) ⊎ (text_or_empty ev.live.error_code ≡ "PV_NOT_FOUND"))))
        × ((cause ≡ unregistered) ↔ ((state ≡ disconnected) × IsUnlisted ev × IsNamed ev true))
        × ((cause ≡ name_typo) ↔ ((state ≡ disconnected) × IsUnlisted ev × IsNamed ev false))
  unfolding derive_cause derive_connected
  derive_cause_iff connected ev = ground arith
  derive_cause_iff unknown ev = ground arith
  derive_cause_iff disconnected ev = ground (arith, disconnected_cause ev)

  -- The Archiver and the alarm tree only corroborate: whatever they say, the cause and the next steps
  -- stay the same.
  pub corroboration_keeps_cause :
      (state : State) (ev : DiagnoseEvidence V) (archiver alarm : Corroboration)
      → ((derive_cause c state (record ev { archiver = archiver; alarm = alarm })).likely_cause
          ≡ (derive_cause c state ev).likely_cause)
        × ((derive_cause c state (record ev { archiver = archiver; alarm = alarm })).next_steps
            ≡ (derive_cause c state ev).next_steps)
  unfolding derive_cause derive_connected derive_disconnected derive_registered derive_missing
      down_by_status status_is_down
  corroboration_keeps_cause connected ev archiver alarm = (refl, refl)
  corroboration_keeps_cause unknown ev archiver alarm = (refl, refl)
  corroboration_keeps_cause disconnected ev archiver alarm = ground arith
