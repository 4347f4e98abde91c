-- ===== src/Coverage/Sets.antt =====
-- How the audit divides the PVs between ChannelFinder and the displays.
use epics_mcp_server.Prelude.{
  ◌≡◌, refl, sym, ap, ◌∙◌, ◌↔◌, inl, inr, Bool, true, not, List, [], ◌∷◌, arith,
}
use epics_mcp_server.Prelude.Texts.{Text, member, Among, member_iff}
use epics_mcp_server.Prelude.Sorted.{sorted_set, Among-sorted_set}
use epics_mcp_server.Coverage.{
  IndexRow, Registry, disabled, capped, failed, registered, add_rows, names_of, cf_set, Planes,
  audit_coverage, is_live, only, when_live,
}
use epics_mcp_server.Coverage.Gaps.{Delivers, Among-if, delivered_in_cf}

Among-only :
    (p : Text → Bool) (x : Text) (ts : List Text)
    → Among x (only p ts) ↔ (Among x ts × (p x ≡ true))
Among-only p x [] = ground arith
Among-only p x (t ∷ ts) =
    let a = Among-if (p t) t x (only p ts) in
    let ih = Among-only p x ts in
    (
      λ h. elim (a.0 h) [
        | inl (e, k) ↦ (inl e, sym (ap p e) ∙ k)
        | inr k ↦ (inr (ih.0 k).0, (ih.0 k).1)
      ],
      λ (m, k). elim m [ inl e ↦ a.1 (inl (e, ap p e ∙ k)) | inr n ↦ a.1 (inr (ih.1 (n, k))) ],
    )

Among-cf_set : (registry : Registry) (pv : Text) → Among pv (cf_set registry) ↔ Delivers registry pv
unfolding cf_set
Among-cf_set disabled pv = (λ h. absurd h, delivered_in_cf disabled pv)
Among-cf_set capped pv = (λ h. absurd h, delivered_in_cf capped pv)
Among-cf_set failed pv = (λ h. absurd h, delivered_in_cf failed pv)
Among-cf_set (registered names) pv = (λ h. (names, refl, h), delivered_in_cf (registered names) pv)

live_Delivers : (registry : Registry) (pv : Text) → Delivers registry pv → is_live registry ≡ true
live_Delivers registry pv (names, e, k) = rw e refl

-- A set that is reported where ChannelFinder is live, by a test that says `member`.
Among-when_live :
    (registry : Registry) (p : Text → Bool) (pv : Text) (ts : List Text)
    → Among pv (when_live registry (sorted_set (only p ts)))
      ↔ ((is_live registry ≡ true) × Among pv ts × (p pv ≡ true))
Among-when_live registry p pv ts =
    ground (arith, Among-sorted_set pv (only p ts), Among-only p pv ts)

-- The three sets: a PV is in the first exactly if ChannelFinder answered with its record and a display
-- shows it, in the second if it answered with it and none shows it, and in the third if it answered
-- without it and a display shows it. Where ChannelFinder gave no answer, all three are empty.
pub audit_coverage_sets_iff :
    (planes : Planes) (scope : Text) (context_capped : List Text) (index : List IndexRow)
    (pv : Text)
    → let report = audit_coverage planes scope context_capped index in
      let shown = names_of (add_rows scope [] index) in
      (Among pv report.cf_and_display ↔ (Delivers planes.channelfinder pv × Among pv shown))
      × (Among pv report.cf_only ↔ (Delivers planes.channelfinder pv × ¬ Among pv shown))
      × (Among pv report.display_only ↔ (
          (is_live planes.channelfinder ≡ true)
          × Among pv shown
          × ¬ Delivers planes.channelfinder pv))
unfolding audit_coverage
audit_coverage_sets_iff planes scope context_capped index pv =
    let shown = names_of (add_rows scope [] index) in
    let c = cf_set planes.channelfinder in
    let d = Among-cf_set planes.channelfinder pv in
    let l = live_Delivers planes.channelfinder pv in
    let m = member_iff pv shown in
    let n = member_iff pv c in
    let w = Among-when_live planes.channelfinder in
    (
      ground (arith, d, l, m, w (λ t. member t shown) pv c),
      ground (arith, d, l, m, w (λ t. not (member t shown)) pv c),
      ground (arith, d, n, w (λ t. not (member t c)) pv shown),
    )
