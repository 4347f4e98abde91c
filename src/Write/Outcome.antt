-- ===== src/Write/Outcome.antt =====
-- What a run leaves in the audit log and in the counter, and when it reaches the put.
use mathlib.Core.List.{append_assoc, append-nil}
use epics_mcp_server.Prelude.{
  ℕ, suc, String, ◌≡◌, refl, sym, ◌∙◌, ◌↔◌, inl, inr, Bool, true, false, not, List, [], ◌∷◌, ◌++◌,
  arith, if◌then◌else◌, Bool-cases, any,
}
use epics_mcp_server.Errors.{EpicsError, error_code, Result, ok, err}
use epics_mcp_server.Values.{Floats, Value, Reading}
use epics_mcp_server.Safety.{Regex, AuditLine, deny, SafetyLayer, check_write_allowed}
use epics_mcp_server.Safety.Gate.{check_write_allowed-IsDenied, check_write_allowed-granted}
use epics_mcp_server.Bounds.{BoundsVerdict, check_value_in_bounds}
use epics_mcp_server.Bounds.Verdict.{IsOutside, check_value_in_bounds_refuses_iff}
use epics_mcp_server.Write.{
  epics_error, internal, cancelled, Awaited, returned, raised, Step, get, put, line, Network, Run,
  ended, attempt_put, is_refused, bounds_then_put, read_then_put, set_pv_value,
}

-- The audit lines among the steps.
abbrev pub lines : {F : Type 0} → List (Step F) → List (AuditLine F)
lines [] = []
lines (get pv ∷ steps) = lines steps
lines (put pv value ∷ steps) = lines steps
lines (line l ∷ steps) = l ∷ lines steps

abbrev pub is_put : {F : Type 0} → Step F → Bool
is_put (get pv) = false
is_put (put pv value) = true
is_put (line l) = false

module _ (R : Regex) (fl : Floats) (tolerance : fl.Float) (pv value : String) where
  attempt_lines :
      (s : SafetyLayer R fl.Float) (op : ℕ) (old : Value fl.Float) (b : BoundsVerdict fl.Float)
      (done : Awaited (Unit {0})) (after : Awaited (Reading fl.Float))
      → (attempt_put R fl tolerance pv value s op (get pv ∷ []) old b done after).safety.audit
        ≡ s.audit
          ++ lines (attempt_put R fl tolerance pv value s op (get pv ∷ []) old b done after).steps
  unfolding attempt_put
  attempt_lines s op old b (returned u) (returned r) = simp append_assoc
  attempt_lines s op old b (returned u) (raised cancelled) = simp append_assoc
  attempt_lines s op old b (returned u) (raised internal) = simp append_assoc
  attempt_lines s op old b (returned u) (raised (epics_error e)) = simp append_assoc
  attempt_lines s op old b (raised cancelled) after = simp append_assoc
  attempt_lines s op old b (raised internal) after = simp append_assoc
  attempt_lines s op old b (raised (epics_error e)) after = simp append_assoc

  bounds_lines :
      (s : SafetyLayer R fl.Float) (op : ℕ) (old : Reading fl.Float) (net : Network fl.Float)
      → (bounds_then_put R fl tolerance pv value s op (get pv ∷ []) old net).safety.audit
        ≡ s.audit
          ++ lines (bounds_then_put R fl tolerance pv value s op (get pv ∷ []) old net).steps
  unfolding bounds_then_put
  bounds_lines s op old net =
      elim (Bool-cases (is_refused R fl tolerance pv value (check_value_in_bounds fl value old))) [
        | inl e ↦ rw e refl
        | inr e ↦
            rw e (
              attempt_lines s op old.value (check_value_in_bounds fl value old) net.put
                net.readback)
      ]

  read_lines :
      (s : SafetyLayer R fl.Float) (op : ℕ) (net : Network fl.Float)
      (pre : Awaited (Reading fl.Float))
      → (read_then_put R fl tolerance pv value s op net pre).safety.audit
        ≡ s.audit ++ lines (read_then_put R fl tolerance pv value s op net pre).steps
  unfolding read_then_put
  read_lines s op net (returned old) = bounds_lines s op old net
  read_lines s op net (raised e) = sym (append-nil s.audit)

  after_check : ℕ → Network fl.Float → Result (Unit {0}) → SafetyLayer R fl.Float → Run R fl.Float
  after_check op net (err e) s =
      ended R fl tolerance pv value s op (line (deny pv (error_code e)) ∷ []) (epics_error e)
  after_check op net (ok u) s = read_then_put R fl tolerance pv value s op net net.pre_read

  set_pv_value-eq :
      (s : SafetyLayer R fl.Float) (op now : ℕ) (net : Network fl.Float) (g : Result (Unit {0}))
      → (check_write_allowed s pv now).0 ≡ g
      → set_pv_value R fl tolerance pv value s op now net
        ≡ after_check op net g (check_write_allowed s pv now).1
  unfolding set_pv_value after_check
  set_pv_value-eq s op now net (err e) h = rw (h, set_pv_value) refl
  set_pv_value-eq s op now net (ok u) h = rw (h, set_pv_value) refl

  -- The gate's audit log grows by exactly the audit lines of the run, in their order.
  pub set_pv_value-lines :
      (s : SafetyLayer R fl.Float) (op now : ℕ) (net : Network fl.Float)
      → (set_pv_value R fl tolerance pv value s op now net).safety.audit
        ≡ s.audit ++ lines (set_pv_value R fl tolerance pv value s op now net).steps
  set_pv_value-lines s op now net = go (check_write_allowed s pv now).0 refl
    where
      go :
          (g : Result (Unit {0}))
          → (check_write_allowed s pv now).0 ≡ g
          → (set_pv_value R fl tolerance pv value s op now net).safety.audit
            ≡ s.audit ++ lines (set_pv_value R fl tolerance pv value s op now net).steps
      go (err e) h =
          rw (set_pv_value-eq s op now net (err e) h)
            (unfold after_check in (check_write_allowed-IsDenied s pv now e h).line)
      go (ok u) h = rw (set_pv_value-eq s op now net (ok u) h) (
          unfold after_check in
          read_lines (check_write_allowed s pv now).1 op net net.pre_read
          ∙ rw (check_write_allowed-granted s pv now h) refl)

  attempt_puts :
      (s : SafetyLayer R fl.Float) (op : ℕ) (old : Value fl.Float) (b : BoundsVerdict fl.Float)
      (done : Awaited (Unit {0})) (after : Awaited (Reading fl.Float))
      → (any is_put (attempt_put R fl tolerance pv value s op (get pv ∷ []) old b done after).steps
          ≡ true)
        × ((attempt_put R fl tolerance pv value s op (get pv ∷ []) old b done after).next_operation
            ≡ suc op)
  unfolding attempt_put
  attempt_puts s op old b (returned u) (returned r) = (refl, refl)
  attempt_puts s op old b (returned u) (raised cancelled) = (refl, refl)
  attempt_puts s op old b (returned u) (raised internal) = (refl, refl)
  attempt_puts s op old b (returned u) (raised (epics_error e)) = (refl, refl)
  attempt_puts s op old b (raised cancelled) after = (refl, refl)
  attempt_puts s op old b (raised internal) after = (refl, refl)
  attempt_puts s op old b (raised (epics_error e)) after = (refl, refl)

  -- What has to hold before a put: the gate granted the name, the pre-read returned a reading, and
  -- the value is not a number outside the limits that this reading declares.
  pub record MayPut (s : SafetyLayer R fl.Float) (now : ℕ) (net : Network fl.Float) : Type 0 where
    pub granted : (check_write_allowed s pv now).0 ≡ ok tt
    pub old : Reading fl.Float
    pub was_read : net.pre_read ≡ returned old
    pub in_limits : ¬ IsOutside fl value old

  abbrev reaches_put : Run R fl.Float → Bool
  reaches_put run = any is_put run.steps

  refused_iff :
      (old : Reading fl.Float)
      → (is_refused R fl tolerance pv value (check_value_in_bounds fl value old) ≡ true)
        ↔ IsOutside fl value old
  refused_iff old =
      let (to, from) = check_value_in_bounds_refuses_iff fl value old in
      (λ h. to (ground arith), λ h. rw (from h) refl)

  bounds_puts :
      (s : SafetyLayer R fl.Float) (op : ℕ) (old : Reading fl.Float) (net : Network fl.Float)
      (b : Bool)
      → is_refused R fl tolerance pv value (check_value_in_bounds fl value old) ≡ b
      → (reaches_put (bounds_then_put R fl tolerance pv value s op (get pv ∷ []) old net) ≡ not b)
        × ((bounds_then_put R fl tolerance pv value s op (get pv ∷ []) old net).next_operation
            ≡ (if b then op else suc op))
  unfolding bounds_then_put
  bounds_puts s op old net true e = (rw e refl, rw e refl)
  bounds_puts s op old net false e =
      let (p, n) =
        attempt_puts s op old.value (check_value_in_bounds fl value old) net.put net.readback in
      (rw e p, rw e n)

  read_puts :
      (s s' : SafetyLayer R fl.Float) (op now : ℕ) (net : Network fl.Float)
      (pre : Awaited (Reading fl.Float))
      → (check_write_allowed s pv now).0 ≡ ok tt
      → net.pre_read ≡ pre
      → reaches_put (read_then_put R fl tolerance pv value s' op net pre) ≡ true
      → MayPut s now net
  unfolding read_then_put
  read_puts s s' op now net (raised e) g p h = cc
  read_puts s s' op now net (returned old) g p h = record {
    granted = g;
    old = old;
    was_read = p;
    in_limits = λ out. cc (sym h ∙ (bounds_puts s' op old net true ((refused_iff old).1 out)).0);
  }

  no_put_after_denial :
      (op : ℕ) (net : Network fl.Float) (e : EpicsError) (s : SafetyLayer R fl.Float)
      → ¬ (reaches_put (after_check op net (err e) s) ≡ true)
  unfolding after_check
  no_put_after_denial op net e s h = cc

  put_after_grant :
      (op : ℕ) (net : Network fl.Float) (s : SafetyLayer R fl.Float)
      → reaches_put (after_check op net (ok tt) s) ≡ true
      → reaches_put (read_then_put R fl tolerance pv value s op net net.pre_read) ≡ true
  unfolding after_check
  put_after_grant op net s h = h

  set_pv_value-reaches_put :
      (s : SafetyLayer R fl.Float) (op now : ℕ) (net : Network fl.Float) (g : Result (Unit {0}))
      → (check_write_allowed s pv now).0 ≡ g
      → reaches_put (set_pv_value R fl tolerance pv value s op now net) ≡ true
      → MayPut s now net
  set_pv_value-reaches_put s op now net (err e) g h = absurd (
      no_put_after_denial op net e (check_write_allowed s pv now).1
        (rw (set_pv_value-eq s op now net (err e) g) at h))
  set_pv_value-reaches_put s op now net (ok u) g h =
      read_puts s (check_write_allowed s pv now).1 op now net net.pre_read g refl (
        put_after_grant op net (check_write_allowed s pv now).1
          (rw (set_pv_value-eq s op now net (ok u) g) at h))

  MayPut-reaches_put :
      (s : SafetyLayer R fl.Float) (op now : ℕ) (net : Network fl.Float)
      → MayPut s now net
      → reaches_put (set_pv_value R fl tolerance pv value s op now net) ≡ true
  MayPut-reaches_put s op now net m = rw (set_pv_value-eq s op now net (ok tt) m.granted) (
      unfold after_check read_then_put in
      rw m.was_read
        (bounds_puts (check_write_allowed s pv now).1 op m.old net false (
          ground (
            arith,
            λ (h : is_refused R fl tolerance pv value (check_value_in_bounds fl value m.old)
                  ≡ true).
                m.in_limits ((refused_iff m.old).0 h),
          ))).0)

  -- A run calls `pv_put` exactly if the gate granted the name, the pre-read returned, and the value
  -- is not a number outside the drive limits that were read.
  pub set_pv_value_puts_iff :
      (s : SafetyLayer R fl.Float) (op now : ℕ) (net : Network fl.Float)
      → (any is_put (set_pv_value R fl tolerance pv value s op now net).steps ≡ true)
        ↔ MayPut s now net
  set_pv_value_puts_iff s op now net = (
    set_pv_value-reaches_put s op now net (check_write_allowed s pv now).0 refl,
    MayPut-reaches_put s op now net,
  )
