-- ===== src/PvClient/Run.antt =====
-- A run of `pv_monitor` against what was delivered to it.
use epics_mcp_server.Prelude.{
  ℕ, zero, suc, ◌+◌, ◌≤◌, ◌<◌, ◌≡◌, refl, sym, ap, ◌∙◌, ◌↔◌, ◌⊎◌, inl, inr, Bool, true, false,
  Option, List, [], ◌∷◌, ◌++◌, map, arith, ltb, if◌then◌else◌, length, all, length-append,
  iff_trans,
}
use epics_mcp_server.Prelude.Texts.{Text, is_empty}
use epics_mcp_server.Attach.{take}
use epics_mcp_server.PvClient.{Formatting, done}
use epics_mcp_server.PvClient.Monitor.{
  opened, Notice, finished, disconnected, other, Delivery, value, notice, ChannelNotices,
  record_notice, no_errors, Event, event_of, Monitor, MonitorOutcome, started, on_value, run,
  outcome_of, state, connected, unreachable, MonitorConfig, pv_monitor, Subscription, clamped,
}

abbrev pub values : {V : Type 0} → List (Delivery V) → List V
values [] = []
values (value v ∷ ds) = v ∷ values ds
values (notice n ∷ ds) = values ds

abbrev pub notices_of : {V : Type 0} → List (Delivery V) → List Notice
notices_of [] = []
notices_of (value v ∷ ds) = notices_of ds
notices_of (notice n ∷ ds) = n ∷ notices_of ds

abbrev pub is_disconnected : Notice → Bool
is_disconnected disconnected = true
is_disconnected _ = false

abbrev recorded : ChannelNotices → List Notice → ChannelNotices
recorded n [] = n
recorded n (x ∷ xs) = recorded (record_notice n x) xs

no_errors-snoc : (es : List Text) (e : Text) → no_errors (es ++ e ∷ []) ≡ false
no_errors-snoc [] e = refl
no_errors-snoc (x ∷ es) e = refl

-- What makes a channel unreachable, as long as it delivers no value.
abbrev OnlyDown : ChannelNotices → Type 0
OnlyDown n = (n.saw_disconnect ≡ true) × (n.saw_finished ≡ false) × (no_errors n.errors ≡ true)

recorded-OnlyDown :
    (n : ChannelNotices) (ns : List Notice)
    → OnlyDown (recorded n ns) ↔ (
        ((n.saw_disconnect ≡ true) ⊎ (0 < length ns))
        × (n.saw_finished ≡ false)
        × (no_errors n.errors ≡ true)
        × (all is_disconnected ns ≡ true))
unfolding record_notice
recorded-OnlyDown n [] = ground arith
recorded-OnlyDown n (finished ∷ ns) =
    ground (arith, recorded-OnlyDown (record_notice n finished) ns)
recorded-OnlyDown n (disconnected ∷ ns) =
    ground (arith, recorded-OnlyDown (record_notice n disconnected) ns)
recorded-OnlyDown n (other message class_name ∷ ns) = ground (
  arith,
  recorded-OnlyDown (record_notice n (other message class_name)) ns,
  no_errors-snoc n.errors (if is_empty message then class_name else message),
)

recorded-saw_value :
    (n : ChannelNotices) (ns : List Notice) → (recorded n ns).saw_value ≡ n.saw_value
unfolding record_notice
recorded-saw_value n [] = refl
recorded-saw_value n (finished ∷ ns) = recorded-saw_value (record_notice n finished) ns
recorded-saw_value n (disconnected ∷ ns) = recorded-saw_value (record_notice n disconnected) ns
recorded-saw_value n (other message class_name ∷ ns) =
    recorded-saw_value (record_notice n (other message class_name)) ns

module _ {A : Type 0} where
  take_full : (n : ℕ) (xs ys : List A) → length xs ≡ n → take n (xs ++ ys) ≡ xs
  take_full zero [] ys h = refl
  take_full (suc n) (x ∷ xs) ys h = ap (λ (zs : List A). x ∷ zs) (take_full n xs ys (omega arith))
  take_full zero (x ∷ xs) ys h = absurd (omega arith)
  take_full (suc n) [] ys h = absurd (omega arith)

  take_within : (n : ℕ) (xs : List A) → length xs ≤ n → take n (xs ++ []) ≡ xs
  take_within zero [] h = refl
  take_within (suc n) [] h = refl
  take_within (suc n) (x ∷ xs) h = ap (λ (zs : List A). x ∷ zs) (take_within n xs (omega arith))
  take_within zero (x ∷ xs) h = absurd (omega arith)

  take-take : (n : ℕ) (xs : List A) → take n (take (suc n) xs) ≡ take n xs
  take-take zero xs = refl
  take-take (suc n) [] = refl
  take-take (suc n) (x ∷ xs) = ap (λ (zs : List A). x ∷ zs) (take-take n xs)

  lt-length-take :
      (n : ℕ) (xs : List A) → (ltb n (length (take (suc n) xs)) ≡ true) ↔ (n < length xs)
  lt-length-take n [] = ground arith
  lt-length-take zero (x ∷ xs) = ground arith
  lt-length-take (suc n) (x ∷ xs) = ground (arith, lt-length-take n xs)

  append_snoc : (xs : List A) (x : A) (ys : List A) → (xs ++ x ∷ []) ++ ys ≡ xs ++ x ∷ ys
  append_snoc [] x ys = refl
  append_snoc (y ∷ xs) x ys = ap (λ (zs : List A). y ∷ zs) (append_snoc xs x ys)

length-map : {A B : Type 0} (f : A → B) (xs : List A) → length (map f xs) ≡ length xs
length-map f [] = refl
length-map f (x ∷ xs) = ap suc (length-map f xs)

module _ {V E : Type 0} (format : V → Formatting E) (most : ℕ) where
  -- The events of values.
  abbrev pub events_of : List V → List (Event E)
  events_of = map (λ v. event_of (format v))

  -- A run has stopped only with one event more than the bound, and holds no more than that.
  record IsBounded (m : Monitor E) : Type 0 where
    bound : length m.collected ≤ most + 1
    stopped : m.stopped ≡ true → (length m.collected ≡ most + 1) × (m.notices.saw_value ≡ true)
    filled : 0 < length m.collected → m.notices.saw_value ≡ true

  on_value-IsBounded :
      (m : Monitor E) (d : Delivery V) → IsBounded m → IsBounded (on_value format most m d)
  unfolding on_value record_notice
  on_value-IsBounded m (value v) b =
      ground (arith, length-append m.collected (event_of (format v) ∷ []))
  on_value-IsBounded m (notice finished) b = ground arith
  on_value-IsBounded m (notice disconnected) b = ground arith
  on_value-IsBounded m (notice (other message class_name)) b = ground arith

  events_on_value :
      (m : Monitor E) (d : Delivery V) (ds : List (Delivery V))
      → IsBounded m
      → take (suc most) ((on_value format most m d).collected ++ events_of (values ds))
        ≡ take (suc most) (m.collected ++ events_of (values (d ∷ ds)))
  unfolding on_value
  events_on_value m (value v) ds b = ground (
    arith,
    take_full (suc most) m.collected (events_of (values ds)),
    take_full (suc most) m.collected (events_of (v ∷ values ds)),
    append_snoc m.collected (event_of (format v)) (events_of (values ds)),
  )
  events_on_value m (notice n) ds b = ground arith

  run_collected :
      (m : Monitor E) (ds : List (Delivery V))
      → IsBounded m
      → (run format most m ds).collected ≡ take (suc most) (m.collected ++ events_of (values ds))
  unfolding run
  run_collected m [] b = sym (take_within (suc most) m.collected (omega (arith, b.bound)))
  run_collected m (d ∷ ds) b =
      run_collected (on_value format most m d) ds (on_value-IsBounded m d b)
      ∙ events_on_value m d ds b

  run-saw_value :
      (m : Monitor E) (ds : List (Delivery V))
      → IsBounded m
      → ((run format most m ds).notices.saw_value ≡ true)
        ↔ ((m.notices.saw_value ≡ true) ⊎ (0 < length (values ds)))
  unfolding run on_value record_notice
  run-saw_value m [] b = ground arith
  run-saw_value m (value v ∷ ds) b = ground (
    arith,
    run-saw_value (on_value format most m (value v)) ds (on_value-IsBounded m (value v) b),
  )
  run-saw_value m (notice finished ∷ ds) b = ground (
    arith,
    run-saw_value (on_value format most m (notice finished)) ds
        (on_value-IsBounded m (notice finished) b),
  )
  run-saw_value m (notice disconnected ∷ ds) b = ground (
    arith,
    run-saw_value (on_value format most m (notice disconnected)) ds
        (on_value-IsBounded m (notice disconnected) b),
  )
  run-saw_value m (notice (other message class_name) ∷ ds) b = ground (
    arith,
    run-saw_value (on_value format most m (notice (other message class_name))) ds
        (on_value-IsBounded m (notice (other message class_name)) b),
  )

  run_stopped_iff :
      (m : Monitor E) (ds : List (Delivery V))
      → IsBounded m
      → ((run format most m ds).stopped ≡ true)
        ↔ ((m.stopped ≡ true) ⊎ (most + 1 < length m.collected + length (values ds)))
  unfolding run on_value
  run_stopped_iff m [] b = ground arith
  run_stopped_iff m (value v ∷ ds) b = ground (
    arith,
    run_stopped_iff (on_value format most m (value v)) ds (on_value-IsBounded m (value v) b),
    length-append m.collected (event_of (format v) ∷ []),
  )
  run_stopped_iff m (notice n ∷ ds) b = ground (
    arith,
    run_stopped_iff (on_value format most m (notice n)) ds (on_value-IsBounded m (notice n) b),
  )

  on_value_running :
      (m : Monitor E) (n : Notice)
      → m.stopped ≡ false
      → on_value format most m (notice n) ≡ record m { notices = record_notice m.notices n }
  unfolding on_value
  on_value_running m n s = ground arith

  -- Without a value nothing stops the run, and every notice is recorded.
  run_quiet :
      (m : Monitor E) (ds : List (Delivery V))
      → m.stopped ≡ false
      → values ds ≡ []
      → (run format most m ds).notices ≡ recorded m.notices (notices_of ds)
  unfolding run on_value
  run_quiet m [] s h = refl
  run_quiet m (value v ∷ ds) s h = cc
  run_quiet m (notice n ∷ ds) s h =
      ap (λ (x : Monitor E). (run format most x ds).notices) (on_value_running m n s)
      ∙ run_quiet (record m { notices = record_notice m.notices n }) ds s h

  started-IsBounded : IsBounded started
  started-IsBounded = ground arith

  state_connected_iff : (n : ChannelNotices) → (state n ≡ connected) ↔ (n.saw_value ≡ true)
  unfolding state
  state_connected_iff n = ground arith

  state_unreachable_iff :
      (n : ChannelNotices) → (state n ≡ unreachable) ↔ ((n.saw_value ≡ false) × OnlyDown n)
  unfolding state
  state_unreachable_iff n = ground arith

  no_values : (vs : List V) → (vs ≡ []) ⊎ (0 < length vs)
  no_values [] = inl refl
  no_values (v ∷ vs) = inr (omega arith)

  filled_values : (vs : List V) → vs ≡ [] → 0 < length vs → ⊥
  filled_values [] e p = omega arith
  filled_values (v ∷ vs) e p = cc

  unreachable_iff :
      (ds : List (Delivery V))
      → (state (run format most started ds).notices ≡ unreachable) ↔ (
          (values ds ≡ [])
          × (0 < length (notices_of ds))
          × (all is_disconnected (notices_of ds) ≡ true))
  unreachable_iff ds =
      let n = (run format most started ds).notices in
      let s = state_unreachable_iff n in
      let v = run-saw_value started ds started-IsBounded in
      elim (no_values (values ds)) [
        | inl e ↦
            let q = run_quiet started ds refl e in
            let o = recorded-OnlyDown (started {E = E}).notices (notices_of ds) in
            let u = recorded-saw_value (started {E = E}).notices (notices_of ds) in
            iff_trans s (
              rw q (
                λ h. let (a, b) = h in let (d, f, g, k) = o.0 b in (e, ground arith, k),
                λ h. let (a, l, k) = h in (u, o.1 (inr l, refl, refl, k)),
              ))
        | inr p ↦ (
          λ h. let (f, d) = s.0 h in cc (f, v.1 (inr p)),
          λ h. let (e, l, d) = h in absurd (filled_values (values ds) e p),
        )
      ]

  -- What an outcome says of the deliveries.
  pub record IsHonest (ds : List (Delivery V)) (o : MonitorOutcome E) : Type 0 where
    pub events : o.events ≡ take most (events_of (values ds))
    pub truncated : (o.truncated ≡ true) ↔ (most < length (values ds))
    pub connected : (o.connection ≡ connected) ↔ (0 < length (values ds))
    pub unreachable : (o.connection ≡ unreachable) ↔ (
        (values ds ≡ [])
        × (0 < length (notices_of ds))
        × (all is_disconnected (notices_of ds) ≡ true))

  outcome-IsHonest :
      (ds : List (Delivery V)) → IsHonest ds (outcome_of format most (run format most started ds))
  unfolding outcome_of
  outcome-IsHonest ds =
      let c = run_collected started ds started-IsBounded in
      let v = run-saw_value started ds started-IsBounded in
      record {
        events = rw c (take-take most (events_of (values ds)));
        truncated = rw c (
            ground (
              arith,
              length-map (λ v. event_of (format v)) (values ds),
              lt-length-take most (events_of (values ds)),
            ));
        connected = ground (arith, state_connected_iff (run format most started ds).notices, v);
        unreachable = unreachable_iff ds;
      }

  -- The wait is cut short exactly if at least two values more than the bound are delivered.
  pub run_stops_iff :
      (ds : List (Delivery V))
      → ((run format most started ds).stopped ≡ true) ↔ (most + 2 ≤ length (values ds))
  run_stops_iff ds = ground (arith, run_stopped_iff started ds started-IsBounded)

module _ {V E : Type 0} (lower : Text → Text) (config : MonitorConfig)
    (format : Text → V → Formatting E) where
  -- A monitor whose subscription opens answers: with the first values that were delivered, as many as
  -- the smaller of the two bounds, and it says that they were cut exactly if there were more. It says
  -- that the PV is connected exactly if a value came, and that it is not exactly if no value came, and
  -- notices did, each of them of a disconnect.
  pub pv_monitor-IsHonest :
      (subscribe : Text → ℕ → Subscription V) (name : Text) (duration max_events : Option ℕ)
      (ds : List (Delivery V))
      → subscribe name (clamped duration config.max_monitor_duration) ≡ opened ds
      → (o : MonitorOutcome E) × (pv_monitor lower config format subscribe name duration max_events
          ≡ done o)
        × IsHonest (format name) (clamped max_events config.max_monitor_events) ds o
  unfolding pv_monitor
  pv_monitor-IsHonest subscribe name duration max_events ds h = (
    _,
    rw h refl,
    outcome-IsHonest (format name) (clamped max_events config.max_monitor_events) ds,
  )
