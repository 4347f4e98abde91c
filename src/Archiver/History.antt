-- ===== src/Archiver/History.antt =====
-- What a history says of the payload that it is made of.
use epics_mcp_server.Prelude.{
  ℕ, ◌<◌, ◌≡◌, refl, sym, ap, ◌≢◌, ◌↔◌, Bool, false, Option, none, some, List, [], ◌∷◌, arith, ltb,
  length, iff_trans,
}
use mathlib.Core.Path.{subst}
use epics_mcp_server.Prelude.Int.{ℤ}
use epics_mcp_server.Prelude.Texts.{Text, codes}
use epics_mcp_server.Attach.{take}
use epics_mcp_server.Json.{Json, Fields, get}
use epics_mcp_server.TimeWindow.{TimeLib, normalize_archiver_time}
use epics_mcp_server.Transport.{Outcome, returned}
use epics_mcp_server.Transport.Steps.{returned_iff, bind_iff}
use epics_mcp_server.Archiver.{Request, history, at_least_one, no_fields}
use epics_mcp_server.Archiver.Payload.{HasData, data_of, data_iff, some_inj}
use epics_mcp_server.Archiver.Samples.{
  Converted, Sample, Reading, readable, unreadable, overflowed, Reason, unexpected_payload,
  unexpected_sample_shape, some_samples, no_samples, withheld, HistoryResult, answered, meta_of,
  block_of, points_of, Collected, collected, one_unreadable, one_overflowed, add_sample,
  readable_sample, collect_samples, by_collected, by_points, by_block, history_of, or_invalid,
  get_pv_history,
}

answered_inj : {g h : HistoryResult} → answered g ≡ answered h → g ≡ h
answered_inj h = cc

add_cons_iff :
    (r : Reading) (rest : Collected) (s : Sample) (ss : List Sample)
    → (add_sample r rest ≡ collected (s ∷ ss)) ↔ ((r ≡ readable s) × (rest ≡ collected ss))
add_cons_iff (readable t) (collected ts) s ss = ground arith
add_cons_iff (readable t) one_unreadable s ss = ground arith
add_cons_iff (readable t) one_overflowed s ss = ground arith
add_cons_iff unreadable rest s ss = ground arith
add_cons_iff overflowed rest s ss = ground arith

add_ne_nothing : (r : Reading) (rest : Collected) → add_sample r rest ≢ collected []
add_ne_nothing (readable t) (collected ts) = λ h. cc
add_ne_nothing (readable t) one_unreadable = λ h. cc
add_ne_nothing (readable t) one_overflowed = λ h. cc
add_ne_nothing unreadable rest = λ h. cc
add_ne_nothing overflowed rest = λ h. cc

valid_time : (o : Option Text) (s : Text) → or_invalid o ≡ returned s → o ≡ some s
valid_time none s h = cc
valid_time (some t) s h = ap some (returned_iff.0 h)

module _ (int_of : Json → Converted) where
  -- The points read as these samples, one by one.
  abbrev pub Reads : List Json → List Sample → Type 0
  Reads [] [] = Unit {0}
  Reads (p ∷ ps) (s ∷ ss) = (readable_sample int_of p ≡ readable s) × Reads ps ss
  Reads [] (s ∷ ss) = ⊥
  Reads (p ∷ ps) [] = ⊥

  collected_iff :
      (points : List Json) (ss : List Sample)
      → (collect_samples int_of points ≡ collected ss) ↔ Reads points ss
  unfolding collect_samples
  collected_iff [] [] = (λ h. tt, λ h. refl)
  collected_iff [] (s ∷ ss) = (λ h. cc, λ h. absurd h)
  collected_iff (p ∷ ps) [] = (
    λ h. absurd (add_ne_nothing (readable_sample int_of p) (collect_samples int_of ps) h),
    λ h. absurd h,
  )
  collected_iff (p ∷ ps) (s ∷ ss) =
      let a = add_cons_iff (readable_sample int_of p) (collect_samples int_of ps) s ss in
      let c = collected_iff ps ss in
      (λ h. let (r, t) = a.0 h in (r, c.0 t), λ h. let (r, t) = h in a.1 (r, c.1 t))

  -- A history against the points of its payload, if there are any.
  record IsOf (most : ℕ) (o : Option (List Json)) (h : HistoryResult) : Type 0 where
    empty : (h.status ≡ no_samples) ↔ (o ≡ some [])
    full : (h.status ≡ some_samples) ↔ (
        (points : List Json) × (o ≡ some points)
        × (0 < length points)
        × Reads (take most points) h.samples
        × (h.capped ≡ ltb most (length points)))
    otherwise : h.status ≢ some_samples → h.samples ≡ []

  withheld-IsOf :
      (most : ℕ) (o : Option (List Json)) (reason : Reason) (meta : Fields) (capped : Bool)
      → (o ≢ some [])
      → ((points : List Json) (ss : List Sample)
          → o ≡ some points
          → Reads (take most points) ss
          → ⊥)
      → IsOf most o
          (record { samples = []; capped = capped; meta = meta; status = withheld reason })
  withheld-IsOf most o reason meta capped e r = record {
    empty = (λ h. cc, λ h. absurd (e h));
    full = (λ h. cc, λ h. let (points, f, l, s, c) = h in absurd (r points [] f s));
    otherwise = λ h. refl;
  }

  collected-IsOf :
      (most : ℕ) (points : List Json) (meta : Fields) (c : Collected) (h : HistoryResult)
      → 0 < length points
      → collect_samples int_of (take most points) ≡ c
      → by_collected int_of meta (ltb most (length points)) c ≡ answered h
      → IsOf most (some points) h
  collected-IsOf most points meta (collected ss) h l e k =
      subst (IsOf most (some points)) (answered_inj k) (record {
        empty = (λ s. cc, λ s. absurd (filled (some_inj s)));
        full = (λ s. (points, refl, l, (collected_iff (take most points) ss).0 e, refl), λ s. refl);
        otherwise = λ n. absurd (n refl);
      })
    where
      filled : points ≡ [] → ⊥
      filled s = ground (arith, ap length s)
  collected-IsOf most points meta one_unreadable h l e k =
      subst (IsOf most (some points)) (answered_inj k) (
        withheld-IsOf most (some points) unexpected_sample_shape meta (ltb most (length points))
          (λ s. ground (arith, ap length (some_inj s)))
          (λ qs ss f r. cc (
            e,
            (collected_iff (take most points) ss).1
                (subst (λ x. Reads (take most x) ss) (sym (some_inj f)) r),
          )))
  collected-IsOf most points meta one_overflowed h l e k = cc

  points-IsOf :
      (most : ℕ) (meta : Fields) (o : Option (List Json)) (h : HistoryResult)
      → by_points int_of most meta o ≡ answered h
      → IsOf most o h
  points-IsOf most meta none h k =
      subst (IsOf most none) (answered_inj k)
        (withheld-IsOf most none unexpected_payload meta false (λ e. cc) (λ qs ss f r. cc))
  points-IsOf most meta (some []) h k = subst (IsOf most (some [])) (answered_inj k) (record {
    empty = (λ e. refl, λ e. refl);
    full = (λ e. cc, λ e. let (points, f, l, s, c) = e in ground (arith, ap length (some_inj f)));
    otherwise = λ e. refl;
  })
  points-IsOf most meta (some (p ∷ ps)) h k =
      collected-IsOf most (p ∷ ps) meta (collect_samples int_of (take most (p ∷ ps))) h
        (omega arith) refl k

  block-IsOf :
      (most : ℕ) (o : Option Fields) (h : HistoryResult)
      → by_block int_of most o ≡ answered h
      → IsOf most (data_of o) h
  block-IsOf most none h k =
      subst (IsOf most none) (answered_inj k)
        (withheld-IsOf most none unexpected_payload no_fields false (λ e. cc) (λ qs ss f r. cc))
  block-IsOf most (some block) h k =
      points-IsOf most (meta_of (get (codes "meta") block)) (points_of (get (codes "data") block)) h
        k

  -- What a history says of its payload.
  pub record IsHonest (most : ℕ) (j : Json) (h : HistoryResult) : Type 0 where
    pub empty : (h.status ≡ no_samples) ↔ HasData j []
    pub full : (h.status ≡ some_samples) ↔ (
        (points : List Json) × HasData j points
        × (0 < length points)
        × Reads (take most points) h.samples
        × (h.capped ≡ ltb most (length points)))
    pub otherwise : h.status ≢ some_samples → h.samples ≡ []

  history_of-IsHonest :
      (most : ℕ) (j : Json) (h : HistoryResult)
      → history_of int_of most j ≡ answered h
      → IsHonest most j h
  unfolding history_of
  history_of-IsHonest most j h k =
      let p = block-IsOf most (block_of j) h k in
      record {
        empty = iff_trans p.empty (data_iff j []);
        full = (
          λ s. let (points, d, l, r, c) = p.full.0 s in (points, (data_iff j points).0 d, l, r, c),
          λ s. let (points, d, l, r, c) = s in p.full.1 (points, (data_iff j points).1 d, l, r, c),
        );
        otherwise = p.otherwise;
      }

  -- A history that is answered was asked for with both times as the appliance reads them, and says what
  -- its payload holds: "empty" exactly if the payload's block has an empty list of data, and "ok" exactly
  -- if that list has points and the first of them, as many as the cap, are all readable, which are the
  -- samples; "capped" then says whether there are more. Without "ok" there are no samples.
  pub get_pv_history-IsHonest :
      (lib : TimeLib) (fetch : Request → Outcome Json) (pv start end : Text) (max_points : ℤ)
      (h : HistoryResult)
      → get_pv_history int_of lib fetch pv start end max_points ≡ returned (answered h)
      → (from_time to_time : Text) × (payload : Json) × (normalize_archiver_time lib start
          ≡ some from_time)
        × (normalize_archiver_time lib end ≡ some to_time)
        × (fetch (history pv from_time to_time) ≡ returned payload)
        × IsHonest (at_least_one max_points) payload h
  unfolding get_pv_history
  get_pv_history-IsHonest lib fetch pv start end max_points h k =
      let (s, e1, k1) =
        (bind_iff (or_invalid (normalize_archiver_time lib start)) _ (answered h)).0 k in
      let (t, e2, k2) =
        (bind_iff (or_invalid (normalize_archiver_time lib end)) _ (answered h)).0 k1 in
      let (j, e3, k3) = (bind_iff (fetch (history pv s t)) _ (answered h)).0 k2 in
      (
        s,
        t,
        j,
        valid_time (normalize_archiver_time lib start) s e1,
        valid_time (normalize_archiver_time lib end) t e2,
        e3,
        history_of-IsHonest (at_least_one max_points) j h (returned_iff.0 k3),
      )
