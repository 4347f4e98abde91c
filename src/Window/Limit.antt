-- ===== src/Window/Limit.antt =====
-- What the limiter promises: it decides by the admissions of the last 60 seconds, and no 60 seconds
-- see more admissions than the limit.
use epics_mcp_server.Prelude.{
  ℕ, ◌+◌, ◌-◌, ◌≤◌, ◌<◌, ◌≡◌, refl, ap, inl, inr, Bool, true, false, List, [], ◌∷◌, arith, leb,
  if◌then◌else◌, Bool-cases, length,
}
use epics_mcp_server.Window.{window, purge_old, push, acquire, verdicts}
use epics_mcp_server.Window.History.{
  count_in, count_from, NotAfter-weaken, Ascends, Tracks, Tracks-purge_old, Tracks-push,
  length-purge_old-eq-count_in, count_in-eq-count_from, count_from-le-length,
}

-- The specification: a limiter that remembers every admission (the newest first) and counts those
-- of the last 60 seconds.
pub history_verdicts : ℕ → List ℕ → List ℕ → List Bool
history_verdicts limit h [] = []
history_verdicts limit h (now ∷ calls) =
    let over = leb limit (count_in (now - window) now h) in
    over ∷ history_verdicts limit (if over then h else now ∷ h) calls

-- The instants of the calls that the limiter admits.
unfoldable pub admissions : ℕ → List ℕ → List ℕ → List ℕ
unfolding acquire
admissions limit ts [] = []
admissions limit ts (now ∷ calls) =
    let a = acquire limit now ts in
    let rest = admissions limit a.timestamps calls in if a.over_limit then rest else now ∷ rest

Tracks-start : (limit : ℕ) → Tracks limit 0 [] []
unfolding count_from
Tracks-start limit = record {
  past = tt;
  past_ts = tt;
  recent = λ a h. refl;
  ordered = tt;
  within = omega arith;
}

verdicts-eq-history :
    (limit before : ℕ) (ts h calls : List ℕ)
    → Ascends before calls
    → Tracks limit before ts h
    → verdicts limit ts calls ≡ history_verdicts limit h calls
unfolding verdicts acquire history_verdicts
verdicts-eq-history limit before ts h [] _ r = refl
verdicts-eq-history limit before ts h (now ∷ calls) (le, ks) r =
    let kept = Tracks-purge_old limit before now ts h le r in
    rw (← length-purge_old-eq-count_in limit before now ts h le r)
      (elim (Bool-cases (leb limit (length (purge_old now ts)))) [
        | inl over ↦ rw over (
            ap (λ (l : List Bool). true ∷ l)
              (verdicts-eq-history limit now (purge_old now ts) h calls ks kept))
        | inr room ↦ rw room (
            ap (λ (l : List Bool). false ∷ l)
              (verdicts-eq-history limit now (push limit (purge_old now ts) now) (now ∷ h) calls ks
                (Tracks-push limit now (purge_old now ts) h (ground arith) kept)))
      ])

-- On a clock that does not run back, the deque of at most `limit` recent tokens gives, call by
-- call, the verdicts of the limiter that remembers every admission: a call is refused exactly if
-- `limit` calls were admitted in the 60 seconds up to it.
pub verdicts_refine_history :
    (limit : ℕ) (calls : List ℕ)
    → Ascends 0 calls
    → verdicts limit [] calls ≡ history_verdicts limit [] calls
verdicts_refine_history limit calls k =
    verdicts-eq-history limit 0 [] [] calls k (Tracks-start limit)

-- One admission keeps every 60 seconds within the limit.
bounded-push :
    (limit now a : ℕ) (ts h : List ℕ)
    → Tracks limit now ts h
    → length ts < limit
    → count_in a (a + window) h ≤ limit
    → count_in a (a + window) (now ∷ h) ≤ limit
unfolding count_in
bounded-push limit now a ts h r room k = elim (Bool-cases (leb now (a + window))) [
  | inl near ↦
      let soon : now ≤ a + window = ground arith in
      ground (
        arith,
        count_in-eq-count_from a (a + window) h (NotAfter-weaken now (a + window) h soon r.past),
        r.recent a soon,
        count_from-le-length a ts,
      )
  | inr far ↦ ground arith
]

-- The admissions that are still to come, after a history that the limit allows.
admissions_bounded :
    (limit before a : ℕ) (ts h calls : List ℕ)
    → Ascends before calls
    → Tracks limit before ts h
    → count_in a (a + window) h ≤ limit
    → count_in a (a + window) (admissions limit ts calls) + count_in a (a + window) h ≤ limit
unfolding admissions acquire count_in
admissions_bounded limit before a ts h [] _ r k = omega (arith, k)
admissions_bounded limit before a ts h (now ∷ calls) (le, ks) r k =
    let kept = Tracks-purge_old limit before now ts h le r in
    elim (Bool-cases (leb limit (length (purge_old now ts)))) [
      | inl over ↦ rw over (admissions_bounded limit now a (purge_old now ts) h calls ks kept k)
      | inr room ↦
          let free : length (purge_old now ts) < limit = ground arith in
          rw room (
            ground (
              arith,
              admissions_bounded limit now a (push limit (purge_old now ts) now) (now ∷ h) calls ks
                  (Tracks-push limit now (purge_old now ts) h free kept)
                  (bounded-push limit now a (purge_old now ts) h kept free k),
            ))
    ]

-- On a clock that does not run back, no span of 60 seconds, wherever it starts, sees more than
-- `limit` admissions.
pub admissions-le-limit :
    (limit : ℕ) (calls : List ℕ)
    → Ascends 0 calls
    → (a : ℕ) → count_in a (a + window) (admissions limit [] calls) ≤ limit
unfolding count_in
admissions-le-limit limit calls k a =
    omega (arith, admissions_bounded limit 0 a [] [] calls k (Tracks-start limit) (omega arith))
