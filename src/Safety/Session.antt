-- ===== src/Safety/Session.antt =====
-- Any sequence of requests to one gate.
use epics_mcp_server.Prelude.{
  ℕ, ◌+◌, ◌≤◌, String, ◌≡◌, refl, ◌∙◌, inl, inr, Bool, true, false, not, ◌&&◌, Option, List, [],
  ◌∷◌, arith, if◌then◌else◌, Bool-cases,
}
use epics_mcp_server.Errors.{Result, ok, err}
use epics_mcp_server.Window.History.{count_in, Ascends, Ascends-weaken}
use epics_mcp_server.Window.{window, acquire}
use epics_mcp_server.Window.Limit.{admissions, admissions-le-limit}
use epics_mcp_server.Safety.{Regex, SafetyLayer, matches, check_write_allowed}

abbrev pub granted : Result (Unit {0}) → Bool
granted (ok u) = true
granted (err e) = false

module _ {R : Regex} {F : Type 0} where
  -- The instants of the granted requests.
  pub grants : SafetyLayer R F → List (String × ℕ) → List ℕ
  grants s [] = []
  grants s ((pv, now) ∷ requests) =
      let rest = grants (check_write_allowed s pv now).1 requests in
      if granted (check_write_allowed s pv now).0 then now ∷ rest else rest

module _ (R : Regex) (allow : Bool) (pattern : Option R.Pattern) where
  -- The instants of the requests that pass the switch and the pattern.
  passing : List (String × ℕ) → List ℕ
  passing [] = []
  passing ((pv, now) ∷ requests) =
      let rest = passing requests in if allow && matches R pattern pv then now ∷ rest else rest

abbrev InOrder : ℕ → List (String × ℕ) → Type 0
InOrder before [] = Unit
InOrder before ((pv, now) ∷ requests) = (before ≤ now) × InOrder now requests

Ascends-passing :
    (R : Regex) (allow : Bool) (pattern : Option R.Pattern) (before : ℕ)
    (requests : List (String × ℕ))
    → InOrder before requests
    → Ascends before (passing R allow pattern requests)
unfolding passing
Ascends-passing R allow pattern before [] h = tt
Ascends-passing R allow pattern before ((pv, now) ∷ requests) (k, ks) =
    elim (Bool-cases (allow && matches R pattern pv)) [
      | inl e ↦ rw e (k, Ascends-passing R allow pattern now requests ks)
      | inr e ↦ rw e (
          Ascends-weaken before now (passing R allow pattern requests) k
            (Ascends-passing R allow pattern now requests ks))
    ]

if-not {ℓ} : {A : Type ℓ} (b : Bool) (x y : A) → (if not b then x else y) ≡ (if b then y else x)
if-not true x y = refl
if-not false x y = refl

module _ {R : Regex} {F : Type 0} where
  kept :
      (s : SafetyLayer R F) (pv : String) (now : ℕ)
      → ((check_write_allowed s pv now).1.config ≡ s.config)
        × ((check_write_allowed s pv now).1.pattern ≡ s.pattern)
        × ((check_write_allowed s pv now).1.limit ≡ s.limit)
  unfolding check_write_allowed
  kept s pv now = ground arith

  barred :
      (s : SafetyLayer R F) (pv : String) (now : ℕ)
      → (s.config.allow_pv_write && matches R s.pattern pv) ≡ false
      → (granted (check_write_allowed s pv now).0 ≡ false)
        × ((check_write_allowed s pv now).1.timestamps ≡ s.timestamps)
  unfolding check_write_allowed
  barred s pv now h = ground arith

  passed :
      (s : SafetyLayer R F) (pv : String) (now : ℕ)
      → (s.config.allow_pv_write && matches R s.pattern pv) ≡ true
      → (granted (check_write_allowed s pv now).0
          ≡ not (acquire s.limit now s.timestamps).over_limit)
        × ((check_write_allowed s pv now).1.timestamps
            ≡ (acquire s.limit now s.timestamps).timestamps)
  unfolding check_write_allowed
  passed s pv now h = ground arith

  grants_again :
      (s t : SafetyLayer R F) (requests : List (String × ℕ))
      → (t.config ≡ s.config) × (t.pattern ≡ s.pattern) × (t.limit ≡ s.limit)
      → grants t requests
        ≡ admissions t.limit t.timestamps (passing R t.config.allow_pv_write t.pattern requests)
      → grants t requests
        ≡ admissions s.limit t.timestamps (passing R s.config.allow_pv_write s.pattern requests)
  grants_again s t requests (c, p, l) h =
      h ∙ λ i. admissions (l i) t.timestamps (passing R (c i).allow_pv_write (p i) requests)

  grants-eq-admissions :
      (s : SafetyLayer R F) (requests : List (String × ℕ))
      → grants s requests
        ≡ admissions s.limit s.timestamps (passing R s.config.allow_pv_write s.pattern requests)
  unfolding grants passing admissions
  grants-eq-admissions s [] = refl
  grants-eq-admissions s ((pv, now) ∷ requests) =
      let t = (check_write_allowed s pv now).1 in
      let ih = grants_again s t requests (kept s pv now) (grants-eq-admissions t requests) in
      elim (Bool-cases (s.config.allow_pv_write && matches R s.pattern pv)) [
        | inl e ↦
            rw (e, (passed s pv now e).0, ih, (passed s pv now e).1)
              (if-not (acquire s.limit now s.timestamps).over_limit _ _)
        | inr e ↦ rw (e, (barred s pv now e).0, ih, (barred s pv now e).1) refl
      ]

  -- From a gate with no tokens, on a clock that does not run back: whatever names are asked for and
  -- in whatever order, no span of 60 seconds sees more granted writes than the limit.
  pub grants-le-limit :
      (s : SafetyLayer R F) (requests : List (String × ℕ))
      → s.timestamps ≡ []
      → InOrder 0 requests
      → (a : ℕ) → count_in a (a + window) (grants s requests) ≤ s.limit
  grants-le-limit s requests h k a =
      rw (grants-eq-admissions s requests, h)
        (admissions-le-limit s.limit (passing R s.config.allow_pv_write s.pattern requests)
          (Ascends-passing R s.config.allow_pv_write s.pattern 0 requests k) a)
