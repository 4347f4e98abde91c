-- ===== src/Bounds/Verdict.antt =====
-- When a value is refused, and when a refusal is impossible.
use epics_mcp_server.Prelude.{
  String, ◌≡◌, refl, ◌↔◌, inl, inr, Bool, false, ◌&&◌, Option, none, some, arith, Bool-cases,
}
use epics_mcp_server.Values.{Floats, Control, Reading}
use epics_mcp_server.Bounds.{finite_limit, check_in_range, check_limits, check_value_in_bounds}

module _ (fl : Floats) where
  -- The record declares a usable range.
  pub record Limits (r : Reading fl.Float) (low high : fl.Float) : Type 0 where
    pub control : Control fl.Float
    pub declared : r.control ≡ some control
    pub is_low : finite_limit fl control.limit_low ≡ some low
    pub is_high : finite_limit fl control.limit_high ≡ some high
    pub wide : fl.le high low ≡ false

  -- A number that lies in the range.
  abbrev pub inside : fl.Float → fl.Float → fl.Float → Bool
  inside low high v = fl.isfinite v && (fl.le low v && fl.le v high)

  in_range_refused :
      (written : String) (low high : fl.Float) (o : Option fl.Float)
      → (check_in_range fl written low high o).in_bounds ≡ some false
      → (v : fl.Float) × (o ≡ some v) × (inside low high v ≡ false)
  unfolding check_in_range
  in_range_refused written low high none h = cc
  in_range_refused written low high (some v) h = (v, refl, ground arith)

  abbrev Refusal : String → Option fl.Float → Option fl.Float → Type 0
  Refusal written lo hi =
      (low : fl.Float) × (high : fl.Float) × (v : fl.Float) × (lo ≡ some low)
      × (hi ≡ some high)
      × (fl.le high low ≡ false)
      × (fl.parse written ≡ some v)
      × (inside low high v ≡ false)

  limits_refused :
      (written : String) (lo hi : Option fl.Float)
      → (check_limits fl written lo hi).in_bounds ≡ some false
      → Refusal written lo hi
  unfolding check_limits
  limits_refused written none hi h = cc
  limits_refused written (some low) none h = cc
  limits_refused written (some low) (some high) h = elim (Bool-cases (fl.le high low)) [
    | inl e ↦ absurd (cc (rw e at h))
    | inr e ↦
        let (v, p, k) = in_range_refused written low high (fl.parse written) (rw e at h) in
        (low, high, v, refl, refl, e, p, k)
  ]

  -- What justifies a refusal: a usable range and a number that does not lie in it.
  pub record IsOutside (written : String) (r : Reading fl.Float) : Type 0 where
    pub low : fl.Float
    pub high : fl.Float
    pub value : fl.Float
    pub limits : Limits r low high
    pub number : fl.parse written ≡ some value
    pub off : inside low high value ≡ false

  refused_of_control :
      (written : String) (r : Reading fl.Float) (o : Option (Control fl.Float))
      → r.control ≡ o
      → (check_value_in_bounds fl written r).in_bounds ≡ some false
      → IsOutside written r
  unfolding check_value_in_bounds
  refused_of_control written r none e h = absurd (cc (rw e at h))
  refused_of_control written r (some c) e h =
      let (low, high, v, is_low, is_high, wide, number, off) =
        limits_refused written (finite_limit fl c.limit_low) (finite_limit fl c.limit_high)
          (rw e at h) in
      record {
        low = low;
        high = high;
        value = v;
        limits = record {
          control = c;
          declared = e;
          is_low = is_low;
          is_high = is_high;
          wide = wide;
        };
        number = number;
        off = off;
      }

  of_control :
      (written : String) (r : Reading fl.Float) (c : Control fl.Float)
      → r.control ≡ some c
      → check_value_in_bounds fl written r
        ≡ check_limits fl written (finite_limit fl c.limit_low) (finite_limit fl c.limit_high)
  unfolding check_value_in_bounds
  of_control written r c e = rw (e, check_value_in_bounds) refl

  of_limits :
      (written : String) (low high : fl.Float)
      → fl.le high low ≡ false
      → check_limits fl written (some low) (some high)
        ≡ check_in_range fl written low high (fl.parse written)
  unfolding check_limits
  of_limits written low high e = rw e refl

  of_range :
      (written : String) (low high v : fl.Float)
      → inside low high v ≡ false
      → (check_in_range fl written low high (some v)).in_bounds ≡ some false
  unfolding check_in_range
  of_range written low high v h = ground arith

  outside_refused :
      (written : String) (r : Reading fl.Float)
      → IsOutside written r
      → (check_value_in_bounds fl written r).in_bounds ≡ some false
  outside_refused written r h =
      let l = h.limits in
      rw
        (
          of_control written r l.control l.declared,
          l.is_low,
          l.is_high,
          of_limits written h.low h.high l.wide,
          h.number,
        )
        (of_range written h.low h.high h.value h.off)

  -- A value is refused exactly if the record declares a usable range and the text is a number that
  -- does not lie in it: neither a record without limits nor a text that is no number is refused.
  pub check_value_in_bounds_refuses_iff :
      (written : String) (r : Reading fl.Float)
      → ((check_value_in_bounds fl written r).in_bounds ≡ some false) ↔ IsOutside written r
  check_value_in_bounds_refuses_iff written r =
      (refused_of_control written r r.control refl, outside_refused written r)
