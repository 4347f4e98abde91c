-- ===== src/Bounds.antt =====
-- bounds.py: the value to be written against the record's own drive limits.
pub mod Verdict
use epics_mcp_server.Prelude.{String, Bool, false, not, ◌&&◌, Option, none, some, if◌then◌else◌}
use epics_mcp_server.Values.{Floats, Value, nothing, bool, int, float, str, other, Control, Reading}

-- The reasons that the notes give.
pub data BoundsNote : Type 0 where
  no_limits : BoundsNote
  not_numeric not_finite outside : String → BoundsNote

pub record BoundsVerdict (F : Type 0) : Type 0 where
  pub in_bounds : Option Bool
  pub limit_low : Option F
  pub limit_high : Option F
  pub note : Option BoundsNote

module _ (fl : Floats) where
  abbrev when_finite : fl.Float → Option fl.Float
  when_finite x = if fl.isfinite x then some x else none

  unfoldable pub finite_limit : Value fl.Float → Option fl.Float
  finite_limit (int n) = when_finite (fl.of_int n)
  finite_limit (float x) = when_finite x
  finite_limit _ = none

  abbrev unbounded : BoundsVerdict fl.Float
  unbounded = record {
    in_bounds = none;
    limit_low = none;
    limit_high = none;
    note = some no_limits;
  }

  abbrev bounded : Option Bool → fl.Float → fl.Float → Option BoundsNote → BoundsVerdict fl.Float
  bounded verdict low high note = record {
    in_bounds = verdict;
    limit_low = some low;
    limit_high = some high;
    note = note;
  }

  unfoldable pub check_in_range :
      String → fl.Float → fl.Float → Option fl.Float → BoundsVerdict fl.Float
  check_in_range written low high none = bounded none low high (some (not_numeric written))
  check_in_range written low high (some value) =
      if not (fl.isfinite value)
      then bounded (some false) low high (some (not_finite written))
      else let in_range = fl.le low value && fl.le value high in
        bounded (some in_range) low high (if in_range then none else some (outside written))

  unfoldable pub check_limits : String → Option fl.Float → Option fl.Float → BoundsVerdict fl.Float
  unfolding check_in_range
  check_limits written (some low) (some high) =
      if fl.le high low then unbounded else check_in_range written low high (fl.parse written)
  check_limits written none high = unbounded
  check_limits written (some low) none = unbounded

  unfoldable pub check_value_in_bounds : String → Reading fl.Float → BoundsVerdict fl.Float
  unfolding finite_limit check_limits
  check_value_in_bounds written r = elim r.control [
    | none ↦ unbounded
    | some c ↦ check_limits written (finite_limit c.limit_low) (finite_limit c.limit_high)
  ]
