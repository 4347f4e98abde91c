-- ===== src/TimeWindow/Order.antt =====
-- The order of the times that are sent, against the order of the times.
use Prim.Native.Nat.{◌/◌}
use epics_mcp_server.Prelude.{
  ℕ, ◌<◌, ◌≡◌, refl, ◌↔◌, Bool, true, false, none, some, [], ◌∷◌, arith, if◌then◌else◌, iff_trans,
}
use epics_mcp_server.Prelude.Texts.{Text, is_empty}
use epics_mcp_server.Prelude.Sorted.{text_lt}
use epics_mcp_server.TimeWindow.Digits.{
  IsFitting, text_lt-digits, field_first, two_first, OrLater, then_later,
}
use epics_mcp_server.TimeWindow.{
  Moment, TimeLib, absolute, classify_time_value, digits, wall_clock, format_wire,
  normalize_olog_time, Window, add_window,
}

-- The ranges of the fields of a `datetime`.
pub record IsDate (m : Moment) : Type 0 where
  pub year : m.year < 10_000
  pub month : m.month < 13
  pub day : m.day < 32
  pub hour : m.hour < 24
  pub minute : m.minute < 60
  pub second : m.second < 60
  pub microsecond : m.microsecond < 1_000_000

-- One time is before the other, to the millisecond.
abbrev pub IsBefore : Moment → Moment → Type 0
IsBefore a b = OrLater a.year b.year (
    OrLater a.month b.month (
      OrLater a.day b.day (
        OrLater a.hour b.hour (
          OrLater a.minute b.minute
            (OrLater a.second b.second (a.microsecond / 1000 < b.microsecond / 1000))))))

fits_three : (n : ℕ) → n < 1_000_000 → IsFitting 3 (n / 1000)
fits_three n h = omega arith

fits_four : (n : ℕ) → n < 10_000 → IsFitting 4 n
fits_four n h = omega arith

-- The wall clock of times is ordered as the times are, to the millisecond.
pub wall_clock_iff :
    (separator : ℕ) (a b : Moment)
    → IsDate a
    → IsDate b
    → (text_lt (wall_clock separator a) (wall_clock separator b) ≡ true) ↔ IsBefore a b
unfolding wall_clock digits
wall_clock_iff separator a b p q =
    let l7 =
      text_lt-digits 3 (a.microsecond / 1000) (b.microsecond / 1000)
        (fits_three a.microsecond p.microsecond) (fits_three b.microsecond q.microsecond) in
    let l6 =
      two_first b'.' a.second b.second _ _ _ (omega (arith, p.second)) (omega (arith, q.second))
        l7 in
    let l5 =
      two_first b':' a.minute b.minute _ _ _ (omega (arith, p.minute)) (omega (arith, q.minute))
        l6 in
    let l4 =
      two_first b':' a.hour b.hour _ _ _ (omega (arith, p.hour)) (omega (arith, q.hour)) l5 in
    let l3 =
      two_first separator a.day b.day _ _ _ (omega (arith, p.day)) (omega (arith, q.day)) l4 in
    let l2 =
      two_first b'-' a.month b.month _ _ _ (omega (arith, p.month)) (omega (arith, q.month)) l3 in
    iff_trans
      (field_first 4 b'-' a.year b.year _ _ (fits_four a.year p.year) (fits_four b.year q.year))
      (then_later a.year b.year _ _ l2)

module _ (lib : TimeLib) where
  absolute_filled :
      (value : Text) (m : Moment)
      → classify_time_value lib value ≡ absolute m
      → is_empty value ≡ false
  unfolding classify_time_value
  absolute_filled [] m h = cc
  absolute_filled (c ∷ s) m h = refl

  olog_absolute :
      (value : Text) (m : Moment)
      → classify_time_value lib value ≡ absolute m
      → normalize_olog_time lib value ≡ some (record { wire = format_wire m; is_absolute = true })
  unfolding normalize_olog_time
  olog_absolute value m h = rw h refl

  wire_iff :
      (a b : Moment)
      → IsDate a
      → IsDate b
      → (text_lt (format_wire a) (format_wire b) ≡ true) ↔ IsBefore a b
  unfolding format_wire
  wire_iff a b p q = wall_clock_iff 32 a b p q

  refused_if :
      (swapped : Bool) (w : Window) → ((if swapped then none else some w) ≡ none) ↔ (swapped ≡ true)
  refused_if true w = (λ h. refl, λ h. refl)
  refused_if false w = (λ h. cc, λ h. cc)

  -- A window of two absolute bounds, whose fields are in the ranges of a `datetime`, is refused
  -- exactly if the end is before the start, to the millisecond, though the code compares the texts
  -- that it sends.
  pub add_window_refused_iff :
      (start end : Text) (a b : Moment)
      → classify_time_value lib start ≡ absolute a
      → classify_time_value lib end ≡ absolute b
      → IsDate a
      → IsDate b
      → (add_window lib (some start) (some end) ≡ none) ↔ IsBefore b a
  unfolding add_window
  add_window_refused_iff start end a b h k p q =
      rw
        (
          absolute_filled start a h,
          absolute_filled end b k,
          olog_absolute start a h,
          olog_absolute end b k,
        )
        (iff_trans (refused_if (text_lt (format_wire b) (format_wire a)) _) (wire_iff b a q p))
