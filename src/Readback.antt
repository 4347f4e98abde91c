-- ===== src/Readback.antt =====
-- readback.py: the value read back after a write against the value written.
pub mod Verdict
use epics_mcp_server.Prelude.{
  ℕ, zero, suc, String, Bool, false, Option, none, some, List, [], ◌∷◌, ◌==◌, str_eq, if◌then◌else◌,
}
use epics_mcp_server.Prelude.Int.{ℤ, pos, negsuc}
use epics_mcp_server.Values.{Floats, Value, nothing, bool, int, float, str, other, Control, Reading}

-- The facts that the notes state.
pub data ReadbackNote : Type 0 where
  no_reading : Option String → ReadbackNote
  label_matches : (written : String) (index : ℕ) → ReadbackNote
  label_differs :
      (actual : Option String) (index : ℤ) (written : String) (expected : ℕ) → ReadbackNote
  written_not_numeric differs_numerically differs : String → ReadbackNote

pub record Verification (F : Type 0) : Type 0 where
  pub verified : Option Bool
  pub readback : Value F
  pub tolerance : Option F
  pub note : Option ReadbackNote

-- `labels.index(written)`, `none` where `written not in labels`
unfoldable pub label_index : String → List String → Option ℕ
label_index written [] = none
label_index written (l ∷ labels) =
    let later = label_index written labels in
    if str_eq l written then some 0 else elim later [ none ↦ none | some k ↦ some (suc k) ]

abbrev pub label_at : List String → ℕ → Option String
label_at [] k = none
label_at (l ∷ labels) zero = some l
label_at (l ∷ labels) (suc k) = label_at labels k

-- `labels[index] if 0 <= index < len(labels) else None`
unfoldable pub actual_label : List String → ℤ → Option String
actual_label labels (pos n) = label_at labels n
actual_label labels (negsuc n) = none

abbrev pub int_is : ℤ → ℕ → Bool
int_is (pos n) k = n == k
int_is (negsuc n) k = false

module _ {F : Type 0} where
  abbrev with_label : Value F → Option (List String) → Option (List String)
  with_label (str l) (some ls) = some (l ∷ ls)
  with_label (str l) none = none
  with_label _ ls = none

  -- The choices, if every one is a text.
  all_strings : List (Value F) → Option (List String)
  all_strings [] = some []
  all_strings (v ∷ vs) = with_label v (all_strings vs)

  unfoldable pub enum_labels : Reading F → Option (List String)
  unfolding all_strings
  enum_labels r = elim r.choices [ none ↦ none | some vs ↦ all_strings vs ]

  abbrev label_verdict : String → ℤ → List String → ℕ → Verification F
  label_verdict written index labels expected =
      let matched = int_is index expected in
      record {
        verified = some matched;
        readback = int index;
        tolerance = none;
        note = some (
            if matched
            then label_matches written expected
            else label_differs (actual_label labels index) index written expected);
      }

  unfoldable pub verify_enum_label : String → ℤ → List String → Option (Verification F)
  unfolding label_index
  verify_enum_label written index labels = elim (label_index written labels) [
    | none ↦ none
    | some expected ↦ some (label_verdict written index labels expected)
  ]

module _ (fl : Floats) where
  abbrev step_of : Value fl.Float → Option fl.Float
  step_of (int n) = some (fl.of_int n)
  step_of (float x) = some x
  step_of _ = none

  unfoldable pub control_min_step : Reading fl.Float → Option fl.Float
  control_min_step r = elim r.control [ none ↦ none | some c ↦ step_of c.min_step ]

  -- The absolute and the relative tolerance.
  unfoldable pub tolerances : fl.Float → Option fl.Float → fl.Float × fl.Float
  tolerances tolerance none = (tolerance, tolerance)
  tolerances tolerance (some step) =
      if fl.lt fl.zero_float step then (step, fl.zero_float) else (tolerance, tolerance)

  abbrev numeric_verdict :
      String → Value fl.Float → fl.Float → fl.Float × fl.Float → fl.Float → Verification fl.Float
  numeric_verdict written value number (abs_tol, rel_tol) written_num =
      let matched = fl.isclose number written_num rel_tol abs_tol in
      record {
        verified = some matched;
        readback = value;
        tolerance = some abs_tol;
        note = if matched then none else some (differs_numerically written);
      }

  unfoldable pub verify_numeric :
      String → Reading fl.Float → fl.Float → fl.Float → Verification fl.Float
  unfolding control_min_step tolerances
  verify_numeric written r number tolerance = elim (fl.parse written) [
    | none ↦ record {
      verified = none;
      readback = r.value;
      tolerance = none;
      note = some (written_not_numeric written);
    }
    | some written_num ↦
        numeric_verdict written r.value number (tolerances tolerance (control_min_step r))
          written_num
  ]

  unfoldable pub verify_text : String → Value fl.Float → String → Verification fl.Float
  verify_text written value text =
      let matched = str_eq text written in
      record {
        verified = some matched;
        readback = value;
        tolerance = none;
        note = if matched then none else some (differs written);
      }

  unfoldable pub verify_index :
      String → Reading fl.Float → ℤ → fl.Float → Option (List String) → Verification fl.Float
  unfolding verify_enum_label verify_numeric
  verify_index written r n tolerance none = verify_numeric written r (fl.of_int n) tolerance
  verify_index written r n tolerance (some labels) = elim (verify_enum_label written n labels) [
    | some verdict ↦ verdict
    | none ↦ verify_numeric written r (fl.of_int n) tolerance
  ]

  abbrev verify_value :
      String → Reading fl.Float → fl.Float → Value fl.Float → Verification fl.Float
  unfolding verify_index verify_numeric verify_text enum_labels
  verify_value written r tolerance nothing = record {
    verified = none;
    readback = nothing;
    tolerance = none;
    note = some (no_reading r.note);
  }
  verify_value written r tolerance (int n) = verify_index written r n tolerance (enum_labels r)
  verify_value written r tolerance (float x) = verify_numeric written r x tolerance
  verify_value written r tolerance (bool b) =
      verify_numeric written r (if b then fl.one_float else fl.zero_float) tolerance
  verify_value written r tolerance (str s) = verify_text written (str s) s
  verify_value written r tolerance (other n) = verify_text written (other n) (fl.text_of n)

  unfoldable pub verify_readback : String → Reading fl.Float → fl.Float → Verification fl.Float
  unfolding verify_value
  verify_readback written r tolerance = verify_value written r tolerance r.value
