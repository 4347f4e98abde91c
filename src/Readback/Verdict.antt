-- ===== src/Readback/Verdict.antt =====
-- When a write cannot be verified, and how a written label is judged.

use epics_mcp_server.Prelude.{
  ℕ, String, ◌≡◌, refl, sym, ap, ◌∙◌, ◌≢◌, ◌↔◌, inl, inr, Option, none, some, List, [], ◌∷◌, ◌++◌,
  map, arith, eq_iff, if◌then◌else◌, Option-cases, length, All,
}
use epics_mcp_server.Prelude.Int.{ℤ}
use epics_mcp_server.Values.{Floats, Value, nothing, bool, int, float, str, other, Reading}
use epics_mcp_server.Readback.{
  label_index, int_is, with_label, all_strings, enum_labels, verify_enum_label, verify_numeric,
  verify_index, verify_value, verify_readback,
}

module _ (fl : Floats) (written : String) (r : Reading fl.Float) (tolerance : fl.Float) where
  -- The written text is none of the record's labels, or the record has none.
  abbrev pub Unlabelled : Type 0
  Unlabelled =
      (labels : List String) → enum_labels r ≡ some labels → label_index written labels ≡ none

  -- A value to which the written text cannot be compared.
  abbrev pub Incomparable : Value fl.Float → Type 0
  Incomparable nothing = Unit
  Incomparable (bool b) = fl.parse written ≡ none
  Incomparable (float x) = fl.parse written ≡ none
  Incomparable (int n) = (fl.parse written ≡ none) × Unlabelled
  Incomparable (str s) = ⊥
  Incomparable (other n) = ⊥

  numeric_unverified :
      (x : fl.Float)
      → (verify_numeric fl written r x tolerance).verified ≡ none
      → fl.parse written ≡ none
  unfolding verify_numeric
  numeric_unverified x h = ground arith

  unverified_numeric :
      (x : fl.Float)
      → fl.parse written ≡ none
      → (verify_numeric fl written r x tolerance).verified ≡ none
  unfolding verify_numeric
  unverified_numeric x h = ground arith

  index_unlabelled :
      (n : ℤ) (ls : List String)
      → label_index written ls ≡ none
      → verify_index fl written r n tolerance (some ls)
        ≡ verify_numeric fl written r (fl.of_int n) tolerance
  unfolding verify_index
  index_unlabelled n ls e = rw (e, verify_index, verify_enum_label) refl

  index_labelled :
      (n : ℤ) (ls : List String) (k : ℕ)
      → label_index written ls ≡ some k
      → (verify_index fl written r n tolerance (some ls)).verified ≡ some (int_is n k)
  unfolding verify_index
  index_labelled n ls k e = rw (e, verify_index, verify_enum_label) refl

  index_unverified :
      (n : ℤ) (o : Option (List String))
      → (verify_index fl written r n tolerance o).verified ≡ none
      → (fl.parse written ≡ none)
        × ((labels : List String) → o ≡ some labels → label_index written labels ≡ none)
  unfolding verify_index
  index_unverified n none h = (numeric_unverified (fl.of_int n) h, λ labels e. cc)
  index_unverified n (some ls) h = elim (Option-cases (label_index written ls)) [
    | inl e ↦ (
      numeric_unverified (fl.of_int n) (rw (index_unlabelled n ls e) at h),
      λ labels same. cc (same, e),
    )
    | inr (k, e) ↦ absurd (cc (sym (index_labelled n ls k e) ∙ h))
  ]

  unverified_index :
      (n : ℤ) (o : Option (List String))
      → fl.parse written ≡ none
      → ((labels : List String) → o ≡ some labels → label_index written labels ≡ none)
      → (verify_index fl written r n tolerance o).verified ≡ none
  unverified_index n none p h = unfold verify_index in unverified_numeric (fl.of_int n) p
  unverified_index n (some ls) p h =
      rw (index_unlabelled n ls (h ls refl)) (unverified_numeric (fl.of_int n) p)

  value_unverified :
      (v : Value fl.Float)
      → (verify_value fl written r tolerance v).verified ≡ none
      → Incomparable v
  unfolding verify_value
  value_unverified nothing h = tt
  value_unverified (bool b) h = numeric_unverified (if b then fl.one_float else fl.zero_float) h
  value_unverified (float x) h = numeric_unverified x h
  value_unverified (int n) h = index_unverified n (enum_labels r) h
  value_unverified (str s) h = cc
  value_unverified (other n) h = cc

  unverified_value :
      (v : Value fl.Float)
      → Incomparable v
      → (verify_value fl written r tolerance v).verified ≡ none
  unfolding verify_value
  unverified_value nothing h = refl
  unverified_value (bool b) h = unverified_numeric (if b then fl.one_float else fl.zero_float) h
  unverified_value (float x) h = unverified_numeric x h
  unverified_value (int n) h = unverified_index n (enum_labels r) h.0 h.1
  unverified_value (str s) h = absurd h
  unverified_value (other n) h = absurd h

  -- A write is not verifiable exactly if nothing was read back, or a number was and the written text
  -- is no number and, for an index, none of the record's labels: a text readback is always judged.
  pub verify_readback_unverified_iff :
      ((verify_readback fl written r tolerance).verified ≡ none) ↔ Incomparable r.value
  unfolding verify_readback
  verify_readback_unverified_iff = (value_unverified r.value, unverified_value r.value)

  value_labelled :
      (n : ℤ) (ls : List String) (k : ℕ) (v : Value fl.Float)
      → v ≡ int n
      → enum_labels r ≡ some ls
      → label_index written ls ≡ some k
      → (verify_value fl written r tolerance v).verified ≡ some (int_is n k)
  value_labelled n ls k v e l i = rw e (unfold verify_value in rw l (index_labelled n ls k i))

all_strings-map : (F : Type 0) (ls : List String) → all_strings {F = F} (map str ls) ≡ some ls
unfolding all_strings
all_strings-map F [] = refl
all_strings-map F (l ∷ ls) = ap (with_label {F = F} (str l)) (all_strings-map F ls)

labels_of_choices :
    {F : Type 0} (r : Reading F) (ls : List String)
    → r.choices ≡ some (map str ls)
    → enum_labels r ≡ some ls
unfolding enum_labels
labels_of_choices {F} r ls e = rw e (all_strings-map F ls)

label_index_first :
    (written : String) (pre post : List String)
    → All (λ l. l ≢ written) pre
    → label_index written (pre ++ written ∷ post) ≡ some (length pre)
unfolding label_index
label_index_first written [] post h = ground (arith, eq_iff written written)
label_index_first written (l ∷ pre) post (k, ks) =
    ground (arith, eq_iff l written, label_index_first written pre post ks)

-- A written label stands for the first index at which the record's choices hold it, and the write
-- is verified exactly if the value read back is that index.
pub verify_readback-label :
    (fl : Floats) (r : Reading fl.Float) (tolerance : fl.Float) (written : String)
    (pre post : List String) (n : ℤ)
    → r.value ≡ int n
    → r.choices ≡ some (map str (pre ++ written ∷ post))
    → All (λ l. l ≢ written) pre
    → (verify_readback fl written r tolerance).verified ≡ some (int_is n (length pre))
unfolding verify_readback
verify_readback-label fl r tolerance written pre post n v c h =
    value_labelled fl written r tolerance n (pre ++ written ∷ post) (length pre) r.value v
      (labels_of_choices r (pre ++ written ∷ post) c) (label_index_first written pre post h)
