-- ===== src/Names/Record.antt =====
-- What is left of a name when the fields are cut off.
use epics_mcp_server.Prelude.{
  ℕ, ◌≡◌, refl, ap, ◌≢◌, ◌⊎◌, inl, inr, Bool, true, false, not, Option, none, some, [], ◌∷◌, ◌++◌,
  arith, ◌==◌, if◌then◌else◌, Option-cases,
}
use epics_mcp_server.Prelude.Texts.{Text, Lacks}
use epics_mcp_server.Names.{field_tail, record_name, cut_field}

-- On a text of one line, the fields reach to its end.
field_tail-eq-nil : (b : Bool) (s t : Text) → Lacks 10 s → field_tail b s ≡ some t → t ≡ []
unfolding field_tail
field_tail-eq-nil true [] t l h = ground arith
field_tail-eq-nil false [] t l h = ground arith
field_tail-eq-nil b (c ∷ s) t (k, ks) h = ground (arith, field_tail-eq-nil (not (c == b'.')) s t ks)

-- The character that opens a field which is cut off.
opens_field : ℕ → Text → Option Text
opens_field c s = if c == b'.' then field_tail false s else none

record_name-cons :
    (c : ℕ) (s : Text) → record_name (c ∷ s) ≡ cut_field c (opens_field c s) (record_name s)
unfolding record_name opens_field
record_name-cons c s = refl

opened_tail :
    (c : ℕ) (s t : Text) → opens_field c s ≡ some t → (c ≡ b'.') × (field_tail false s ≡ some t)
unfolding opens_field
opened_tail c s t h = ground arith

step_kept :
    (c : ℕ) (s r : Text) (b : Bool)
    → c ≢ 10
    → (field_tail (not (c == b'.')) s ≡ none → field_tail (not (c == b'.')) r ≡ none)
    → field_tail b (c ∷ s) ≡ none
    → field_tail b (c ∷ r) ≡ none
unfolding field_tail
step_kept c s r b k ih h = ground arith

step_cut :
    (s : Text) (b : Bool) (t : Text)
    → field_tail false s ≡ some t
    → field_tail b (b'.' ∷ s) ≡ none
    → field_tail b [] ≡ none
unfolding field_tail
step_cut s true t e h = absurd (cc (e, h))
step_cut s false t e h = refl

field_tail-record_name :
    (s : Text)
    → Lacks 10 s
    → (b : Bool) → field_tail b s ≡ none
    → field_tail b (record_name s) ≡ none
field_tail-record_name [] l b h = unfold record_name in h
field_tail-record_name (c ∷ s) (k, ks) b h =
    rw (record_name-cons c s) (elim (Option-cases (opens_field c s)) [
      | inl e ↦
          rw e (step_kept c s (record_name s) b k (field_tail-record_name s ks (not (c == b'.'))) h)
      | inr (t, e) ↦
          let (dot, tail) = opened_tail c s t e in
          rw (e, field_tail-eq-nil false s t ks tail) (step_cut s b t tail (rw dot at h))
    ])

still_closed :
    (c : ℕ) (s : Text) → Lacks 10 s → opens_field c s ≡ none → opens_field c (record_name s) ≡ none
unfolding opens_field
still_closed c s l h = ground (arith, field_tail-record_name s l false)

-- What is cut off a name: nothing, or a dot and fields up to the end.
abbrev pub IsSuffix : Text → Type 0
IsSuffix suffix =
    (suffix ≡ []) ⊎ ((t : Text) × (suffix ≡ b'.' ∷ t) × (field_tail false t ≡ some []))

cut_suffix :
    (s : Text) → Lacks 10 s → (suffix : Text) × (s ≡ record_name s ++ suffix) × IsSuffix suffix
cut_suffix [] l = unfold record_name in ([], refl, inl refl)
cut_suffix (c ∷ s) (k, ks) = rw (record_name-cons c s) (elim (Option-cases (opens_field c s)) [
  | inl e ↦
      let (suffix, joined, q) = cut_suffix s ks in rw e (suffix, ap (λ (t : Text). c ∷ t) joined, q)
  | inr (t, e) ↦
      let (dot, tail) = opened_tail c s t e in
      let done = field_tail-eq-nil false s t ks tail in
      rw (e, done) (c ∷ s, refl, inr (s, ap (λ (d : ℕ). d ∷ s) dot, rw done at tail))
])

record_name_idem : (s : Text) → Lacks 10 s → record_name (record_name s) ≡ record_name s
record_name_idem [] l = unfold record_name in refl
record_name_idem (c ∷ s) (k, ks) =
    rw (record_name-cons c s) (elim (Option-cases (opens_field c s)) [
      | inl e ↦
          rw (e, record_name-cons c (record_name s), still_closed c s ks e)
            (ap (λ (t : Text). c ∷ t) (record_name_idem s ks))
      | inr (t, e) ↦
          let (dot, tail) = opened_tail c s t e in
          rw (e, field_tail-eq-nil false s t ks tail) (unfold record_name in refl)
    ])

-- Of a name of one line, `_record_name` cuts off nothing, or a dot and dot-separated fields up to the
-- end, and the name that is left has no fields to cut.
pub record_name-IsSuffix :
    (s : Text)
    → Lacks 10 s
    → ((suffix : Text) × (s ≡ record_name s ++ suffix) × IsSuffix suffix)
      × (record_name (record_name s) ≡ record_name s)
record_name-IsSuffix s l = (cut_suffix s l, record_name_idem s l)
