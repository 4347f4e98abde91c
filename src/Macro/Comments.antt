-- ===== src/Macro/Comments.antt =====
-- Cutting comments: the look back over backslashes against an automaton with one bit for them.
use epics_mcp_server.Prelude.{
  ℕ, ◌≡◌, refl, ap, ◌∙◌, inl, inr, Bool, true, false, not, ◌&&◌, [], ◌∷◌, ◌++◌, arith, ◌==◌,
  if◌then◌else◌, Bool-cases,
}
use epics_mcp_server.Prelude.Texts.{Text}
use epics_mcp_server.Macro.{backslashes, is_even, next_quote, strip_from, strip_line_comment}

-- One pass: `odd` tells whether an odd run of backslashes stands right before.
pub strip_automaton : (in_quote odd : Bool) → Text → Text
strip_automaton in_quote odd [] = []
strip_automaton in_quote odd (c ∷ s) =
    if c == b'#' && not in_quote
    then []
    else c
      ∷ strip_automaton (if c == b'"' && not odd then not in_quote else in_quote)
          (if c == b'\\' then not odd else false) s

is_even-backslashes :
    (c : ℕ) (before : Text)
    → not (is_even (backslashes (c ∷ before)))
      ≡ (if c == b'\\' then not (not (is_even (backslashes before))) else false)
unfolding backslashes
is_even-backslashes c before = ground arith

not-not : (b : Bool) → b ≡ not (not b)
not-not true = refl
not-not false = refl

strip_from-eq-automaton :
    (in_quote : Bool) (before s : Text)
    → strip_from in_quote before s ≡ strip_automaton in_quote (not (is_even (backslashes before))) s
unfolding strip_from strip_automaton
strip_from-eq-automaton in_quote before [] = refl
strip_from-eq-automaton in_quote before (c ∷ s) =
    ap (λ (t : Text). if c == b'#' && not in_quote then [] else c ∷ t)
      (strip_from-eq-automaton (next_quote in_quote c before) (c ∷ before) s ∙ λ i.
        strip_automaton
          (if c == b'"' && not-not (is_even (backslashes before)) i then not in_quote else in_quote)
          (is_even-backslashes c before i) s)

-- Cutting a line with the look back over the run of backslashes at each quote is the same as one
-- pass that keeps whether the run is odd.
strip_line_comment-eq-automaton :
    (line : Text) → strip_line_comment line ≡ strip_automaton false false line
unfolding strip_line_comment backslashes
strip_line_comment-eq-automaton line = strip_from-eq-automaton false [] line

strip_from_idem :
    (in_quote : Bool) (before s : Text)
    → strip_from in_quote before (strip_from in_quote before s) ≡ strip_from in_quote before s
unfolding strip_from
strip_from_idem in_quote before [] = refl
strip_from_idem in_quote before (c ∷ s) = elim (Bool-cases (c == b'#' && not in_quote)) [
  | inl e ↦ rw e refl
  | inr e ↦
      rw (e, e)
        (ap (λ (t : Text). c ∷ t) (strip_from_idem (next_quote in_quote c before) (c ∷ before) s))
]

-- What is cut off a line is nothing, or begins with the comment sign.
pub data CutAt (kept : Text) (line : Text) : Type 0 where
  no_comment : line ≡ kept → CutAt kept line
  comment : (rest : Text) → line ≡ kept ++ b'#' ∷ rest → CutAt kept line

CutAt-cons : (c : ℕ) (kept line : Text) → CutAt kept line → CutAt (c ∷ kept) (c ∷ line)
CutAt-cons c kept line (no_comment e) = no_comment (ap (λ (t : Text). c ∷ t) e)
CutAt-cons c kept line (comment rest e) = comment rest (ap (λ (t : Text). c ∷ t) e)

strip_from-CutAt : (in_quote : Bool) (before s : Text) → CutAt (strip_from in_quote before s) s
unfolding strip_from
strip_from-CutAt in_quote before [] = no_comment refl
strip_from-CutAt in_quote before (c ∷ s) = elim (Bool-cases (c == b'#' && not in_quote)) [
  | inl e ↦ rw e (comment s (ap (λ (x : ℕ). x ∷ s) (ground arith)))
  | inr e ↦ rw e (CutAt-cons c _ s (strip_from-CutAt (next_quote in_quote c before) (c ∷ before) s))
]

-- Cutting takes away one comment and nothing else, and a line that was cut has none left.
pub strip_line_comment-CutAt :
    (line : Text)
    → CutAt (strip_line_comment line) line
      × (strip_line_comment (strip_line_comment line) ≡ strip_line_comment line)
unfolding strip_line_comment
strip_line_comment-CutAt line = (strip_from-CutAt false [] line, strip_from_idem false [] line)
