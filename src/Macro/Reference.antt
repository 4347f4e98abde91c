-- ===== src/Macro/Reference.antt =====
-- One plain reference: a defined macro beats its default, the default stands in for an undefined
-- one, and without a default the reference stays as it is.
use mathlib.Core.List.{append_assoc}
use epics_mcp_server.Prelude.{
  ℕ, zero, suc, ◌+◌, ◌≡◌, refl, ap, ◌∙◌, ◌≢◌, Bool, false, Option, none, some, [], ◌∷◌, ◌++◌, arith,
  ◌==◌, if◌then◌else◌, length, length-append, All,
}
use epics_mcp_server.Prelude.Texts.{Text, starts_with, contains}
use epics_mcp_server.Macro.{
  before_name, is_separator, keep, move, split_body_from, split_body, default_from,
  default_from_rest, has_macro_ref, Macros, or_default, value_or_default, body_value,
  reference_body, emit_value, emit_text, take_text, expand_from, expand_once, nested_value,
}
use epics_mcp_server.Macro.Expand.{
  round, curly, expand_step_value, expand_step_literal, Bracket, opening, closing, PlainBut,
  plain_body,
}

-- A text in which neither a reference nor a separator stands.
abbrev pub PlainName : Bracket → Text → Type 0
PlainName b = All (λ c. (c ≢ b'$') × (c ≢ closing b) × (is_separator c ≡ false))

-- A default in which no reference stands and which no comma ends.
abbrev pub PlainDefault : Bracket → Option Text → Type 0
PlainDefault b none = Unit
PlainDefault b (some d) = All (λ c. (c ≢ b'$') × (c ≢ closing b) × (c ≢ b',')) d

abbrev pub default_text : Option Text → Text
default_text none = []
default_text (some d) = b'=' ∷ d

top_move : (c : ℕ) (s : Text) → c ≢ b'$' → move [] c s ≡ keep
unfolding move
top_move c [] h = refl
top_move c (d ∷ s) h = ground arith

split_keep :
    (c : ℕ) (s : Text)
    → c ≢ b'$'
    → split_body_from false [] (c ∷ s)
      ≡ (if is_separator c then ([], c ∷ s) else before_name c (split_body_from false [] s))
unfolding split_body_from
split_keep c s h = rw (top_move c s h, split_body_from) refl

split_plain :
    (b : Bracket) (name : Text) (o : Option Text)
    → PlainName b name
    → split_body_from false [] (name ++ default_text o) ≡ (name, default_text o)
split_plain b [] none h = unfold split_body_from in refl
split_plain b [] (some d) h = split_keep b'=' d (λ e. omega (arith, e))
split_plain b (c ∷ name) o (p, ps) =
    split_keep c (name ++ default_text o) p.0
    ∙ rw p.2 (ap (before_name c) (split_plain b name o ps))

default_keep :
    (c : ℕ) (s : Text)
    → c ≢ b'$'
    → default_from false [] (c ∷ s) ≡ (if c == b',' then [] else c ∷ default_from false [] s)
unfolding default_from
default_keep c s h = rw (top_move c s h, default_from) refl

default_plain : (b : Bracket) (d : Text) → PlainDefault b (some d) → default_from false [] d ≡ d
default_plain b [] h = unfold default_from in refl
default_plain b (c ∷ d) (p, ps) = default_keep c d p.0 ∙ ground (arith, default_plain b d ps)

default_of_rest :
    (b : Bracket) (o : Option Text) → PlainDefault b o → default_from_rest (default_text o) ≡ o
unfolding default_from_rest
default_of_rest b none h = refl
default_of_rest b (some d) h = ap some (default_plain b d h)

no_ref_in_name : (b : Bracket) (name : Text) → PlainName b name → has_macro_ref name ≡ false
unfolding has_macro_ref contains starts_with
no_ref_in_name b [] h = refl
no_ref_in_name b (c ∷ []) (p, ps) = ground (arith, p.0)
no_ref_in_name b (c ∷ d ∷ name) (p, ps) = ground (arith, p.0, no_ref_in_name b (d ∷ name) ps)

named :
    (inner : Option (Text → Text × Bool)) (macros : Macros) (name rest : Text)
    → has_macro_ref name ≡ false
    → (if has_macro_ref name
        then nested_value inner macros rest name
        else value_or_default macros rest name)
      ≡ value_or_default macros rest name
named inner macros name rest h = rw h refl

plain_value :
    (inner : Option (Text → Text × Bool)) (macros : Macros) (b : Bracket) (name : Text)
    (o : Option Text)
    → PlainName b name
    → PlainDefault b o
    → body_value inner macros (name ++ default_text o) ≡ or_default (macros name) o
unfolding body_value split_body
plain_value inner macros b name o h k =
    ap
      (λ (p : Text × Text).
        if has_macro_ref p.0
        then nested_value inner macros p.1 p.0
        else value_or_default macros p.1 p.0)
      (split_plain b name o h)
    ∙ named inner macros name (default_text o) (no_ref_in_name b name h)
    ∙ (unfold value_or_default in ap (or_default (macros name)) (default_of_rest b o k))

-- What is skipped is not read.
skip_text :
    (inner : Option (Text → Text × Bool)) (macros : Macros) (xs s : Text)
    → expand_from inner macros (length xs) (xs ++ s) ≡ expand_from inner macros zero s
unfolding expand_from
skip_text inner macros [] s = refl
skip_text inner macros (x ∷ xs) s = skip_text inner macros xs s

take_text-append : (xs s : Text) → take_text (length xs) (xs ++ s) ≡ xs
take_text-append [] s = refl
take_text-append (x ∷ xs) s = ap (λ (t : Text). x ∷ t) (take_text-append xs s)

-- A value in the place of a reference, or the reference as it stands.
abbrev pub replaced : Option Text → Text → Text × Bool → Text × Bool
replaced (some v) literal p = emit_value v p
replaced none literal p = emit_text literal p

-- The characters of a reference behind its dollar.
abbrev pub bracketed : Bracket → Text → Text
bracketed b body = opening b ∷ body ++ closing b ∷ []

length-bracketed : (b : Bracket) (body : Text) → length body + 2 ≡ length (bracketed b body)
length-bracketed b body = omega (arith, length-append {0} body (closing b ∷ []))

module _ (inner : Option (Text → Text × Bool)) (macros : Macros) (b : Bracket) (body post : Text)
    (plain : PlainBut (closing b) body) where
  opened : reference_body b'$' (bracketed b body ++ post) ≡ some body
  opened = rw append_assoc (plain_body b body post plain)

  skipped :
      expand_from inner macros (length body + 2) (bracketed b body ++ post)
      ≡ expand_from inner macros zero post
  skipped = rw (length-bracketed b body) (skip_text inner macros (bracketed b body) post)

  taken : take_text (length body + 2) (bracketed b body ++ post) ≡ bracketed b body
  taken = rw (length-bracketed b body) (take_text-append (bracketed b body) post)

  expand_bracketed :
      (o : Option Text)
      → body_value inner macros body ≡ o
      → expand_from inner macros zero (b'$' ∷ bracketed b body ++ post)
        ≡ replaced o (b'$' ∷ bracketed b body) (expand_from inner macros zero post)
  expand_bracketed (some v) e =
      expand_step_value inner macros b'$' (bracketed b body ++ post) body v opened e
      ∙ ap (emit_value v) skipped
  expand_bracketed none e =
      expand_step_literal inner macros b'$' (bracketed b body ++ post) body opened e ∙ λ i.
      emit_text (b'$' ∷ taken i) (skipped i)

plain_default : (b : Bracket) (d : Text) → PlainDefault b (some d) → PlainBut (closing b) d
plain_default b [] h = tt
plain_default b (c ∷ d) (p, ps) = ((p.0, p.1), plain_default b d ps)

plain_text :
    (b : Bracket) (name : Text) (o : Option Text)
    → PlainName b name
    → PlainDefault b o
    → PlainBut (closing b) (name ++ default_text o)
plain_text b [] none h k = tt
plain_text round [] (some d) h k =
    ((λ e. omega (arith, e), λ e. omega (arith, e)), plain_default round d k)
plain_text curly [] (some d) h k =
    ((λ e. omega (arith, e), λ e. omega (arith, e)), plain_default curly d k)
plain_text b (c ∷ name) o (p, ps) k = ((p.0, p.1), plain_text b name o ps k)

-- A reference with a plain name, in either spelling, and with no default or one that holds no `$`, no
-- comma and not the closing bracket, becomes the value of its macro if that is defined, else its default
-- if it has one, and else stays as it is; the text behind it is expanded as it is on its own.
pub expand_once-reference :
    (depth : ℕ) (macros : Macros) (b : Bracket) (name : Text) (o : Option Text) (post : Text)
    → PlainName b name
    → PlainDefault b o
    → expand_once depth macros (b'$' ∷ bracketed b (name ++ default_text o) ++ post)
      ≡ replaced
          (or_default (macros name) o)
          (b'$' ∷ bracketed b (name ++ default_text o))
          (expand_once depth macros post)
unfolding expand_once
expand_once-reference zero macros b name o post h k =
    expand_bracketed none macros b (name ++ default_text o) post (plain_text b name o h k)
      (or_default (macros name) o) (plain_value none macros b name o h k)
expand_once-reference (suc d) macros b name o post h k =
    expand_bracketed (some (expand_once d macros)) macros b (name ++ default_text o) post
      (plain_text b name o h k) (or_default (macros name) o)
      (plain_value (some (expand_once d macros)) macros b name o h k)
