-- ===== src/Macro/Expand.antt =====
-- What an expansion does to a text without references, and to a plain reference.
use epics_mcp_server.Prelude.{
  ℕ, zero, suc, ◌+◌, ◌≡◌, refl, ap, ◌∙◌, ◌≢◌, Bool, true, false, Option, none, some, [], ◌∷◌, ◌++◌,
  arith, length, All,
}
use epics_mcp_server.Prelude.Texts.{Text, starts_with, contains}
use epics_mcp_server.Macro.{
  before_body, pop, keep, nested_ref_opens, move, find_closing, has_macro_ref, Macros,
  repeat_while_changed, max_name_expansion_depth, body_value, reference_body, emit_char, emit_value,
  emit_text, take_text, expand_from, expand_once, substitute,
}

opens_none :
    (c d : ℕ) (s : Text) → has_macro_ref (c ∷ d ∷ s) ≡ false → nested_ref_opens c (d ∷ s) ≡ none
unfolding has_macro_ref nested_ref_opens contains starts_with
opens_none c d s h = ground arith

ref_tail : (c : ℕ) (s : Text) → has_macro_ref (c ∷ s) ≡ false → has_macro_ref s ≡ false
unfolding has_macro_ref
ref_tail c s h = ground arith

no_reference : (c : ℕ) (s : Text) → has_macro_ref (c ∷ s) ≡ false → reference_body c s ≡ none
unfolding reference_body
no_reference c [] h = refl
no_reference c (d ∷ s) h = rw (opens_none c d s h, reference_body) refl

module _ (inner : Option (Text → Text × Bool)) (macros : Macros) where
  pub expand_step_none :
      (c : ℕ) (s : Text)
      → reference_body c s ≡ none
      → expand_from inner macros zero (c ∷ s) ≡ emit_char c (expand_from inner macros zero s)
  unfolding expand_from
  expand_step_none c s e = rw (e, expand_from) refl

  pub expand_step_value :
      (c : ℕ) (s body v : Text)
      → reference_body c s ≡ some body
      → body_value inner macros body ≡ some v
      → expand_from inner macros zero (c ∷ s)
        ≡ emit_value v (expand_from inner macros (length body + 2) s)
  unfolding expand_from
  expand_step_value c s body v e k = rw (e, expand_from) (rw (k, expand_from) refl)

  pub expand_step_literal :
      (c : ℕ) (s body : Text)
      → reference_body c s ≡ some body
      → body_value inner macros body ≡ none
      → expand_from inner macros zero (c ∷ s)
        ≡ emit_text
            (c ∷ take_text (length body + 2) s)
            (expand_from inner macros (length body + 2) s)
  unfolding expand_from
  expand_step_literal c s body e k = rw (e, expand_from) (rw (k, expand_from) refl)

  expand_unreferenced :
      (s : Text) → has_macro_ref s ≡ false → expand_from inner macros zero s ≡ (s, false)
  expand_unreferenced [] h = unfold expand_from in refl
  expand_unreferenced (c ∷ s) h =
      expand_step_none c s (no_reference c s h)
      ∙ ap (emit_char c) (expand_unreferenced s (ref_tail c s h))

expand_once_unreferenced :
    (depth : ℕ) (macros : Macros) (s : Text)
    → has_macro_ref s ≡ false
    → expand_once depth macros s ≡ (s, false)
unfolding expand_once
expand_once_unreferenced zero macros s h = expand_unreferenced none macros s h
expand_once_unreferenced (suc d) macros s h =
    expand_unreferenced (some (expand_once d macros)) macros s h

repeat_unchanged :
    (n : ℕ) (f : Text → Text × Bool) (s : Text) → f s ≡ (s, false) → repeat_while_changed n f s ≡ s
unfolding repeat_while_changed
repeat_unchanged zero f s h = refl
repeat_unchanged (suc n) f s h =
    ap (λ (p : Text × Bool). elim p.1 [ true ↦ repeat_while_changed n f p.0 | false ↦ p.0 ]) h

-- A text with neither `$(` nor `${` comes back as it is, whatever the macros.
pub substitute_unreferenced :
    (s : Text) (macros : Macros) → has_macro_ref s ≡ false → substitute s macros ≡ s
unfolding substitute
substitute_unreferenced s macros h =
    repeat_unchanged 10 (expand_once max_name_expansion_depth macros) s
      (expand_once_unreferenced max_name_expansion_depth macros s h)

-- The two spellings of a reference.
pub data Bracket : Type 0 where
  round curly : Bracket

abbrev pub opening : Bracket → ℕ
opening round = b'('
opening curly = b'{'

abbrev pub closing : Bracket → ℕ
closing round = b')'
closing curly = b'}'

-- A text with no reference in it and without a certain bracket.
abbrev pub PlainBut : ℕ → Text → Type 0
PlainBut k = All (λ c. (c ≢ b'$') × (c ≢ k))

plain_move : (k c : ℕ) (s : Text) → c ≢ b'$' → c ≢ k → move (k ∷ []) c s ≡ keep
unfolding move
plain_move k c [] p q = ground arith
plain_move k c (d ∷ s) p q = ground arith

keep_step :
    (k c : ℕ) (s : Text)
    → move (k ∷ []) c s ≡ keep
    → find_closing false (k ∷ []) (c ∷ s) ≡ before_body c (find_closing false (k ∷ []) s)
unfolding find_closing
keep_step k c s e = rw (e, find_closing) refl

close_move : (k : ℕ) (s : Text) → k ≢ b'$' → move (k ∷ []) k s ≡ pop []
unfolding move
close_move k [] h = ground arith
close_move k (d ∷ s) h = ground arith

close_step : (k : ℕ) (s : Text) → k ≢ b'$' → find_closing false (k ∷ []) (k ∷ s) ≡ some ([], s)
unfolding find_closing
close_step k s h = rw (close_move k s h, find_closing) refl

plain_closing :
    (k : ℕ) (body post : Text)
    → k ≢ b'$'
    → PlainBut k body
    → find_closing false (k ∷ []) (body ++ k ∷ post) ≡ some (body, post)
plain_closing k [] post h _ = close_step k post h
plain_closing k (c ∷ body) post h (p, ps) =
    keep_step k c (body ++ k ∷ post) (plain_move k c (body ++ k ∷ post) p.0 p.1)
    ∙ ap (before_body c) (plain_closing k body post h ps)

pub plain_body :
    (b : Bracket) (body post : Text)
    → PlainBut (closing b) body
    → reference_body b'$' (opening b ∷ body ++ closing b ∷ post) ≡ some body
unfolding reference_body
plain_body round body post h =
    rw (plain_closing b')' body post (λ e. omega (arith, e)) h, reference_body) refl
plain_body curly body post h =
    rw (plain_closing b'}' body post (λ e. omega (arith, e)) h, reference_body) refl
