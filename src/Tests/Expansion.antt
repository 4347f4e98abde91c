-- ===== src/Tests/Expansion.antt =====
-- Comments and macro references.
use epics_mcp_server.Prelude.{◌≡◌, refl, false, none, some, [], ◌∷◌, ◌++◌, arith, if◌then◌else◌}
use epics_mcp_server.Prelude.Texts.{codes, text_eq}
use epics_mcp_server.Macro.{Macros, find_closing, expand_once, or_default}
use epics_mcp_server.Macro.Expand.{round}
use epics_mcp_server.Macro.Reference.{bracketed, default_text, replaced, expand_once-reference}

nested_body : find_closing false (b')' ∷ []) (codes "a${b})c") ≡ some (codes "a${b}", codes "c")
unfolding find_closing
nested_body = refl

-- P is defined, and no other macro.
abbrev macros : Macros
macros name = if text_eq name (codes "P") then some (codes "IOC") else none

reference_example :
    expand_once 32 macros
      (b'$' ∷ bracketed round (codes "P" ++ default_text (some (codes "X"))) ++ codes ":m1")
    ≡ replaced
        (or_default (macros (codes "P")) (some (codes "X")))
        (b'$' ∷ bracketed round (codes "P" ++ default_text (some (codes "X"))))
        (expand_once 32 macros (codes ":m1"))
reference_example =
    expand_once-reference 32 macros round (codes "P") (some (codes "X")) (codes ":m1")
      (((λ e. omega (arith, e)), (λ e. omega (arith, e)), refl), tt)
      (((λ e. omega (arith, e)), (λ e. omega (arith, e)), (λ e. omega (arith, e))), tt)
