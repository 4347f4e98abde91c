-- ===== src/Prelude/Sorted.antt =====
-- `sorted` of a set of texts: a list in the order of code points without repetitions.
use mathlib.Core.Path.{◌≡◌}
use mathlib.Core.Logic.{◌↔◌, ◌⊎◌}
use mathlib.Core.Bool.{Bool, true, false, ◌&&◌, ◌||◌}
use mathlib.Core.List.{List, [], ◌∷◌, ◌++◌}
use native.Mathlib.Omega.{arith}
use epics_mcp_server.Prelude.Tests.{ltb, ◌==◌, if◌then◌else◌}
use epics_mcp_server.Prelude.Texts.{Text, text_eq, text_eq_iff, Among}

-- `a < b`
unfoldable pub text_lt : Text → Text → Bool
text_lt _ [] = false
text_lt [] (y ∷ ys) = true
text_lt (x ∷ xs) (y ∷ ys) = ltb x y || (x == y && text_lt xs ys)

unfoldable pub insert : Text → List Text → List Text
unfolding text_lt text_eq
insert x [] = x ∷ []
insert x (t ∷ ts) =
    let later = insert x ts in
    if text_eq t x then t ∷ ts else if text_lt x t then x ∷ t ∷ ts else t ∷ later

-- `sorted(set(ts))`
unfoldable pub sorted_set : List Text → List Text
unfolding insert
sorted_set [] = []
sorted_set (t ∷ ts) = insert t (sorted_set ts)

Among-insert : (x y : Text) (ts : List Text) → Among x (insert y ts) ↔ ((y ≡ x) ⊎ Among x ts)
unfolding insert
Among-insert x y [] = ground arith
Among-insert x y (t ∷ ts) = ground (arith, text_eq_iff t y, Among-insert x y ts)

pub Among-sorted_set : (x : Text) (ts : List Text) → Among x (sorted_set ts) ↔ Among x ts
unfolding sorted_set
Among-sorted_set x [] = ground arith
Among-sorted_set x (t ∷ ts) =
    ground (arith, Among-insert x t (sorted_set ts), Among-sorted_set x ts)

pub Among-append : (x : Text) (ts us : List Text) → Among x (ts ++ us) ↔ (Among x ts ⊎ Among x us)
Among-append x [] us = ground arith
Among-append x (t ∷ ts) us = ground (arith, Among-append x ts us)
