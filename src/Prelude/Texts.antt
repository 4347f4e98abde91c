-- ===== src/Prelude/Texts.antt =====
-- Texts that the program walks: lists of code points, with Python's operations on them.
use Prim.Native.Nat.{ℕ, suc, ◌+◌}
use Prim.Native.Char.{code}
use Prim.Native.String.{String}
use mathlib.Core.Path.{◌≡◌, refl, ap₂}
use mathlib.Core.Logic.{◌↔◌, ◌≢◌, ◌⊎◌}
use mathlib.Core.Bool.{Bool, true, false, ◌&&◌, ◌||◌}
use mathlib.Core.Option.{Option, none, some}
use mathlib.Core.List.{List, [], ◌∷◌, ◌++◌}
use native.Mathlib.Omega.{arith}
use epics_mcp_server.Prelude.Tests.{◌==◌, if◌then◌else◌}
use epics_mcp_server.Prelude.Lists.{All}

abbrev pub Text : Type 0
Text = List ℕ

abbrev pub codes : String → Text
codes String.[] = []
codes (String.◌∷◌ c s) = code c ∷ codes s

abbrev pub is_empty : Text → Bool
is_empty [] = true
is_empty (c ∷ s) = false

-- `a == b`
unfoldable pub text_eq : Text → Text → Bool
text_eq [] [] = true
text_eq (x ∷ xs) (y ∷ ys) = x == y && text_eq xs ys
text_eq _ _ = false

-- `s.startswith(p)`
unfoldable pub starts_with : Text → Text → Bool
starts_with s [] = true
starts_with [] (y ∷ ys) = false
starts_with (x ∷ xs) (y ∷ ys) = x == y && starts_with xs ys

-- `p in s`
unfoldable pub contains : Text → Text → Bool
unfolding starts_with
contains p [] = is_empty p
contains p (c ∷ s) = starts_with (c ∷ s) p || contains p s

-- `s.count(c)` of one character
unfoldable pub count_char : ℕ → Text → ℕ
count_char c [] = 0
count_char c (x ∷ s) = let n = count_char c s in if x == c then suc n else n

abbrev before_char : ℕ → Option (Text × Text) → Option (Text × Text)
before_char x none = none
before_char x (some (a, b)) = some (x ∷ a, b)

-- `s.partition(c)`, with `none` where `c` is not found.
unfoldable pub partition : ℕ → Text → Option (Text × Text)
partition c [] = none
partition c (x ∷ s) =
    let rest = partition c s in if x == c then some ([], s) else before_char x rest

pub text_eq_refl : (s : Text) → text_eq s s ≡ true
unfolding text_eq
text_eq_refl [] = refl
text_eq_refl (x ∷ s) = ground (arith, text_eq_refl s)

text_eq_sound : (s t : Text) → text_eq s t ≡ true → s ≡ t
unfolding text_eq
text_eq_sound [] [] h = refl
text_eq_sound (x ∷ s) (y ∷ t) h =
    ap₂ (λ (a : ℕ) (b : Text). a ∷ b) (ground arith) (text_eq_sound s t (ground arith))
text_eq_sound [] (y ∷ t) h = cc
text_eq_sound (x ∷ s) [] h = cc

pub text_eq_iff : (s t : Text) → (text_eq s t ≡ true) ↔ (s ≡ t)
text_eq_iff s t = (text_eq_sound s t, λ e. rw e (text_eq_refl t))

-- A character that does not occur.
abbrev pub Lacks : ℕ → Text → Type 0
Lacks c = All (λ x. x ≢ c)

-- The parts that `partition` returns make up the text, and the first does not hold the character.
pub partition_lem :
    (c : ℕ) (s a b : Text) → partition c s ≡ some (a, b) → (s ≡ a ++ c ∷ b) × Lacks c a
unfolding partition
partition_lem c [] a b h = ground arith
partition_lem c (x ∷ s) a b h =
    partition_cons c x s a b (partition c s) (λ a' b'. partition_lem c s a' b') h
  where
    partition_cons :
        (c x : ℕ) (s a b : Text) (r : Option (Text × Text))
        → ((a' b' : Text) → r ≡ some (a', b') → (s ≡ a' ++ c ∷ b') × Lacks c a')
        → (if x == c then some ([], s) else before_char x r) ≡ some (a, b)
        → (x ∷ s ≡ a ++ c ∷ b) × Lacks c a
    partition_cons c x s a b none ih h = ground arith
    partition_cons c x s a b (some (a', b')) ih h = ground (arith, ih a' b')

-- `partition` finds the first occurrence.
pub partition_first : (c : ℕ) (a b : Text) → Lacks c a → partition c (a ++ c ∷ b) ≡ some (a, b)
unfolding partition
partition_first c [] b h = ground arith
partition_first c (x ∷ a) b (k, ks) = ground (arith, partition_first c a b ks)

pub count_char-append :
    (c : ℕ) (s t : Text) → count_char c (s ++ t) ≡ count_char c s + count_char c t
unfolding count_char
count_char-append c [] t = omega arith
count_char-append c (x ∷ s) t = ground (arith, count_char-append c s t)

pub count_char_of_Lacks : (c : ℕ) (s : Text) → Lacks c s → count_char c s ≡ 0
unfolding count_char
count_char_of_Lacks c [] h = refl
count_char_of_Lacks c (x ∷ s) (k, ks) = ground (arith, count_char_of_Lacks c s ks)

-- `x in ts`
unfoldable pub member : Text → List Text → Bool
unfolding text_eq
member x [] = false
member x (t ∷ ts) = text_eq t x || member x ts

-- Membership of a list of texts.
abbrev pub Among : Text → List Text → Type 0
Among x [] = ⊥
Among x (t ∷ ts) = (t ≡ x) ⊎ Among x ts

pub member_iff : (x : Text) (ts : List Text) → (member x ts ≡ true) ↔ Among x ts
unfolding member
member_iff x [] = ground arith
member_iff x (t ∷ ts) = ground (arith, text_eq_iff t x, member_iff x ts)

abbrev cons_part : ℕ → List Text → List Text
cons_part c [] = (c ∷ []) ∷ []
cons_part c (p ∷ ps) = (c ∷ p) ∷ ps

-- `s.split(sep)` of a separator of one character
unfoldable pub split : ℕ → Text → List Text
split sep [] = [] ∷ []
split sep (c ∷ s) = let parts = split sep s in if c == sep then [] ∷ parts else cons_part c parts
