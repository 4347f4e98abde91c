-- ===== src/Macro.antt =====
-- services/e3_db.py: comments and macro references in the texts of an IOC. Where the source keeps
-- an index into a text, the model keeps the text from that index on. A scan that reads `$(` or `${`
-- goes on behind the bracket; here the flag `bracket` says that the next character is that bracket.
pub mod Comments
pub mod Scan
pub mod Expand
pub mod Reference
use epics_mcp_server.Prelude.{
  ℕ, zero, suc, ◌+◌, Bool, true, false, not, ◌&&◌, ◌||◌, Option, none, some, List, [], ◌∷◌, ◌++◌,
  ◌==◌, if◌then◌else◌, length,
}
use epics_mcp_server.Prelude.Texts.{Text, codes, is_empty, starts_with, contains, text_eq}

-- How many backslashes stand right before a position, whose text before it is given reversed.
unfoldable pub backslashes : Text → ℕ
backslashes [] = 0
backslashes (c ∷ before) = let n = backslashes before in if c == b'\\' then suc n else 0

abbrev pub is_even : ℕ → Bool
is_even zero = true
is_even (suc n) = not (is_even n)

-- A quote that no odd run of backslashes escapes opens or closes a string.
abbrev pub next_quote : Bool → ℕ → Text → Bool
next_quote in_quote c before =
    if c == b'"' && is_even (backslashes before) then not in_quote else in_quote

strip_from : Bool → Text → Text → Text
unfolding backslashes
strip_from in_quote before [] = []
strip_from in_quote before (c ∷ s) =
    if c == b'#' && not in_quote
    then []
    else c ∷ strip_from (next_quote in_quote c before) (c ∷ before) s

unfoldable pub strip_line_comment : Text → Text
unfolding strip_from
strip_line_comment line = strip_from false [] line

-- `_nested_ref_opens`: the closer, where a reference opens at this character.
unfoldable pub nested_ref_opens : ℕ → Text → Option ℕ
nested_ref_opens c [] = none
nested_ref_opens c (d ∷ s) =
    if not (c == b'$')
    then none
    else if d == b'('
    then some b')'
    else if d == b'{'
    then some b'}'
    else none

-- What a scan does at a character, given the closers that it waits for.
pub data Move : Type 0 where
  push : ℕ → Move
  pop : List ℕ → Move
  keep : Move

pop_or_keep : ℕ → List ℕ → Move
pop_or_keep c [] = keep
pop_or_keep c (e ∷ expected) = if c == e then pop expected else keep

abbrev or_push : Option ℕ → Move → Move
or_push none m = m
or_push (some closer) m = push closer

unfoldable pub move : List ℕ → ℕ → Text → Move
unfolding nested_ref_opens pop_or_keep
move expected c s = or_push (nested_ref_opens c s) (pop_or_keep c expected)

abbrev pub before_body : ℕ → Option (Text × Text) → Option (Text × Text)
before_body c none = none
before_body c (some (body, rest)) = some (c ∷ body, rest)

-- `_find_closing_bracket`, from behind the opening bracket: the body up to the closer, and the text
-- behind the closer; `none` for -1.
unfoldable pub find_closing : Bool → List ℕ → Text → Option (Text × Text)
unfolding move
find_closing bracket expected [] = none
find_closing true expected (c ∷ s) = before_body c (find_closing false expected s)
find_closing false expected (c ∷ s) = elim (move expected c s) [
  | push closer ↦ before_body c (find_closing true (closer ∷ expected) s)
  | pop [] ↦ some ([], s)
  | pop (e ∷ more) ↦ before_body c (find_closing false (e ∷ more) s)
  | keep ↦ before_body c (find_closing false expected s)
]

abbrev pub before_name : ℕ → Text × Text → Text × Text
before_name c (name, rest) = (c ∷ name, rest)

abbrev pub is_separator : ℕ → Bool
is_separator c = c == b'=' || c == b','

-- `_split_body`: the name, and the rest from the first separator outside nested references on.
unfoldable pub split_body_from : Bool → List ℕ → Text → Text × Text
unfolding move
split_body_from bracket expected [] = ([], [])
split_body_from true expected (c ∷ s) = before_name c (split_body_from false expected s)
split_body_from false expected (c ∷ s) = elim (move expected c s) [
  | push closer ↦ before_name c (split_body_from true (closer ∷ expected) s)
  | pop more ↦ before_name c (split_body_from false more s)
  | keep ↦
      let longer = before_name c (split_body_from false expected s) in
      elim expected [ [] ↦ if is_separator c then ([], c ∷ s) else longer | e ∷ more ↦ longer ]
]

unfoldable pub split_body : Text → Text × Text
unfolding split_body_from
split_body body = split_body_from false [] body

-- The loop of `_default_from_rest`, behind the `=`: it ends at a comma outside nested references.
unfoldable pub default_from : Bool → List ℕ → Text → Text
unfolding move
default_from bracket expected [] = []
default_from true expected (c ∷ s) = c ∷ default_from false expected s
default_from false expected (c ∷ s) = elim (move expected c s) [
  | push closer ↦ c ∷ default_from true (closer ∷ expected) s
  | pop more ↦ c ∷ default_from false more s
  | keep ↦
      let longer = c ∷ default_from false expected s in
      elim expected [ [] ↦ if c == b',' then [] else longer | e ∷ more ↦ longer ]
]

unfoldable pub default_from_rest : Text → Option Text
unfolding default_from
default_from_rest [] = none
default_from_rest (c ∷ s) = if c == b'=' then some (default_from false [] s) else none

unfoldable pub has_macro_ref : Text → Bool
unfolding contains
has_macro_ref text = contains (codes "$(") text || contains (codes "${") text

abbrev pub Macros : Type 0
Macros = Text → Option Text

-- `for _ in range(n): text, changed = f(text); if not changed: break`
unfoldable pub repeat_while_changed : ℕ → (Text → Text × Bool) → Text → Text
repeat_while_changed zero f text = text
repeat_while_changed (suc n) f text =
    let (text', changed) = f text in
    elim changed [ true ↦ repeat_while_changed n f text' | false ↦ text' ]

-- `_MAX_NAME_EXPANSION_DEPTH`
abbrev pub max_name_expansion_depth : ℕ
max_name_expansion_depth = 32

abbrev pub or_default : Option Text → Option Text → Option Text
or_default (some v) d = some v
or_default none d = d

-- The value of a macro, or the default that the rest carries; `none` leaves the reference literal.
unfoldable pub value_or_default : Macros → Text → Text → Option Text
unfolding default_from_rest
value_or_default macros rest name = or_default (macros name) (default_from_rest rest)

-- The value of a name that holds references itself, by the expansion one level down, if there is
-- one left.
unfoldable pub nested_value : Option (Text → Text × Bool) → Macros → Text → Text → Option Text
unfolding repeat_while_changed has_macro_ref value_or_default
nested_value none macros rest name = none
nested_value (some inner) macros rest name =
    let name' = repeat_while_changed max_name_expansion_depth inner name in
    if has_macro_ref name' then none else value_or_default macros rest name'

unfoldable pub body_value : Option (Text → Text × Bool) → Macros → Text → Option Text
unfolding split_body nested_value
body_value inner macros body =
    let (name, rest) = split_body body in
    if has_macro_ref name
    then nested_value inner macros rest name
    else value_or_default macros rest name

-- The body of the reference that starts at this character, if one does and is closed.
unfoldable pub reference_body : ℕ → Text → Option Text
unfolding nested_ref_opens find_closing
reference_body c [] = none
reference_body c (d ∷ s) = elim (nested_ref_opens c (d ∷ s)) [
  | none ↦ none
  | some closer ↦ elim (find_closing false (closer ∷ []) s) [
    | none ↦ none
    | some (body, rest) ↦ some body
  ]
]

abbrev pub emit_char : ℕ → Text × Bool → Text × Bool
emit_char c (out, changed) = (c ∷ out, changed)

abbrev pub emit_value : Text → Text × Bool → Text × Bool
emit_value v (out, changed) = (v ++ out, true)

abbrev pub take_text : ℕ → Text → Text
take_text zero s = []
take_text (suc n) [] = []
take_text (suc n) (c ∷ s) = c ∷ take_text n s

abbrev pub emit_text : Text → Text × Bool → Text × Bool
emit_text v (out, changed) = (v ++ out, changed)

-- The left-to-right pass; the number says how much of a reference that was dealt with is left.
unfoldable pub expand_from : Option (Text → Text × Bool) → Macros → ℕ → Text → Text × Bool
unfolding reference_body body_value
expand_from inner macros skip [] = ([], false)
expand_from inner macros (suc skip) (c ∷ s) = expand_from inner macros skip s
expand_from inner macros zero (c ∷ s) = elim (reference_body c s) [
  | none ↦ emit_char c (expand_from inner macros zero s)
  | some body ↦ elim (body_value inner macros body) [
    | some v ↦ emit_value v (expand_from inner macros (length body + 2) s)
    | none ↦
        emit_text (c ∷ take_text (length body + 2) s) (expand_from inner macros (length body + 2) s)
  ]
]

-- `_expand_once`; the depth is what `_MAX_NAME_EXPANSION_DEPTH` leaves for names in names.
unfoldable pub expand_once : ℕ → Macros → Text → Text × Bool
unfolding expand_from
expand_once zero macros text = expand_from none macros zero text
expand_once (suc depth) macros text = expand_from (some (expand_once depth macros)) macros zero text

-- `substitute`, with its default `max_depth=10`
unfoldable pub substitute : Text → Macros → Text
unfolding repeat_while_changed expand_once
substitute text macros = repeat_while_changed 10 (expand_once max_name_expansion_depth macros) text
