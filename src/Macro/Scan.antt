-- ===== src/Macro/Scan.antt =====
-- The scanners of references: what they take apart, and where they stop.
use mathlib.Core.List.{tail-eq_of_cons-eq}
use epics_mcp_server.Prelude.{
  ℕ, ◌≡◌, refl, sym, ap, ◌∙◌, ◌⊎◌, inl, inr, Bool, true, false, Option, none, some, List, [], ◌∷◌,
  ◌++◌, arith, if◌then◌else◌, Bool-cases,
}
use epics_mcp_server.Prelude.Texts.{Text}
use epics_mcp_server.Macro.{
  before_body, before_name, is_separator, Move, push, pop, keep, move, find_closing,
  split_body_from, split_body,
}

-- A move that pops does so at the innermost closer.
move_pops :
    (expected more : List ℕ) (c : ℕ) (s : Text) → move expected c s ≡ pop more → expected ≡ c ∷ more
unfolding move
move_pops [] more c s h = ground arith
move_pops (e ∷ expected) more c s h = ground arith

before_body-some :
    (c : ℕ) (o : Option (Text × Text)) (body rest : Text)
    → before_body c o ≡ some (body, rest)
    → (tail : Text) × (o ≡ some (tail, rest)) × (body ≡ c ∷ tail)
before_body-some c none body rest h = cc
before_body-some c (some (b, r)) body rest h = (b, ground arith, ground arith)

module _ (expected : List ℕ) (c : ℕ) (s : Text) where
  find_push :
      (closer : ℕ)
      → move expected c s ≡ push closer
      → find_closing false expected (c ∷ s)
        ≡ before_body c (find_closing true (closer ∷ expected) s)
  unfolding find_closing
  find_push closer e = rw (e, find_closing) refl

  find_keep :
      move expected c s ≡ keep
      → find_closing false expected (c ∷ s) ≡ before_body c (find_closing false expected s)
  unfolding find_closing
  find_keep e = rw (e, find_closing) refl

  find_last : move expected c s ≡ pop [] → find_closing false expected (c ∷ s) ≡ some ([], s)
  unfolding find_closing
  find_last e = rw (e, find_closing) refl

  find_pop :
      (more : List ℕ) (k : ℕ)
      → move expected c s ≡ pop (more ++ k ∷ [])
      → find_closing false expected (c ∷ s) ≡ before_body c (find_closing false (more ++ k ∷ []) s)
  unfolding find_closing
  find_pop [] k e = rw (e, find_closing) refl
  find_pop (m ∷ more) k e = rw (e, find_closing) refl

-- The text of a step that goes on in the body.
step_in_body :
    (c k : ℕ) (s : Text) (o : Option (Text × Text)) (body rest : Text)
    → ((b : Text) → o ≡ some (b, rest) → s ≡ b ++ k ∷ rest)
    → before_body c o ≡ some (body, rest)
    → c ∷ s ≡ body ++ k ∷ rest
step_in_body c k s o body rest ih h =
    let (tail, e, b) = before_body-some c o body rest h in
    rw b (ap (λ (t : Text). c ∷ t) (ih tail e))

last_step :
    (c k : ℕ) (s body rest : Text)
    → k ≡ c
    → ◌≡◌ {A = Option (Text × Text)} (some ([], s)) (some (body, rest))
    → c ∷ s ≡ body ++ k ∷ rest
last_step c k s [] rest e h = ground arith
last_step c k s (b ∷ body) rest e h = ground arith

module _ {c k : ℕ} {s body rest : Text}
    (ih : (b : Bool) (x : Text) (es : List ℕ)
      → find_closing b (es ++ k ∷ []) s ≡ some (x, rest)
      → s ≡ x ++ k ∷ rest) where
  pop_step :
      (es more : List ℕ)
      → es ++ k ∷ [] ≡ c ∷ more
      → move (es ++ k ∷ []) c s ≡ pop more
      → find_closing false (es ++ k ∷ []) (c ∷ s) ≡ some (body, rest)
      → c ∷ s ≡ body ++ k ∷ rest
  pop_step [] more same e h =
      last_step c k s body rest (ground arith)
        (sym (find_last (k ∷ []) c s (e ∙ ap pop (ground (arith, same)))) ∙ h)
  pop_step (x ∷ es) more same e h =
      step_in_body c k s (find_closing false (es ++ k ∷ []) s) body rest (λ b. ih false b es)
        (sym (find_pop (x ∷ es ++ k ∷ []) c s es k (e ∙ ap pop (sym (tail-eq_of_cons-eq same))))
          ∙ h)

  find_step :
      (expected : List ℕ) (m : Move)
      → move (expected ++ k ∷ []) c s ≡ m
      → find_closing false (expected ++ k ∷ []) (c ∷ s) ≡ some (body, rest)
      → c ∷ s ≡ body ++ k ∷ rest
  find_step expected (push closer) e h =
      step_in_body c k s (find_closing true (closer ∷ expected ++ k ∷ []) s) body rest
        (λ b. ih true b (closer ∷ expected)) (sym (find_push (expected ++ k ∷ []) c s closer e) ∙ h)
  find_step expected keep e h =
      step_in_body c k s (find_closing false (expected ++ k ∷ []) s) body rest
        (λ b. ih false b expected) (sym (find_keep (expected ++ k ∷ []) c s e) ∙ h)
  find_step expected (pop more) e h =
      pop_step expected more (move_pops (expected ++ k ∷ []) more c s e) e h

-- Where a scan waits for the bracket `k` last, the bracket that it finds is `k`.
find_closing_parts :
    (s : Text) (bracket : Bool) (expected : List ℕ) (k : ℕ) (body rest : Text)
    → find_closing bracket (expected ++ k ∷ []) s ≡ some (body, rest)
    → s ≡ body ++ k ∷ rest
unfolding find_closing
find_closing_parts [] bracket expected k body rest h = cc
find_closing_parts (c ∷ s) true expected k body rest h =
    step_in_body c k s (find_closing false (expected ++ k ∷ []) s) body rest
      (λ b. find_closing_parts s false expected k b rest) h
find_closing_parts (c ∷ s) false expected k body rest h =
    find_step (λ b x es. find_closing_parts s b es k x rest) expected
      (move (expected ++ k ∷ []) c s) refl h

-- `_find_closing_bracket` stops at a bracket of the reference's own kind: the body, that bracket and
-- the text behind it are the text.
pub find_closing_lem :
    (closer : ℕ) (s body rest : Text)
    → find_closing false (closer ∷ []) s ≡ some (body, rest)
    → s ≡ body ++ closer ∷ rest
find_closing_lem closer s body rest h = find_closing_parts s false [] closer body rest h

-- A body is taken apart into the name and a rest that is empty or begins with a separator.
record Parts (p : Text × Text) (s : Text) : Type 0 where
  joined : p.0 ++ p.1 ≡ s
  separated : (p.1 ≡ []) ⊎ ((c : ℕ) × (t : Text) × (p.1 ≡ c ∷ t) × (is_separator c ≡ true))

Parts-before_name :
    (c : ℕ) (p : Text × Text) (s : Text) → Parts p s → Parts (before_name c p) (c ∷ s)
Parts-before_name c (name, rest) s h = record {
  joined = ap (λ (t : Text). c ∷ t) h.joined;
  separated = h.separated;
}

split_top :
    (c : ℕ) (s : Text) (p : Text × Text)
    → Parts p s
    → Parts (if is_separator c then ([], c ∷ s) else before_name c p) (c ∷ s)
split_top c s p h = elim (Bool-cases (is_separator c)) [
  | inl e ↦ rw e (record { joined = refl; separated = inr (c, s, refl, e) })
  | inr e ↦ rw e (Parts-before_name c p s h)
]

split_step :
    (c : ℕ) (s : Text) (es : List ℕ) (m : Move)
    → ((b : Bool) (fs : List ℕ) → Parts (split_body_from b fs s) s)
    → Parts
        (elim m [
          | push closer ↦ before_name c (split_body_from true (closer ∷ es) s)
          | pop more ↦ before_name c (split_body_from false more s)
          | keep ↦
              let longer = before_name c (split_body_from false es s) in
              elim es [ [] ↦ if is_separator c then ([], c ∷ s) else longer | e ∷ more ↦ longer ]
        ])
        (c ∷ s)
split_step c s es (push closer) ih =
    Parts-before_name c (split_body_from true (closer ∷ es) s) s (ih true (closer ∷ es))
split_step c s es (pop more) ih =
    Parts-before_name c (split_body_from false more s) s (ih false more)
split_step c s [] keep ih = split_top c s (split_body_from false [] s) (ih false [])
split_step c s (e ∷ es) keep ih =
    Parts-before_name c (split_body_from false (e ∷ es) s) s (ih false (e ∷ es))

split_body_from-Parts :
    (s : Text) (bracket : Bool) (expected : List ℕ) → Parts (split_body_from bracket expected s) s
unfolding split_body_from
split_body_from-Parts [] bracket expected = record { joined = refl; separated = inl refl }
split_body_from-Parts (c ∷ s) true expected =
    Parts-before_name c (split_body_from false expected s) s
      (split_body_from-Parts s false expected)
split_body_from-Parts (c ∷ s) false expected =
    split_step c s expected (move expected c s) (λ b es. split_body_from-Parts s b es)

-- `_split_body` loses nothing, and what it takes for the rest is empty or begins with `=` or `,`.
pub split_body_lem :
    (body : Text)
    → ((split_body body).0 ++ (split_body body).1 ≡ body)
      × (((split_body body).1 ≡ [])
          ⊎ ((c : ℕ) × (t : Text) × ((split_body body).1 ≡ c ∷ t) × (is_separator c ≡ true)))
unfolding split_body
split_body_lem body = let p = split_body_from-Parts body false [] in (p.joined, p.separated)
