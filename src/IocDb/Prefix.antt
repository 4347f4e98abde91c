-- ===== src/IocDb/Prefix.antt =====
-- The prefix of an IOC against the votes of its loads.
use epics_mcp_server.Prelude.{
  ℕ, ◌≤◌, ◌≡◌, refl, sym, ◌⊎◌, inl, inr, true, false, Option, none, some, List, [], ◌∷◌, arith,
  Bool-cases, All,
}
use epics_mcp_server.Prelude.Texts.{Text, Among}
use epics_mcp_server.IocDb.{
  Patterns, count_votes, beats, winner, dominant, prefix_votes, parse_st_cmd,
}

-- No text of the list has more of the votes.
abbrev pub NoneAbove : List Text → ℕ → List Text → Type 0
NoneAbove votes n = All (λ q. count_votes q votes ≤ n)

NoneAbove-weaken :
    (votes : List Text) (m n : ℕ) (ps : List Text)
    → m ≤ n
    → NoneAbove votes m ps
    → NoneAbove votes n ps
NoneAbove-weaken votes m n [] h k = k
NoneAbove-weaken votes m n (p ∷ ps) h (k, ks) = (omega arith, NoneAbove-weaken votes m n ps h ks)

beats-le :
    (votes : List Text) (p q : Text)
    → beats votes q p ≡ true
    → count_votes p votes ≤ count_votes q votes
beats-le votes p q h = ground arith

loses-le :
    (votes : List Text) (p q : Text)
    → beats votes q p ≡ false
    → count_votes q votes ≤ count_votes p votes
loses-le votes p q h = ground arith

dominant-none : (votes ps : List Text) → dominant votes ps ≡ none → ps ≡ []
unfolding dominant
dominant-none votes [] h = refl
dominant-none votes (p ∷ ps) h = cc

some_injective : {p q : Text} → some p ≡ some q → p ≡ q
some_injective h = cc

-- The winner over one more vote.
module _ (votes : List Text) (q r : Text) (qs : List Text) where
  stays :
      (p : Text)
      → Among r qs × NoneAbove votes (count_votes r votes) qs
      → count_votes q votes ≤ count_votes r votes
      → r ≡ p
      → ((q ≡ p) ⊎ Among p qs)
        × ((count_votes q votes ≤ count_votes p votes) × NoneAbove votes (count_votes p votes) qs)
  stays p (a, n) le e = rw (sym e) (inr a, (le, n))

  takes :
      (p : Text)
      → Among r qs × NoneAbove votes (count_votes r votes) qs
      → count_votes r votes ≤ count_votes q votes
      → q ≡ p
      → ((q ≡ p) ⊎ Among p qs)
        × ((count_votes q votes ≤ count_votes p votes) × NoneAbove votes (count_votes p votes) qs)
  takes p (a, n) le e = rw (sym e) (
    inl refl,
    (omega arith, NoneAbove-weaken votes (count_votes r votes) (count_votes q votes) qs le n),
  )

dominant_lem :
    (votes ps : List Text) (p : Text)
    → dominant votes ps ≡ some p
    → Among p ps × NoneAbove votes (count_votes p votes) ps
unfolding dominant
dominant_lem votes [] p h = cc
dominant_lem votes (q ∷ qs) p h =
    by_rest (dominant votes qs) (dominant_lem votes qs) (dominant-none votes qs) h
  where
    by_rest :
        (rest : Option Text)
        → ((r : Text) → rest ≡ some r → Among r qs × NoneAbove votes (count_votes r votes) qs)
        → (rest ≡ none → qs ≡ [])
        → some (winner votes q rest) ≡ some p
        → ((q ≡ p) ⊎ Among p qs)
          × ((count_votes q votes ≤ count_votes p votes) × NoneAbove votes (count_votes p votes) qs)
    by_rest none ih empty h = rw (empty refl, sym (some_injective h)) (inl refl, (omega arith, tt))
    by_rest (some r) ih empty h = elim (Bool-cases (beats votes r q)) [
      | inl b ↦ stays votes q r qs p (ih r refl) (beats-le votes q r b) (some_injective (rw b at h))
      | inr b ↦ takes votes q r qs p (ih r refl) (loses-le votes q r b) (some_injective (rw b at h))
    ]

-- The prefix of an IOC is the value of a vote, and no other value has more votes.
parse_st_cmd-prefix :
    (re : Patterns) (text p : Text)
    → (parse_st_cmd re text).prefix ≡ some p
    → Among p (prefix_votes (parse_st_cmd re text).loads)
      × NoneAbove
          (prefix_votes (parse_st_cmd re text).loads)
          (count_votes p (prefix_votes (parse_st_cmd re text).loads))
          (prefix_votes (parse_st_cmd re text).loads)
unfolding parse_st_cmd
parse_st_cmd-prefix re text p h = dominant_lem _ _ p h
