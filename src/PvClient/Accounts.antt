-- ===== src/PvClient/Accounts.antt =====
-- The results and the errors of a batch against the answers for its names.
use epics_mcp_server.Prelude.{
  ◌≡◌, refl, sym, ◌⊎◌, inl, inr, Bool, true, false, ◌||◌, List, [], ◌∷◌, if◌then◌else◌,
}
use mathlib.Core.Path.{subst}
use epics_mcp_server.Prelude.Texts.{Text, codes, contains}
use epics_mcp_server.Errors.{pv_not_found, epics_connection}
use epics_mcp_server.PvClient.{
  classify_p4p_error, read_outcome, shown, Provider, Formatting, formatted, crashed, Answer, answer,
  timed_out, cancelled, failed, Outcome, done, refused, aborted, BatchError, not_found, timeout,
  message, error_of, BatchResult, with_result, add_outcome, add_formatting, pv_get, read_each,
  format_each,
}

pub done-inj : {A : Type 0} {a b : A} → done a ≡ done b → a ≡ b
done-inj h = cc

-- The values of a batch, each as the answer for its name.
abbrev pub answers : {V : Type 0} → List Text → List V → List (Text × Answer V)
answers (name ∷ names) (v ∷ vs) = (name, answer v) ∷ answers names vs
answers _ _ = []

module _ {V E : Type 0} (p : Provider V E) where
  -- The answers to reading each name on its own.
  abbrev pub own_answers : List Text → List (Text × Answer V)
  own_answers [] = []
  own_answers (name ∷ names) = (name, p.get name) ∷ own_answers names

  -- The entry of an error of that text: as a missing PV, if it is classified so, or else with its text.
  abbrev pub IsText : Text → BatchError → Type 0
  IsText cause x =
      (x ≡ message cause) ⊎ ((x ≡ not_found) × (classify_p4p_error p.lower cause ≡ pv_not_found))

  -- The error of an answer: it is none, or a value that cannot be formatted.
  abbrev pub IsError : Text → Answer V → BatchError → Type 0
  IsError name (answer v) x = (cause : Text) × (p.format name v ≡ crashed cause) × IsText cause x
  IsError name timed_out x = x ≡ timeout
  IsError name cancelled x = ⊥
  IsError name (failed cause) x = IsText cause x

  -- The results and the errors are those of the answers: each answer has one entry, in its place, with
  -- its own value, formatted, or its own error.
  pub data Accounts
      : List (Text × Answer V) → List (Text × E) → List (Text × BatchError) → Type 0 where
    nothing : Accounts [] [] []
    result :
        {name : Text} {v : V} {e : E} {given : List (Text × Answer V)} {rs : List (Text × E)}
        {fs : List (Text × BatchError)}
        → p.format name v ≡ formatted e
        → Accounts given rs fs
        → Accounts ((name, answer v) ∷ given) ((name, e) ∷ rs) fs
    error :
        {name : Text} {a : Answer V} {x : BatchError} {given : List (Text × Answer V)}
        {rs : List (Text × E)} {fs : List (Text × BatchError)}
        → IsError name a x
        → Accounts given rs fs
        → Accounts ((name, a) ∷ given) rs ((name, x) ∷ fs)

  abbrev pub AccountsFor : List (Text × Answer V) → BatchResult E → Type 0
  AccountsFor given b = Accounts given b.results b.errors

  formatting-Accounts :
      (given : List (Text × Answer V)) (name : Text) (v : V) (f : Formatting E) (b : BatchResult E)
      → p.format name v ≡ f
      → AccountsFor given b
      → AccountsFor ((name, answer v) ∷ given) (add_formatting name f b)
  formatting-Accounts given name v (formatted e) b h a = result h a
  formatting-Accounts given name v (crashed cause) b h a = error (cause, h, inl refl) a

  pub format_each-Accounts :
      (names : List Text) (vs : List V) → AccountsFor (answers names vs) (format_each p names vs)
  unfolding format_each
  format_each-Accounts [] vs = nothing
  format_each-Accounts (name ∷ names) [] = nothing
  format_each-Accounts (name ∷ names) (v ∷ vs) =
      formatting-Accounts (answers names vs) name v (p.format name v) (format_each p names vs) refl
        (format_each-Accounts names vs)

  -- What one read comes to, as an entry
  abbrev IsEntry : Text → Answer V → Outcome E → Type 0
  IsEntry name a (done e) = (v : V) × (a ≡ answer v) × (p.format name v ≡ formatted e)
  IsEntry name a (refused x cause) = IsError name a (error_of x cause)
  IsEntry name a aborted = Unit {0}

  classified-IsText :
      (cause : Text) (b : Bool)
      → (classify_p4p_error p.lower cause ≡ (if b then pv_not_found else epics_connection))
      → IsText cause (error_of (classify_p4p_error p.lower cause) cause)
  classified-IsText cause true h = rw h (inr (refl, refl))
  classified-IsText cause false h = rw h (inl refl)

  class-IsText : (cause : Text) → IsText cause (error_of (classify_p4p_error p.lower cause) cause)
  unfolding classify_p4p_error
  class-IsText cause =
      classified-IsText cause
        (contains (codes "not found") (p.lower cause) || contains (codes "search") (p.lower cause))
        refl

  shown-IsEntry :
      (name : Text) (v : V) (f : Formatting E)
      → p.format name v ≡ f
      → IsEntry name (answer v) (shown p f)
  shown-IsEntry name v (formatted e) h = (v, refl, h)
  shown-IsEntry name v (crashed cause) h = (cause, h, class-IsText cause)

  read-IsEntry : (name : Text) (a : Answer V) → IsEntry name a (read_outcome p name a)
  read-IsEntry name (answer v) = shown-IsEntry name v (p.format name v) refl
  read-IsEntry name timed_out = refl
  read-IsEntry name cancelled = tt
  read-IsEntry name (failed cause) = class-IsText cause

  outcome-Accounts :
      (given : List (Text × Answer V)) (name : Text) (a : Answer V) (o : Outcome E)
      (rest : Outcome (BatchResult E)) (b : BatchResult E)
      → IsEntry name a o
      → ((c : BatchResult E) → rest ≡ done c → AccountsFor given c)
      → add_outcome name o rest ≡ done b
      → AccountsFor ((name, a) ∷ given) b
  outcome-Accounts given name a (done e) (done c) b (v, f, k) accounts h =
      subst (AccountsFor ((name, a) ∷ given)) (done-inj h) (
        subst (λ x. AccountsFor ((name, x) ∷ given) (with_result name e c)) (sym f)
          (result k (accounts c refl)))
  outcome-Accounts given name a (refused x cause) (done c) b k accounts h =
      subst (AccountsFor ((name, a) ∷ given)) (done-inj h) (error k (accounts c refl))
  outcome-Accounts given name a aborted rest b k accounts h = cc
  outcome-Accounts given name a (done e) (refused y c) b k accounts h = cc
  outcome-Accounts given name a (done e) aborted b k accounts h = cc
  outcome-Accounts given name a (refused x cause) (refused y c) b k accounts h = cc
  outcome-Accounts given name a (refused x cause) aborted b k accounts h = cc

  pub read_each-Accounts :
      (names : List Text) (b : BatchResult E)
      → read_each p names ≡ done b
      → AccountsFor (own_answers names) b
  unfolding read_each pv_get
  read_each-Accounts [] b h = subst (AccountsFor []) (done-inj h) nothing
  read_each-Accounts (name ∷ names) b h =
      outcome-Accounts (own_answers names) name (p.get name) (pv_get p name) (read_each p names) b
        (read-IsEntry name (p.get name)) (read_each-Accounts names) h
