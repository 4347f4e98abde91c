-- ===== src/PvClient/Batch.antt =====
-- The envelope of `pv_get_batch` against the names that were asked for.
use epics_mcp_server.Prelude.{
  ℕ, ◌≤◌, ◌≡◌, refl, ap, ◌∙◌, ◌≢◌, ◌↔◌, inl, inr, false, List, [], ◌∷◌, arith, ltb, ◌==◌, ==_iff,
  Bool-cases, length,
}
use mathlib.Core.Path.{subst}
use epics_mcp_server.Prelude.Texts.{Text}
use epics_mcp_server.PvClient.{
  no_entries, with_error, read_outcome, shown, batch_outcome, Provider, Formatting, formatted,
  crashed, Answer, answer, timed_out, cancelled, failed, Outcome, done, refused, aborted,
  BatchError, error_of, BatchResult, with_result, add_outcome, pv_get, read_each, format_each,
  pv_get_batch,
}
use epics_mcp_server.PvClient.Accounts.{
  done-inj, answers, own_answers, IsError, Accounts, nothing, result, error, AccountsFor,
  format_each-Accounts, read_each-Accounts,
}

module _ {V E : Type 0} (p : Provider V E) where
  -- The envelope is that of the values of the batch, or, where it timed out or failed, of the reads of
  -- the names on their own.
  abbrev pub IsEnvelope : List Text → BatchResult E → Answer (List V) → Type 0
  IsEnvelope names b (answer vs) = (length vs ≡ length names) × AccountsFor p (answers names vs) b
  IsEnvelope names b timed_out = AccountsFor p (own_answers p names) b
  IsEnvelope names b cancelled = ⊥
  IsEnvelope names b (failed cause) = AccountsFor p (own_answers p names) b

  native-IsEnvelope :
      (names : List Text) (a : Answer (List V)) (b : BatchResult E)
      → batch_outcome p names a ≡ done b
      → IsEnvelope names b a
  native-IsEnvelope names (answer vs) b h = elim (Bool-cases (length vs == length names)) [
    | inl e ↦ (
      (==_iff (length vs) (length names)).0 e,
      subst (AccountsFor p (answers names vs)) (done-inj (rw e at h))
          (format_each-Accounts p names vs),
    )
    | inr n ↦ cc (rw n at h)
  ]
  native-IsEnvelope names timed_out b h = read_each-Accounts p names b h
  native-IsEnvelope names (failed cause) b h = read_each-Accounts p names b h
  native-IsEnvelope names cancelled b h = cc

  -- No read was cancelled by an exception that is not caught.
  abbrev pub NoneCancelled : List (Text × Answer V) → Type 0
  NoneCancelled [] = Unit {0}
  NoneCancelled ((name, a) ∷ given) = (a ≢ cancelled) × NoneCancelled given

  IsError-ne-cancelled :
      (name : Text) (a : Answer V) (x : BatchError) → IsError p name a x → a ≢ cancelled
  IsError-ne-cancelled name (answer v) x h = λ e. cc
  IsError-ne-cancelled name timed_out x h = λ e. cc
  IsError-ne-cancelled name cancelled x h = absurd h
  IsError-ne-cancelled name (failed cause) x h = λ e. cc

  Accounts-NoneCancelled :
      {given : List (Text × Answer V)} {rs : List (Text × E)} {fs : List (Text × BatchError)}
      → Accounts p given rs fs
      → NoneCancelled given
  Accounts-NoneCancelled nothing = tt
  Accounts-NoneCancelled (result h k) = (λ e. cc, Accounts-NoneCancelled k)
  Accounts-NoneCancelled (error {name} {a} {x} h k) =
      (IsError-ne-cancelled name a x h, Accounts-NoneCancelled k)

  shown-ne-aborted : (f : Formatting E) → shown p f ≢ aborted
  shown-ne-aborted (formatted e) h = cc
  shown-ne-aborted (crashed cause) h = cc

  read-ne-aborted : (name : Text) (a : Answer V) → a ≢ cancelled → read_outcome p name a ≢ aborted
  read-ne-aborted name (answer v) n = shown-ne-aborted (p.format name v)
  read-ne-aborted name timed_out n = λ h. cc
  read-ne-aborted name cancelled n = λ h. n refl
  read-ne-aborted name (failed cause) n = λ h. cc

  added :
      (name : Text) (o : Outcome E) (b : BatchResult E)
      → o ≢ aborted
      → (c : BatchResult E) × (add_outcome name o (done b) ≡ done c)
  added name (done e) b n = (with_result name e b, refl)
  added name (refused x cause) b n = (with_error name (error_of x cause) b, refl)
  added name aborted b n = absurd (n refl)

  read_each_done :
      (names : List Text)
      → NoneCancelled (own_answers p names)
      → (b : BatchResult E) × (read_each p names ≡ done b)
  unfolding read_each pv_get
  read_each_done [] h = (no_entries, refl)
  read_each_done (name ∷ names) h =
      let (b, e) = read_each_done names h.1 in
      let (c, f) =
        added name (read_outcome p name (p.get name)) b (read-ne-aborted name (p.get name) h.0) in
      (c, ap (add_outcome name (read_outcome p name (p.get name))) e ∙ f)

  -- The batch is answered with as many values as names, or it timed out or failed, and then no read of
  -- a name on its own was cancelled.
  abbrev pub IsAnswered : List Text → Answer (List V) → Type 0
  IsAnswered names (answer vs) = length vs ≡ length names
  IsAnswered names timed_out = NoneCancelled (own_answers p names)
  IsAnswered names cancelled = ⊥
  IsAnswered names (failed cause) = NoneCancelled (own_answers p names)

  envelope-IsAnswered :
      (names : List Text) (b : BatchResult E) (a : Answer (List V))
      → IsEnvelope names b a
      → IsAnswered names a
  envelope-IsAnswered names b (answer vs) h = h.0
  envelope-IsAnswered names b timed_out h = Accounts-NoneCancelled h
  envelope-IsAnswered names b cancelled h = h
  envelope-IsAnswered names b (failed cause) h = Accounts-NoneCancelled h

  batch_done :
      (names : List Text) (a : Answer (List V))
      → IsAnswered names a
      → (b : BatchResult E) × (batch_outcome p names a ≡ done b)
  batch_done names (answer vs) h =
      (format_each p names vs, rw ((==_iff (length vs) (length names)).1 h) refl)
  batch_done names timed_out h = read_each_done names h
  batch_done names cancelled h = absurd h
  batch_done names (failed cause) h = read_each_done names h

  module _ (most : ℕ) (names : List Text) where
    -- When a batch answers, and what its envelope holds.
    pub record IsBatch : Type 0 where
      pub answers_iff :
          ((b : BatchResult E) × (pv_get_batch p most names ≡ done b))
          ↔ ((length names ≤ most) × IsAnswered names (p.get_all names))
      pub accounts :
          (b : BatchResult E)
          → pv_get_batch p most names ≡ done b
          → IsEnvelope names b (p.get_all names)

    enveloped :
        (b : BatchResult E)
        → pv_get_batch p most names ≡ done b
        → (length names ≤ most) × IsEnvelope names b (p.get_all names)
    unfolding pv_get_batch
    enveloped b h = elim (Bool-cases (ltb most (length names))) [
      | inl e ↦ cc (rw e at h)
      | inr n ↦ (ground arith, native-IsEnvelope names (p.get_all names) b (rw n at h))
    ]

    within : length names ≤ most → ltb most (length names) ≡ false
    within h = ground (arith, h)

    -- A batch answers exactly if it is no larger than allowed, and it is answered with as many values
    -- as names, or it timed out or failed, and then no read of a name on its own was cancelled. It
    -- loses no PV: its envelope has one entry for every name, in its place, which is a result with
    -- the formatted value that was answered for this name, or an error with what went wrong with it.
    -- The values are those of the batch, or, where it timed out or failed, those of reading each name
    -- on its own.
    pub pv_get_batch-IsBatch : IsBatch
    unfolding pv_get_batch
    pv_get_batch-IsBatch = record {
      answers_iff = (
        λ h.
            let (l, k) = enveloped h.0 h.1 in
            (l, envelope-IsAnswered names h.0 (p.get_all names) k),
        λ h. let (b, e) = batch_done names (p.get_all names) h.1 in (b, rw (within h.0) e),
      );
      accounts = λ b h. (enveloped b h).1;
    }
