-- ===== src/Window/History.antt =====
-- The limiter's deque against the whole history of admissions: the two are related by `Tracks`,
-- which every call keeps while the clock does not run back.
use epics_mcp_server.Prelude.{
  ℕ, suc, ◌+◌, ◌-◌, ◌≤◌, ◌<◌, ◌≡◌, refl, sym, ◌∙◌, ◌&&◌, List, [], ◌∷◌, ◌++◌, arith, leb,
  if◌then◌else◌, length, All,
}
use epics_mcp_server.Window.{window, purge_old, push}

-- How many of the times lie between two instants, both included.
unfoldable pub count_in : ℕ → ℕ → List ℕ → ℕ
count_in a b [] = 0
count_in a b (t ∷ ts) = if leb a t && leb t b then suc (count_in a b ts) else count_in a b ts

-- How many of the times are not before an instant.
unfoldable pub count_from : ℕ → List ℕ → ℕ
count_from a [] = 0
count_from a (t ∷ ts) = if leb a t then suc (count_from a ts) else count_from a ts

-- Times in order of the calls, none before the first argument.
abbrev pub Ascends : ℕ → List ℕ → Type 0
Ascends lo [] = Unit
Ascends lo (t ∷ ts) = (lo ≤ t) × Ascends t ts

abbrev pub NotAfter : ℕ → List ℕ → Type 0
NotAfter now = All (λ t. t ≤ now)

-- The deque holds the part of the history that can still matter at `now`.
pub record Tracks (limit now : ℕ) (ts h : List ℕ) : Type 0 where
  pub past : NotAfter now h
  pub past_ts : NotAfter now ts
  pub recent : (a : ℕ) → now ≤ a + window → count_from a ts ≡ count_from a h
  pub ordered : Ascends 0 ts
  pub within : length ts ≤ limit

pub NotAfter-weaken : (a b : ℕ) (h : List ℕ) → a ≤ b → NotAfter a h → NotAfter b h
NotAfter-weaken a b [] le k = tt
NotAfter-weaken a b (t ∷ h) le (k, ks) = (omega arith, NotAfter-weaken a b h le ks)

pub Ascends-weaken : (lo lo' : ℕ) (ts : List ℕ) → lo ≤ lo' → Ascends lo' ts → Ascends lo ts
Ascends-weaken lo lo' [] le k = tt
Ascends-weaken lo lo' (t ∷ ts) le (k, ks) = (omega arith, ks)

NotAfter-purge_old : (b now : ℕ) (ts : List ℕ) → NotAfter b ts → NotAfter b (purge_old now ts)
unfolding purge_old
NotAfter-purge_old b now [] k = tt
NotAfter-purge_old b now (t ∷ ts) (k, ks) = ground (arith, NotAfter-purge_old b now ts ks)

Ascends-purge_old : (lo now : ℕ) (ts : List ℕ) → Ascends lo ts → Ascends lo (purge_old now ts)
unfolding purge_old
Ascends-purge_old lo now [] k = tt
Ascends-purge_old lo now (t ∷ ts) (k, ks) =
    ground (arith, Ascends-purge_old lo now ts (Ascends-weaken lo t ts k ks))

length-purge_old : (now : ℕ) (ts : List ℕ) → length (purge_old now ts) ≤ length ts
unfolding purge_old
length-purge_old now [] = omega arith
length-purge_old now (t ∷ ts) = ground (arith, length-purge_old now ts)

-- What is purged is older than any instant that a call at `now` or later looks back to.
pub count_from-purge_old :
    (a now : ℕ) (ts : List ℕ) → now ≤ a + window → count_from a (purge_old now ts) ≡ count_from a ts
unfolding purge_old count_from
count_from-purge_old a now [] h = refl
count_from-purge_old a now (t ∷ ts) h = ground (arith, count_from-purge_old a now ts h)

All-recent :
    (now t : ℕ) (ts : List ℕ) → now ≤ t + window → Ascends t ts → All (λ s. now ≤ s + window) ts
All-recent now t [] h k = tt
All-recent now t (s ∷ ts) h (k, ks) = (omega arith, All-recent now s ts (omega arith) ks)

recent-purge_old :
    (lo now : ℕ) (ts : List ℕ) → Ascends lo ts → All (λ s. now ≤ s + window) (purge_old now ts)
unfolding purge_old
recent-purge_old lo now [] k = tt
recent-purge_old lo now (t ∷ ts) (k, ks) =
    ground (arith, recent-purge_old t now ts ks, λ (h : now ≤ t + window). All-recent now t ts h ks)

count_from-All :
    (now : ℕ) (ts : List ℕ)
    → All (λ s. now ≤ s + window) ts
    → count_from (now - window) ts ≡ length ts
unfolding count_from
count_from-All now [] k = refl
count_from-All now (t ∷ ts) (k, ks) = ground (arith, count_from-All now ts ks)

-- Between `a` and an instant that no time passes, the count is the count from `a` on.
pub count_in-eq-count_from : (a b : ℕ) (h : List ℕ) → NotAfter b h → count_in a b h ≡ count_from a h
unfolding count_in count_from
count_in-eq-count_from a b [] k = refl
count_in-eq-count_from a b (t ∷ h) (k, ks) = ground (arith, count_in-eq-count_from a b h ks)

count_from-append : (a x : ℕ) (ts : List ℕ) → count_from a (ts ++ x ∷ []) ≡ count_from a (x ∷ ts)
unfolding count_from
count_from-append a x [] = refl
count_from-append a x (t ∷ ts) = ground (arith, count_from-append a x ts)

pub count_from-le-length : (a : ℕ) (ts : List ℕ) → count_from a ts ≤ length ts
unfolding count_from
count_from-le-length a [] = omega arith
count_from-le-length a (t ∷ ts) = ground (arith, count_from-le-length a ts)

-- Below its bound a deque drops nothing.
push-eq-append :
    (limit : ℕ) (ts : List ℕ) (now : ℕ) → length ts < limit → push limit ts now ≡ ts ++ now ∷ []
unfolding push
push-eq-append limit [] now h = ground arith
push-eq-append limit (t ∷ ts) now h = ground arith

Ascends-append :
    (lo now : ℕ) (ts : List ℕ)
    → lo ≤ now
    → Ascends lo ts
    → NotAfter now ts
    → Ascends lo (ts ++ now ∷ [])
Ascends-append lo now [] le k p = (le, tt)
Ascends-append lo now (t ∷ ts) le (k, ks) (p, ps) = (k, Ascends-append t now ts p ks ps)

NotAfter-append : (now : ℕ) (ts : List ℕ) → NotAfter now ts → NotAfter now (ts ++ now ∷ [])
NotAfter-append now [] p = (omega arith, tt)
NotAfter-append now (t ∷ ts) (p, ps) = (p, NotAfter-append now ts ps)

length_append_one : (ts : List ℕ) (now : ℕ) → length (ts ++ now ∷ []) ≡ suc (length ts)
length_append_one [] now = refl
length_append_one (t ∷ ts) now = omega (arith, length_append_one ts now)

-- The purge at a later instant keeps the relation.
pub Tracks-purge_old :
    (limit before now : ℕ) (ts h : List ℕ)
    → before ≤ now
    → Tracks limit before ts h
    → Tracks limit now (purge_old now ts) h
Tracks-purge_old limit before now ts h le r = record {
  past = NotAfter-weaken before now h le r.past;
  past_ts = NotAfter-purge_old now now ts (NotAfter-weaken before now ts le r.past_ts);
  recent = λ a k. count_from-purge_old a now ts k ∙ r.recent a (omega arith);
  ordered = Ascends-purge_old 0 now ts r.ordered;
  within = omega (arith, length-purge_old now ts, r.within);
}

-- So does an admission at `now`, where there is room.
pub Tracks-push :
    (limit now : ℕ) (ts h : List ℕ)
    → length ts < limit
    → Tracks limit now ts h
    → Tracks limit now (push limit ts now) (now ∷ h)
Tracks-push limit now ts h room r = rw (push-eq-append limit ts now room) (record {
  past = (omega arith, r.past);
  past_ts = NotAfter-append now ts r.past_ts;
  recent = λ a k. count_from-append a now ts ∙ (unfold count_from in ground (arith, r.recent a k));
  ordered = Ascends-append 0 now ts (omega arith) r.ordered r.past_ts;
  within = omega (arith, length_append_one ts now);
})

-- The number of tokens that the purge leaves is the number of admissions in the last 60 seconds.
pub length-purge_old-eq-count_in :
    (limit before now : ℕ) (ts h : List ℕ)
    → before ≤ now
    → Tracks limit before ts h
    → length (purge_old now ts) ≡ count_in (now - window) now h
length-purge_old-eq-count_in limit before now ts h le r =
    let kept = Tracks-purge_old limit before now ts h le r in
    sym (count_from-All now (purge_old now ts) (recent-purge_old 0 now ts r.ordered))
    ∙ kept.recent (now - window) (omega arith)
    ∙ sym (count_in-eq-count_from (now - window) now h kept.past)
