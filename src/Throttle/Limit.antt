-- ===== src/Throttle/Limit.antt =====
-- What a sequence of reads through the throttle gives.
use epics_mcp_server.Prelude.{ℕ, zero, suc, ◌≡◌, refl, ap, ◌∙◌, List, [], ◌∷◌, map}
use epics_mcp_server.Prelude.Int.{ℤ, pos, negsuc}
use epics_mcp_server.Errors.{Result, ok}
use epics_mcp_server.Window.{acquire, verdicts}
use epics_mcp_server.Window.History.{Ascends}
use epics_mcp_server.Window.Limit.{history_verdicts, verdicts_refine_history}
use epics_mcp_server.Throttle.{ReadThrottle, start, check, reads, throttle_verdict}

-- The specification: a limit of 0 or less admits every read; another refuses exactly the reads with
-- `limit` admissions in the 60 seconds up to them.
pub expected_reads : ℤ → List ℕ → List (Result (Unit {0}))
expected_reads (negsuc n) calls = map (λ _. ok tt) calls
expected_reads (pos zero) calls = map (λ _. ok tt) calls
expected_reads (pos (suc n)) calls = map throttle_verdict (history_verdicts (suc n) [] calls)

reads-eq-verdicts :
    (n : ℕ) (ts calls : List ℕ)
    → reads (record { limit = pos (suc n); timestamps = ts }) calls
      ≡ map throttle_verdict (verdicts (suc n) ts calls)
unfolding reads check verdicts acquire
reads-eq-verdicts n ts [] = refl
reads-eq-verdicts n ts (now ∷ calls) =
    let a = acquire (suc n) now ts in
    ap (λ (l : List (Result (Unit {0}))). throttle_verdict a.over_limit ∷ l)
      (reads-eq-verdicts n a.timestamps calls)

-- A throttle that `check` leaves as it is and that admits every read.
reads_disabled :
    (t : ReadThrottle)
    → ((now : ℕ) → check t now ≡ (ok tt, t))
    → (calls : List ℕ) → reads t calls ≡ map (λ _. ok tt) calls
unfolding reads
reads_disabled t h [] = refl
reads_disabled t h (now ∷ calls) =
    rw (h now) (ap (λ (l : List (Result (Unit {0}))). ok tt ∷ l) (reads_disabled t h calls))

-- On a clock that does not run back, a throttle that is switched off (a limit of 0 or less) admits
-- every read, and one with a limit above 0 raises the read limit's own error for exactly the reads
-- before which that many were admitted in the last 60 seconds.
pub reads_refine_history :
    (limit : ℤ) (calls : List ℕ)
    → Ascends 0 calls
    → reads (start limit) calls ≡ expected_reads limit calls
unfolding start check expected_reads
reads_refine_history (negsuc n) calls h = reads_disabled (start (negsuc n)) (λ now. refl) calls
reads_refine_history (pos zero) calls h = reads_disabled (start (pos zero)) (λ now. refl) calls
reads_refine_history (pos (suc n)) calls h =
    reads-eq-verdicts n [] calls
    ∙ ap (map throttle_verdict) (verdicts_refine_history (suc n) calls h)
