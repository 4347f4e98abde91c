-- ===== src/Transport/Contract.antt =====
-- What a caller can read off the errors of a request for JSON.
use epics_mcp_server.Prelude.{
  ℕ, ◌≡◌, ◌↔◌, ◌⊎◌, inl, inr, Bool, true, false, not, ◌&&◌, Option, some, arith, Bool-cases,
  Option-cases,
}
use epics_mcp_server.Json.{Json}
use epics_mcp_server.Transport.{
  ErrorClass, connection_error, ssl_error, retry_error, invalid_error, request_error, Answer,
  responded, failed, Outcome, conn_exc, by_class, translated, is_error_status, json_of, http_status,
  is_ssl_error, is_retry_error,
}

abbrev pub IsConnError : {A : Type 0} → Outcome A → Type 0
IsConnError (conn_exc e) = Unit {0}
IsConnError _ = ⊥

-- A failure of that class.
abbrev pub FailedBy : ErrorClass → Answer → Type 0
FailedBy k (failed e) = e.class ≡ k
FailedBy k (responded r) = ⊥

-- The server answered with an error status, or the failure carries the response with that status.
abbrev pub Served : Bool → ℕ → Answer → Type 0
Served allow_redirects status (failed e) = e.response ≡ some status
Served allow_redirects status (responded r) =
    (r.status_code ≡ status)
    × (is_error_status status ≡ true)
    × (not allow_redirects && r.is_redirect ≡ false)

-- The errors of a request against its answer.
pub record IsReported (allow_redirects : Bool) (a : Answer) (o : Outcome Json) (s : ℕ)
    : Type 0 where
  pub unreachable : IsConnError o ↔ (FailedBy connection_error a ⊎ FailedBy ssl_error a)
  pub ssl : (is_ssl_error o ≡ true) ↔ FailedBy ssl_error a
  pub retry : (is_retry_error o ≡ true) ↔ FailedBy retry_error a
  pub status : (http_status o ≡ some s) ↔ Served allow_redirects s a

failed-IsReported :
    (allow_redirects : Bool) (k : ErrorClass) (r : Option ℕ) (s : ℕ)
    → IsReported allow_redirects
        (failed (record { class = k; response = r }))
        (by_class k (record { class = k; response = r }))
        s
unfolding is_ssl_error is_retry_error http_status
failed-IsReported allow_redirects connection_error r s = ground arith
failed-IsReported allow_redirects ssl_error r s = ground arith
failed-IsReported allow_redirects retry_error r s = ground arith
failed-IsReported allow_redirects invalid_error r s = ground arith
failed-IsReported allow_redirects request_error r s = ground arith

-- Every error of a request for JSON tells its cause: it is the connection error exactly if the request
-- failed with a ConnectionError, a TLS error or an exhausted retry is told exactly where one happened,
-- and a status exactly if the server answered with that error status, or the failure carries it. A
-- redirect that is refused tells no status.
pub json_of-IsReported :
    (allow_redirects : Bool) (a : Answer) (s : ℕ)
    → IsReported allow_redirects a (json_of allow_redirects a) s
unfolding json_of translated is_ssl_error is_retry_error http_status
json_of-IsReported allow_redirects (failed e) s =
    failed-IsReported allow_redirects e.class e.response s
json_of-IsReported allow_redirects (responded r) s =
    elim (Bool-cases (not allow_redirects && r.is_redirect)) [
      | inl e ↦ rw e (ground arith)
      | inr e ↦ elim (Bool-cases (is_error_status r.status_code)) [
        | inl f ↦ rw (e, f) (ground arith)
        | inr f ↦ elim (Option-cases r.json) [
          | inl g ↦ rw (e, f, g) (ground arith)
          | inr (j, g) ↦ rw (e, f, g) (ground arith)
        ]
      ]
    ]
