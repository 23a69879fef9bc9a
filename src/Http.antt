-- ===== src/Http.antt =====
-- internal/infra/http: what the handlers read of a request, and the responses they write.
pub mod Handlers
pub mod Idempotency
pub mod Metrics
pub mod Router
use ledger_engine.Prelude.{ℕ, String, Option, List, [], ◌∷◌}

abbrev pub Bytes : Type 0
Bytes = List ℕ

-- r.Method, r.URL.Path, the header Idempotency-Key, the URL parameter accountID, and the body
pub record Request : Type 0 where
  pub method : String
  pub path : String
  pub idempotency_key : String
  pub account_id : String
  pub body : Bytes

-- A status of 0 is that of a handler that calls no WriteHeader.
pub record Response : Type 0 where
  pub status : ℕ
  pub headers : List (String × String)
  pub body : Bytes

-- writeJSON(w, status, v), where `body` is what `json.Encoder` makes of `v`
abbrev pub write_json : ℕ → Bytes → Response
write_json status body = record {
  status = status;
  headers = ("Content-Type", "application/json") ∷ [];
  body = body;
}

-- http.Handler over a state; there is no response where it panics.
abbrev pub Handler : Type 0 → Type 0
Handler S = Request → S → Option Response × S
