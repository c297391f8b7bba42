-- ===== src/Server/Error.antt =====
-- `AppError` and its response, crates/secrets-server/src/error.rs.
use secrets_manager.Prelude.{ℕ, Bytes, ascii}

pub data AppError : Type 0 where
  unauthorized forbidden not_found payload_too_large : AppError
  bad_request conflict internal : Bytes → AppError

-- `into_response`: the status and the message of the body.
unfoldable pub into_response : AppError → ℕ × Bytes
into_response unauthorized = (401, ascii "unauthorized")
into_response forbidden = (403, ascii "forbidden")
into_response not_found = (404, ascii "not found")
into_response (bad_request m) = (400, m)
into_response (conflict m) = (409, m)
into_response payload_too_large = (413, ascii "payload too large")
into_response (internal tag) = (500, ascii "internal error")

-- `From<rusqlite::Error>`
abbrev pub from_sql : {A : Type 0} → A → AppError
from_sql e = internal (ascii "database")
