-- ===== src/Api/Errors.antt =====
-- `ApiError` and `ApiErrorCode` of apps/api/src/http/error.rs: a status, a code and a message. The
-- extra headers and the metrics are left out, and the reason phrase is the status's.
pub mod Codes
use tv.Prelude.{ℕ}
use tv.Prelude.Text.{Str}
use tv.Api.Errors.Codes.{ApiErrorCode}

pub record ApiError : Type 0 where
  pub status_code : ℕ
  pub error_code : ApiErrorCode
  pub error : Str

abbrev pub conflict : ApiErrorCode → Str → ApiError
conflict code message = record { status_code = 409; error_code = code; error = message }

abbrev pub internal_server_error : ApiErrorCode → Str → ApiError
internal_server_error code message = record {
  status_code = 500;
  error_code = code;
  error = message;
}

abbrev pub bad_request : ApiErrorCode → Str → ApiError
bad_request code message = record { status_code = 400; error_code = code; error = message }

abbrev pub not_found : ApiErrorCode → Str → ApiError
not_found code message = record { status_code = 404; error_code = code; error = message }

abbrev pub unauthorized : ApiErrorCode → Str → ApiError
unauthorized code message = record { status_code = 401; error_code = code; error = message }

abbrev pub forbidden : ApiErrorCode → Str → ApiError
forbidden code message = record { status_code = 403; error_code = code; error = message }
