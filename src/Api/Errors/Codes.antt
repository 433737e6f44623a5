-- ===== src/Api/Errors/Codes.antt =====
-- `ApiErrorCode` and `as_str` of apps/api/src/http/error.rs.
use tv.Prelude.Text.{Str, bytes}

pub data ApiErrorCode : Type 0 where
  unknown login_required transaction_error missing_context rate_limit_exceeded stripe_error
        paypal_error bad_request mutation_error load_error lacking_privileges
        image_processor_error :
      ApiErrorCode

abbrev pub code_as_str : ApiErrorCode → Str
code_as_str ApiErrorCode.unknown = bytes "UNKNOWN"
code_as_str ApiErrorCode.login_required = bytes "LOGIN_REQUIRED"
code_as_str ApiErrorCode.transaction_error = bytes "TRANSACTION_ERROR"
code_as_str ApiErrorCode.missing_context = bytes "MISSING_CONTEXT"
code_as_str ApiErrorCode.rate_limit_exceeded = bytes "RATE_LIMIT_EXCEEDED"
code_as_str ApiErrorCode.stripe_error = bytes "STRIPE_ERROR"
code_as_str ApiErrorCode.paypal_error = bytes "PAYPAL_ERROR"
code_as_str ApiErrorCode.bad_request = bytes "BAD_REQUEST"
code_as_str ApiErrorCode.mutation_error = bytes "MUTATION_ERROR"
code_as_str ApiErrorCode.load_error = bytes "LOAD_ERROR"
code_as_str ApiErrorCode.lacking_privileges = bytes "LACKING_PRIVILEGES"
code_as_str ApiErrorCode.image_processor_error = bytes "IMAGE_PROCESSOR_ERROR"
