-- ===== src/Errors.antt =====
-- internal/providers/contracts/errors.go: the categorised errors of a provider.
use projectbeskar_virtrigaud.Common.{String, ◌<>◌, Bool, true, false, ◌||◌}

pub data ErrorType : Type 0 where
  not_found invalid_spec retryable unauthorized not_supported rate_limit : ErrorType
  unavailable timeout quota_exceeded conflict : ErrorType

-- The string behind each `ErrorType` constant.
pub type_text : ErrorType → String
type_text not_found = "NotFound"
type_text invalid_spec = "InvalidSpec"
type_text retryable = "Retryable"
type_text unauthorized = "Unauthorized"
type_text not_supported = "NotSupported"
type_text rate_limit = "RateLimit"
type_text unavailable = "Unavailable"
type_text timeout = "Timeout"
type_text quota_exceeded = "QuotaExceeded"
type_text conflict = "Conflict"

-- A Go `error`: nil, a `*ProviderError` (its type, message, cause and Retryable field) or an error
-- of any other type, with its text.
pub data ErrorValue : Type 0 where
  nil : ErrorValue
  provider_error : ErrorType → String → ErrorValue → Bool → ErrorValue
  other : String → ErrorValue

abbrev pub is_nil : ErrorValue → Bool
is_nil nil = true
is_nil _ = false

-- `err.Error()`; it is not called on nil.
pub error_text : ErrorValue → String
unfolding type_text
error_text nil = ""
error_text (other s) = s
error_text (provider_error t m nil r) = type_text t <> (": " <> m)
error_text (provider_error t m c r) =
    type_text t <> (": " <> (m <> (" (caused by: " <> (error_text c <> ")"))))

-- `errors.Unwrap` of a `*ProviderError`.
pub unwrap : ErrorValue → ErrorValue
unwrap (provider_error t m c r) = c
unwrap _ = nil

abbrev pub is_transient_type : ErrorType → Bool
is_transient_type retryable = true
is_transient_type unavailable = true
is_transient_type timeout = true
is_transient_type rate_limit = true
is_transient_type _ = false

-- The method `IsRetryable` of `*ProviderError`.
unfoldable pub provider_is_retryable : ErrorType → Bool → Bool
provider_is_retryable t r = r || is_transient_type t

pub new_not_found_error : String → ErrorValue → ErrorValue
new_not_found_error m c = provider_error not_found m c false

pub new_invalid_spec_error : String → ErrorValue → ErrorValue
new_invalid_spec_error m c = provider_error invalid_spec m c false

pub new_retryable_error : String → ErrorValue → ErrorValue
new_retryable_error m c = provider_error retryable m c true

pub new_unauthorized_error : String → ErrorValue → ErrorValue
new_unauthorized_error m c = provider_error unauthorized m c false

pub new_not_supported_error : String → ErrorValue
new_not_supported_error m = provider_error not_supported m nil false

pub new_rate_limit_error : String → ErrorValue → ErrorValue
new_rate_limit_error m c = provider_error rate_limit m c true

unfoldable pub new_unavailable_error : String → ErrorValue → ErrorValue
new_unavailable_error m c = provider_error unavailable m c true

pub new_timeout_error : String → ErrorValue → ErrorValue
new_timeout_error m c = provider_error timeout m c true

pub new_quota_exceeded_error : String → ErrorValue → ErrorValue
new_quota_exceeded_error m c = provider_error quota_exceeded m c false

pub new_conflict_error : String → ErrorValue → ErrorValue
new_conflict_error m c = provider_error conflict m c false
