-- ===== src/Sdk/Errors.antt =====
-- sdk/provider/errors/errors.go: the errors of a provider, and how they cross the wire as gRPC
-- statuses. The status package of gRPC is a parameter.
pub mod Made
pub mod Wire
mod Tests
use projectbeskar_virtrigaud.Common.{
  ℕ, String, ◌<>◌, quote, Bool, true, false, if◌then◌else◌, ◌==◌, Option, none, some,
}

-- The gRPC codes that the package names, and all others but OK.
pub data Code : Type 0 where
  ok invalid_argument not_found already_exists permission_denied : Code
  unavailable internal unimplemented deadline_exceeded resource_exhausted canceled : Code
  other : ℕ → Code

-- `ErrInvalidSpec` and its like.
pub data Sentinel : Type 0 where
  err_invalid_spec err_not_found err_already_exists err_permission_denied : Sentinel
  err_unavailable err_internal err_unimplemented err_timeout err_canceled : Sentinel

mutual
  -- An `error`: a `*ProviderError` (code, message, cause, `Retryable`, `RetryAfter`), a status error
  -- of gRPC, a sentinel, an error wrapped by `fmt.Errorf("…: %w", err)`, or another error. No function
  -- of the package fills `Details`.
  pub data GoError : Type 0 where
    provider_error : Code → String → Cause → Bool → ℕ → GoError
    status_error : Code → String → GoError
    sentinel : Sentinel → GoError
    wrapped : String → GoError → GoError
    another : String → GoError

  pub data Cause : Type 0 where
    no_cause : Cause
    because : GoError → Cause

-- `google.golang.org/grpc/status`: `status.New(c, m).Err()`, `status.FromError`, and the text of a
-- status error.
pub record Grpc : Type 0 where
  pub err : Code → String → Option GoError
  pub from_error : GoError → Option (Code × String)
  pub status_text : Code → String → String

pub sentinel_text : Sentinel → String
sentinel_text err_invalid_spec = "invalid specification"
sentinel_text err_not_found = "resource not found"
sentinel_text err_already_exists = "resource already exists"
sentinel_text err_permission_denied = "permission denied"
sentinel_text err_unavailable = "service unavailable"
sentinel_text err_internal = "internal error"
sentinel_text err_unimplemented = "operation not implemented"
sentinel_text err_timeout = "operation timeout"
sentinel_text err_canceled = "operation canceled"

-- The place of a sentinel among them, which tells two of them apart.
sentinel_index : Sentinel → ℕ
sentinel_index err_invalid_spec = 0
sentinel_index err_not_found = 1
sentinel_index err_already_exists = 2
sentinel_index err_permission_denied = 3
sentinel_index err_unavailable = 4
sentinel_index err_internal = 5
sentinel_index err_unimplemented = 6
sentinel_index err_timeout = 7
sentinel_index err_canceled = 8

-- `errors.Is(err, target)`: down the chain of `Unwrap`.
pub is_in : Sentinel → GoError → Bool
unfolding sentinel_index
is_in t (sentinel s) = sentinel_index s == sentinel_index t
is_in t (wrapped m e) = is_in t e
is_in t (provider_error c m (because e) r a) = is_in t e
is_in t (provider_error c m no_cause r a) = false
is_in t (status_error c m) = false
is_in t (another m) = false

pub is_retryable_code : Code → Bool
is_retryable_code unavailable = true
is_retryable_code resource_exhausted = true
is_retryable_code deadline_exceeded = true
is_retryable_code _ = false

pub is_not_found_code : Code → Bool
is_not_found_code not_found = true
is_not_found_code _ = false

pub is_invalid_code : Code → Bool
is_invalid_code invalid_argument = true
is_invalid_code _ = false

pub classify_error : GoError → Code
unfolding is_in
classify_error e =
    if is_in err_invalid_spec e
    then invalid_argument
    else if is_in err_not_found e
    then not_found
    else if is_in err_already_exists e
    then already_exists
    else if is_in err_permission_denied e
    then permission_denied
    else if is_in err_unavailable e
    then unavailable
    else if is_in err_unimplemented e
    then unimplemented
    else if is_in err_timeout e
    then deadline_exceeded
    else if is_in err_canceled e
    then canceled
    else internal

pub new_invalid_spec : String → GoError
new_invalid_spec message = provider_error invalid_argument message no_cause false 0

pub new_not_found : String → String → GoError
new_not_found resource id =
    provider_error not_found (resource <> (" " <> (quote id <> " not found"))) no_cause false 0

pub new_already_exists : String → String → GoError
new_already_exists resource id =
    provider_error already_exists (resource <> (" " <> (quote id <> " already exists"))) no_cause
      false 0

pub new_permission_denied : String → GoError
new_permission_denied operation =
    provider_error permission_denied ("permission denied: " <> operation) no_cause false 0

pub new_unavailable : String → Cause → GoError
new_unavailable service cause =
    provider_error unavailable ("service unavailable: " <> service) cause true 0

pub new_internal : String → Cause → GoError
new_internal message cause = provider_error internal message cause false 0

pub new_unimplemented : String → GoError
new_unimplemented operation =
    provider_error unimplemented ("operation not implemented: " <> operation) no_cause false 0

-- The duration as `%v` prints it.
pub new_timeout : String → String → GoError
new_timeout operation duration =
    provider_error deadline_exceeded
      ("operation " <> (operation <> (" timed out after " <> duration))) no_cause true 0

pub new_rate_limit : ℕ → GoError
new_rate_limit retry_after =
    provider_error resource_exhausted "rate limit exceeded" no_cause true retry_after

pub new_canceled : String → GoError
new_canceled operation =
    provider_error canceled ("operation canceled: " <> operation) no_cause false 0

-- `Wrap` of an error that is not nil; the message is formatted.
pub wrap : GoError → String → GoError
wrap (provider_error c m k r a) message =
    provider_error c message (because (provider_error c m k r a)) r a
wrap e message =
    provider_error (classify_error e) message (because e) (is_retryable_code (classify_error e)) 0

module _ (grpc : Grpc) where
  -- `err.Error()`.
  pub error_text : GoError → String
  unfolding sentinel_text
  error_text (provider_error c m no_cause r a) = m
  error_text (provider_error c m (because e) r a) = m <> (": " <> error_text e)
  error_text (status_error c m) = grpc.status_text c m
  error_text (sentinel s) = sentinel_text s
  error_text (wrapped m e) = m <> (": " <> error_text e)
  error_text (another m) = m

  pub to_grpc_error : Option GoError → Option GoError
  unfolding error_text
  to_grpc_error none = none
  to_grpc_error (some (provider_error c m k r a)) =
      grpc.err c (error_text (provider_error c m k r a))
  to_grpc_error (some e) = grpc.err internal (error_text e)

  from_status : GoError → Option (Code × String) → GoError
  from_status e none = new_internal "unknown error" (because e)
  from_status e (some (c, m)) = provider_error c m no_cause (is_retryable_code c) 0

  pub from_grpc_error : Option GoError → Option GoError
  unfolding from_status
  from_grpc_error none = none
  from_grpc_error (some e) = some (from_status e (grpc.from_error e))

  -- A test of the code of a status, if there is one.
  on_status : (Code → Bool) → Bool → Option (Code × String) → Bool
  on_status test default none = default
  on_status test default (some (c, m)) = test c

  pub is_retryable : GoError → Bool
  unfolding on_status
  is_retryable (provider_error c m k r a) = r
  is_retryable e = on_status is_retryable_code false (grpc.from_error e)

  pub is_not_found : GoError → Bool
  unfolding on_status
  is_not_found (provider_error c m k r a) = is_not_found_code c
  is_not_found e = on_status is_not_found_code (is_in err_not_found e) (grpc.from_error e)

  pub is_invalid_spec : GoError → Bool
  unfolding on_status
  is_invalid_spec (provider_error c m k r a) = is_invalid_code c
  is_invalid_spec e = on_status is_invalid_code (is_in err_invalid_spec e) (grpc.from_error e)
