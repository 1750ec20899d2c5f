-- ===== src/Sdk/Errors/Made.antt =====
-- sdk/provider/errors/errors.go: the errors that the constructors and `Wrap` make.
use projectbeskar_virtrigaud.Common.{
  ℕ, ◌==◌, String, Bool, true, false, if◌then◌else◌, Option, none, some, ◌≡◌, refl, ap, ◌∙◌, arith,
}
use projectbeskar_virtrigaud.Sdk.Errors.{
  Code, ok, invalid_argument, deadline_exceeded, err_invalid_spec, err_not_found, Sentinel,
  err_internal, sentinel_index, no_cause, because, err_already_exists, err_permission_denied,
  err_unavailable, err_unimplemented, err_timeout, err_canceled, GoError, provider_error,
  status_error, sentinel, wrapped, another, Cause, is_in, is_retryable_code, classify_error,
  new_invalid_spec, new_not_found, new_already_exists, new_permission_denied, new_unavailable,
  new_internal, new_unimplemented, new_timeout, new_rate_limit, new_canceled, wrap,
}

unfoldable pub is_ok : Code → Bool
is_ok ok = true
is_ok _ = false

unfoldable pub is_provider : GoError → Bool
is_provider (provider_error c m k r a) = true
is_provider _ = false

-- The sentinel at the end of the chain of `Unwrap`, if there is one.
pub root : GoError → Option Sentinel
root (sentinel s) = some s
root (wrapped m e) = root e
root (provider_error c m (because e) r a) = root e
root (provider_error c m no_cause r a) = none
root (status_error c m) = none
root (another m) = none

-- The code of the same name.
pub code_of : Sentinel → Code
code_of err_invalid_spec = invalid_argument
code_of err_not_found = Code.not_found
code_of err_already_exists = Code.already_exists
code_of err_permission_denied = Code.permission_denied
code_of err_unavailable = Code.unavailable
code_of err_internal = Code.internal
code_of err_unimplemented = Code.unimplemented
code_of err_timeout = deadline_exceeded
code_of err_canceled = Code.canceled

pub code_at : Option Sentinel → Code
code_at none = Code.internal
code_at (some s) = code_of s

-- The code that an error of a constructor is to have. A wrapped provider error keeps its own, and a wrapped
-- native error has the code of the sentinel in its chain, or Internal.
pub data IsMade : Code → GoError → Type 0 where
  invalid_spec : (m : String) → IsMade Code.invalid_argument (new_invalid_spec m)
  not_found : (resource id : String) → IsMade Code.not_found (new_not_found resource id)
  already_exists :
      (resource id : String) → IsMade Code.already_exists (new_already_exists resource id)
  permission_denied :
      (operation : String) → IsMade Code.permission_denied (new_permission_denied operation)
  unavailable : (service : String) (k : Cause) → IsMade Code.unavailable (new_unavailable service k)
  internal : (m : String) (k : Cause) → IsMade Code.internal (new_internal m k)
  unimplemented : (operation : String) → IsMade Code.unimplemented (new_unimplemented operation)
  timeout :
      (operation duration : String) → IsMade Code.deadline_exceeded (new_timeout operation duration)
  rate_limit : (retry_after : ℕ) → IsMade Code.resource_exhausted (new_rate_limit retry_after)
  canceled : (operation : String) → IsMade Code.canceled (new_canceled operation)
  wrapped_again : (c : Code) (e : GoError) (m : String) → IsMade c e → IsMade c (wrap e m)
  wrapped_native :
      (e : GoError) (m : String) → is_provider e ≡ false → IsMade (code_at (root e)) (wrap e m)

-- A provider error with this code, which is not OK, and with the flag of this code.
unfoldable pub IsHonest : Code → GoError → Type 0
IsHonest d (provider_error c m k r a) = (r ≡ is_retryable_code c) × (is_ok c ≡ false) × (c ≡ d)
IsHonest d _ = true ≡ false

is_at : Sentinel → Option Sentinel → Bool
is_at t none = false
is_at t (some s) = sentinel_index s == sentinel_index t

is_in-root : (t : Sentinel) (e : GoError) → is_in t e ≡ is_at t (root e)
unfolding is_in root is_at
is_in-root t (sentinel s) = refl
is_in-root t (wrapped m e) = is_in-root t e
is_in-root t (provider_error c m (because e) r a) = is_in-root t e
is_in-root t (provider_error c m no_cause r a) = refl
is_in-root t (status_error c m) = refl
is_in-root t (another m) = refl

-- The tests of `classifyError`, on any answers.
classify_by : (Sentinel → Bool) → Code
classify_by is =
    if is err_invalid_spec
    then invalid_argument
    else if is err_not_found
    then Code.not_found
    else if is err_already_exists
    then Code.already_exists
    else if is err_permission_denied
    then Code.permission_denied
    else if is err_unavailable
    then Code.unavailable
    else if is err_unimplemented
    then Code.unimplemented
    else if is err_timeout
    then deadline_exceeded
    else if is err_canceled
    then Code.canceled
    else Code.internal

classify_by-is_at : (o : Option Sentinel) → classify_by (λ t. is_at t o) ≡ code_at o
unfolding classify_by is_at code_at code_of sentinel_index
classify_by-is_at none = refl
classify_by-is_at (some err_invalid_spec) = refl
classify_by-is_at (some err_not_found) = refl
classify_by-is_at (some err_already_exists) = refl
classify_by-is_at (some err_permission_denied) = refl
classify_by-is_at (some err_unavailable) = refl
classify_by-is_at (some err_internal) = refl
classify_by-is_at (some err_unimplemented) = refl
classify_by-is_at (some err_timeout) = refl
classify_by-is_at (some err_canceled) = refl

classify_error-root : (e : GoError) → classify_error e ≡ code_at (root e)
unfolding classify_error classify_by
classify_error-root e = ap classify_by (λ i t. is_in-root t e i) ∙ classify_by-is_at (root e)

record IsNotOk (c : Code) : Type 0 where
  not_ok : is_ok c ≡ false

choose : (b : Bool) (c d : Code) → IsNotOk c → IsNotOk d → IsNotOk (if b then c else d)
choose true c d hc hd = hc
choose false c d hc hd = hd

classified : (e : GoError) → IsNotOk (classify_error e)
unfolding classify_error is_ok
classified e =
    choose (is_in err_invalid_spec e) invalid_argument _ (record { not_ok = refl })
      (choose (is_in err_not_found e) Code.not_found _ (record { not_ok = refl })
        (choose (is_in err_already_exists e) Code.already_exists _ (record { not_ok = refl })
          (choose (is_in err_permission_denied e) Code.permission_denied _
            (record { not_ok = refl })
            (choose (is_in err_unavailable e) Code.unavailable _ (record { not_ok = refl })
              (choose (is_in err_unimplemented e) Code.unimplemented _ (record { not_ok = refl })
                (choose (is_in err_timeout e) deadline_exceeded _ (record { not_ok = refl })
                  (choose (is_in err_canceled e) Code.canceled _ (record { not_ok = refl })
                    (record { not_ok = refl }))))))))

is_ok-classify_error : (e : GoError) → is_ok (classify_error e) ≡ false
is_ok-classify_error e = (classified e).not_ok

IsHonest-wrap_native :
    (e : GoError) (m : String) → is_provider e ≡ false → IsHonest (code_at (root e)) (wrap e m)
unfolding IsHonest wrap is_provider
IsHonest-wrap_native (provider_error c m k r a) n h = ground (arith, h)
IsHonest-wrap_native (status_error c m) n h = (refl, is_ok-classify_error _, classify_error-root _)
IsHonest-wrap_native (sentinel s) n h = (refl, is_ok-classify_error _, classify_error-root _)
IsHonest-wrap_native (wrapped m e) n h = (refl, is_ok-classify_error _, classify_error-root _)
IsHonest-wrap_native (another m) n h = (refl, is_ok-classify_error _, classify_error-root _)

IsHonest-wrap : (d : Code) (e : GoError) (m : String) → IsHonest d e → IsHonest d (wrap e m)
unfolding IsHonest wrap
IsHonest-wrap d (provider_error c m k r a) n h = h
IsHonest-wrap d (status_error c m) n h = ground (arith, h)
IsHonest-wrap d (sentinel s) n h = ground (arith, h)
IsHonest-wrap d (wrapped m e) n h = ground (arith, h)
IsHonest-wrap d (another m) n h = ground (arith, h)

-- Every error of a constructor, and every wrapping of one or of a native error, is a provider error of its
-- code that is marked as retryable exactly where this code is, and never has the code OK.
pub IsMade-IsHonest : (d : Code) (e : GoError) → IsMade d e → IsHonest d e
unfolding IsHonest is_ok is_retryable_code new_invalid_spec new_not_found new_already_exists
    new_permission_denied new_unavailable new_internal new_unimplemented new_timeout new_rate_limit
    new_canceled
IsMade-IsHonest _ _ (invalid_spec m) = (refl, refl, refl)
IsMade-IsHonest _ _ (not_found resource id) = (refl, refl, refl)
IsMade-IsHonest _ _ (already_exists resource id) = (refl, refl, refl)
IsMade-IsHonest _ _ (permission_denied operation) = (refl, refl, refl)
IsMade-IsHonest _ _ (unavailable service k) = (refl, refl, refl)
IsMade-IsHonest _ _ (internal m k) = (refl, refl, refl)
IsMade-IsHonest _ _ (unimplemented operation) = (refl, refl, refl)
IsMade-IsHonest _ _ (timeout operation duration) = (refl, refl, refl)
IsMade-IsHonest _ _ (rate_limit retry_after) = (refl, refl, refl)
IsMade-IsHonest _ _ (canceled operation) = (refl, refl, refl)
IsMade-IsHonest d _ (wrapped_again _ e m h) = IsHonest-wrap d e m (IsMade-IsHonest d e h)
IsMade-IsHonest _ _ (wrapped_native e m h) = IsHonest-wrap_native e m h
