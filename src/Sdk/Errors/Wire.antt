-- ===== src/Sdk/Errors/Wire.antt =====
-- sdk/provider/errors/errors.go: what a client sees of the errors of a provider (`ToGRPCError`,
-- `FromGRPCError` and the tests).
use projectbeskar_virtrigaud.Common.{ℕ, String, Bool, false, some, ◌≡◌, ap, sym, ◌∙◌, subst, arith}
use projectbeskar_virtrigaud.Sdk.Errors.{
  Code, GoError, provider_error, status_error, sentinel, wrapped, another, Cause, no_cause, Grpc,
  error_text, to_grpc_error, from_status, from_grpc_error, on_status, is_retryable, is_not_found,
  is_invalid_spec, is_retryable_code, is_not_found_code, is_invalid_code,
}
use projectbeskar_virtrigaud.Sdk.Errors.Made.{is_ok, IsMade, IsHonest, IsMade-IsHonest}

-- What gRPC documents of a status whose code is not OK: it has a status error, which carries it.
pub record IsGrpc (grpc : Grpc) : Type 0 where
  pub err_status :
      (c : Code) (m : String) → is_ok c ≡ false → grpc.err c m ≡ some (status_error c m)
  pub from_status_error : (c : Code) (m : String) → grpc.from_error (status_error c m) ≡ some (c, m)

-- How an error `e` reaches a client: as a status `c` with the text of `e`, which the client reads back
-- and which the tests answer as they do `e`.
pub record Crosses (grpc : Grpc) (e : GoError) (c : Code) : Type 0 where
  pub sent : to_grpc_error grpc (some e) ≡ some (status_error c (error_text grpc e))
  pub received :
      from_grpc_error grpc (to_grpc_error grpc (some e))
      ≡ some (provider_error c (error_text grpc e) no_cause (is_retryable grpc e) 0)
  pub same_retryable : is_retryable grpc (status_error c (error_text grpc e)) ≡ is_retryable grpc e
  pub same_not_found : is_not_found grpc (status_error c (error_text grpc e)) ≡ is_not_found grpc e
  pub same_invalid_spec :
      is_invalid_spec grpc (status_error c (error_text grpc e)) ≡ is_invalid_spec grpc e

module _ (grpc : Grpc) (laws : IsGrpc grpc) where
  crosses :
      (c : Code) (m : String) (k : Cause) (r : Bool) (a : ℕ)
      → r ≡ is_retryable_code c
      → is_ok c ≡ false
      → Crosses grpc (provider_error c m k r a) c
  unfolding to_grpc_error from_grpc_error is_retryable is_not_found is_invalid_spec from_status
      on_status
  crosses c m k r a h n =
      let text = error_text grpc (provider_error c m k r a) in
      let sent = laws.err_status c text n in
      let read = laws.from_status_error c text in
      record {
        sent = sent;
        received =
            ap (from_grpc_error grpc) sent
            ∙ ap (λ o. some (from_status grpc (status_error c text) o)) read
            ∙ ap (λ b. some (provider_error c text no_cause b 0)) (sym h);
        same_retryable = ap (on_status grpc is_retryable_code false) read ∙ sym h;
        same_not_found = ap (on_status grpc is_not_found_code _) read;
        same_invalid_spec = ap (on_status grpc is_invalid_code _) read;
      }

  honest-Crosses : (d : Code) (e : GoError) → IsHonest d e → Crosses grpc e d
  unfolding IsHonest
  honest-Crosses d (provider_error c m k r a) h =
      subst (Crosses grpc (provider_error c m k r a)) h.2 (crosses c m k r a h.0 h.1)
  honest-Crosses d (status_error c m) h = ground (arith, h)
  honest-Crosses d (sentinel s) h = ground (arith, h)
  honest-Crosses d (wrapped m e) h = ground (arith, h)
  honest-Crosses d (another m) h = ground (arith, h)

-- Every error that the constructors or `Wrap` make crosses the wire: `ToGRPCError` sends the code that its
-- constructor stands for (of a wrapped native error the code of the sentinel in its chain, or Internal)
-- with its whole text, `FromGRPCError` reads back that code, that text and the same retryability, and
-- `IsRetryable`, `IsNotFound` and `IsInvalidSpec` answer the client's status as they do the error.
pub from_grpc_error-to_grpc_error :
    (grpc : Grpc) → IsGrpc grpc → (c : Code) (e : GoError) → IsMade c e → Crosses grpc e c
from_grpc_error-to_grpc_error grpc laws c e made =
    honest-Crosses grpc laws c e (IsMade-IsHonest c e made)
