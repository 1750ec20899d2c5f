-- ===== src/Sdk/Errors/Tests.antt =====
-- The errors of a provider over a small model of gRPC statuses.
use projectbeskar_virtrigaud.Common.{String, ◌<>◌, Option, none, some, ◌≡◌, refl, false, arith}
use projectbeskar_virtrigaud.Sdk.Errors.{
  Code, ok, GoError, status_error, no_cause, Grpc, new_unavailable, wrap,
}
use projectbeskar_virtrigaud.Sdk.Errors.Made.{is_ok, wrapped_again, unavailable}
use projectbeskar_virtrigaud.Sdk.Errors.Wire.{IsGrpc, Crosses, from_grpc_error-to_grpc_error}

status_of : GoError → Option (Code × String)
status_of (status_error c m) = some (c, m)
status_of _ = none

sent : Code → String → Option GoError
sent ok m = none
sent c m = some (status_error c m)

abbrev grpc : Grpc
unfolding status_of sent
grpc = record { err = sent; from_error = status_of; status_text = λ c m. "rpc error: " <> m }

sent_lem : (c : Code) (m : String) → is_ok c ≡ false → sent c m ≡ some (status_error c m)
unfolding sent is_ok
sent_lem ok m h = ground (arith, h)
sent_lem Code.invalid_argument m h = refl
sent_lem Code.not_found m h = refl
sent_lem Code.already_exists m h = refl
sent_lem Code.permission_denied m h = refl
sent_lem Code.unavailable m h = refl
sent_lem Code.internal m h = refl
sent_lem Code.unimplemented m h = refl
sent_lem Code.deadline_exceeded m h = refl
sent_lem Code.resource_exhausted m h = refl
sent_lem Code.canceled m h = refl
sent_lem (Code.other n) m h = refl

grpc-IsGrpc : IsGrpc grpc
unfolding status_of grpc sent
grpc-IsGrpc = record { err_status = sent_lem; from_status_error = λ c m. refl }

abbrev down : GoError
down = wrap (new_unavailable "vcenter" no_cause) "cannot list datastores"

from_grpc_error-to_grpc_error_example : Crosses grpc down Code.unavailable
from_grpc_error-to_grpc_error_example =
    from_grpc_error-to_grpc_error grpc grpc-IsGrpc Code.unavailable down
      (wrapped_again _ _ "cannot list datastores" (unavailable "vcenter" no_cause))
