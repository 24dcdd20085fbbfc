-- ===== src/Errors.antt =====
-- The errors of the gateway (internal/gateway/gateway_callbacks.go, runtime.go), and the functions
-- that may fail. The text of a `GatewayError` is left out: its status is what the program reads.
use e2b_local.Prelude.{ℕ, String, Bool, false, Option, none, some, nat_beq}

pub data Error : Type 0 where
  gateway : ℕ → Error
  runtime_capacity : Error
  plain : String → Error

abbrev pub bad_request : Error
bad_request = gateway 400

abbrev pub not_found : Error
not_found = gateway 404

abbrev pub conflict : Error
conflict = gateway 409

abbrev pub service_unavailable : Error
service_unavailable = gateway 503

unfoldable pub as_gateway_error : Error → Option ℕ
as_gateway_error (gateway status) = some status
as_gateway_error runtime_capacity = none
as_gateway_error (plain message) = none

abbrev status_or : ℕ → Option ℕ → ℕ
status_or fallback none = fallback
status_or fallback (some status) = status

unfoldable pub gateway_error_status : Error → ℕ → ℕ
unfolding as_gateway_error
gateway_error_status e fallback = status_or fallback (as_gateway_error e)

abbrev is_404 : Option ℕ → Bool
is_404 none = false
is_404 (some status) = nat_beq status 404

unfoldable pub as_not_found_gateway_error : Error → Bool
unfolding as_gateway_error
as_not_found_gateway_error e = is_404 (as_gateway_error e)

pub data Result {ℓ} (A : Type ℓ) : Type ℓ where
  ok : A → Result A
  err : Error → Result A
