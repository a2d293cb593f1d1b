-- ===== src/Types/Tests.antt =====
-- Endpoints and errors as texts.
use altair.Prelude.{◌≡◌, refl}
use altair.Format.{decimal, digits}
use altair.Types.{endpoint_text, new_stun_error, error_text}

an_endpoint : endpoint_text (record { ip = "10.0.0.1"; port = 3478 }) ≡ "10.0.0.1:3478"
unfolding endpoint_text decimal digits
an_endpoint = refl

an_error : error_text (new_stun_error "discover" "timeout") ≡ "STUN discover: timeout"
unfolding error_text new_stun_error
an_error = refl
