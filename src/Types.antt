-- ===== src/Types.antt =====
-- backend/pkg/types/types.go: an endpoint and the error of a STUN operation. Errors are their texts.
mod Tests
use Prim.Native.String.{◌++◌ as append}
use altair.Prelude.{ℕ, String}
use altair.Format.{decimal}

pub record Endpoint : Type 0 where
  pub ip : String
  pub port : ℕ

unfoldable pub endpoint_text : Endpoint → String
endpoint_text e = append e.ip (append ":" (decimal e.port))

pub record StunError : Type 0 where
  pub op : String
  pub err : String

unfoldable pub error_text : StunError → String
error_text e = append "STUN " (append e.op (append ": " e.err))

unfoldable pub unwrap : StunError → String
unwrap e = e.err

unfoldable pub new_stun_error : String → String → StunError
new_stun_error op err = record { op = op; err = err }
