-- ===== src/Stun/RoundTrip.antt =====
-- backend/pkg/stun/message.go: `Encode` and `Decode` together.
use altair.Prelude.{ℕ, ◌≡◌, List, ◌++◌, some}
use altair.Outcome.{ok}
use altair.Stun.Message.{Message}
use altair.Stun.Encode.{encode}
use altair.Stun.Encode.Laws.{encode-eq-wire}
use altair.Stun.Decode.{decode}
use altair.Stun.Decode.Laws.{decode-wire}
use altair.Stun.Wire.{IsMessage, wire}

-- Decode undoes Encode: for a message whose type and attribute types and lengths are below 2 ^ 16,
-- whose transaction ID has twelve bytes, whose attributes state the length of their value, and
-- whose attributes take fewer than 2 ^ 16 bytes with their padding, Encode returns bytes without a
-- panic, and Decode of these bytes, with anything after them in the buffer, returns the message.
pub decode-encode :
    (m : Message) (rest : List ℕ)
    → IsMessage m
    → (bytes : List ℕ) × (encode m ≡ some bytes) × (decode (bytes ++ rest) ≡ ok m)
decode-encode m rest v = (wire m, encode-eq-wire m v.id_size, decode-wire m rest v)
