-- ===== src/Stun/Decode.antt =====
-- backend/pkg/stun/message.go, `Decode`: an offset that walks over the received bytes.
pub mod Laws
pub mod Total
use altair.Prelude.{
  ℕ, zero, suc, ◌+◌, Bool, true, false, not, List, [], ◌∷◌, ◌++◌, Option, none, some, ltb, ◌==◌,
  if◌then◌else◌, length,
}
use altair.Bytes.{slice, be_u16, be_u32}
use altair.Bytes
use altair.Outcome.{Outcome, ok, err, panic, no_fuel, ◌>>=◌, or_panic}
use altair.Stun.Message.{Attribute, Message, attr_len, magic_cookie, header_size}

pub data DecodeError : Type 0 where
  too_short invalid_cookie : ℕ → DecodeError
  incomplete_message : ℕ → ℕ → DecodeError
  incomplete_header incomplete_value : ℕ → DecodeError

abbrev pub Decoded : Type 0 → Type 0
Decoded A = Outcome DecodeError A

unfoldable pub read_u16 : List ℕ → ℕ → ℕ → Decoded ℕ
read_u16 input a b = or_panic (Bytes.◌>>=◌ (slice input a b) be_u16)

unfoldable pub read_u32 : List ℕ → ℕ → ℕ → Decoded ℕ
read_u32 input a b = or_panic (Bytes.◌>>=◌ (slice input a b) be_u32)

-- The value of an attribute whose header stands at `offset`.
unfoldable pub decode_value : List ℕ → ℕ → ℕ → ℕ → Decoded Attribute
decode_value input offset type len =
    if ltb (length input) (offset + 4 + len) then err (incomplete_value offset) else do
      value ← or_panic (slice input (offset + 4) (offset + 4 + len))
      ok (record { type = type; length = len; value = value })

-- The body of the loop, up to the next offset.
unfoldable pub decode_attribute : List ℕ → ℕ → Decoded Attribute
decode_attribute input offset =
    if ltb (length input) (offset + 4) then err (incomplete_header offset) else do
      type ← read_u16 input offset (offset + 2)
      len ← read_u16 input (offset + 2) (offset + 4)
      decode_value input offset type len

-- The loop; `stop` is HeaderSize + msgLength, `acc` the attributes so far.
unfoldable pub decode_attributes : ℕ → List ℕ → ℕ → ℕ → List Attribute → Decoded (List Attribute)
decode_attributes zero input stop offset acc = no_fuel
decode_attributes (suc fuel) input stop offset acc = elim (ltb offset stop) [
  | false ↦ ok acc
  | true ↦ decode_attribute input offset >>= λ attr.
      decode_attributes fuel input stop (offset + attr_len attr.length) (acc ++ attr ∷ [])
]

-- What follows the test of the magic cookie.
unfoldable pub decode_body : List ℕ → ℕ → ℕ → Decoded Message
decode_body input type len = do
  id ← or_panic (slice input 8 20)
  if ltb (length input) (header_size + len)
      then err (incomplete_message (header_size + len) (length input))
      else do
        attrs ← decode_attributes (suc len) input (header_size + len) header_size []
        ok (record { type = type; transaction_id = id; attributes = attrs })

unfoldable pub decode : List ℕ → Decoded Message
decode input = if ltb (length input) header_size then err (too_short (length input)) else do
  type ← read_u16 input 0 2
  len ← read_u16 input 2 4
  cookie ← read_u32 input 4 8
  if not (cookie == magic_cookie) then err (invalid_cookie cookie) else decode_body input type len
