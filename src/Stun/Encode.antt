-- ===== src/Stun/Encode.antt =====
-- backend/pkg/stun/message.go, `Encode`: writes in place into a zeroed buffer. `none` is a panic.
pub mod Laws
use altair.Prelude.{ℕ, ◌+◌, List, [], ◌∷◌, Option, some, replicate}
use altair.Bytes.{◌>>=◌, copy_into, put_u16, put_u32, uint16}
use altair.Stun.Message.{Attribute, Message, attr_len, msg_length, magic_cookie, header_size}

-- The body of the second loop: the attribute at `offset`.
unfoldable pub encode_attribute : List ℕ → ℕ → Attribute → Option (List ℕ)
encode_attribute buf offset a = do
  buf1 ← put_u16 buf offset a.type
  buf2 ← put_u16 buf1 (offset + 2) a.length
  copy_into buf2 (offset + 4) (offset + 4 + a.length) a.value

-- The second loop, from `offset` on.
unfoldable pub encode_attributes : List ℕ → ℕ → List Attribute → Option (List ℕ)
encode_attributes buf offset [] = some buf
encode_attributes buf offset (a ∷ rest) = do
  buf' ← encode_attribute buf offset a
  encode_attributes buf' (offset + attr_len a.length) rest

-- The header, into a buffer for `len` bytes of attributes.
unfoldable pub encode_header : Message → ℕ → Option (List ℕ)
encode_header m len = do
  buf1 ← put_u16 (replicate (header_size + len) 0) 0 m.type
  buf2 ← put_u16 buf1 2 (uint16 len)
  buf3 ← put_u32 buf2 4 magic_cookie
  copy_into buf3 8 20 m.transaction_id

unfoldable pub encode : Message → Option (List ℕ)
encode m = do
  buf ← encode_header m (msg_length m.attributes)
  encode_attributes buf header_size m.attributes
