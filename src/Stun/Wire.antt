-- ===== src/Stun/Wire.antt =====
-- The wire format of RFC 5389 as one expression, beside the buffer writes of `Encode`.
use altair.Prelude.{ℕ, ◌-◌, ◌<◌, ◌≡◌, List, [], ◌∷◌, ◌++◌, length, take, replicate, All}
use altair.Bytes.{bytes_u16, bytes_u32, uint16}
use altair.Stun.Message.{Attribute, Message, attr_len, msg_length, magic_cookie}

-- The value cut to the stated length, and zeros up to the padded length.
unfoldable pub padded_value : Attribute → List ℕ
padded_value a =
    let v = take a.length a.value in v ++ replicate (attr_len a.length - 4 - length v) 0

unfoldable pub wire_attribute : Attribute → List ℕ
wire_attribute a = bytes_u16 a.type ++ (bytes_u16 a.length ++ padded_value a)

unfoldable pub wire_attributes : List Attribute → List ℕ
wire_attributes [] = []
wire_attributes (a ∷ rest) = wire_attribute a ++ wire_attributes rest

unfoldable pub wire_header : Message → List ℕ
wire_header m =
    bytes_u16 m.type
    ++ (bytes_u16 (uint16 (msg_length m.attributes))
        ++ (bytes_u32 magic_cookie ++ m.transaction_id))

unfoldable pub wire : Message → List ℕ
wire m = wire_header m ++ wire_attributes m.attributes

-- The ranges of the Go types, and a stated length that is the value's.
pub record IsAttribute (a : Attribute) : Type 0 where
  pub type_fits : a.type < 65536
  pub length_fits : a.length < 65536
  pub exact : a.length ≡ length a.value

pub record IsMessage (m : Message) : Type 0 where
  pub type_fits : m.type < 65536
  pub id_size : length m.transaction_id ≡ 12
  pub each : All IsAttribute m.attributes
  pub total_fits : msg_length m.attributes < 65536
