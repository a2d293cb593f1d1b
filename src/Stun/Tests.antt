-- ===== src/Stun/Tests.antt =====
-- Runs of the STUN codec and client, and the theorems on them at concrete inputs.
use altair.Prelude.{ℕ, ◌≡◌, ◌≤◌, inl, refl, true, List, [], ◌∷◌, ◌++◌, some, arith, take}
use altair.Outcome.{ok, Meets}
use altair.Net.{UdpAddr, bytes_eq, to4}
use altair.Bytes.{
  bytes_u16, bytes_u32, slice, be_u16, be_u32, uint16, overwrite, copy_into, put_u16, put_u32,
}
use altair.Stun.Message.{
  Attribute, Message, new_message, get_attribute, type_binding_success, msg_length, attr_len,
  attr_xor_mapped_address,
}
use altair.Stun.Encode.{encode, encode_header, encode_attributes, encode_attribute}
use altair.Stun.Encode.Laws.{encode-eq-wire}
use altair.Stun.Decode.{
  decode, read_u16, read_u32, decode_body, decode_attributes, decode_attribute, decode_value,
}
use altair.Stun.Decode.Total.{IsDecoded, decode-Meets}
use altair.Stun.Wire.{IsMessage, IsAttribute, wire}
use altair.Stun.RoundTrip.{decode-encode}
use altair.Stun.Address.{
  decode_xor_ip, read_family_port, encode_xor_mapped_address, decode_xor_mapped_address,
}
use altair.Stun.Address.RoundTrip.{decode-encode_xor, canonical}
use altair.Stun.Client.{
  Client, Endpoint, Exchange, datagram, discover, await_response, receive, check_response,
  public_address,
}
use altair.Stun.Client.Discover.{discover_answered, discover_sound, reply}

abbrev pub some_id : List ℕ
some_id = 1 ∷ 2 ∷ 3 ∷ 4 ∷ 5 ∷ 6 ∷ 7 ∷ 8 ∷ 9 ∷ 10 ∷ 11 ∷ 12 ∷ []

-- A request with an attribute that is padded.
abbrev request : Message
request = record {
  type = 1;
  transaction_id = some_id;
  attributes = record { type = 0x8022; length = 3; value = 97 ∷ 98 ∷ 99 ∷ [] } ∷ [];
}

request-IsMessage : IsMessage request
unfolding msg_length attr_len
request-IsMessage = record {
  type_fits = omega arith;
  id_size = refl;
  each = (record { type_fits = omega arith; length_fits = omega arith; exact = refl }, tt);
  total_fits = omega arith;
}

decode-encode_example :
    (bytes : List ℕ) × (encode request ≡ some bytes) × (decode (bytes ++ 255 ∷ []) ≡ ok request)
decode-encode_example = decode-encode request (255 ∷ []) request-IsMessage

encode-eq-wire_example : encode request ≡ some (wire request)
encode-eq-wire_example = encode-eq-wire request refl

-- A header that promises four bytes more than there are.
abbrev cut_off : List ℕ
cut_off = 1 ∷ 1 ∷ 0 ∷ 4 ∷ 33 ∷ 18 ∷ 164 ∷ 66 ∷ some_id

decode-Meets_example : Meets IsDecoded (decode cut_off)
decode-Meets_example = decode-Meets cut_off (ground arith)

abbrev pub public_v4 : UdpAddr
public_v4 = record { ip = 203 ∷ 0 ∷ 113 ∷ 9 ∷ []; port = 40000 }

decode-encode_xor_example :
    (a : Attribute) × (encode_xor_mapped_address public_v4 some_id ≡ some a)
    × IsAttribute a
    × (a.length ≤ 20)
    × (a.type ≡ attr_xor_mapped_address)
    × (decode_xor_mapped_address a some_id
        ≡ ok (record { ip = canonical public_v4.ip; port = 40000 }))
decode-encode_xor_example =
    decode-encode_xor public_v4 some_id (inl refl) (ground arith) (omega arith) refl

abbrev public_v6 : UdpAddr
public_v6 = record {
  ip = 32 ∷ 1 ∷ 13 ∷ 184 ∷ 0 ∷ 0 ∷ 0 ∷ 0 ∷ 0 ∷ 0 ∷ 0 ∷ 0 ∷ 0 ∷ 0 ∷ 0 ∷ 1 ∷ [];
  port = 3478;
}

abbrev pub private_v4 : UdpAddr
private_v4 = record { ip = 192 ∷ 168 ∷ 1 ∷ 5 ∷ []; port = 40000 }

abbrev pub server_v4 : UdpAddr
server_v4 = record { ip = 74 ∷ 125 ∷ 250 ∷ 129 ∷ []; port = 19302 }

abbrev pub some_client : Client
some_client = record { local_addr = private_v4; server_addr = server_v4; timeout = 5000000000 }

abbrev pub good_socket : Exchange
good_socket = record { random = some some_id; sent = true; deadline_set = true; read = datagram [] }

abbrev pub seen : Endpoint
seen = record {
  local_addr = private_v4;
  public_addr = record { ip = canonical public_v4.ip; port = 40000 };
  server_addr = server_v4;
}

discover_answered_example :
    (a : Attribute) × (bytes : List ℕ) × (encode_xor_mapped_address public_v4 some_id ≡ some a)
    × (encode (reply some_id a) ≡ some bytes)
    × (discover some_client (record good_socket { read = datagram bytes }) ≡ ok seen)
discover_answered_example =
    discover_answered some_client good_socket some_id public_v4 refl refl refl refl (inl refl)
      (ground arith) (omega arith)

-- The success response with that attribute.
abbrev pub answer_bytes : List ℕ
answer_bytes =
    1 ∷ 1 ∷ 0 ∷ 12 ∷ 33 ∷ 18 ∷ 164 ∷ 66 ∷ some_id
    ++ 0 ∷ 32 ∷ 0 ∷ 8 ∷ 0 ∷ 1 ∷ 189 ∷ 82 ∷ 234 ∷ 18 ∷ 213 ∷ 75 ∷ []

abbrev pub answered_socket : Exchange
answered_socket = record good_socket { read = datagram answer_bytes }

pub answered : discover some_client answered_socket ≡ ok seen
unfolding discover new_message encode encode_header encode_attributes encode_attribute msg_length
    attr_len await_response receive decode read_u16 read_u32 decode_body decode_attributes
    decode_attribute decode_value check_response public_address get_attribute
    decode_xor_mapped_address decode_xor_ip read_family_port bytes_eq slice be_u16 be_u32 uint16
    overwrite copy_into put_u16 put_u32 bytes_u16 bytes_u32 to4
answered = refl

-- Two sockets behind a NAT that keeps the ports: the two servers see two ports.
abbrev pub second_client : Client
second_client = record some_client { local_addr = record private_v4 { port = 40001 } }

abbrev pub second_bytes : List ℕ
second_bytes =
    1 ∷ 1 ∷ 0 ∷ 12 ∷ 33 ∷ 18 ∷ 164 ∷ 66 ∷ some_id
    ++ 0 ∷ 32 ∷ 0 ∷ 8 ∷ 0 ∷ 1 ∷ 189 ∷ 83 ∷ 234 ∷ 18 ∷ 213 ∷ 75 ∷ []

abbrev pub second_socket : Exchange
second_socket = record answered_socket { read = datagram second_bytes }

abbrev pub second_seen : Endpoint
second_seen = record seen {
  local_addr = record private_v4 { port = 40001 };
  public_addr = record seen.public_addr { port = 40001 };
}

pub second_answered : discover second_client second_socket ≡ ok second_seen
unfolding discover new_message encode encode_header encode_attributes encode_attribute msg_length
    attr_len await_response receive decode read_u16 read_u32 decode_body decode_attributes
    decode_attribute decode_value check_response public_address get_attribute
    decode_xor_mapped_address decode_xor_ip read_family_port bytes_eq slice be_u16 be_u32 uint16
    overwrite copy_into put_u16 put_u32 bytes_u16 bytes_u32 to4
second_answered = refl

discover_sound_example :
    (id : List ℕ) × (bytes : List ℕ) × (response : Message) × (good_socket.random ≡ some id)
    × (datagram answer_bytes ≡ datagram bytes)
    × (decode (take 1500 bytes) ≡ ok response)
    × (bytes_eq response.transaction_id id ≡ true)
    × (response.type ≡ type_binding_success)
    × (public_address response id ≡ ok seen.public_addr)
    × (seen.local_addr ≡ some_client.local_addr)
    × (seen.server_addr ≡ some_client.server_addr)
discover_sound_example = discover_sound some_client answered_socket seen answered
