-- ===== src/Stun/Message.antt =====
-- backend/pkg/stun/message.go: the message and its attributes.
use altair.Prelude.{ℕ, ◌+◌, ◌-◌, ◌%◌, List, [], ◌∷◌, ◌++◌, Option, none, some, ◌==◌, if◌then◌else◌}

abbrev pub type_binding_request : ℕ
type_binding_request = 0x0001

abbrev pub type_binding_success : ℕ
type_binding_success = 0x0101

abbrev pub type_binding_error : ℕ
type_binding_error = 0x0111

abbrev pub attr_mapped_address : ℕ
attr_mapped_address = 0x0001

abbrev pub attr_xor_mapped_address : ℕ
attr_xor_mapped_address = 0x0020

abbrev pub magic_cookie : ℕ
magic_cookie = 0x2112A442

abbrev pub header_size : ℕ
header_size = 20

abbrev pub transaction_id_size : ℕ
transaction_id_size = 12

pub record Attribute : Type 0 where
  pub type : ℕ
  pub length : ℕ
  pub value : List ℕ

pub record Message : Type 0 where
  pub type : ℕ
  pub transaction_id : List ℕ
  pub attributes : List Attribute

-- `random` is what rand.Read put into the transaction ID; `none` is its failure.
unfoldable pub new_message : ℕ → Option (List ℕ) → Option Message
new_message msg_type none = none
new_message msg_type (some random) =
    some (record { type = msg_type; transaction_id = random; attributes = [] })

unfoldable pub add_attribute : Message → Attribute → Message
add_attribute m attr = record m { attributes = m.attributes ++ attr ∷ [] }

first_of_type : ℕ → List Attribute → Option Attribute
first_of_type attr_type [] = none
first_of_type attr_type (a ∷ rest) =
    if a.type == attr_type then some a else first_of_type attr_type rest

unfoldable pub get_attribute : Message → ℕ → Option Attribute
unfolding first_of_type
get_attribute m attr_type = first_of_type attr_type m.attributes

-- Attribute header, value and the padding to a multiple of four.
unfoldable pub attr_len : ℕ → ℕ
attr_len len = let n = 4 + len in let pad = n % 4 in if pad == 0 then n else n + (4 - pad)

unfoldable pub msg_length : List Attribute → ℕ
msg_length [] = 0
msg_length (a ∷ rest) = attr_len a.length + msg_length rest
