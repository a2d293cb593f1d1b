-- ===== src/Stun/Names.antt =====
-- backend/pkg/stun/message.go: what the types are called.
mod Tests
use Prim.Native.String.{◌++◌ as append}
use altair.Prelude.{ℕ, String, ◌==◌, if◌then◌else◌}
use altair.Format.{hex4}
use altair.Stun.Message.{
  type_binding_request, type_binding_success, type_binding_error, attr_mapped_address,
  attr_xor_mapped_address,
}

abbrev pub attr_username : ℕ
attr_username = 0x0006

abbrev pub attr_message_integrity : ℕ
attr_message_integrity = 0x0008

abbrev pub attr_error_code : ℕ
attr_error_code = 0x0009

abbrev pub attr_unknown_attributes : ℕ
attr_unknown_attributes = 0x000A

abbrev pub attr_realm : ℕ
attr_realm = 0x0014

abbrev pub attr_nonce : ℕ
attr_nonce = 0x0015

abbrev pub attr_software : ℕ
attr_software = 0x8022

abbrev pub attr_alternate_server : ℕ
attr_alternate_server = 0x8023

abbrev pub attr_fingerprint : ℕ
attr_fingerprint = 0x8028

unfoldable pub unknown_name : ℕ → String
unknown_name t = append "Unknown (0x" (append (hex4 t) ")")

-- MessageType.String
unfoldable pub message_type_name : ℕ → String
message_type_name t =
    if t == type_binding_request
    then "Binding Request"
    else if t == type_binding_success
    then "Binding Success Response"
    else if t == type_binding_error
    then "Binding Error Response"
    else unknown_name t

-- AttributeType.String
unfoldable pub attribute_type_name : ℕ → String
attribute_type_name t =
    if t == attr_mapped_address
    then "MAPPED-ADDRESS"
    else if t == attr_xor_mapped_address
    then "XOR-MAPPED-ADDRESS"
    else if t == attr_username
    then "USERNAME"
    else if t == attr_message_integrity
    then "MESSAGE-INTEGRITY"
    else if t == attr_error_code
    then "ERROR-CODE"
    else if t == attr_unknown_attributes
    then "UNKNOWN-ATTRIBUTES"
    else if t == attr_realm
    then "REALM"
    else if t == attr_nonce
    then "NONCE"
    else if t == attr_software
    then "SOFTWARE"
    else if t == attr_alternate_server
    then "ALTERNATE-SERVER"
    else if t == attr_fingerprint
    then "FINGERPRINT"
    else unknown_name t
