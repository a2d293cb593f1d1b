-- ===== src/Stun/Names/Tests.antt =====
-- Names of types.
use altair.Prelude.{◌≡◌, refl}
use altair.Format.{hex4}
use altair.Stun.Names.{message_type_name, attribute_type_name, unknown_name}

indication : message_type_name 0x0011 ≡ "Unknown (0x0011)"
unfolding message_type_name unknown_name hex4
indication = refl

software : attribute_type_name 0x8022 ≡ "SOFTWARE"
unfolding attribute_type_name
software = refl
