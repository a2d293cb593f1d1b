-- ===== src/Detector/Names.antt =====
-- backend/pkg/nat/detector.go: what the NAT types are called, and the end of a detector.
use Prim.Native.String.{◌++◌ as append}
use altair.Prelude.{String, Option, none, some}
use altair.Format.{decimal}
use altair.Detector.{
  NatType, unknown, open_internet, full_cone, restricted_cone, port_restricted_cone, symmetric,
  blocked, undeclared,
}

-- Type.String
unfoldable pub nat_type_name : NatType → String
nat_type_name unknown = "Unknown"
nat_type_name open_internet = "Open Internet"
nat_type_name full_cone = "Full Cone"
nat_type_name restricted_cone = "Restricted Cone"
nat_type_name port_restricted_cone = "Port Restricted Cone"
nat_type_name symmetric = "Symmetric"
nat_type_name blocked = "Blocked"
nat_type_name (undeclared n) = append "Unknown(" (append (decimal n) ")")

-- Detector.Close: what the sockets of the two clients answer, `none` being no error; both are closed,
-- and the first error is returned.
unfoldable pub close {ℓ} : {E : Type ℓ} → Option E → Option E → Option E
close primary secondary = elim primary [ none ↦ secondary | some e ↦ some e ]
