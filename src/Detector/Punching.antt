-- ===== src/Detector/Punching.antt =====
-- The table of pairs: what it says, and how it relates to the other two functions of a type.
use altair.Prelude.{◌≤◌, ◌≡◌, refl, ◌↔◌, true, false, arith}
use altair.Detector.{
  NatType, open_internet, full_cone, restricted_cone, port_restricted_cone, is_blocked,
  can_hole_punch, supports_p2p, difficulty,
}

-- The pairs that can connect: neither side blocked, and one side open or a full cone, or both of one
-- restricted kind.
pub data Connects : NatType → NatType → Type 0 where
  open_left : (u : NatType) → is_blocked u ≡ false → Connects open_internet u
  open_right : (t : NatType) → is_blocked t ≡ false → Connects t open_internet
  full_left : (u : NatType) → is_blocked u ≡ false → Connects full_cone u
  full_right : (t : NatType) → is_blocked t ≡ false → Connects t full_cone
  both_restricted : Connects restricted_cone restricted_cone
  both_port_restricted : Connects port_restricted_cone port_restricted_cone

Connects-punch : {t u : NatType} → Connects t u → can_hole_punch t u ≡ true
unfolding can_hole_punch
Connects-punch (open_left u h) = ground arith
Connects-punch (open_right t h) = ground arith
Connects-punch (full_left u h) = ground arith
Connects-punch (full_right t h) = ground arith
Connects-punch both_restricted = refl
Connects-punch both_port_restricted = refl

punch-Connects : (t u : NatType) → can_hole_punch t u ≡ true → Connects t u
unfolding can_hole_punch
punch-Connects open_internet u h = open_left u (ground arith)
punch-Connects full_cone u h = full_left u (ground arith)
punch-Connects t open_internet h = open_right t (ground arith)
punch-Connects t full_cone h = full_right t (ground arith)
punch-Connects restricted_cone restricted_cone h = both_restricted
punch-Connects port_restricted_cone port_restricted_cone h = both_port_restricted
punch-Connects t u h = cc

-- CanHolePunch is true of exactly the pairs of the relation Connects: neither side blocked and one
-- side open or a full cone, both restricted cones, or both port-restricted cones.
pub can_hole_punch_iff : (t u : NatType) → (can_hole_punch t u ≡ true) ↔ Connects t u
can_hole_punch_iff t u = (punch-Connects t u, Connects-punch)

-- CanHolePunch does not depend on the order of its two arguments.
pub can_hole_punch_comm : (t u : NatType) → can_hole_punch t u ≡ can_hole_punch u t
unfolding can_hole_punch
can_hole_punch_comm t u = ground arith

-- A NAT type supports P2P exactly when CanHolePunch is true of it and itself, and exactly when its
-- difficulty is at most five.
pub supports_p2p_self :
    (t : NatType)
    → (supports_p2p t ≡ can_hole_punch t t) × ((supports_p2p t ≡ true) ↔ (difficulty t ≤ 5))
unfolding supports_p2p can_hole_punch difficulty
supports_p2p_self t = ground arith
