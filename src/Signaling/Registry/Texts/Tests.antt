-- ===== src/Signaling/Registry/Texts/Tests.antt =====
-- Texts of the registry.
use altair.Prelude.{◌≡◌, refl, [], ◌∷◌}
use altair.Format.{decimal, digits}
use altair.Signaling.Registry.Texts.{generate_peer_id, stats_text}

-- The example of the comment in the source.
an_id : generate_peer_id (0xa1 ∷ 0xb2 ∷ 0xc3 ∷ 0xd4 ∷ []) ≡ "a1b2c3d4"
unfolding generate_peer_id
an_id = refl

a_text :
    stats_text
      (record { total_peers = 12; peers_without_room = 2; peers_by_room = ("lobby", 10) ∷ [] })
    ≡ "TotalPeers=12, WithoutRoom=2, Rooms=1"
unfolding stats_text decimal digits
a_text = refl
