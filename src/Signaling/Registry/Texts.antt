-- ===== src/Signaling/Registry/Texts.antt =====
-- backend/internal/signaling/registry.go: an ID from random bytes, and the statistics as a text.
mod Tests
use Prim.Native.String.{◌++◌ as append}
use altair.Prelude.{ℕ, ◌/◌, ◌%◌, String, List, [], ◌∷◌, none, some, length, get_elem?}
use altair.Format.{decimal}
use altair.Signaling.Registry.Stats.{RegistryStats}

abbrev hex_digits : List String
hex_digits =
    "0" ∷ "1" ∷ "2" ∷ "3" ∷ "4" ∷ "5" ∷ "6" ∷ "7" ∷ "8" ∷ "9" ∷ "a" ∷ "b" ∷ "c" ∷ "d" ∷ "e" ∷ "f"
    ∷ []

abbrev pub hex_digit : ℕ → String
hex_digit d = elim (get_elem? hex_digits d) [ none ↦ "" | some t ↦ t ]

-- hex.EncodeToString of the four bytes that rand.Read gives.
unfoldable pub generate_peer_id : List ℕ → String
generate_peer_id [] = ""
generate_peer_id (b ∷ rest) =
    append (hex_digit (b / 16)) (append (hex_digit (b % 16)) (generate_peer_id rest))

-- RegistryStats.String
unfoldable pub stats_text : RegistryStats → String
stats_text s = append "TotalPeers=" (
    append (decimal s.total_peers) (
      append ", WithoutRoom=" (
        append (decimal s.peers_without_room)
          (append ", Rooms=" (decimal (length s.peers_by_room))))))
