-- ===== src/Sockets/Tests.antt =====
-- Sockets at concrete inputs.
use altair.Prelude.{◌≡◌, refl, [], ◌∷◌, some}
use altair.Net.{UdpAddr}
use altair.Outcome.{ok}
use altair.Sockets.{find_available_port, create_udp_socket, open_udp}

abbrev own : UdpAddr
own = record { ip = 0 ∷ 0 ∷ 0 ∷ 0 ∷ []; port = 40000 }

a_port : find_available_port (λ text. some own) (λ addr. some addr) ≡ ok 40000
unfolding find_available_port open_udp
a_port = refl

a_socket : create_udp_socket (λ text. some own) (λ addr. some addr) 40000 ≡ ok own
unfolding create_udp_socket open_udp
a_socket = refl
