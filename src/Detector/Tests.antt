-- ===== src/Detector/Tests.antt =====
-- The theorems on NAT types and detection at concrete inputs.
use altair.Prelude.{ℕ, String, Option, none, arith, ◌≡◌, ◌≢◌, ◌⊎◌, refl, true, false, some}
use altair.Outcome.{ok}
use altair.Net.{UdpAddr, ip_equal, bytes_eq, to4}
use altair.Stun.Client.{Endpoint, discover, new_client, local_of, timeout_of}
use altair.Stun.Tests.{some_client, answered_socket, seen, answered}
use altair.Detector.Sockets.{detect_two_sockets}
use altair.Stun.Tests.{private_v4, second_client, second_socket, second_seen, second_answered}
use altair.Detector.{
  open_internet, restricted_cone, symmetric, Detector, Mapping, detect, detect_second, classify,
  mapping_of, new_detector, default_config,
}
use altair.Detector.Detection.{detect_sound}

-- Both servers see the same address and port, which is not the client's own.
abbrev some_detector : Detector
some_detector = record { primary = some_client; secondary = some_client; retry_count = 3 }

abbrev found : Mapping
found = mapping_of seen restricted_cone 9

detected : detect some_detector answered_socket answered_socket 9 ≡ ok found
unfolding detect detect_second classify ip_equal bytes_eq to4
detected = rw (answered, detect, detect_second) refl

detect_sound_example :
    (e1 : Endpoint) × (discover some_client answered_socket ≡ ok e1)
    × (found.local_addr ≡ e1.local_addr)
    × (found.public_addr ≡ some e1.public_addr)
    × (((found.type ≡ open_internet) × (ip_equal e1.local_addr.ip e1.public_addr.ip ≡ true))
        ⊎ ((e2 : Endpoint) × (discover some_client answered_socket ≡ ok e2)
            × (ip_equal e1.local_addr.ip e1.public_addr.ip ≡ false)
            × (((found.type ≡ restricted_cone)
                  × (ip_equal e1.public_addr.ip e2.public_addr.ip ≡ true)
                  × (e1.public_addr.port ≡ e2.public_addr.port))
                ⊎ ((found.type ≡ symmetric)
                    × ((ip_equal e1.public_addr.ip e2.public_addr.ip ≡ false)
                        ⊎ (e1.public_addr.port ≢ e2.public_addr.port))))))
detect_sound_example = detect_sound some_detector answered_socket answered_socket 9 found detected

abbrev made_detector : Detector
made_detector = record { primary = some_client; secondary = second_client; retry_count = 3 }

abbrev resolve_all : String → Option UdpAddr
resolve_all name = some some_client.server_addr

abbrev first_listen : Option UdpAddr → Option UdpAddr
first_listen bound = some private_v4

abbrev second_listen : Option UdpAddr → Option UdpAddr
second_listen bound = some second_client.local_addr

detector_made : new_detector none resolve_all first_listen second_listen ≡ ok made_detector
unfolding new_detector default_config new_client local_of timeout_of
detector_made = refl

abbrev same_port : ℕ → ℕ
same_port p = p

detect_two_sockets_example :
    detect made_detector answered_socket second_socket 9 ≡ ok (mapping_of seen symmetric 9)
detect_two_sockets_example =
    detect_two_sockets none resolve_all first_listen second_listen made_detector private_v4
      second_client.local_addr answered_socket second_socket 9 seen second_seen same_port
      detector_made refl refl (λ e. ground (arith, e)) (λ p q h. h) answered second_answered refl
      refl (unfold ip_equal bytes_eq to4 in refl)
