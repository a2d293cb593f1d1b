-- ===== src/Demo/Tests.antt =====
-- The theorems on the demo at concrete inputs.
use altair.Prelude.{
  All, Bool, false, ◌==◌, ℕ, ◌≡◌, ◌⊎◌, refl, true, false, List, [], ◌∷◌, none, some, replicate,
}
use altair.Outcome.{ok}
use altair.Net.{UdpAddr, ip_equal, to4, bytes_eq}
use altair.Detector.{Mapping, full_cone, is_symmetric}
use altair.Relay.{receive, Client, is_from, quick_relay, new_client, allocate, new_allocation}
use altair.Punch.{Attempt, by_receiver, ping}
use altair.Demo.{
  ChatConnection, World, shown, connect_to_peer, connect_via_relay, send_direct, send_message,
  receive_message, receive_relayed, show_message, is_protocol,
}
use altair.Demo.Connecting.{
  Relayed, Datagram, arrives, connect_to_peer_sound, connect_via_relay_sends,
}
use altair.Demo.Sending.{Line, send_messages, encode, encode_char, full_message, is_quit}
use altair.Demo.Delivery.{IsShown, send_messages-IsShown}
use altair.Chat.{trim_space, trim_left, trim_right, is_empty}
use altair.Demo.Messages.{FromPeer, receive_message_shown}

abbrev the_peer : UdpAddr
the_peer = record { ip = 203 ∷ 0 ∷ 113 ∷ 9 ∷ []; port = 50000 }

abbrev own_socket : UdpAddr
own_socket = record { ip = 0 ∷ 0 ∷ 0 ∷ 0 ∷ []; port = 40000 }

abbrev no_attempt : ℕ → Attempt
no_attempt i = record {
  direct = λ j. record { start = 0; written = true; rounds = [] };
  punch = record { start = 0; pings = []; rounds = []; choice = by_receiver };
}

abbrev a_world : World
a_world = record {
  resolve = λ name. some the_peer;
  relay_socket = some own_socket;
  dummy_socket = some own_socket;
  bind = λ addr. some addr;
  now = 0;
  later = 1;
  attempts = no_attempt;
}

abbrev cone_mapping : Mapping
cone_mapping = record {
  local_addr = own_socket;
  public_addr = some own_socket;
  type = full_cone;
  detected_at = 0;
}

abbrev a_client : Client
a_client = record {
  server_addr = the_peer;
  local_addr = own_socket;
  allocation = some (record {
    relay_addr = record { ip = 203 ∷ 0 ∷ 113 ∷ 9 ∷ []; port = 50001 };
    reflexive_addr = own_socket;
    lifetime = 600000000000;
    expires_at = 600000000001;
    id = 0;
  });
  timeout = 5000000000;
  closed = false;
}

abbrev a_chat : ChatConnection
a_chat = record {
  conn = own_socket;
  remote_addr = the_peer;
  is_relayed = true;
  relay_client = some a_client;
}

relayed : connect_via_relay a_world "relay:3478" the_peer ≡ ok a_chat
unfolding connect_via_relay quick_relay new_client allocate new_allocation
relayed = refl

connect_to_peer_sound_example :
    (peer : UdpAddr) × (a_world.resolve "peer:50000" ≡ some peer)
    × (((a_chat.is_relayed ≡ false)
          × (a_chat.relay_client ≡ none)
          × (is_symmetric cone_mapping.type ≡ true))
        ⊎ Relayed a_world "relay:3478" peer a_chat)
connect_to_peer_sound_example =
    connect_to_peer_sound a_world "relay:3478" "peer:50000" cone_mapping [] a_chat
      (unfold connect_to_peer in relayed)

connect_via_relay_sends_example :
    send_message a_chat (65 ∷ []) 600000000000 true ≡ (65 ∷ [], the_peer) ∷ []
connect_via_relay_sends_example =
    connect_via_relay_sends a_world "relay:3478" the_peer a_chat (65 ∷ []) 600000000000 true relayed

abbrev a_ping : Datagram
a_ping = record { bytes = ping; addr = own_socket }

abbrev a_text : Datagram
a_text = record { bytes = 72 ∷ 105 ∷ []; addr = the_peer }

received : receive_message a_chat true (arrives a_text) ≡ shown (72 ∷ 105 ∷ [])
unfolding receive_message receive_relayed receive show_message is_protocol is_from ip_equal bytes_eq
received = refl

receive_message_shown_example : FromPeer a_chat (arrives a_text) (72 ∷ 105 ∷ [])
receive_message_shown_example =
    receive_message_shown a_chat true (arrives a_text) (72 ∷ 105 ∷ []) received

-- 1501 letters.
abbrev long_text : List ℕ
long_text = replicate 1501 65

-- A direct connection to the peer, and its other side.
abbrev to_peer : ChatConnection
to_peer = record {
  conn = own_socket;
  remote_addr = the_peer;
  is_relayed = false;
  relay_client = none;
}

abbrev from_peer : ChatConnection
from_peer = record {
  conn = the_peer;
  remote_addr = own_socket;
  is_relayed = false;
  relay_client = none;
}

abbrev a_blank : ℕ → Bool
a_blank c = c == 32

-- " hi " and an empty line.
abbrev some_lines : List Line
some_lines =
    record { text = 32 ∷ 104 ∷ 105 ∷ 32 ∷ []; now = 1; written = true }
    ∷ record { text = 32 ∷ []; now = 2; written = true }
    ∷ []

send_messages-IsShown_example :
    All
      (λ sent. (sent.1 ≡ the_peer) × IsShown from_peer own_socket true sent)
      (send_messages a_blank to_peer (97 ∷ []) some_lines)
send_messages-IsShown_example =
    send_messages-IsShown a_blank to_peer from_peer own_socket true (97 ∷ []) some_lines refl refl
      (unfold is_from ip_equal to4 bytes_eq in refl)

hi :
    send_messages a_blank to_peer (97 ∷ []) some_lines
    ≡ (97 ∷ 58 ∷ 32 ∷ 104 ∷ 105 ∷ [], the_peer) ∷ []
unfolding send_messages encode encode_char full_message is_quit send_message send_direct trim_space
    trim_left trim_right is_empty bytes_eq
hi = refl
