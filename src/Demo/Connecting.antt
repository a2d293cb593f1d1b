-- ===== src/Demo/Connecting.antt =====
-- backend/examples/chat/main.go: which connections `connectToPeer` makes, and whom `waitForPeer` answers.
use text.Mathlib.Text.{◌==◌ as str_eq}
use text.Mathlib.TextEquality.{eq_iff}
use altair.Prelude.{
  ℕ, ◌+◌, ◌≡◌, ◌≢◌, ◌⊎◌, inl, inr, refl, Bool, true, false, not, ◌||◌, ◌&&◌, String, List, [], ◌∷◌,
  ◌++◌, Option, none, some, arith, All, map, Bool-cases, Option-cases, ltb, if◌then◌else◌,
}
use altair.Outcome.{ok, err, ◌>>=◌, wrap_err, >>=_inversion, wrap_err_inversion}
use altair.Net.{UdpAddr, Read, datagram}
use altair.Detector.{
  NatType, is_symmetric, is_blocked, supports_p2p, Mapping, open_internet, full_cone,
  restricted_cone, port_restricted_cone, symmetric, unknown, blocked, undeclared,
}
use altair.Relay.{
  Client, Allocation, quick_relay, new_client, allocate, is_valid, new_allocation, send,
}
use altair.Punch.{is_tagged, ping, new_puncher}
use altair.Demo.{
  relay_failed, dummy_failed, puncher_failed, demo_config, ChatConnection, World, connect_via_relay,
  punch_or_relay, connect_to_peer, wait_until, send_message,
}

p2p_turned_away :
    (t : NatType) → supports_p2p t ≡ true → not (is_symmetric t) || is_blocked t ≡ true
unfolding supports_p2p
p2p_turned_away open_internet h = refl
p2p_turned_away full_cone h = refl
p2p_turned_away restricted_cone h = refl
p2p_turned_away port_restricted_cone h = refl
p2p_turned_away symmetric h = ground (arith, h)
p2p_turned_away unknown h = refl
p2p_turned_away blocked h = refl
p2p_turned_away (undeclared n) h = refl

-- A NAT type that supports P2P is sent to the relay without an attempt.
pub connect_to_peer_turned_away :
    (w : World) (relay_server peer_addr : String) (m : Mapping) (local_addrs : List UdpAddr)
    (peer : UdpAddr)
    → supports_p2p m.type ≡ true
    → w.resolve peer_addr ≡ some peer
    → connect_to_peer w relay_server peer_addr m local_addrs ≡ connect_via_relay w relay_server peer
unfolding connect_to_peer
connect_to_peer_turned_away w relay_server peer_addr m local_addrs peer h e =
    rw (e, p2p_turned_away m.type h, connect_to_peer) refl

-- A client of the relay with an allocation of ten minutes.
quick_relay_value :
    (server : String) (lifetime : ℕ) (resolve : String → Option UdpAddr) (listen : Option UdpAddr)
    (now now' : ℕ) (c : Client) (a : Allocation)
    → quick_relay server lifetime resolve listen now now' ≡ ok (c, a)
    → (c.closed ≡ false) × (c.allocation ≡ some a) × (a.expires_at ≡ now' + lifetime)
unfolding quick_relay new_client allocate new_allocation
quick_relay_value server lifetime resolve listen now now' c a h =
    elim (Option-cases (resolve server)) [
      | inl e ↦ ground (arith, h, e)
      | inr (addr, e) ↦ elim (Option-cases listen) [
        | inl f ↦ ground (arith, h, e, f)
        | inr (own, f) ↦ ground (arith, h, e, f)
      ]
    ]

connect_via_relay_inv :
    (w : World) (relay_server : String) (peer : UdpAddr) (c : ChatConnection)
    → connect_via_relay w relay_server peer ≡ ok c
    → (client : Client) × (a : Allocation) × (quick_relay relay_server 600000000000 w.resolve
          w.relay_socket w.now w.later
        ≡ ok (client, a))
      × (c.remote_addr ≡ peer)
      × (c.is_relayed ≡ true)
      × (c.relay_client ≡ some client)
      × (relay_server ≢ "")
unfolding connect_via_relay
connect_via_relay_inv w relay_server peer c h = elim (Bool-cases (str_eq relay_server "")) [
  | inl e ↦ ground (arith, h, e)
  | inr e ↦
      let h' : (wrap_err relay_failed
              (quick_relay relay_server 600000000000 w.resolve w.relay_socket w.now w.later)
            >>= λ made. elim w.dummy_socket [
              | none ↦ err dummy_failed
              | some addr ↦ ok (record {
                conn = addr;
                remote_addr = peer;
                is_relayed = true;
                relay_client = some made.0;
              })
            ])
          ≡ ok c =
        ground (arith, h, e) in
      let ((client, a), made, rest) =
        >>=_inversion
          (wrap_err relay_failed
            (quick_relay relay_server 600000000000 w.resolve w.relay_socket w.now w.later))
          _ h' in
      elim (Option-cases w.dummy_socket) [
        | inl f ↦ ground (arith, rest, f)
        | inr (addr, f) ↦ (
          client,
          a,
          wrap_err_inversion relay_failed _ made,
          ground (arith, rest, f),
          ground (arith, rest, f),
          ground (arith, rest, f),
          ground (arith, e, eq_iff relay_server ""),
        )
      ]
]

-- The chat goes through a client of the relay with an allocation of ten minutes.
abbrev pub Relayed : World → String → UdpAddr → ChatConnection → Type 0
Relayed w relay_server peer c =
    (c.is_relayed ≡ true)
    × (c.remote_addr ≡ peer)
    × (relay_server ≢ "")
    × (client : Client) × (a : Allocation) × (c.relay_client ≡ some client)
    × (client.closed ≡ false)
    × (client.allocation ≡ some a)
    × (a.expires_at ≡ w.later + 600000000000)

connect_via_relay-Relayed :
    (w : World) (relay_server : String) (peer : UdpAddr) (c : ChatConnection)
    → connect_via_relay w relay_server peer ≡ ok c
    → Relayed w relay_server peer c
connect_via_relay-Relayed w relay_server peer c h =
    let (client, a, made, to, relayed, known, named) =
      connect_via_relay_inv w relay_server peer c h in
    let (up, held, expiry) =
      quick_relay_value relay_server 600000000000 w.resolve w.relay_socket w.now w.later client a
        made in
    (relayed, to, named, client, a, known, up, held, expiry)

-- On a connection that connectViaRelay has made, a message is put on the socket, once and to the
-- peer, if it is sent within ten minutes of the allocation and the write succeeds, and not at all
-- otherwise.
pub connect_via_relay_sends :
    (w : World) (relay_server : String) (peer : UdpAddr) (c : ChatConnection) (message : List ℕ)
    (now : ℕ) (written : Bool)
    → connect_via_relay w relay_server peer ≡ ok c
    → send_message c message now written
      ≡ (if ltb now (w.later + 600000000000) && written then (message, peer) ∷ [] else [])
unfolding send_message send is_valid
connect_via_relay_sends w relay_server peer c message now written h =
    let (relayed, to, named, client, a, known, up, held, expiry) =
      connect_via_relay-Relayed w relay_server peer c h in
    rw (relayed, known, up, held, to, send_message, send, is_valid) (ground (arith, expiry))

punch_or_relay_inv :
    (w : World) (relay_server : String) (peer : UdpAddr) (m : Mapping) (local_addrs : List UdpAddr)
    (c : ChatConnection)
    → punch_or_relay w relay_server peer m local_addrs ≡ ok c
    → ((c.is_relayed ≡ false) × (c.relay_client ≡ none))
      ⊎ (connect_via_relay w relay_server peer ≡ ok c)
unfolding punch_or_relay
punch_or_relay_inv w relay_server peer m local_addrs c h =
    let (p, made, rest) =
      >>=_inversion (wrap_err puncher_failed (new_puncher (some (demo_config m)) w.bind)) _ h in
    ground (arith, rest)

-- If connectToPeer of the demo returns a connection, the peer's address has resolved, and either
-- the connection is direct and the own NAT type is symmetric, or it goes to that address through a
-- relay client that is open and holds an allocation that ends ten minutes after it was made, and a
-- relay server was named.
pub connect_to_peer_sound :
    (w : World) (relay_server peer_addr : String) (m : Mapping) (local_addrs : List UdpAddr)
    (c : ChatConnection)
    → connect_to_peer w relay_server peer_addr m local_addrs ≡ ok c
    → (peer : UdpAddr) × (w.resolve peer_addr ≡ some peer)
      × (((c.is_relayed ≡ false) × (c.relay_client ≡ none) × (is_symmetric m.type ≡ true))
          ⊎ Relayed w relay_server peer c)
unfolding connect_to_peer
connect_to_peer_sound w relay_server peer_addr m local_addrs c h =
    elim (Option-cases (w.resolve peer_addr)) [
      | inl e ↦ ground (arith, h, e)
      | inr (peer, e) ↦
          let relayed : connect_via_relay w relay_server peer ≡ ok c
              → Relayed w relay_server peer c =
            connect_via_relay-Relayed w relay_server peer c in
          elim (Bool-cases (not (is_symmetric m.type) || is_blocked m.type)) [
            | inl f ↦ (peer, e, inr (relayed (ground (arith, h, e, f))))
            | inr f ↦
                elim (punch_or_relay_inv w relay_server peer m local_addrs c
                  (ground (arith, h, e, f))) [
                    | inl (a, b) ↦ (peer, e, inl (a, b, ground (arith, f)))
                    | inr k ↦ (peer, e, inr (relayed k))
                  ]
          ]
    ]

-- The loop answers every PING of a list, in order.
pub record Datagram : Type 0 where
  pub bytes : List ℕ
  pub addr : UdpAddr

abbrev pub arrives : Datagram → Read
arrives d = datagram d.bytes d.addr

abbrev pub IsPing : Datagram → Type 0
IsPing d = is_tagged ping d.bytes ≡ true

-- The first datagram that is no PING names the peer, after a PONG to the sender of each PING.
pub wait_until_first :
    (pings : List Datagram) (first : Datagram) (reads : List Read)
    → All IsPing pings
    → is_tagged ping first.bytes ≡ false
    → wait_until (map arrives pings ++ arrives first ∷ reads)
      ≡ (map (λ d. d.addr) pings, ok first.addr)
unfolding wait_until
wait_until_first [] first reads v e = rw (e, wait_until) refl
wait_until_first (d ∷ pings) first reads (v, vs) e =
    rw (v, wait_until_first pings first reads vs e, wait_until) refl
