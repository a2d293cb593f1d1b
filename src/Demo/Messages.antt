-- ===== src/Demo/Messages.antt =====
-- backend/examples/chat/main.go, `receiveMessages`: what reaches the screen, and what ends the program.
use altair.Prelude.{
  ℕ, ◌≤◌, ◌<◌, ◌≡◌, inl, inr, refl, Bool, true, false, List, some, arith, Bool-cases, Option-cases,
  length, take, take_all, lt→ltb, length-take, sym, ◌∙◌,
}
use altair.Net.{UdpAddr, Read, datagram}
use altair.Net.Laws.{Read-cases}
use altair.Relay.{Client, is_from, receive}
use altair.Demo.{
  ChatConnection, shown, panics, is_protocol, show_message, receive_relayed, receive_direct,
  receive_message,
}

show_message_inv :
    (remote : UdpAddr) (bytes : List ℕ) (addr : UdpAddr) (m : List ℕ)
    → show_message remote bytes addr ≡ shown m
    → (is_from remote addr ≡ true)
      × (length bytes ≤ 1500)
      × (is_protocol bytes ≡ false)
      × (m ≡ bytes)
unfolding show_message
show_message_inv remote bytes addr m h = ground (arith, h)

receive_relayed_inv :
    (c : ChatConnection) (client : Client) (deadline_set : Bool) (read : Read) (m : List ℕ)
    → receive_relayed c client deadline_set read ≡ shown m
    → (bytes : List ℕ) × (addr : UdpAddr) × (read ≡ datagram bytes addr)
      × (show_message c.remote_addr (take 65536 bytes) addr ≡ shown m)
unfolding receive_relayed receive
receive_relayed_inv c client deadline_set read m h = elim (Read-cases read) [
  | inl (bytes, addr, e) ↦ (bytes, addr, e, ground (arith, h, e))
  | inr (inl e) ↦ ground (arith, h, e)
  | inr (inr e) ↦ ground (arith, h, e)
]

receive_direct_inv :
    (c : ChatConnection) (read : Read) (m : List ℕ)
    → receive_direct c read ≡ shown m
    → (bytes : List ℕ) × (addr : UdpAddr) × (read ≡ datagram bytes addr)
      × (show_message c.remote_addr (take 1500 bytes) addr ≡ shown m)
unfolding receive_direct
receive_direct_inv c read m h = elim (Read-cases read) [
  | inl (bytes, addr, e) ↦ (bytes, addr, e, ground (arith, h, e))
  | inr (inl e) ↦ ground (arith, h, e)
  | inr (inr e) ↦ ground (arith, h, e)
]

-- A piece of at most 1500 of the first 65536 bytes is a piece of the first 1500.
take_shorter :
    (bytes : List ℕ) → length (take 65536 bytes) ≤ 1500 → take 65536 bytes ≡ take 1500 bytes
take_shorter bytes h =
    let short : length bytes ≤ 1500 = ground (arith, h, length-take 65536 bytes) in
    take_all 65536 bytes (ground (arith, short)) ∙ sym (take_all 1500 bytes short)

-- The text of a datagram of the peer that is none of the three of the protocol.
abbrev pub FromPeer : ChatConnection → Read → List ℕ → Type 0
FromPeer c read m =
    (bytes : List ℕ) × (addr : UdpAddr) × (read ≡ datagram bytes addr)
    × (is_from c.remote_addr addr ≡ true)
    × (m ≡ take 1500 bytes)
    × (is_protocol m ≡ false)

-- What receiveMessages shows, relayed or not, is the first 1500 bytes of a datagram from the
-- peer's address and port, and is none of PING, PONG and CONNECTED.
pub receive_message_shown :
    (c : ChatConnection) (deadline_set : Bool) (read : Read) (m : List ℕ)
    → receive_message c deadline_set read ≡ shown m
    → FromPeer c read m
unfolding receive_message
receive_message_shown c deadline_set read m h =
    let direct : receive_direct c read ≡ shown m → FromPeer c read m = λ k.
      (let (bytes, addr, e, s) = receive_direct_inv c read m k in
        let (from, short, plain, same) =
          show_message_inv c.remote_addr (take 1500 bytes) addr m s in
        (bytes, addr, e, from, same, rw same plain)) in
    elim (Bool-cases c.is_relayed) [
      | inr e ↦ direct (ground (arith, h, e))
      | inl e ↦ elim (Option-cases c.relay_client) [
        | inl f ↦ direct (ground (arith, h, e, f))
        | inr (client, f) ↦
            let (bytes, addr, g, s) =
              receive_relayed_inv c client deadline_set read m (ground (arith, h, e, f)) in
            let (from, short, plain, same) =
              show_message_inv c.remote_addr (take 65536 bytes) addr m s in
            (bytes, addr, g, from, same ∙ take_shorter bytes short, rw same plain)
      ]
    ]

too_long_panics :
    (remote : UdpAddr) (bytes : List ℕ) (addr : UdpAddr)
    → is_from remote addr ≡ true
    → 1500 < length bytes
    → show_message remote bytes addr ≡ panics
unfolding show_message
too_long_panics remote bytes addr from h =
    rw (from, lt→ltb 1500 (length bytes) h, show_message) refl

-- A datagram of more than 1500 bytes from the peer makes receiveMessages panic on a relayed
-- connection whose client is open.
pub receive_message_panics :
    (c : ChatConnection) (client : Client) (bytes : List ℕ) (addr : UdpAddr)
    → c.is_relayed ≡ true
    → c.relay_client ≡ some client
    → client.closed ≡ false
    → is_from c.remote_addr addr ≡ true
    → 1500 < length bytes
    → receive_message c true (datagram bytes addr) ≡ panics
unfolding receive_message receive_relayed receive show_message
receive_message_panics c client bytes addr e f up from h =
    rw (e, f, up, receive_message, receive_relayed, receive)
      (too_long_panics c.remote_addr (take 65536 bytes) addr from
        (ground (arith, h, length-take 65536 bytes)))
