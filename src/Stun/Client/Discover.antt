-- ===== src/Stun/Client/Discover.antt =====
-- What `Discover` returns: the address that an honest server saw, and nothing that a response did
-- not carry.
use altair.Prelude.{
  ℕ, ◌≤◌, ◌<◌, ◌≡◌, refl, ap, sym, ◌∙◌, ◌⊎◌, true, List, [], ◌∷◌, some, arith, length, take,
  take_all, append-nil, length-append,
}
use altair.Bytes.Laws.{IsBytes}
use altair.Outcome.{ok, wrap_err, wrap_err_inversion, >>=_inversion}
use altair.Net.{UdpAddr, bytes_eq}
use altair.Net.Laws.{bytes_eq_refl}
use altair.Stun.Message.{
  Attribute, Message, msg_length, new_message, get_attribute, type_binding_success,
  type_binding_request, attr_xor_mapped_address,
}
use altair.Stun.Wire.{wire, IsMessage, IsAttribute}
use altair.Stun.Encode.{encode}
use altair.Stun.Encode.Laws.{encode-eq-wire, attr_len_bounds}
use altair.Stun.Decode.{decode}
use altair.Stun.Decode.Laws.{decode-wire, length-input}
use altair.Stun.Address.{encode_xor_mapped_address, decode_xor_mapped_address}
use altair.Stun.Address.RoundTrip.{canonical, decode-encode_xor}
use altair.Stun.Client.{
  Client, Endpoint, Exchange, datagram, discover, await_response, check_response, public_address,
  receive, Read, timed_out, failed, guard, send_failed, deadline_failed, decode_failed,
}

-- The response of a server that saw the request come from an address encoded as `a`.
abbrev pub reply : List ℕ → Attribute → Message
reply id a = record { type = type_binding_success; transaction_id = id; attributes = a ∷ [] }

module _ (id : List ℕ) (a : Attribute) (id_size : length id ≡ 12) (v : IsAttribute a)
    (short : a.length ≤ 20) where
  length-reply : msg_length (reply id a).attributes ≤ 28
  unfolding msg_length
  length-reply = omega (arith, attr_len_bounds a.length)

  reply-IsMessage : IsMessage (reply id a)
  reply-IsMessage = record {
    type_fits = omega arith;
    id_size = id_size;
    each = (v, tt);
    total_fits = omega (arith, length-reply);
  }

  decode-reply : decode (take 1500 (wire (reply id a))) ≡ ok (reply id a)
  decode-reply =
      ap decode (take_all 1500 (wire (reply id a)) fits ∙ sym (append-nil (wire (reply id a))))
      ∙ decode-wire (reply id a) [] reply-IsMessage
    where
      fits : length (wire (reply id a)) ≤ 1500
      fits = omega (
        arith,
        length-input (reply id a) [] reply-IsMessage,
        length-append {0} (wire (reply id a)) ([]),
        length-reply,
      )

  check-reply :
      (c : Client) (addr : UdpAddr)
      → a.type ≡ attr_xor_mapped_address
      → decode_xor_mapped_address a id ≡ ok addr
      → check_response c id (reply id a)
        ≡ ok (record { local_addr = c.local_addr; public_addr = addr; server_addr = c.server_addr })
  unfolding check_response public_address get_attribute
  check-reply c addr kind e = ground (arith, bytes_eq_refl id)

  discover-reply :
      (c : Client) (x : Exchange) (addr : UdpAddr)
      → x.random ≡ some id
      → x.sent ≡ true
      → x.deadline_set ≡ true
      → a.type ≡ attr_xor_mapped_address
      → decode_xor_mapped_address a id ≡ ok addr
      → discover c (record x { read = datagram (wire (reply id a)) })
        ≡ ok (record { local_addr = c.local_addr; public_addr = addr; server_addr = c.server_addr })
  unfolding discover await_response receive new_message
  discover-reply c x addr random sent deadline kind back = ground (
    arith,
    encode-eq-wire (record { type = type_binding_request; transaction_id = id; attributes = [] })
        id_size,
    decode-reply,
    check-reply c addr kind back,
  )

-- A server that answers with the address it saw is believed: where Discover gets a transaction ID
-- of twelve bytes and its socket calls succeed, an address of four or sixteen bytes with a port
-- below 2 ^ 16 can be encoded as an attribute, the success response with this attribute and that
-- ID can be encoded, and when these bytes arrive Discover returns the address in its shortest
-- form, with the client's local and server address.
pub discover_answered :
    (c : Client) (x : Exchange) (id : List ℕ) (addr : UdpAddr)
    → x.random ≡ some id
    → length id ≡ 12
    → x.sent ≡ true
    → x.deadline_set ≡ true
    → (length addr.ip ≡ 4) ⊎ (length addr.ip ≡ 16)
    → IsBytes addr.ip
    → addr.port < 65536
    → (a : Attribute) × (bytes : List ℕ) × (encode_xor_mapped_address addr id ≡ some a)
      × (encode (reply id a) ≡ some bytes)
      × (discover c (record x { read = datagram bytes })
          ≡ ok (record {
            local_addr = c.local_addr;
            public_addr = record { ip = canonical addr.ip; port = addr.port };
            server_addr = c.server_addr;
          }))
discover_answered c x id addr random id_size sent deadline sizes bytes fits =
    let (a, made, v, short, kind, back) = decode-encode_xor addr id sizes bytes fits id_size in
    (
      a,
      wire (reply id a),
      made,
      encode-eq-wire (reply id a) id_size,
      discover-reply id a id_size v short c x (record { ip = canonical addr.ip; port = addr.port })
          random sent deadline kind back,
    )

check_response_inv :
    (c : Client) (id : List ℕ) (response : Message) (ep : Endpoint)
    → check_response c id response ≡ ok ep
    → (bytes_eq response.transaction_id id ≡ true)
      × (response.type ≡ type_binding_success)
      × (public_address response id ≡ ok ep.public_addr)
      × (ep.local_addr ≡ c.local_addr)
      × (ep.server_addr ≡ c.server_addr)
unfolding check_response
check_response_inv c id response ep h = ground arith

receive_inv :
    (r : Read) (bytes : List ℕ)
    → receive r ≡ ok bytes
    → (sent : List ℕ) × (r ≡ datagram sent) × (take 1500 sent ≡ bytes)
unfolding receive
receive_inv (datagram sent) bytes h = (sent, refl, ground arith)
receive_inv timed_out bytes h = cc
receive_inv failed bytes h = cc

await_response_inv :
    (c : Client) (x : Exchange) (id : List ℕ) (ep : Endpoint)
    → await_response c x id ≡ ok ep
    → (bytes : List ℕ) × (response : Message) × (x.read ≡ datagram bytes)
      × (decode (take 1500 bytes) ≡ ok response)
      × (check_response c id response ≡ ok ep)
unfolding await_response
await_response_inv c x id ep h =
    let (_, _, h1) = >>=_inversion (guard x.sent send_failed) _ h in
    let (_, _, h2) = >>=_inversion (guard x.deadline_set deadline_failed) _ h1 in
    let (bytes, got, h3) = >>=_inversion (receive x.read) _ h2 in
    let (response, decoded, h4) = >>=_inversion (wrap_err decode_failed (decode bytes)) _ h3 in
    let (sent, e, cut) = receive_inv x.read bytes got in
    (sent, response, e, rw cut (wrap_err_inversion decode_failed (decode bytes) decoded), h4)

request_inv :
    (c : Client) (x : Exchange) (ep : Endpoint)
    → discover c x ≡ ok ep
    → (id : List ℕ) × (x.random ≡ some id) × (await_response c x id ≡ ok ep)
unfolding discover new_message
request_inv c x ep h = ground arith

-- An endpoint that Discover returns comes from a datagram whose first 1500 bytes decode to a
-- success response with the transaction ID that the request had; its public address is the one
-- that the response's address attribute decodes to, and its other addresses are the client's own.
pub discover_sound :
    (c : Client) (x : Exchange) (ep : Endpoint)
    → discover c x ≡ ok ep
    → (id : List ℕ) × (bytes : List ℕ) × (response : Message) × (x.random ≡ some id)
      × (x.read ≡ datagram bytes)
      × (decode (take 1500 bytes) ≡ ok response)
      × (bytes_eq response.transaction_id id ≡ true)
      × (response.type ≡ type_binding_success)
      × (public_address response id ≡ ok ep.public_addr)
      × (ep.local_addr ≡ c.local_addr)
      × (ep.server_addr ≡ c.server_addr)
discover_sound c x ep h =
    let (id, random, awaited) = request_inv c x ep h in
    let (bytes, response, read, decoded, checked) = await_response_inv c x id ep awaited in
    let (same, kind, addr, loc, srv) = check_response_inv c id response ep checked in
    (id, bytes, response, random, read, decoded, same, kind, addr, loc, srv)
