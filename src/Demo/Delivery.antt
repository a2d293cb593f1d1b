-- ===== src/Demo/Delivery.antt =====
-- backend/examples/chat/main.go: what one side of a direct connection sends, the other side shows.
use altair.Prelude.{
  ℕ, ◌≤◌, ◌≡◌, inl, inr, refl, sym, ap, ◌∙◌, Bool, true, false, ◌||◌, List, [], ◌∷◌, ◌++◌,
  append_assoc, arith, All, Bool-cases, length, take, take_all, length-take, ltb, ltb→lt, ltb→le,
  le→ltb, ◌==◌,
}
use altair.Net.{UdpAddr, datagram, bytes_eq}
use altair.Net.Laws.{bytes_eq-eq}
use altair.Chat.{is_empty, trim_space}
use altair.Punch.{ping, pong}
use altair.Relay.{is_from}
use altair.Demo.{
  connected_tag, ChatConnection, shown, is_protocol, show_message, receive_direct, receive_message,
  send_direct, send_message,
}
use altair.Demo.Sending.{encode_char, encode, full_message, is_quit, Line, send_messages}

-- Whether a colon is in a text.
abbrev has_colon : List ℕ → Bool
has_colon [] = false
has_colon (c ∷ cs) = c == 58 || has_colon cs

has_colon-append : (a b : List ℕ) → has_colon (a ++ b) ≡ (has_colon a || has_colon b)
has_colon-append [] b = refl
has_colon-append (c ∷ cs) b = ground (arith, has_colon-append cs b)

encode-append : (a b : List ℕ) → encode (a ++ b) ≡ encode a ++ encode b
unfolding encode
encode-append [] b = refl
encode-append (c ∷ cs) b =
    ap (λ x. encode_char c ++ x) (encode-append cs b)
    ∙ sym (append_assoc (encode_char c) (encode cs) (encode b))

-- A line that is sent has the colon after the name of the user.
message_colon :
    (username message : List ℕ) → has_colon (encode (full_message username message)) ≡ true
unfolding full_message encode encode_char
message_colon username message =
    ap has_colon (encode-append username (58 ∷ 32 ∷ message))
    ∙ has_colon-append (encode username) (58 ∷ 32 ∷ encode message)
    ∙ ground arith

not_tag : (m tag : List ℕ) → has_colon m ≡ true → has_colon tag ≡ false → bytes_eq m tag ≡ false
not_tag m tag e f = elim (Bool-cases (bytes_eq m tag)) [
  | inl t ↦ ground (arith, sym e ∙ ap has_colon (bytes_eq-eq m tag t) ∙ f)
  | inr t ↦ t
]

-- So it is none of the datagrams of the protocol.
colon_protocol : (m : List ℕ) → has_colon m ≡ true → is_protocol m ≡ false
unfolding is_protocol
colon_protocol m e =
    rw (not_tag m ping e refl, not_tag m pong e refl, not_tag m connected_tag e refl) refl

too_long : (m tag : List ℕ) → 10 ≤ length m → length tag ≤ 9 → bytes_eq m tag ≡ false
too_long m tag long short = elim (Bool-cases (bytes_eq m tag)) [
  | inl t ↦ absurd (omega (arith, long, short, ap length (bytes_eq-eq m tag t)))
  | inr t ↦ t
]

long_protocol : (m : List ℕ) → 10 ≤ length m → is_protocol m ≡ false
unfolding is_protocol
long_protocol m long =
    rw
      (
        too_long m ping long (omega arith),
        too_long m pong long (omega arith),
        too_long m connected_tag long (omega arith),
      )
      refl

-- What the buffer takes of such a datagram is none of them either.
cut_protocol : (n : ℕ) (m : List ℕ) → 10 ≤ n → has_colon m ≡ true → is_protocol (take n m) ≡ false
cut_protocol n m large colon = elim (Bool-cases (ltb n (length m))) [
  | inl e ↦ long_protocol (take n m) (omega (arith, large, ltb→lt n (length m) e, length-take n m))
  | inr e ↦ rw (take_all n m (ltb→le n (length m) e)) (colon_protocol m colon)
]

-- A side that is bound to the sender shows as much of a datagram as its buffer takes.
abbrev pub IsShown : ChatConnection → UdpAddr → Bool → List ℕ × UdpAddr → Type 0
IsShown d own deadline_set (bytes, to) =
    receive_message d deadline_set (datagram bytes own) ≡ shown (take 1500 bytes)

direct-IsShown :
    (d : ChatConnection) (own : UdpAddr) (deadline_set : Bool) (bytes : List ℕ) (to : UdpAddr)
    → d.is_relayed ≡ false
    → is_from d.remote_addr own ≡ true
    → has_colon bytes ≡ true
    → IsShown d own deadline_set (bytes, to)
unfolding receive_message receive_direct show_message
direct-IsShown d own deadline_set bytes to direct from colon =
    let fits = le→ltb 1500 (length (take 1500 bytes)) (omega (arith, length-take 1500 bytes)) in
    rw
      (
        direct,
        from,
        fits,
        cut_protocol 1500 bytes (omega arith) colon,
        receive_message,
        show_message,
      )
      refl

-- On a direct connection every datagram that sendMessages puts on the socket goes to the peer, and
-- a side with a direct connection to the sender's address shows the first 1500 bytes of it: no
-- line, whatever the user's name and the text, is taken for a datagram of the protocol.
pub send_messages-IsShown :
    (is_space : ℕ → Bool) (c d : ChatConnection) (own : UdpAddr) (deadline_set : Bool)
    (username : List ℕ) (lines : List Line)
    → c.is_relayed ≡ false
    → d.is_relayed ≡ false
    → is_from d.remote_addr own ≡ true
    → All
        (λ sent. (sent.1 ≡ c.remote_addr) × IsShown d own deadline_set sent)
        (send_messages is_space c username lines)
unfolding send_messages send_message send_direct
send_messages-IsShown is_space c d own deadline_set username [] straight direct from = tt
send_messages-IsShown is_space c d own deadline_set username (line ∷ lines) straight direct from =
    let later =
      send_messages-IsShown is_space c d own deadline_set username lines straight direct from in
    let message = trim_space is_space line.text in
    let bytes = encode (full_message username message) in
    elim (Bool-cases (is_empty message)) [
      | inl e ↦ rw (e, send_messages) later
      | inr e ↦ elim (Bool-cases (is_quit message)) [
        | inl f ↦ rw (e, f, send_messages) tt
        | inr f ↦ elim (Bool-cases line.written) [
          | inl g ↦
              rw (e, f, g, straight, send_messages, send_message, send_direct)
                (
                  (
                    refl,
                    direct-IsShown d own deadline_set bytes c.remote_addr direct from
                        (message_colon username message),
                  ),
                  later,
                )
          | inr g ↦ rw (e, f, g, straight, send_messages, send_message, send_direct) later
        ]
      ]
    ]
