-- ===== src/Signaling/Spec/Meeting.antt =====
-- backend/internal/signaling: peers of one room find each other and exchange their offers.
use mathlib.Core.Path.{subst}
use text.Mathlib.Text.{◌==◌ as str_eq}
use text.Mathlib.TextEquality.{eq_iff}
use altair.Prelude.{
  ℕ, ◌≡◌, ◌≢◌, refl, sym, ap, ◌∙◌, String, Bool, true, false, ◌||◌, List, [], ◌∷◌, ◌++◌, Option,
  some, arith, inl, inr, Bool-cases, ◌==◌, ==_iff,
}
use altair.Signaling.Protocol.{PeerInfo, MessageType, Message, JoinPayload, Payload, peers}
use altair.Signaling.Protocol
use altair.Signaling.Peer.{Heap, SendError, info, send_to}
use altair.Signaling.Dict.{Dict, lookup}
use altair.Signaling.Room.{Room, infos_of, peer_infos}
use altair.Signaling.Room.Broadcast.{holds}
use altair.Signaling.Manager.{get}
use altair.Signaling.Handler.{State, sending, handle_discover, forward}
use altair.Signaling.Handler.Forwarding.{IsWritable, send_writable, forward_delivers}
use altair.Signaling.Server.{Event}
use altair.Signaling.Spec.{Assignment, assigns, Run}
use altair.Signaling.Spec.Told.{holds-Follows}
use altair.Signaling.Spec.Refines.{Follows}
use altair.Signaling.Spec.Runs.{Run-Follows}

-- Whether a list of peers has an ID.
abbrev pub listed : String → List PeerInfo → Bool
listed id [] = false
listed id (i ∷ rest) = str_eq i.peer_id id || listed id rest

listed-infos_of :
    (h : Heap) (d : Dict ℕ) (q : ℕ) → holds q d ≡ true → listed (h q).id (infos_of h d) ≡ true
unfolding infos_of info
listed-infos_of h [] q e = cc
listed-infos_of h ((id, p) ∷ d) q e = elim (Bool-cases (p == q)) [
  | inl t ↦ rw (← (==_iff p q).0 t) (ground (arith, eq_iff (h p).id (h p).id))
  | inr t ↦ ground (arith, t, e, listed-infos_of h d q)
]

-- The answer to a DISCOVER that names no room.
abbrev pub Listing : State → State → ℕ → String → String → Type 0
Listing s s' a room_id id =
    (list : Message) × (infos : List PeerInfo) × ((s'.heap a).conn.written
      ≡ (s.heap a).conn.written ++ list ∷ [])
    × (list.type ≡ Protocol.peer_list)
    × (list.payload ≡ peers room_id infos)
    × (listed id infos ≡ true)

abbrev reply : State → ℕ → Message → Room → ℕ → Message
reply s a ask r now = record {
  type = Protocol.peer_list;
  peer_id = (s.heap a).id;
  target_id = "";
  room_id = (s.heap a).room_id;
  payload = peers (s.heap a).room_id (peer_infos r s.heap);
  timestamp = now;
  request_id = ask.request_id;
}

discover_value :
    (s : State) (a : ℕ) (ask : Message) (now : ℕ) (r : Room)
    → (s.heap a).room_id ≢ ""
    → ask.room_id ≡ ""
    → get s.rooms (s.heap a).room_id ≡ some r
    → handle_discover s a ask now ≡ sending s (send_to s.heap a (reply s a ask r now))
unfolding handle_discover
discover_value s a ask now r placed current found =
    let asked : str_eq ask.room_id "" ≡ true = ground (arith, current, eq_iff ask.room_id "") in
    let away : str_eq (s.heap a).room_id "" ≡ false =
      ground (arith, placed, eq_iff (s.heap a).room_id "") in
    rw (asked, away, found, handle_discover) (rw asked refl)

-- The state after the answer.
answered :
    (s : State) (a : ℕ) (m : Message) (id : String) (infos : List PeerInfo)
    → IsWritable (s.heap a)
    → m.type ≡ Protocol.peer_list
    → m.payload ≡ peers (s.heap a).room_id infos
    → listed id infos ≡ true
    → let s' = (sending s (send_to s.heap a m)).0 in
      Listing s s' a (s.heap a).room_id id
      × (s'.registry ≡ s.registry)
      × ((q : ℕ) → a ≢ q → s'.heap q ≡ s.heap q)
      × ((s'.heap a).id ≡ (s.heap a).id)
unfolding send_to
answered s a m id infos up type payload there =
    let value = send_writable (s.heap a) m up in
    (
      (m, infos, ground (arith, value), type, payload, there),
      refl,
      λ q ne. ground (arith, ne),
      ground (arith, value),
    )

discovered :
    (s : State) (f : Assignment) (a b : ℕ) (ask : Message) (now : ℕ)
    → Follows s f
    → (s.heap a).room_id ≢ ""
    → f b ≡ (s.heap a).room_id
    → ask.room_id ≡ ""
    → IsWritable (s.heap a)
    → let s' = (handle_discover s a ask now).0 in
      Listing s s' a (s.heap a).room_id (s.heap b).id
      × (s'.registry ≡ s.registry)
      × ((q : ℕ) → a ≢ q → s'.heap q ≡ s.heap q)
      × ((s'.heap a).id ≡ (s.heap a).id)
unfolding peer_infos
discovered s f a b ask now v placed same current up =
    let (r, e, there) = v.at a placed in
    let room_id = (s.heap a).room_id in
    let found : get s.rooms room_id ≡ some r = unfold get in e in
    let held : holds b r.peers ≡ true =
      holds-Follows s f room_id r b v placed found ∙ ground (arith, same, eq_iff (f b) room_id) in
    subst
      (λ (x : State × Option SendError).
        Listing s x.0 a room_id (s.heap b).id
        × (x.0.registry ≡ s.registry)
        × ((q : ℕ) → a ≢ q → x.0.heap q ≡ s.heap q)
        × ((x.0.heap a).id ≡ (s.heap a).id))
      (sym (discover_value s a ask now r placed current found))
      (answered s a (reply s a ask r now) (s.heap b).id (peer_infos r s.heap) up refl refl
        (listed-infos_of s.heap r.peers b held))

-- Peers of one room find each other: after a run of the server from a heap without peers, in which
-- connections get new pointers and IDs that nobody had, if its events assign one room to two
-- different peers whose connections take the next write, and the second is registered under its
-- ID, then a DISCOVER of the first that names no room is answered with a PEER_LIST of that room in
-- which the ID of the second is, and an OFFER, ANSWER or CANDIDATE that the first then sends to
-- that ID reaches the second with the sender's ID and the payload.
pub peers_meet :
    (parse : Payload → JoinPayload) (es : List Event) (s : State) (a b : ℕ) (ask msg : Message)
    (t : MessageType) (now later : ℕ)
    → Run parse es s
    → a ≢ b
    → assigns es a ≢ ""
    → assigns es b ≡ assigns es a
    → ask.room_id ≡ ""
    → msg.target_id ≡ (s.heap b).id
    → lookup (s.heap b).id s.registry ≡ some b
    → IsWritable (s.heap a)
    → IsWritable (s.heap b)
    → let s1 = (handle_discover s a ask now).0 in
      let s2 = (forward t s1 a msg later).0 in
      Listing s s1 a (assigns es a) (s.heap b).id
      × ((m : Message) × ((s2.heap b).conn.written ≡ (s.heap b).conn.written ++ m ∷ [])
          × (m.type ≡ t)
          × (m.peer_id ≡ (s.heap a).id)
          × (m.payload ≡ msg.payload))
peers_meet parse es s a b ask msg t now later w ne placed same current aimed known up_a up_b =
    let v = Run-Follows parse es s w in
    let here = v.follows a in
    let (list, registry, others, id) =
      discovered s (assigns es) a b ask now v
        (λ (n : (s.heap a).room_id ≡ ""). placed (sym here ∙ n)) (same ∙ sym here) current up_a in
    let s1 = (handle_discover s a ask now).0 in
    let kept = others b ne in
    let named : msg.target_id ≢ "" =
      λ n. placed (sym same ∙ sym (v.follows b) ∙ v.nameless b (sym aimed ∙ n)) in
    let reached : lookup msg.target_id s1.registry ≡ some b = rw (registry, aimed) known in
    let (none_lost, (m, sent, type, from, to, payload, request), _, _, _) =
      forward_delivers t s1 a b msg later named reached (rw kept up_b) in
    (
      subst (λ (room_id : String). Listing s s1 a room_id (s.heap b).id) here list,
      (m, sent ∙ ap (λ p. p.conn.written ++ m ∷ []) kept, type, from ∙ id, payload),
    )
