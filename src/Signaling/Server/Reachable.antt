-- ===== src/Signaling/Server/Reachable.antt =====
-- backend/internal/signaling: the states that a server can reach.
use altair.Prelude.{
  inl, inr, ◌⊎◌, ℕ, ◌-◌, ◌≡◌, ◌≢◌, refl, sym, ap, ◌∙◌, String, List, [], ◌∷◌, none, some, arith,
  Bool-cases, Option-cases, ltb,
}
use altair.Signaling.Protocol.{JoinPayload, Payload}
use altair.Signaling.Peer.{Peer, Conn, Heap, update, close, new_peer}
use altair.Signaling.Dict.{lookup, insert}
use altair.Signaling.Room.{Room}
use altair.Signaling.Manager.{Manager, new_manager, get}
use altair.Signaling.Manager.Consistent.{IsConsistent}
use altair.Signaling.Manager.Cleanup.{cleanup_empty-IsConsistent}
use altair.Signaling.Registry.{Registry, cleanup_stale, sweep, register, first_id, free_id}
use altair.Signaling.Handler.{State, connect}
use altair.Signaling.Handler.Kept.{
  Kept, Kept-refl, Kept-trans, Kept-IsConsistent, close-Kept, send_to-Kept,
}
use altair.Signaling.Handler.Invariant.{read_step-Agrees, handle_disconnect-Agrees}
use altair.Signaling.Server.{
  new_state, cleanup, Event, connected, received, disconnected, cleaned, step,
}

-- The pointer of a new connection is in no room and not in the registry.
unfoldable pub IsNew : State → Event → Type 0
IsNew s (connected peer conn supply now) =
    ((room_id id : String) (r : Room)
      → get s.rooms room_id ≡ some r
      → lookup id r.peers ≢ some peer)
    × ((id : String) → lookup id s.registry ≢ some peer)
IsNew s _ = Unit

pub data Reachable (parse : Payload → JoinPayload) : State → Type 0 where
  start : (h : Heap) → Reachable parse (new_state h)
  next : {s : State} (e : Event) → Reachable parse s → IsNew s e → Reachable parse (step parse s e)

pub sweep-Kept : (r : Registry) (h : Heap) (cutoff : ℕ) → Kept h (sweep r h cutoff).1
unfolding sweep
sweep-Kept [] h cutoff = Kept-refl h
sweep-Kept ((id, peer) ∷ rest) h cutoff = elim (Bool-cases (ltb (h peer).last_seen cutoff)) [
  | inl e ↦
      rw (e, sweep)
        (Kept-trans h _ _ (close-Kept h peer)
          (sweep-Kept rest (update h peer (close (h peer))) cutoff))
  | inr e ↦ rw (e, sweep) (sweep-Kept rest h cutoff)
]

cleanup-Agrees :
    (s : State) (stale_timeout now : ℕ)
    → IsConsistent s.rooms s.heap
    → let s' = (cleanup s stale_timeout now).0 in IsConsistent s'.rooms s'.heap
unfolding cleanup cleanup_stale
cleanup-Agrees s stale_timeout now v =
    cleanup_empty-IsConsistent s.rooms _ now
      (Kept-IsConsistent s.rooms s.heap _ (sweep-Kept s.registry s.heap (now - stale_timeout)) v)

-- A peer in no room may change altogether.
pub unused-IsConsistent :
    (rm : Manager) (h : Heap) (peer : ℕ) (p : Peer)
    → ((room_id id : String) (r : Room) → get rm room_id ≡ some r → lookup id r.peers ≢ some peer)
    → IsConsistent rm h
    → IsConsistent rm (update h peer p)
unfolding get
unused-IsConsistent rm h peer p out v = record {
  at_room = λ room_id r e.
      let w = v.at_room room_id r e in
      record {
        named = w.named;
        distinct = w.distinct;
        within = w.within;
        members = λ id q f.
            ground
              (arith, w.members id q f, λ (k : peer ≡ q). out room_id id r e (f ∙ ap some (sym k)));
      };
  keys = v.keys;
  no_empty_name = v.no_empty_name;
}

-- `Register` changes the peer behind the pointer at most.
registered_heap :
    (r : Registry) (h : Heap) (peer : ℕ) (supply : List String)
    → (register r h peer supply ≡ none)
      ⊎ ((r' : Registry) × (p : Peer) × (register r h peer supply ≡ some (r', update h peer p)))
unfolding register
registered_heap r h peer supply = elim (Option-cases (first_id (h peer).id supply)) [
  | inl f ↦ inl (rw (f, register) refl)
  | inr ((first, rest), f) ↦ elim (Option-cases (free_id r first rest)) [
    | inl g ↦ inl (rw (f, g, register) refl)
    | inr (id, g) ↦ inr (insert id peer r, record (h peer) { id = id }, rw (f, g, register) refl)
  ]
]

connected-Agrees :
    (parse : Payload → JoinPayload) (s : State) (peer : ℕ) (conn : Conn) (supply : List String)
    (now : ℕ)
    → ((room_id id : String) (r : Room)
        → get s.rooms room_id ≡ some r
        → lookup id r.peers ≢ some peer)
    → IsConsistent s.rooms s.heap
    → let s' = step parse s (connected peer conn supply now) in IsConsistent s'.rooms s'.heap
unfolding step connect
connected-Agrees parse s peer conn supply now out v =
    let h1 : Heap = update s.heap peer (new_peer "" conn now) in
    elim (registered_heap s.registry h1 peer supply) [
      | inl e ↦ rw (e, step, connect) v
      | inr (r', p, e) ↦
          let h2 : Heap = update h1 peer p in
          rw (e, step, connect)
            (Kept-IsConsistent s.rooms h2 _ (send_to-Kept h2 peer _) (
              unused-IsConsistent s.rooms h1 peer p out
                (unused-IsConsistent s.rooms s.heap peer (new_peer "" conn now) out v)))
    ]

start-Agrees : (h : Heap) → let s = new_state h in IsConsistent s.rooms s.heap
unfolding new_state new_manager lookup
start-Agrees h = record {
  at_room = λ room_id r e. ground (arith, e);
  keys = tt;
  no_empty_name = refl;
}

-- In every state that a server reaches from its start, by connections of new peers, messages of
-- any content with any parser of payloads, disconnections and clean-ups in any order, rooms and
-- peers agree: every room is kept under its name, which is not empty and occurs once, and is
-- within its limit, an ID occurs in it once, and a peer that is in it has that ID and knows itself
-- to be in that room.
pub Reachable-IsConsistent :
    (parse : Payload → JoinPayload) (s : State) → Reachable parse s → IsConsistent s.rooms s.heap
unfolding step IsNew
Reachable-IsConsistent parse _ (start h) = start-Agrees h
Reachable-IsConsistent parse _ (next {s} (connected peer conn supply now) w fresh) =
    connected-Agrees parse s peer conn supply now fresh.0 (Reachable-IsConsistent parse s w)
Reachable-IsConsistent parse _ (next {s} (received peer input now) w fresh) =
    read_step-Agrees parse s peer input now (Reachable-IsConsistent parse s w)
Reachable-IsConsistent parse _ (next {s} (disconnected peer now) w fresh) =
    handle_disconnect-Agrees s peer now (Reachable-IsConsistent parse s w)
Reachable-IsConsistent parse _ (next {s} (cleaned stale_timeout now) w fresh) =
    cleanup-Agrees s stale_timeout now (Reachable-IsConsistent parse s w)

-- In a state that a server reaches, two rooms that both hold the peer behind one pointer, under
-- whatever IDs, have the same name, and the IDs are the same.
pub one_room :
    (parse : Payload → JoinPayload) (s : State) (a b id id' : String) (r q : Room) (peer : ℕ)
    → Reachable parse s
    → get s.rooms a ≡ some r
    → get s.rooms b ≡ some q
    → lookup id r.peers ≡ some peer
    → lookup id' q.peers ≡ some peer
    → (a ≡ b) × (id ≡ id')
unfolding get
one_room parse s a b id id' r q peer w e f g k =
    let v = Reachable-IsConsistent parse s w in
    let (i, m) = (v.at_room a r e).members id peer g in
    let (j, n) = (v.at_room b q f).members id' peer k in (sym m ∙ n, sym i ∙ j)
