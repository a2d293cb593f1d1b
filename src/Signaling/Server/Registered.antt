-- ===== src/Signaling/Server/Registered.antt =====
-- backend/internal/signaling: the registry in the states that a server can reach.
use text.Mathlib.Text.{◌==◌ as str_eq}
use text.Mathlib.TextEquality.{eq_iff}
use altair.Prelude.{
  inl, inr, ◌⊎◌, ℕ, ◌-◌, ◌≡◌, ◌≢◌, refl, sym, ap, ◌∙◌, String, List, [], ◌∷◌, none, some, arith,
  Bool-cases, Option-cases,
}
use altair.Signaling.Protocol.{JoinPayload, Payload}
use altair.Signaling.Peer.{Peer, Conn, Heap, update, new_peer}
use altair.Signaling.Dict.{
  lookup, insert, Distinct, lookup-insert, lookup-delete, insert-Distinct, delete-Distinct,
}
use altair.Signaling.Registry.{
  Registry, cleanup_stale, sweep, register, unregister, first_id, free_id,
}
use altair.Signaling.Registry.Cleanup.{sweep-lookup, sweep_step, closed_at}
use altair.Signaling.Handler.{State, connect, depart, handle_disconnect}
use altair.Signaling.Handler.Kept.{Kept, close-Kept, send_to-Kept}
use altair.Signaling.Handler.Ids.{SameIds, Same, read_step-Same, depart-Same}
use altair.Signaling.Server.{new_state, cleanup, connected, received, disconnected, cleaned, step}
use altair.Signaling.Server.Reachable.{Reachable, start, next, IsNew, sweep-Kept}

-- Every ID is registered once, and leads to a peer that has it.
pub record IsRegistry (r : Registry) (h : Heap) : Type 0 where
  pub distinct : Distinct r
  pub known : (id : String) (p : ℕ) → lookup id r ≡ some p → (h p).id ≡ id

SameIds-IsRegistry : (r : Registry) (h h' : Heap) → SameIds h h' → IsRegistry r h → IsRegistry r h'
unfolding SameIds
SameIds-IsRegistry r h h' k v = record {
  distinct = v.distinct;
  known = λ id p e. k p ∙ v.known id p e;
}

Kept-IsRegistry : (r : Registry) (h h' : Heap) → Kept h h' → IsRegistry r h → IsRegistry r h'
unfolding Kept
Kept-IsRegistry r h h' k v = record {
  distinct = v.distinct;
  known = λ id p e. (k p).0 ∙ v.known id p e;
}

free_id_unused :
    (r : Registry) (id : String) (supply : List String) (found : String)
    → free_id r id supply ≡ some found
    → lookup found r ≡ none
unfolding free_id
free_id_unused r id [] found e = ground (arith, e)
free_id_unused r id (x ∷ supply) found e = ground (arith, e, free_id_unused r x supply found)

-- `Register` adds a peer with an ID that is new.
pub registered_value :
    (r : Registry) (h : Heap) (peer : ℕ) (supply : List String)
    → (register r h peer supply ≡ none)
      ⊎ ((id : String) × (lookup id r ≡ none)
          × (register r h peer supply
              ≡ some (insert id peer r, update h peer (record (h peer) { id = id }))))
unfolding register
registered_value r h peer supply = elim (Option-cases (first_id (h peer).id supply)) [
  | inl f ↦ inl (rw (f, register) refl)
  | inr ((first, rest), f) ↦ elim (Option-cases (free_id r first rest)) [
    | inl g ↦ inl (rw (f, g, register) refl)
    | inr (id, g) ↦ inr (id, free_id_unused r first rest id g, rw (f, g, register) refl)
  ]
]

insert-IsRegistry :
    (r : Registry) (h : Heap) (peer : ℕ) (id : String) (p : Peer)
    → IsRegistry r h
    → ((j : String) → lookup j r ≢ some peer)
    → p.id ≡ id
    → IsRegistry (insert id peer r) (update h peer p)
insert-IsRegistry r h peer id p v out named = record {
  distinct = insert-Distinct id peer r v.distinct;
  known = λ j q e. elim (Bool-cases (str_eq id j)) [
    | inl t ↦ ground (arith, lookup-insert id j peer r, eq_iff id j, t, e, named)
    | inr t ↦ ground (
      arith,
      lookup-insert id j peer r,
      t,
      e,
      v.known j q,
      λ (k : peer ≡ q). out j (ground (arith, lookup-insert id j peer r, t, e, k)),
    )
  ];
}

-- A pointer that no ID leads to may change altogether.
unused-IsRegistry :
    (r : Registry) (h : Heap) (peer : ℕ) (p : Peer)
    → IsRegistry r h
    → ((j : String) → lookup j r ≢ some peer)
    → IsRegistry r (update h peer p)
unused-IsRegistry r h peer p v out = record {
  distinct = v.distinct;
  known = λ j q e. ground (arith, v.known j q e, λ (k : peer ≡ q). out j (e ∙ ap some (sym k)));
}

connected-IsRegistry :
    (parse : Payload → JoinPayload) (s : State) (peer : ℕ) (conn : Conn) (supply : List String)
    (now : ℕ)
    → ((id : String) → lookup id s.registry ≢ some peer)
    → IsRegistry s.registry s.heap
    → let s' = step parse s (connected peer conn supply now) in IsRegistry s'.registry s'.heap
unfolding step connect
connected-IsRegistry parse s peer conn supply now out v =
    let h1 : Heap = update s.heap peer (new_peer "" conn now) in
    elim (registered_value s.registry h1 peer supply) [
      | inl e ↦ rw (e, step, connect) v
      | inr (id, new, e) ↦
          let p : Peer = record (h1 peer) { id = id } in
          rw (e, step, connect)
            (Kept-IsRegistry (insert id peer s.registry) (update h1 peer p) _
              (send_to-Kept (update h1 peer p) peer _)
              (insert-IsRegistry s.registry h1 peer id p
                (unused-IsRegistry s.registry s.heap peer (new_peer "" conn now) v out) out refl))
    ]

unregister-IsRegistry :
    (r : Registry) (h : Heap) (id : String) → IsRegistry r h → IsRegistry (unregister r id) h
unfolding unregister
unregister-IsRegistry r h id v = elim (Option-cases (lookup id r)) [
  | inl e ↦ rw (e, unregister) v
  | inr (p, e) ↦
      rw (e, unregister)
        (record {
          distinct = delete-Distinct id r v.distinct;
          known = λ j q f. v.known j q (ground (arith, lookup-delete id j r, f));
        })
]

disconnected-IsRegistry :
    (s : State) (peer now : ℕ)
    → IsRegistry s.registry s.heap
    → let s' = handle_disconnect s peer now in IsRegistry s'.registry s'.heap
unfolding handle_disconnect Same
disconnected-IsRegistry s peer now v = elim (Bool-cases (str_eq (s.heap peer).room_id "")) [
  | inl e ↦
      rw (e, handle_disconnect)
        (unregister-IsRegistry s.registry _ (s.heap peer).id
          (Kept-IsRegistry s.registry s.heap _ (close-Kept s.heap peer) v))
  | inr e ↦
      let s1 = depart s peer (s.heap peer).room_id now in
      let (same, ids) = depart-Same s peer (s.heap peer).room_id now in
      let w : IsRegistry s1.registry s1.heap =
        rw same (SameIds-IsRegistry s.registry s.heap s1.heap ids v) in
      rw (e, handle_disconnect)
        (unregister-IsRegistry s1.registry _ (s1.heap peer).id
          (Kept-IsRegistry s1.registry s1.heap _ (close-Kept s1.heap peer) w))
]

sweep-Distinct : (r : Registry) (h : Heap) (cutoff : ℕ) → Distinct r → Distinct (sweep r h cutoff).0
sweep-Distinct [] h cutoff d = unfold sweep in tt
sweep-Distinct ((j, peer) ∷ r) h cutoff (new, d) = ground (
  arith,
  sweep_step j peer r h cutoff,
  new,
  sweep-lookup r h cutoff j d,
  sweep-Distinct r h cutoff d,
  sweep-Distinct r (closed_at h peer) cutoff d,
)

cleaned-IsRegistry :
    (s : State) (stale_timeout now : ℕ)
    → IsRegistry s.registry s.heap
    → let s' = (cleanup s stale_timeout now).0 in IsRegistry s'.registry s'.heap
unfolding cleanup cleanup_stale
cleaned-IsRegistry s stale_timeout now v =
    let c = now - stale_timeout in
    Kept-IsRegistry (sweep s.registry s.heap c).0 s.heap _ (sweep-Kept s.registry s.heap c)
      (record {
        distinct = sweep-Distinct s.registry s.heap c v.distinct;
        known = λ id p e.
            v.known id p (ground (arith, sweep-lookup s.registry s.heap c id v.distinct, e));
      })

received-IsRegistry :
    (s s' : State) → Same s s' → IsRegistry s.registry s.heap → IsRegistry s'.registry s'.heap
unfolding Same
received-IsRegistry s s' (same, ids) v =
    rw same (SameIds-IsRegistry s.registry s.heap s'.heap ids v)

start-IsRegistry : (h : Heap) → IsRegistry (new_state h).registry (new_state h).heap
unfolding new_state lookup
start-IsRegistry h = record { distinct = tt; known = λ id p e. ground (arith, e) }

-- In every state that a server reaches from its start, by connections of new peers, messages of
-- any content, disconnections and clean-ups in any order, the registry has every ID once, and an
-- ID of it leads to a peer that has this ID.
pub Reachable-IsRegistry :
    (parse : Payload → JoinPayload) (s : State) → Reachable parse s → IsRegistry s.registry s.heap
unfolding step IsNew
Reachable-IsRegistry parse _ (start h) = start-IsRegistry h
Reachable-IsRegistry parse _ (next {s} (connected peer conn supply now) w fresh) =
    connected-IsRegistry parse s peer conn supply now fresh.1 (Reachable-IsRegistry parse s w)
Reachable-IsRegistry parse _ (next {s} (received peer input now) w fresh) =
    received-IsRegistry s _ (read_step-Same parse s peer input now) (Reachable-IsRegistry parse s w)
Reachable-IsRegistry parse _ (next {s} (disconnected peer now) w fresh) =
    disconnected-IsRegistry s peer now (Reachable-IsRegistry parse s w)
Reachable-IsRegistry parse _ (next {s} (cleaned stale_timeout now) w fresh) =
    cleaned-IsRegistry s stale_timeout now (Reachable-IsRegistry parse s w)
