-- ===== src/Signaling/Server/Lasting.antt =====
-- backend/internal/signaling: how long an ID of the registry leads to the same peer.
use text.Mathlib.Text.{◌==◌ as str_eq}
use text.Mathlib.TextEquality.{eq_iff}
use altair.Prelude.{
  inl, inr, ℕ, ◌-◌, ◌≡◌, ◌≢◌, sym, ap, ◌∙◌, String, List, false, some, arith, Bool-cases, ltb,
}
use altair.Signaling.Protocol.{JoinPayload, Payload}
use altair.Signaling.Peer.{Conn, Heap, update, new_peer}
use altair.Signaling.Dict.{lookup, lookup-insert, lookup-delete}
use altair.Signaling.Registry.{Registry, cleanup_stale, unregister}
use altair.Signaling.Registry.Cleanup.{sweep-lookup}
use altair.Signaling.Handler.{State, connect, depart, handle_disconnect}
use altair.Signaling.Handler.Ids.{Same, SameIds, read_step-Same, depart-Same}
use altair.Signaling.Server.{cleanup, Event, connected, received, disconnected, cleaned, step}
use altair.Signaling.Server.Reachable.{Reachable, next, IsNew}
use altair.Signaling.Server.Registered.{IsRegistry, registered_value, Reachable-IsRegistry}

-- An event that does not end the registration of a peer: another registered peer disconnects, or a
-- clean-up finds the peer fresh enough. Connections and messages never end it.
unfoldable pub Spares : ℕ → State → Event → Type 0
Spares peer s (disconnected q now) = (q ≢ peer) × (lookup (s.heap q).id s.registry ≡ some q)
Spares peer s (cleaned stale_timeout now) =
    ltb (s.heap peer).last_seen (now - stale_timeout) ≡ false
Spares peer s _ = Unit

-- The states that a server reaches from one by events that spare a peer.
pub data Sparing (parse : Payload → JoinPayload) (peer : ℕ) (s : State) : State → Type 0 where
  now_here : Sparing parse peer s s
  later :
      {s' : State} (e : Event)
      → Sparing parse peer s s'
      → IsNew s' e
      → Spares peer s' e
      → Sparing parse peer s (step parse s' e)

Sparing-Reachable :
    (parse : Payload → JoinPayload) (peer : ℕ) (s s' : State)
    → Reachable parse s
    → Sparing parse peer s s'
    → Reachable parse s'
Sparing-Reachable parse peer s _ w now_here = w
Sparing-Reachable parse peer s _ w (later e run new spared) =
    next e (Sparing-Reachable parse peer s _ w run) new

-- `Register` takes no ID from the peer that has it.
connected-keeps :
    (parse : Payload → JoinPayload) (s : State) (id : String) (peer q : ℕ) (conn : Conn)
    (supply : List String) (now : ℕ)
    → lookup id s.registry ≡ some peer
    → lookup id (step parse s (connected q conn supply now)).registry ≡ some peer
unfolding step connect
connected-keeps parse s id peer q conn supply now e =
    let h1 : Heap = update s.heap q (new_peer "" conn now) in
    elim (registered_value s.registry h1 q supply) [
      | inl f ↦ rw (f, step, connect) e
      | inr (other, new, f) ↦
          rw (f, step, connect)
            (ground (arith, lookup-insert other id q s.registry, eq_iff other id, new, e))
    ]

unregister-keeps :
    (r : Registry) (id other : String) (peer : ℕ)
    → other ≢ id
    → lookup id r ≡ some peer
    → lookup id (unregister r other) ≡ some peer
unfolding unregister
unregister-keeps r id other peer ne e =
    ground (arith, lookup-delete other id r, eq_iff other id, ne, e)

disconnected-keeps :
    (s : State) (id : String) (peer q now : ℕ)
    → q ≢ peer
    → lookup (s.heap q).id s.registry ≡ some q
    → lookup id s.registry ≡ some peer
    → lookup id (handle_disconnect s q now).registry ≡ some peer
unfolding handle_disconnect Same SameIds
disconnected-keeps s id peer q now ne known e =
    let apart : (s.heap q).id ≢ id = λ k. ground (arith, k, known, e, ne) in
    elim (Bool-cases (str_eq (s.heap q).room_id "")) [
      | inl t ↦
          rw (t, handle_disconnect) (unregister-keeps s.registry id (s.heap q).id peer apart e)
      | inr t ↦
          let s1 = depart s q (s.heap q).room_id now in
          let (same, ids) = depart-Same s q (s.heap q).room_id now in
          rw (t, handle_disconnect)
            (unregister-keeps s1.registry id (s1.heap q).id peer (λ k. apart (sym (ids q) ∙ k))
              (ap (lookup id) same ∙ e))
    ]

cleaned-keeps :
    (s : State) (id : String) (peer stale_timeout now : ℕ)
    → IsRegistry s.registry s.heap
    → ltb (s.heap peer).last_seen (now - stale_timeout) ≡ false
    → lookup id s.registry ≡ some peer
    → lookup id (cleanup s stale_timeout now).0.registry ≡ some peer
unfolding cleanup cleanup_stale
cleaned-keeps s id peer stale_timeout now v fresh e =
    ground (arith, sweep-lookup s.registry s.heap (now - stale_timeout) id v.distinct, fresh, e)

stays :
    (parse : Payload → JoinPayload) (s : State) (id : String) (peer : ℕ) (s' : State)
    → Reachable parse s
    → lookup id s.registry ≡ some peer
    → Sparing parse peer s s'
    → lookup id s'.registry ≡ some peer
unfolding step Spares Same
stays parse s id peer _ w e now_here = e
stays parse s id peer _ w e (later {s'} (connected q conn supply now) run new spared) =
    connected-keeps parse s' id peer q conn supply now (stays parse s id peer s' w e run)
stays parse s id peer _ w e (later {s'} (received q input now) run new spared) =
    ap (lookup id) (read_step-Same parse s' q input now).0 ∙ stays parse s id peer s' w e run
stays parse s id peer _ w e (later {s'} (disconnected q now) run new spared) =
    disconnected-keeps s' id peer q now spared.0 spared.1 (stays parse s id peer s' w e run)
stays parse s id peer _ w e (later {s'} (cleaned stale_timeout now) run new fresh) =
    cleaned-keeps s' id peer stale_timeout now
      (Reachable-IsRegistry parse s' (Sparing-Reachable parse peer s s' w run)) fresh
      (stays parse s id peer s' w e run)

-- A peer keeps its ID: in a state that a server has reached, let an ID lead to a peer, and let any
-- events follow, connections of new peers whatever random IDs they draw, messages of any content,
-- disconnections of other peers that are registered under their IDs, and clean-ups that find the
-- peer fresh enough. Then the ID still leads to that peer, the peer has that ID, and no other ID
-- leads to it.
pub registered_stays :
    (parse : Payload → JoinPayload) (s s' : State) (id : String) (peer : ℕ)
    → Reachable parse s
    → lookup id s.registry ≡ some peer
    → Sparing parse peer s s'
    → (lookup id s'.registry ≡ some peer)
      × ((s'.heap peer).id ≡ id)
      × ((other : String) → lookup other s'.registry ≡ some peer → other ≡ id)
registered_stays parse s s' id peer w e run =
    let kept = stays parse s id peer s' w e run in
    let v = Reachable-IsRegistry parse s' (Sparing-Reachable parse peer s s' w run) in
    let named = v.known id peer kept in
    (kept, named, λ other e'. sym (v.known other peer e') ∙ named)
