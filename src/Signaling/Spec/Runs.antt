-- ===== src/Signaling/Spec/Runs.antt =====
-- backend/internal/signaling: the rooms of a server, after any events, are the assignment of rooms.
use mathlib.Core.Path.{subst}
use text.Mathlib.Text.{◌==◌ as str_eq}
use text.Mathlib.TextEquality.{eq_iff}
use altair.Prelude.{
  ap, sym, ◌∙◌, ℕ, ◌-◌, ◌≡◌, ◌≢◌, ◌⊎◌, refl, String, List, [], ◌∷◌, some, none, inl, inr, arith,
  Bool-cases, Option-cases, ◌==◌, ==_iff,
}
use altair.Signaling.Protocol.{JoinPayload, Payload}
use altair.Signaling.Peer.{Peer, Conn, Heap, update, new_peer}
use altair.Signaling.Dict.{lookup, insert}
use altair.Signaling.Manager.{Manager, get, new_manager}
use altair.Signaling.Room.{Room}
use altair.Signaling.Registry.{Registry, register, free_id, cleanup_stale}
use altair.Signaling.Handler.{State, connect}
use altair.Signaling.Handler.Kept.{Kept, send_to-Kept}
use altair.Signaling.Server.{
  new_state, cleanup, Event, connected, received, disconnected, cleaned, step,
}
use altair.Signaling.Server.Reachable.{
  start, unused-IsConsistent, sweep-Kept, Reachable-IsConsistent,
}
use altair.Signaling.Spec.{
  Assignment, assigns, Blank, IsNewId, AllNewIds, IsSound, Run, opened, after, is_in,
}
use altair.Signaling.Spec.Placed.{IsPlaced, Kept-IsPlaced, cleanup_empty-IsPlaced, is_in-follows}
use altair.Signaling.Spec.Refines.{Follows, read_step-Follows, handle_disconnect-Follows}

free_id-IsNewId :
    (h : Heap) (r : Registry) (id : String) (supply : List String) (found : String)
    → free_id r id supply ≡ some found
    → IsNewId h id
    → AllNewIds h supply
    → IsNewId h found
unfolding free_id
free_id-IsNewId h r id [] found e new all = ground (arith, e, new)
free_id-IsNewId h r id (x ∷ supply) found e new (first, rest) = elim (Option-cases (lookup id r)) [
  | inl k ↦ subst (IsNewId h) (ground (arith, e, k)) new
  | inr (p, k) ↦ free_id-IsNewId h r x supply found (ground (arith, e, k)) first rest
]

-- A peer without an ID gets one that nobody had, or none.
pub register-IsNewId :
    (g : Heap) (r : Registry) (h : Heap) (peer : ℕ) (supply : List String)
    → (h peer).id ≡ ""
    → AllNewIds g supply
    → (register r h peer supply ≡ none)
      ⊎ ((id : String) × IsNewId g id
          × (register r h peer supply
              ≡ some (insert id peer r, update h peer (record (h peer) { id = id }))))
unfolding register
register-IsNewId g r h peer [] e all = inl (ground (arith, e, eq_iff (h peer).id ""))
register-IsNewId g r h peer (x ∷ supply) e (first, rest) =
    elim (Option-cases (free_id r x supply)) [
      | inl k ↦ inl (ground (arith, e, k, eq_iff (h peer).id ""))
      | inr (id, k) ↦ inr (
        id,
        free_id-IsNewId g r x supply id k first rest,
        ground (arith, e, k, eq_iff (h peer).id ""),
      )
    ]

unplaced :
    (rm : Manager) (h : Heap) (f : Assignment) (peer : ℕ)
    → IsPlaced rm h f
    → (h peer).id ≡ ""
    → (room_id id : String) (r : Room) → get rm room_id ≡ some r
    → lookup id r.peers ≢ some peer
unfolding get
unplaced rm h f peer v unused room_id id r e k = ground (
  arith,
  (v.agrees.at_room room_id r e).members id peer k,
  v.nameless peer unused,
  v.agrees.no_empty_name,
  e,
)

-- A new peer in no room.
newcomer-IsPlaced :
    (rm : Manager) (h : Heap) (f : Assignment) (peer : ℕ) (p : Peer)
    → IsPlaced rm h f
    → (h peer).id ≡ ""
    → p.room_id ≡ ""
    → IsNewId h p.id
    → IsPlaced rm (update h peer p) f
newcomer-IsPlaced rm h f peer p v unused nowhere (named, new) = record {
  agrees = unused-IsConsistent rm h peer p (unplaced rm h f peer v unused) v.agrees;
  no_default = v.no_default;
  no_limit = v.no_limit;
  at = λ q ne. elim (Bool-cases (peer == q)) [
    | inl t ↦ ground (arith, t, ne, nowhere)
    | inr t ↦ rw t (v.at q (λ n. ne (ground (arith, t, n))))
  ];
  unique = λ q q'. ground (arith, v.unique q q', new q, new q', ==_iff peer q, ==_iff peer q');
  nameless = λ q. ground (arith, v.nameless q, named);
  follows = λ q. ground (arith, v.follows q, v.nameless peer unused, nowhere);
}

connected-Follows :
    (parse : Payload → JoinPayload) (s : State) (f : Assignment) (peer : ℕ) (conn : Conn)
    (supply : List String) (now : ℕ)
    → (s.heap peer).id ≡ ""
    → AllNewIds s.heap supply
    → Follows s f
    → Follows (step parse s (connected peer conn supply now)) f
unfolding step connect new_peer Kept
connected-Follows parse s f peer conn supply now unused new v =
    let h1 : Heap = update s.heap peer (new_peer "" conn now) in
    elim (register-IsNewId s.heap s.registry h1 peer supply (ground arith) new) [
      | inl e ↦ rw (e, step, connect) v
      | inr (id, fresh, e) ↦
          let p : Peer = record (h1 peer) { id = id } in
          let h2 : Heap = update h1 peer p in
          rw (e, step, connect)
            (Kept-IsPlaced s.rooms h2 _ f (send_to-Kept h2 peer _) (
              Kept-IsPlaced s.rooms (update s.heap peer p) h2 f (λ q. ground arith)
                (newcomer-IsPlaced s.rooms s.heap f peer p v unused (ground arith) fresh)))
    ]

cleaned-Follows :
    (s : State) (f : Assignment) (stale_timeout now : ℕ)
    → Follows s f
    → Follows (cleanup s stale_timeout now).0 f
unfolding cleanup cleanup_stale
cleaned-Follows s f stale_timeout now v =
    cleanup_empty-IsPlaced s.rooms _ f now
      (Kept-IsPlaced s.rooms s.heap _ f (sweep-Kept s.registry s.heap (now - stale_timeout)) v)

opened-Follows :
    (parse : Payload → JoinPayload) (h : Heap) → Blank h → Follows (new_state h) (assigns [])
unfolding new_state new_manager lookup
opened-Follows parse h blank = record {
  agrees = Reachable-IsConsistent parse (new_state h) (start h);
  no_default = refl;
  no_limit = λ room_id r e. ground (arith, e);
  at = λ p ne. ground (arith, blank p, ne);
  unique = λ p q ne e. ground (arith, blank p, ne);
  nameless = λ p e. (blank p).1;
  follows = λ p. (blank p).1;
}

pub Run-Follows :
    (parse : Payload → JoinPayload) (es : List Event) (s : State)
    → Run parse es s
    → Follows s (assigns es)
unfolding step IsSound
Run-Follows parse _ _ (opened h blank) = opened-Follows parse h blank
Run-Follows parse _ _ (after {es} {s} (connected peer conn supply now) w (unused, new)) =
    connected-Follows parse s (assigns es) peer conn supply now unused new
      (Run-Follows parse es s w)
Run-Follows parse _ _ (after {es} {s} (received peer input now) w live) =
    read_step-Follows parse s (assigns es) peer input now live (Run-Follows parse es s w)
Run-Follows parse _ _ (after {es} {s} (disconnected peer now) w live) =
    handle_disconnect-Follows s (assigns es) peer now (Run-Follows parse es s w)
Run-Follows parse _ _ (after {es} {s} (cleaned stale_timeout now) w live) =
    cleaned-Follows s (assigns es) stale_timeout now (Run-Follows parse es s w)

-- The server implements an assignment of rooms to peers in which IDs, maps and times do not occur:
-- a JOIN that names a room puts its sender there, a LEAVE or a disconnection takes it out, and
-- nothing else moves anybody. After any events, from a heap without peers, in which connections
-- get IDs that nobody had and all else comes from peers that have connected, every peer knows the
-- room that the events assign to it, and a room name that is not empty leads to a room that holds
-- exactly the peers that are assigned to it.
pub rooms_refine :
    (parse : Payload → JoinPayload) (es : List Event) (s : State) (room_id : String) (q : ℕ)
    → Run parse es s
    → room_id ≢ ""
    → ((s.heap q).room_id ≡ assigns es q)
      × (is_in s.rooms room_id q ≡ str_eq (assigns es q) room_id)
rooms_refine parse es s room_id q w name =
    let v = Run-Follows parse es s w in
    (v.follows q, is_in-follows s.rooms s.heap (assigns es) room_id q v name)

-- After events that assign the same rooms, the rooms are the same.
pub same_rooms :
    (parse : Payload → JoinPayload) (es es' : List Event) (s s' : State) (room_id : String) (q : ℕ)
    → Run parse es s
    → Run parse es' s'
    → ((p : ℕ) → assigns es' p ≡ assigns es p)
    → room_id ≢ ""
    → ((s'.heap q).room_id ≡ (s.heap q).room_id)
      × (is_in s'.rooms room_id q ≡ is_in s.rooms room_id q)
same_rooms parse es es' s s' room_id q w w' same name =
    let (known, held) = rooms_refine parse es s room_id q w name in
    let (known', held') = rooms_refine parse es' s' room_id q w' name in
    (known' ∙ same q ∙ sym known, held' ∙ ap (λ here. str_eq here room_id) (same q) ∙ sym held)
