-- ===== src/Signaling/Socket/Traceless.antt =====
-- backend/internal/signaling/handler.go: a connection that comes and goes leaves the rooms as they were.
use mathlib.Core.Path.{subst}
use altair.Prelude.{
  ℕ, ◌≡◌, ◌≢◌, refl, sym, ◌∙◌, String, List, [], ◌∷◌, Option, some, none, inl, inr, arith,
  Bool-cases, Option-cases, ◌==◌, ◌⊎◌, true, ==_iff,
}
use altair.Signaling.Protocol.{MessageType, Message, JoinPayload, Payload}
use altair.Signaling.Protocol
use altair.Signaling.Peer.{Conn, Heap, update, new_peer, send_to, send}
use altair.Signaling.Handler.{State, connect, read_step, handle_disconnect}
use altair.Signaling.Handler.Gone.{disconnect_closed}
use altair.Signaling.Handler.Ids.{Same, SameIds, read_step-Same}
use altair.Signaling.Server.{Event, connected, received, disconnected, step}
use altair.Signaling.Socket.{Reads, read_loop, serve_http}
use altair.Signaling.Spec.{Assignment, assign, assigns, obey, AllNewIds, IsSound, Run, after, is_in}
use altair.Signaling.Spec.Runs.{Run-Follows, same_rooms, register-IsNewId}

-- A connection that succeeds gives the peer an ID.
connect_named :
    (s s' : State) (peer : ℕ) (conn : Conn) (supply : List String) (now : ℕ)
    → AllNewIds s.heap supply
    → connect s peer conn supply now ≡ some s'
    → (s'.heap peer).id ≢ ""
unfolding connect new_peer send_to send
connect_named s s' peer conn supply now new e =
    let h1 : Heap = update s.heap peer (new_peer "" conn now) in
    elim (register-IsNewId s.heap s.registry h1 peer supply (ground arith) new) [
      | inl none_free ↦ ground (arith, e, none_free)
      | inr (id, fresh, value) ↦ ground (arith, e, value, fresh.0)
    ]

obey_others :
    (t : MessageType) (f : Assignment) (peer : ℕ) (room_id : String) (q : ℕ)
    → peer ≢ q
    → obey t f peer room_id q ≡ f q
obey_others Protocol.join f peer room_id q ne = ground (arith, ne)
obey_others Protocol.leave f peer room_id q ne = ground (arith, ne)
obey_others _ f peer room_id q ne = refl

received_others :
    (f : Assignment) (peer : ℕ) (input : Option Message) (now q : ℕ)
    → peer ≢ q
    → assign f (received peer input now) q ≡ f q
received_others f peer none now q ne = refl
received_others f peer (some msg) now q ne = obey_others msg.type f peer msg.room_id q ne

-- The events of a connection move nobody but its peer.
abbrev Continued : (Payload → JoinPayload) → ℕ → List Event → State → Type 0
Continued parse peer es s' =
    (es' : List Event) × Run parse es' s'
    × ((s'.heap peer).id ≢ "")
    × ((q : ℕ) → peer ≢ q → assigns es' q ≡ assigns es q)

read_loop-Continued :
    (parse : Payload → JoinPayload) (es : List Event) (s : State) (peer : ℕ) (reads : Reads)
    → Run parse es s
    → (s.heap peer).id ≢ ""
    → Continued parse peer es (read_loop parse s peer reads)
unfolding read_loop step IsSound Same SameIds
read_loop-Continued parse es s peer [] w live = (es, w, live, λ q ne. refl)
read_loop-Continued parse es s peer ((input, now) ∷ rest) w live =
    let e = received peer input now in
    let s1 = (read_step parse s peer input now).0 in
    let same = (read_step-Same parse s peer input now).1 peer in
    let (es', w', live', others) =
      read_loop-Continued parse (e ∷ es) s1 peer rest (after e w live)
        (λ (n : (s1.heap peer).id ≡ ""). live (sym same ∙ n)) in
    (es', w', live', λ q ne. others q ne ∙ received_others (assigns es) peer input now q ne)

connect-Continued :
    (parse : Payload → JoinPayload) (es : List Event) (s s' : State) (peer : ℕ) (conn : Conn)
    (supply : List String) (now : ℕ)
    → Run parse es s
    → (s.heap peer).id ≡ ""
    → AllNewIds s.heap supply
    → connect s peer conn supply now ≡ some s'
    → Continued parse peer es s'
unfolding step IsSound
connect-Continued parse es s s' peer conn supply now w unused new e =
    let event = connected peer conn supply now in
    (
      event ∷ es,
      subst (Run parse (event ∷ es)) (rw (e, step) refl) (after event w (unused, new)),
      connect_named s s' peer conn supply now new e,
      λ q ne. refl,
    )

-- The whole of a connection.
served :
    (parse : Payload → JoinPayload) (es : List Event) (s s' : State) (peer : ℕ) (conn : Conn)
    (supply : List String) (now : ℕ) (reads : Reads) (ended : ℕ)
    → Run parse es s
    → (s.heap peer).id ≡ ""
    → AllNewIds s.heap supply
    → connect s peer conn supply now ≡ some s'
    → (es' : List Event) × Run parse es'
        (handle_disconnect (read_loop parse s' peer reads) peer ended)
      × ((q : ℕ) → assigns es' q ≡ assigns es q)
unfolding step IsSound
served parse es s s' peer conn supply now reads ended w unused new e =
    let (es1, w1, live1, others1) =
      connect-Continued parse es s s' peer conn supply now w unused new e in
    let v = Run-Follows parse es s w in
    let nowhere : assigns es peer ≡ "" = sym (v.follows peer) ∙ v.nameless peer unused in
    let (es2, w2, live2, others2) = read_loop-Continued parse es1 s' peer reads w1 live1 in
    (
      disconnected peer ended ∷ es2,
      after (disconnected peer ended) w2 live2,
      λ q. elim (Bool-cases (peer == q)) [
        | inl t ↦ ground (arith, t, nowhere, ==_iff peer q)
        | inr t ↦ ground (arith, t, others1 q, others2 q)
      ],
    )

-- A client that comes and goes leaves the rooms as they were: after a run of the server from a
-- heap without peers, in which connections get new pointers and IDs that nobody had, if ServeHTTP
-- runs alone on a connection with a new pointer and random IDs that nobody had, whatever messages
-- are read before the first error, then it either finds no free ID, or it returns with the peer
-- closed, every peer knowing the room that it knew before, and every room name that is not empty
-- leading to the same peers as before.
pub serve_http_traceless :
    (parse : Payload → JoinPayload) (es : List Event) (s : State) (peer : ℕ) (conn : Conn)
    (supply : List String) (now : ℕ) (reads : Reads) (ended : ℕ) (room_id : String) (q : ℕ)
    → Run parse es s
    → (s.heap peer).id ≡ ""
    → AllNewIds s.heap supply
    → room_id ≢ ""
    → (serve_http parse s (some (some conn)) peer supply now reads ended ≡ none)
      ⊎ ((s' : State) × (serve_http parse s (some (some conn)) peer supply now reads ended
            ≡ some (s', none))
          × ((s'.heap peer).closed ≡ true)
          × ((s'.heap q).room_id ≡ (s.heap q).room_id)
          × (is_in s'.rooms room_id q ≡ is_in s.rooms room_id q))
unfolding serve_http
serve_http_traceless parse es s peer conn supply now reads ended room_id q w unused new name =
    elim (Option-cases (connect s peer conn supply now)) [
      | inl e ↦ inl (rw (e, serve_http) refl)
      | inr (s1, e) ↦
          let (es', w', moved) =
            served parse es s s1 peer conn supply now reads ended w unused new e in
          let s' = handle_disconnect (read_loop parse s1 peer reads) peer ended in
          let (known, held) = same_rooms parse es es' s s' room_id q w w' moved name in
          inr (
            s',
            rw (e, serve_http) refl,
            disconnect_closed (read_loop parse s1 peer reads) peer ended,
            known,
            held,
          )
    ]
