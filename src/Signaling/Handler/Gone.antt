-- ===== src/Signaling/Handler/Gone.antt =====
-- backend/internal/signaling/handler.go, `handleDisconnect`: nothing is left of the peer.
use text.Mathlib.Text.{◌==◌ as str_eq}
use text.Mathlib.TextEquality.{eq_iff}
use altair.Prelude.{
  ℕ, ◌≡◌, ◌≢◌, ◌⊎◌, inl, inr, refl, sym, ap, ◌∙◌, String, true, [], none, some, arith, Bool-cases,
  Option-cases,
}
use altair.Signaling.Peer.{close}
use altair.Signaling.Dict.{lookup, lookup-delete}
use altair.Signaling.Room.{Room}
use altair.Signaling.Manager.{get, remove_from}
use altair.Signaling.Manager.Consistent.{IsConsistent}
use altair.Signaling.Manager.Joining.{remove_from-peer, remove_from-gone}
use altair.Signaling.Registry.{Registry, unregister}
use altair.Signaling.Handler.{State, left_note, depart, handle_disconnect}
use altair.Signaling.Handler.Kept.{Kept, Kept-refl, broadcast-Kept, close-Kept}
use altair.Signaling.Handler.Invariant.{handle_disconnect-Agrees}

lookup-unregister : (r : Registry) (id : String) → lookup id (unregister r id) ≡ none
unfolding unregister
lookup-unregister r id = ground (arith, lookup-delete id id r, eq_iff id id)

-- `depart` changes the rooms as `remove_from` does, and the peers beyond that by sends.
pub depart-Kept :
    (s : State) (peer : ℕ) (room_id : String) (now : ℕ)
    → let (rm, h) = remove_from s.rooms s.heap room_id (s.heap peer).id in
      let s' = depart s peer room_id now in
      (s'.rooms ≡ rm) × Kept h s'.heap × (s'.registry ≡ s.registry)
unfolding depart remove_from
depart-Kept s peer room_id now =
    let left = remove_from s.rooms s.heap room_id (s.heap peer).id in
    elim (Option-cases (get s.rooms room_id)) [
      | inl e ↦ rw (e, depart, remove_from) (refl, Kept-refl s.heap, refl)
      | inr (r, e) ↦ elim (Option-cases (get left.0 room_id)) [
        | inl f ↦ rw (e, f, depart) (refl, Kept-refl left.1, refl)
        | inr (r', f) ↦
            rw (e, f, depart)
              (refl, broadcast-Kept r' left.1 (left_note (s.heap peer).id room_id now) [], refl)
      ]
    ]

-- The peer's ID, and its room, after a disconnection.
after_disconnect :
    (s : State) (peer now : ℕ)
    → let s' = handle_disconnect s peer now in
      let room_id = (s.heap peer).room_id in
      ((s'.heap peer).id ≡ (s.heap peer).id)
      × (((s'.heap peer).room_id ≡ "")
          ⊎ (((s'.heap peer).room_id ≡ room_id)
              × (s'.rooms ≡ (remove_from s.rooms s.heap room_id (s.heap peer).id).0)))
unfolding handle_disconnect Kept
after_disconnect s peer now =
    let room_id = (s.heap peer).room_id in
    let s1 = depart s peer room_id now in
    let (rooms, kept, reg) = depart-Kept s peer room_id now in
    elim (Bool-cases (str_eq room_id "")) [
      | inl e ↦ ground (arith, e, eq_iff room_id "", close-Kept s.heap peer peer)
      | inr e ↦ ground (
        arith,
        e,
        rooms,
        kept peer,
        close-Kept s1.heap peer peer,
        remove_from-peer s.rooms s.heap room_id (s.heap peer).id peer,
      )
    ]

pub disconnect_closed :
    (s : State) (peer now : ℕ) → ((handle_disconnect s peer now).heap peer).closed ≡ true
unfolding handle_disconnect close
disconnect_closed s peer now = ground arith

disconnect_unregistered :
    (s : State) (peer now : ℕ)
    → lookup (s.heap peer).id (handle_disconnect s peer now).registry ≡ none
unfolding handle_disconnect Kept
disconnect_unregistered s peer now =
    let room_id = (s.heap peer).room_id in
    let s1 = depart s peer room_id now in
    let (rooms, kept, reg) = depart-Kept s peer room_id now in
    elim (Bool-cases (str_eq room_id "")) [
      | inl e ↦ rw (e, handle_disconnect) (lookup-unregister s.registry (s.heap peer).id)
      | inr e ↦
          let same : (s1.heap peer).id ≡ (s.heap peer).id =
            (kept peer).0 ∙ (remove_from-peer s.rooms s.heap room_id (s.heap peer).id peer).0 in
          rw (e, handle_disconnect)
            (ap (λ k. lookup k (unregister s1.registry (s1.heap peer).id)) (sym same)
              ∙ lookup-unregister s1.registry (s1.heap peer).id)
    ]

-- After handleDisconnect from a state in which rooms and peers agree, the peer is closed, the ID
-- it had leads to nobody in the registry, and no room holds the peer under any ID.
pub handle_disconnect_gone :
    (s : State) (peer now : ℕ)
    → IsConsistent s.rooms s.heap
    → let s' = handle_disconnect s peer now in
      ((s'.heap peer).closed ≡ true)
      × (lookup (s.heap peer).id s'.registry ≡ none)
      × ((room_id id : String) (r : Room)
          → get s'.rooms room_id ≡ some r
          → lookup id r.peers ≢ some peer)
unfolding get
handle_disconnect_gone s peer now v = (
  disconnect_closed s peer now,
  disconnect_unregistered s peer now,
  λ room_id id r e f.
      let w = handle_disconnect-Agrees s peer now v in
      let (known, place) = (w.at_room room_id r e).members id peer f in
      let current = (s.heap peer).room_id in
      let (same, left) = after_disconnect s peer now in
      ground (
        arith,
        known,
        place,
        same,
        left,
        e,
        f,
        w.no_empty_name,
        remove_from-gone s.rooms s.heap current (s.heap peer).id r,
      ),
)
