-- ===== src/Signaling/Room/Unordered.antt =====
-- backend/internal/signaling/room.go, `Broadcast`: the order in which Go walks through the map of
-- peers does not show.
use mathlib.Core.Path.{fun_ext}
use mathlib.Core.Quot
use mathlib.Core.Quot.{Quot, Quot-set}
use text.Mathlib.TextEquality.{IsScalar-prop}
use altair.Prelude.{ℕ, ◌≡◌, sym, ap, ◌∙◌, String, true, not, ◌&&◌, List, arith, if◌then◌else◌}
use altair.Signaling.Protocol.{Message}
use altair.Signaling.Peer.{Heap, send}
use altair.Signaling.Dict.{Dict, lookup, Distinct}
use altair.Signaling.Room.{Room, excluded, broadcast}
use altair.Signaling.Room.Broadcast.{holds, Knows, lookup_held, held_lookup, broadcast_lem}

-- A map in one of its orders: every key once, and each the ID of its peer.
abbrev pub Walk : Heap → Type 0
Walk h = (d : Dict ℕ) × Distinct d × Knows h d

-- Two orders of one map.
abbrev pub SameMap : (h : Heap) → Walk h → Walk h → Type 0
SameMap h d e = (id : String) → lookup id d.0 ≡ lookup id e.0

-- The map itself.
abbrev pub PeerMap : Heap → Type 0
PeerMap h = Quot (SameMap h)

held_on :
    (h : Heap) (d e : Walk h) → SameMap h d e → (q : ℕ) → holds q d.0 ≡ true → holds q e.0 ≡ true
held_on h d e same q a =
    held_lookup e.0 (h q).id q (sym (same (h q).id) ∙ lookup_held h d.0 q d.1 d.2 a)

SameMap-holds : (h : Heap) (d e : Walk h) → SameMap h d e → (q : ℕ) → holds q d.0 ≡ holds q e.0
SameMap-holds h d e same q =
    ground (arith, held_on h d e same q, held_on h e d (λ id. sym (same id)) q)

Heap-set : IsSet Heap
Heap-set = hlevel (IsScalar-prop)

-- What a broadcast to the peers of a map does, one order of it for each run.
walked : (room : Room) (h : Heap) → Message → List String → Walk h → Heap
walked room h msg exclude d = broadcast (record room { peers = d.0 }) h msg exclude

walked-SameMap :
    (room : Room) (h : Heap) (msg : Message) (exclude : List String) (d e : Walk h)
    → SameMap h d e
    → walked room h msg exclude d ≡ walked room h msg exclude e
unfolding walked
walked-SameMap room h msg exclude d e same = fun_ext λ q.
    broadcast_lem (record room { peers = d.0 }) h msg exclude q d.1 d.2
    ∙ ap (λ b. if b && not (excluded (h q).id exclude) then (send (h q) msg).0 else h q)
        (SameMap-holds h d e same q)
    ∙ sym (broadcast_lem (record room { peers = e.0 }) h msg exclude q e.1 e.2)

-- So it is a function of the map.
pub broadcast_to : (room : Room) (h : Heap) → Message → List String → PeerMap h → Heap
unfolding walked
broadcast_to room h msg exclude =
    Quot.lift Heap-set (walked room h msg exclude) (walked-SameMap room h msg exclude)

-- For two orders of one map of peers, in which every ID occurs once and is that of its peer,
-- Broadcast over the first is what a function of the map itself, without order, gives for the
-- second: the order in which Go walks through the map does not show in the peers.
pub broadcast-broadcast_to :
    (room : Room) (h : Heap) (msg : Message) (exclude : List String) (order : Dict ℕ)
    (distinct : Distinct room.peers) (knows : Knows h room.peers) (distinct' : Distinct order)
    (knows' : Knows h order)
    → ((id : String) → lookup id order ≡ lookup id room.peers)
    → (broadcast (record room { peers = order }) h msg exclude
        ≡ broadcast_to room h msg exclude (Quot.mk (room.peers, distinct, knows)))
unfolding broadcast_to
broadcast-broadcast_to room h msg exclude order distinct knows distinct' knows' same =
    walked-SameMap room h msg exclude (order, distinct', knows') (room.peers, distinct, knows) same
