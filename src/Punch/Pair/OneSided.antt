-- ===== src/Punch/Pair/OneSided.antt =====
-- backend/pkg/punch/puncher.go, `simultaneousPunch`: one side may be connected and leave the other
-- without an answer.
use mathlib.Core.Path.{subst}
use altair.Prelude.{
  ℕ, ◌≡◌, refl, true, false, ◌&&◌, List, [], ◌∷◌, ◌++◌, arith, All, if◌then◌else◌, map, ◌<◌,
}
use altair.Net.{UdpAddr, datagram, bytes_eq}
use altair.Punch.{Puncher, Round, found, connection, ping, pong, is_tagged, listen_until}
use altair.Punch.Pair.{
  Side, left, right, other_side, same, Packet, Pair, hear, sent_to, deliver, Step, pings, loses,
  delivers, Steps, stay, more,
}

-- The datagram is no PONG for the side.
abbrev pub IsNoPong : Side → Packet → Type 0
IsNoPong s k = same s k.target && is_tagged pong k.bytes ≡ false

-- The other side has its connection, this one has none, and no PONG is under way to it.
pub record IsLopsided (s : Side) (x : Pair) : Type 0 where
  pub ended : x.done (other_side s) ≡ true
  pub waits : x.done s ≡ false
  pub no_pong : All (IsNoPong s) x.packets

without_one :
    (s : Side) (before : List Packet) (k : Packet) (after : List Packet)
    → All (IsNoPong s) (before ++ k ∷ after)
    → IsNoPong s k × All (IsNoPong s) (before ++ after)
without_one s [] k after (v, vs) = (v, vs)
without_one s (b ∷ before) k after (v, vs) =
    let (w, ws) = without_one s before k after vs in (w, (v, ws))

ping_is_no_pong : is_tagged pong ping ≡ false
unfolding is_tagged bytes_eq
ping_is_no_pong = refl

pings-IsLopsided :
    (s t : Side) (x : Pair)
    → IsLopsided s x
    → IsLopsided s (record x { packets = sent_to (other_side t) (ping ∷ []) x.packets })
unfolding sent_to
pings-IsLopsided s t x v = record {
  ended = v.ended;
  waits = v.waits;
  no_pong = (ground (arith, ping_is_no_pong), v.no_pong);
}

-- The side that waits hears no PONG: it goes on, and what it sends back is not for itself.
hear_no_pong : (bytes : List ℕ) → is_tagged pong bytes ≡ false → ((hear false bytes).0 ≡ false)
unfolding hear
hear_no_pong bytes e = ground (arith, e)

sent_to_other :
    (s : Side) (replies : List (List ℕ)) (rest : List Packet)
    → All (IsNoPong s) rest
    → All (IsNoPong s) (sent_to (other_side s) replies rest)
unfolding sent_to other_side
sent_to_other s [] rest v = v
sent_to_other left (b ∷ replies) rest v = (refl, sent_to_other left replies rest v)
sent_to_other right (b ∷ replies) rest v = (refl, sent_to_other right replies rest v)

-- A delivery to the side that waits, and one to the side that has ended.
waiting-IsLopsided :
    (s : Side) (x : Pair) (before : List Packet) (bytes : List ℕ) (after : List Packet)
    → IsLopsided s x
    → is_tagged pong bytes ≡ false
    → All (IsNoPong s) (before ++ after)
    → IsLopsided s (deliver x before (record { target = s; bytes = bytes }) after)
unfolding deliver other_side
waiting-IsLopsided left x before bytes after v e rest = record {
  ended = v.ended;
  waits = rw v.waits (hear_no_pong bytes e);
  no_pong = sent_to_other left (hear (x.done left) bytes).1 (before ++ after) rest;
}
waiting-IsLopsided right x before bytes after v e rest = record {
  ended = v.ended;
  waits = rw v.waits (hear_no_pong bytes e);
  no_pong = sent_to_other right (hear (x.done right) bytes).1 (before ++ after) rest;
}

ended-IsLopsided :
    (s : Side) (x : Pair) (before : List Packet) (bytes : List ℕ) (after : List Packet)
    → IsLopsided s x
    → All (IsNoPong s) (before ++ after)
    → IsLopsided s (deliver x before (record { target = other_side s; bytes = bytes }) after)
unfolding deliver hear sent_to other_side
ended-IsLopsided left x before bytes after v rest = record {
  ended = rw v.ended refl;
  waits = v.waits;
  no_pong = rw v.ended rest;
}
ended-IsLopsided right x before bytes after v rest = record {
  ended = rw v.ended refl;
  waits = v.waits;
  no_pong = rw v.ended rest;
}

delivers_to :
    (s t : Side) (x : Pair) (before : List Packet) (bytes : List ℕ) (after : List Packet)
    → IsLopsided s x
    → IsNoPong s (record { target = t; bytes = bytes })
    → All (IsNoPong s) (before ++ after)
    → IsLopsided s (deliver x before (record { target = t; bytes = bytes }) after)
unfolding other_side
delivers_to left left x before bytes after v e rest =
    waiting-IsLopsided left x before bytes after v e rest
delivers_to left right x before bytes after v e rest =
    ended-IsLopsided left x before bytes after v rest
delivers_to right left x before bytes after v e rest =
    ended-IsLopsided right x before bytes after v rest
delivers_to right right x before bytes after v e rest =
    waiting-IsLopsided right x before bytes after v e rest

delivers-IsLopsided :
    (s : Side) (x : Pair) (before : List Packet) (k : Packet) (after : List Packet)
    → x.packets ≡ before ++ k ∷ after
    → IsLopsided s x
    → IsLopsided s (deliver x before k after)
delivers-IsLopsided s x before k after e v =
    let (plain, rest) = without_one s before k after (subst (All (IsNoPong s)) e v.no_pong) in
    delivers_to s k.target x before k.bytes after v plain rest

Step-IsLopsided : (s : Side) (x y : Pair) → Step x y → IsLopsided s x → IsLopsided s y
Step-IsLopsided s x _ (pings t) v = pings-IsLopsided s t x v
Step-IsLopsided s x _ (loses before k after e) v = record {
  ended = v.ended;
  waits = v.waits;
  no_pong = (without_one s before k after (subst (All (IsNoPong s)) e v.no_pong)).1;
}
Step-IsLopsided s x _ (delivers before k after e) v = delivers-IsLopsided s x before k after e v

Steps-IsLopsided : (s : Side) (x y : Pair) → Steps x y → IsLopsided s x → IsLopsided s y
Steps-IsLopsided s x _ stay v = v
Steps-IsLopsided s x _ (more {y} w t) v = Step-IsLopsided s y _ t (Steps-IsLopsided s x y w v)

-- Of two punchers that send PINGs to each other over a network that may lose datagrams, once one
-- has its connection while the other has none and no PONG is under way to it, the other never gets
-- one, whatever is sent, lost and delivered afterwards: a receiver that has ended answers no PING.
pub one_sided :
    (s : Side) (x y : Pair)
    → x.done (other_side s) ≡ true
    → x.done s ≡ false
    → All (IsNoPong s) x.packets
    → Steps x y
    → (y.done s ≡ false) × (y.done (other_side s) ≡ true)
one_sided s x y ended waits no_pong w =
    let v = Steps-IsLopsided s x y w (record { ended = ended; waits = waits; no_pong = no_pong }) in
    (v.waits, v.ended)

-- A round in time that brings a datagram.
abbrev pub round_of : ℕ → List ℕ → UdpAddr → Round
round_of now bytes addr = record {
  now = now;
  read = datagram bytes addr;
  measured = now;
  stamped = now;
}

-- The receiver of one side hears a datagram as the pair does.
pub listen_until-hear :
    (p : Puncher) (start deadline now : ℕ) (bytes : List ℕ) (addr : UdpAddr) (rounds : List Round)
    → now < deadline
    → listen_until p start deadline (round_of now bytes addr ∷ rounds) ≡ (
        let later = listen_until p start deadline rounds in
        let (done, replies) = hear false bytes in
        if done
        then ([], found (connection p start addr (round_of now bytes addr)))
        else (map (λ reply. addr) replies ++ later.0, later.1))
unfolding listen_until hear
listen_until-hear p start deadline now bytes addr rounds h = ground (arith, h)
