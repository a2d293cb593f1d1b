-- ===== src/Punch/Pair.antt =====
-- backend/pkg/punch/puncher.go, `simultaneousPunch` on both sides: two receivers, the datagrams that
-- are under way between them, and the interleavings of their steps. The network may lose a datagram
-- and deliver the others in any order.
pub mod OneSided
pub mod Tests
use altair.Prelude.{ℕ, Bool, true, false, List, [], ◌∷◌, ◌++◌, ◌≡◌, if◌then◌else◌}
use altair.Punch.{ping, pong, is_tagged}

pub data Side : Type 0 where
  left right : Side

unfoldable pub other_side : Side → Side
other_side left = right
other_side right = left

abbrev pub same : Side → Side → Bool
same left left = true
same right right = true
same _ _ = false

pub record Packet : Type 0 where
  pub target : Side
  pub bytes : List ℕ

-- Which receivers have ended with a connection, and what is under way.
pub record Pair : Type 0 where
  pub done : Side → Bool
  pub packets : List Packet

abbrev pub set_done : (Side → Bool) → Side → Bool → Side → Bool
set_done done s value t = if same s t then value else done t

-- A receiver that gets a datagram in time: whether it has ended then, and what it sends back.
unfoldable pub hear : Bool → List ℕ → Bool × List (List ℕ)
hear done bytes =
    if done
    then (true, [])
    else if is_tagged ping bytes
    then (false, pong ∷ [])
    else if is_tagged pong bytes
    then (true, [])
    else (false, [])

unfoldable pub sent_to : Side → List (List ℕ) → List Packet → List Packet
sent_to s [] rest = rest
sent_to s (bytes ∷ more) rest = record { target = s; bytes = bytes } ∷ sent_to s more rest

unfoldable pub deliver : Pair → List Packet → Packet → List Packet → Pair
deliver x before k after =
    let (done, replies) = hear (x.done k.target) k.bytes in
    record {
      done = set_done x.done k.target done;
      packets = sent_to (other_side k.target) replies (before ++ after);
    }

-- A step of the pair: a sender's PING, a loss, or a delivery.
pub data Step (x : Pair) : Pair → Type 0 where
  pings : (s : Side) → Step x (record x { packets = sent_to (other_side s) (ping ∷ []) x.packets })
  loses :
      (before : List Packet) (k : Packet) (after : List Packet)
      → x.packets ≡ before ++ k ∷ after
      → Step x (record x { packets = before ++ after })
  delivers :
      (before : List Packet) (k : Packet) (after : List Packet)
      → x.packets ≡ before ++ k ∷ after
      → Step x (deliver x before k after)

pub data Steps (x : Pair) : Pair → Type 0 where
  stay : Steps x x
  more : {y z : Pair} → Steps x y → Step y z → Steps x z
