-- ===== src/Punch/Pair/Tests.antt =====
-- The theorem on a pair of punchers at a run of them.
use altair.Prelude.{◌≡◌, refl, true, false, [], ◌∷◌}
use altair.Net.{bytes_eq}
use altair.Punch.{ping, pong, is_tagged}
use altair.Punch.Pair.{
  Side, left, right, other_side, Packet, Pair, hear, sent_to, deliver, pings, delivers, Steps, stay,
  more,
}
use altair.Punch.Pair.OneSided.{one_sided}

abbrev at_start : Pair
at_start = record { done = λ s. false; packets = [] }

abbrev ping_to : Side → Packet
ping_to s = record { target = s; bytes = ping }

abbrev pong_to : Side → Packet
pong_to s = record { target = s; bytes = pong }

-- The left side's PING is answered before the right side has sent one.
abbrev left_connected : Pair
left_connected =
    deliver
      (deliver (record at_start { packets = sent_to right (ping ∷ []) [] }) [] (ping_to right) [])
      [] (pong_to left) []

left_connects : Steps at_start left_connected
unfolding deliver hear sent_to other_side is_tagged bytes_eq
left_connects =
    more (more (more stay (pings left)) (delivers [] (ping_to right) [] refl))
      (delivers [] (pong_to left) [] refl)

-- Then the right side sends a PING, and it is delivered.
abbrev right_calls : Pair
right_calls =
    deliver (record left_connected { packets = sent_to left (ping ∷ []) left_connected.packets }) []
      (ping_to left) []

right_sends : Steps left_connected right_calls
unfolding deliver hear sent_to other_side is_tagged bytes_eq
right_sends = more (more stay (pings right)) (delivers [] (ping_to left) [] refl)

one_sided_example : (right_calls.done right ≡ false) × (right_calls.done (other_side right) ≡ true)
one_sided_example =
    one_sided right left_connected right_calls
      (unfold deliver hear sent_to other_side is_tagged bytes_eq in refl)
      (unfold deliver hear sent_to other_side is_tagged bytes_eq in refl)
      (unfold deliver hear sent_to other_side is_tagged bytes_eq in tt) right_sends
